-- ===== src/Str/Trim.antt =====
-- `trim` leaves a text alone that has only visible ASCII characters.
use tempest_addon_moonlight.Base.{
  ℕ, zero, suc, ◌≤◌, ◌<◌, ◌≡◌, refl, Bool, true, false, ◌&&◌, ◌||◌, none, List, [], ◌∷◌, map, arith,
  Text, ltb, leb, length, All, All-append,
}
use mathlib.Core.List.{reverse, reverse-cons, reverse-reverse}
use tempest_addon_moonlight.Str.{strip_prefix, strip_any, strip_all, white_space, trim}

abbrev pub IsVisible : ℕ → Type 0
IsVisible c = (33 ≤ c) × (c < 128)

heads_invisible : List Text → Bool
heads_invisible [] = true
heads_invisible ([] ∷ ps) = false
heads_invisible ((h ∷ t) ∷ ps) = (ltb h 33 || leb 128 h) && heads_invisible ps

strip_any-visible :
    (ps : List Text) (c : ℕ) (cs : Text)
    → heads_invisible ps ≡ true
    → IsVisible c
    → strip_any ps (c ∷ cs) ≡ none
unfolding strip_any heads_invisible strip_prefix
strip_any-visible [] c cs h v = refl
strip_any-visible ([] ∷ ps) c cs h v = cc
strip_any-visible ((a ∷ t) ∷ ps) c cs h v = ground (arith, strip_any-visible ps c cs)

strip_any-nil : (ps : List Text) → heads_invisible ps ≡ true → strip_any ps [] ≡ none
unfolding strip_any heads_invisible strip_prefix
strip_any-nil [] h = refl
strip_any-nil ([] ∷ ps) h = cc
strip_any-nil ((a ∷ t) ∷ ps) h = ground (arith, strip_any-nil ps)

strip_all-visible :
    (f : ℕ) (ps : List Text) (s : Text)
    → heads_invisible ps ≡ true
    → All IsVisible s
    → strip_all f ps s ≡ s
unfolding strip_all
strip_all-visible zero ps s h v = refl
strip_all-visible (suc f) ps [] h v = rw (strip_any-nil ps h, strip_all)
strip_all-visible (suc f) ps (c ∷ cs) h v = rw (strip_any-visible ps c cs h v.0, strip_all)

All-reverse : (s : Text) → All IsVisible s → All IsVisible (reverse s)
All-reverse [] v = tt
All-reverse (c ∷ cs) v =
    rw (reverse-cons c cs)
      (All-append IsVisible (reverse cs) (c ∷ []) (All-reverse cs v.1) (v.0, tt))

pub trim-visible : (s : Text) → All IsVisible s → trim s ≡ s
unfolding trim heads_invisible
trim-visible s v = rw (strip_all-visible (length s) white_space s refl v) (
    rw (strip_all-visible (length s) (map reverse white_space) (reverse s) refl (All-reverse s v))
      (reverse-reverse s))
