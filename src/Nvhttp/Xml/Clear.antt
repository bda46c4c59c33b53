-- ===== src/Nvhttp/Xml/Clear.antt =====
-- Where a pattern does not begin, and what `find`, `split` and `xml_tag` of
-- crates/moonlight-core/src/nvhttp.rs make of it.
use tempest_addon_moonlight.Base.{
  decimal, All-map, ℕ, zero, suc, ◌+◌, ◌<◌, ◌≡◌, refl, sym, ap, ◌∙◌, Bool, true, false, not, ◌&&◌,
  none, some, [], ◌∷◌, ◌++◌, append_assoc, append-nil, arith, Text, ◌==◌, All, length,
  length-append, drop, take-append_length, drop-append_length,
}
use tempest_addon_moonlight.Str.Number.{decimal-IsDigit}
use tempest_addon_moonlight.Str.{find, starts_with}
use tempest_addon_moonlight.Str.Find.{find_complete}
use tempest_addon_moonlight.Nvhttp.Xml.{open_tag, close_tag, xml_tag, split_loop}
use tempest_addon_moonlight.Nvhttp.Xml.Tags.{xml_tag_iff}

-- The pattern begins nowhere in `pre`, behind which `s` follows.
unfoldable pub clear : Text → Text → Text → Bool
clear pat [] s = true
clear pat (c ∷ pre) s = not (starts_with pat (c ∷ (pre ++ s))) && clear pat pre s

pub clear-append :
    (pat a b s : Text)
    → clear pat a (b ++ s) ≡ true
    → clear pat b s ≡ true
    → clear pat (a ++ b) s ≡ true
unfolding clear
clear-append pat [] b s h k = k
clear-append pat (c ∷ a) b s h k = rw (append_assoc a b s) (ground (arith, clear-append pat a b s))

clear-NotBefore :
    (pat pre s : Text)
    → clear pat pre s ≡ true
    → (j : ℕ) → j < length pre
    → starts_with pat (drop j (pre ++ s)) ≡ false
unfolding clear
clear-NotBefore pat [] s h j lt = absurd (omega arith)
clear-NotBefore pat (c ∷ pre) s h zero lt = ground arith
clear-NotBefore pat (c ∷ pre) s h (suc j) lt =
    clear-NotBefore pat pre s (ground arith) j (omega arith)

-- No element begins in the text.
abbrev pub IsFlat : Text → Type 0
IsFlat t = All (λ c. (c == b'<') ≡ false) t

pub clear-IsFlat : (p t s : Text) → IsFlat t → clear (b'<' ∷ p) t s ≡ true
unfolding clear starts_with
clear-IsFlat p [] s h = refl
clear-IsFlat p (c ∷ t) s (h, hs) = let rest = clear-IsFlat p t s hs in ground arith

pub decimal-IsFlat : (n : ℕ) → IsFlat (decimal n)
decimal-IsFlat n = All-map (λ c h. ground arith) (decimal n) (decimal-IsDigit n)

pub found :
    (tag pre v post : Text)
    → clear (open_tag tag) pre (open_tag tag ++ (v ++ (close_tag tag ++ post))) ≡ true
    → clear (close_tag tag) v (close_tag tag ++ post) ≡ true
    → xml_tag (pre ++ (open_tag tag ++ (v ++ (close_tag tag ++ post)))) tag ≡ some v
found tag pre v post h k =
    (xml_tag_iff _ tag v).1 (
      pre,
      post,
      refl,
      clear-NotBefore (open_tag tag) pre _ h,
      clear-NotBefore (close_tag tag) v _ k,
    )

-- A pattern that is nowhere is not found.
pub find-none : (c : ℕ) (p s : Text) → clear (c ∷ p) s [] ≡ true → find (c ∷ p) s ≡ none
unfolding clear find starts_with
find-none c p [] h = refl
find-none c p (x ∷ s) h =
    let first : starts_with (c ∷ p) (x ∷ (s ++ [])) ≡ false = ground arith in
    let rest = find-none c p s (ground arith) in
    let here : starts_with (c ∷ p) (x ∷ s) ≡ false =
      sym (ap (λ t. starts_with (c ∷ p) (x ∷ t)) (append-nil s)) ∙ first in
    rw (here, rest, find) refl

pub split_last :
    (c : ℕ) (p s : Text) (f : ℕ) → clear (c ∷ p) s [] ≡ true → split_loop (suc f) (c ∷ p) s ≡ s ∷ []
unfolding split_loop
split_last c p s f h = rw (find-none c p s h, split_loop) refl

pub split_first :
    (pat pre s : Text) (f : ℕ)
    → clear pat pre (pat ++ s) ≡ true
    → split_loop (suc f) pat (pre ++ (pat ++ s)) ≡ pre ∷ split_loop f pat s
unfolding split_loop
split_first pat pre s f h =
    rw (find_complete pat pre s (clear-NotBefore pat pre (pat ++ s) h), split_loop)
      (λ i. take-append_length (length pre) pre (pat ++ s) refl i ∷ split_loop f pat (behind i))
  where
    behind : drop (length pre + length pat) (pre ++ (pat ++ s)) ≡ s
    behind =
        ap (drop (length pre + length pat)) (sym (append_assoc pre pat s))
        ∙ drop-append_length (length pre + length pat) (pre ++ pat) s (length-append pre pat)

pub assoc_five :
    (a b c d e z : Text) → (a ++ (b ++ (c ++ (d ++ e)))) ++ z ≡ a ++ (b ++ (c ++ (d ++ (e ++ z))))
assoc_five a b c d e z = simp append_assoc
