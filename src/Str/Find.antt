-- ===== src/Str/Find.antt =====
-- `find` against its meaning: the first place where the pattern stands.
use tempest_addon_moonlight.Base.{
  ℕ, zero, suc, ◌<◌, ◌≡◌, refl, ap, true, false, some, [], ◌∷◌, ◌++◌, arith, Text, length, take,
  drop,
}
use mathlib.Core.Option
use tempest_addon_moonlight.Str.{starts_with, find}

pub starts_with→append : (p s : Text) → starts_with p s ≡ true → s ≡ p ++ drop (length p) s
unfolding starts_with
starts_with→append [] s h = refl
starts_with→append (a ∷ p) [] h = cc
starts_with→append (a ∷ p) (c ∷ s) h = ground (arith, starts_with→append p s)

pub starts_with-append : (p t : Text) → starts_with p (p ++ t) ≡ true
unfolding starts_with
starts_with-append [] t = refl
starts_with-append (a ∷ p) t = ground (arith, starts_with-append p t)

-- Where `find` answers `i`, the pattern stands at `i`.
pub find_sound :
    (pat s : Text) (i : ℕ)
    → find pat s ≡ some i
    → (s ≡ take i s ++ (pat ++ drop (length pat) (drop i s))) × (length (take i s) ≡ i)
unfolding find
find_sound pat [] zero h = ground (arith, starts_with→append pat [])
find_sound pat [] (suc i) h = ground arith
find_sound pat (c ∷ cs) zero h = ground (arith, starts_with→append pat (c ∷ cs))
find_sound pat (c ∷ cs) (suc i) h = ground (arith, find_sound pat cs i)

-- And nowhere before.
pub find_first :
    (pat s : Text) (i j : ℕ) → find pat s ≡ some i → j < i → starts_with pat (drop j s) ≡ false
unfolding find
find_first pat [] i j h lt = ground arith
find_first pat (c ∷ cs) i zero h lt = ground arith
find_first pat (c ∷ cs) zero (suc j) h lt = ground arith
find_first pat (c ∷ cs) (suc i) (suc j) h lt = ground (arith, find_first pat cs i j)

-- The first occurrence is found.
pub find_complete :
    (pat pre post : Text)
    → ((j : ℕ) → j < length pre → starts_with pat (drop j (pre ++ (pat ++ post))) ≡ false)
    → find pat (pre ++ (pat ++ post)) ≡ some (length pre)
unfolding find
find_complete pat [] post none_before = at_start (pat ++ post) (starts_with-append pat post)
  where
    at_start : (s : Text) → starts_with pat s ≡ true → find pat s ≡ some 0
    at_start [] h = ground arith
    at_start (c ∷ cs) h = ground arith
find_complete pat (c ∷ pre) post none_before =
    rw (none_before 0 (omega arith), find)
      (ap (Option.map suc) (find_complete pat pre post (λ j h. none_before (suc j) (omega arith))))
