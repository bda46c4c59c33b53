-- ===== src/Str.antt =====
-- The operations of Rust's `str` that the source uses, over the bytes of a text.
pub mod Find
pub mod Trim
pub mod Number
use tempest_addon_moonlight.Base.{
  ℕ, zero, suc, ◌≤◌, ◌<◌, ◌+◌, ◌-◌, Bool, true, false, ◌&&◌, ◌||◌, Option, none, some, List, [],
  ◌∷◌, ◌++◌, map, Text, ◌==◌, ltb, leb, if◌then◌else◌, length, take, drop,
}
use mathlib.Core.List.{reverse}
use mathlib.Core.Option

-- `strip_prefix`
unfoldable pub strip_prefix : Text → Text → Option Text
strip_prefix [] s = some s
strip_prefix (p ∷ ps) [] = none
strip_prefix (p ∷ ps) (c ∷ cs) = if p == c then strip_prefix ps cs else none

unfoldable pub starts_with : Text → Text → Bool
starts_with [] s = true
starts_with (p ∷ ps) [] = false
starts_with (p ∷ ps) (c ∷ cs) = (p == c) && starts_with ps cs

-- `find`: the index of the first occurrence.
unfoldable pub find : Text → Text → Option ℕ
unfolding starts_with
find pat [] = if starts_with pat [] then some 0 else none
find pat (c ∷ cs) = if starts_with pat (c ∷ cs) then some 0 else Option.map suc (find pat cs)

-- `contains`
unfoldable pub contains : Text → Text → Bool
unfolding find
contains s pat = elim (find pat s) [ none ↦ false | some i ↦ true ]

-- The UTF-8 forms of the characters with the property White_Space.
abbrev white_space : List Text
white_space =
    (9 ∷ [])
    ∷ (10 ∷ [])
    ∷ (11 ∷ [])
    ∷ (12 ∷ [])
    ∷ (13 ∷ [])
    ∷ (32 ∷ [])
    ∷ (0xC2 ∷ 0x85 ∷ [])
    ∷ (0xC2 ∷ 0xA0 ∷ [])
    ∷ (0xE1 ∷ 0x9A ∷ 0x80 ∷ [])
    ∷ (0xE2 ∷ 0x80 ∷ 0xA8 ∷ [])
    ∷ (0xE2 ∷ 0x80 ∷ 0xA9 ∷ [])
    ∷ (0xE2 ∷ 0x80 ∷ 0xAF ∷ [])
    ∷ (0xE2 ∷ 0x81 ∷ 0x9F ∷ [])
    ∷ (0xE3 ∷ 0x80 ∷ 0x80 ∷ [])
    ∷ map (λ n. 0xE2 ∷ 0x80 ∷ (0x80 + n) ∷ []) (0 ∷ 1 ∷ 2 ∷ 3 ∷ 4 ∷ 5 ∷ 6 ∷ 7 ∷ 8 ∷ 9 ∷ 10 ∷ [])

strip_any : List Text → Text → Option Text
unfolding strip_prefix
strip_any [] s = none
strip_any (p ∷ ps) s = elim (strip_prefix p s) [ none ↦ strip_any ps s | some t ↦ some t ]

-- Each round takes a byte at least, so `length s` rounds are enough.
strip_all : ℕ → List Text → Text → Text
unfolding strip_any
strip_all zero ps s = s
strip_all (suc f) ps s = elim (strip_any ps s) [ none ↦ s | some t ↦ strip_all f ps t ]

unfoldable pub trim_start : Text → Text
unfolding strip_all
trim_start s = strip_all (length s) white_space s

unfoldable pub trim_end : Text → Text
unfolding strip_all
trim_end s = reverse (strip_all (length s) (map reverse white_space) (reverse s))

-- `trim`
unfoldable pub trim : Text → Text
unfolding trim_start trim_end
trim s = trim_end (trim_start s)
