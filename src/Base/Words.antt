-- ===== src/Base/Words.antt =====
-- Signed integers, and the casts between machine words that the source writes with `as`.
use Prim.Native.Nat.{ℕ, zero, suc, ◌-◌, ◌^◌}
use mathlib.Core.List.{◌∷◌}
use tempest_addon_moonlight.Base.Bytes.{Text, decimal}
use tempest_addon_moonlight.Base.Tests.{ltb, if◌then◌else◌}

-- `negsuc n` is -(n + 1).
pub data ℤ : Type 0 where
  pos : ℕ → ℤ
  negsuc : ℕ → ℤ

-- `{n}` in a format string.
unfoldable pub signed : ℤ → Text
signed (pos n) = decimal n
signed (negsuc n) = b'-' ∷ decimal (suc n)

-- Minus a natural number.
unfoldable pub neg : ℕ → ℤ
neg zero = pos 0
neg (suc n) = negsuc n

-- A `u16` as an `i16`, and a `u32` as an `i32`: the same bits.
unfoldable pub as_i16 : ℕ → ℤ
as_i16 v = if ltb v (2 ^ 15) then pos v else negsuc (2 ^ 16 - 1 - v)

unfoldable pub as_i32 : ℕ → ℤ
as_i32 v = if ltb v (2 ^ 31) then pos v else negsuc (2 ^ 32 - 1 - v)
