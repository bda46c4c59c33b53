-- ===== src/Base/Bytes.antt =====
-- Text as the list of its UTF-8 bytes, and integers as fixed numbers of bytes.
use Prim.Native.Nat.{ℕ, zero, suc, ◌+◌, ◌*◌, ◌/◌, ◌%◌, ◌^◌, ◌<◌}
use Prim.Native.Char.{code}
use Prim.Native.String.{String}
use mathlib.Core.Path.{◌≡◌, refl}
use mathlib.Core.Bool.{Bool, true, false, ◌&&◌}
use mathlib.Core.List.{List, [], ◌∷◌}
use native.Mathlib.Omega.{arith}
use mathlib.Core.List.{reverse}
use native.Mathlib.Nat.{pow-suc}
use tempest_addon_moonlight.Base.Tests.{◌==◌, ltb, if◌then◌else◌}
use tempest_addon_moonlight.Base.Lists.{length, All}

abbrev pub Text : Type 0
Text = List ℕ

-- The UTF-8 bytes of a code point, in front of `t`.
utf8 : ℕ → Text → Text
utf8 c t =
    if ltb c 0x80
    then c ∷ t
    else if ltb c 0x800
    then (0xC0 + c / 64) ∷ (0x80 + c % 64) ∷ t
    else if ltb c 0x1_0000
    then (0xE0 + c / 4096) ∷ (0x80 + c / 64 % 64) ∷ (0x80 + c % 64) ∷ t
    else (0xF0 + c / 262144) ∷ (0x80 + c / 4096 % 64) ∷ (0x80 + c / 64 % 64) ∷ (0x80 + c % 64) ∷ t

-- The bytes of a literal.
unfoldable pub bytes : String → Text
unfolding utf8
bytes String.[] = []
bytes (String.◌∷◌ c s) = utf8 (code c) (bytes s)

-- The decimal digits of `n` in front of `t`; `n` rounds of fuel are more than it has digits.
unfoldable pub decimal_loop : ℕ → ℕ → Text → Text
decimal_loop zero n t = (b'0' + n) ∷ t
decimal_loop (suc f) n t =
    let more = decimal_loop f (n / 10) ((b'0' + n % 10) ∷ t) in
    if ltb n 10 then (b'0' + n) ∷ t else more

-- `{n}` in a format string.
unfoldable pub decimal : ℕ → Text
unfolding decimal_loop
decimal n = decimal_loop n n []

abbrev pub IsByte : ℕ → Type 0
IsByte b = b < 256

abbrev pub u16_mod : ℕ
u16_mod = 2 ^ 16

abbrev pub u32_mod : ℕ
u32_mod = 2 ^ 32

-- `==` of byte strings.
unfoldable pub text_eq : Text → Text → Bool
text_eq [] [] = true
text_eq [] (b ∷ t) = false
text_eq (a ∷ s) [] = false
text_eq (a ∷ s) (b ∷ t) = (a == b) && text_eq s t

pub text_eq_refl : (s : Text) → text_eq s s ≡ true
unfolding text_eq
text_eq_refl [] = refl
text_eq_refl (a ∷ s) = ground (arith, text_eq_refl s)

pub text_eq→eq : (s t : Text) → text_eq s t ≡ true → s ≡ t
unfolding text_eq
text_eq→eq [] [] h = refl
text_eq→eq [] (b ∷ t) h = cc
text_eq→eq (a ∷ s) [] h = cc
text_eq→eq (a ∷ s) (b ∷ t) h = ground (arith, text_eq→eq s t)

-- `to_le_bytes` of a word of `w` bytes, and `from_le_bytes`.
unfoldable pub le_bytes : ℕ → ℕ → List ℕ
le_bytes zero v = []
le_bytes (suc w) v = (v % 256) ∷ le_bytes w (v / 256)

unfoldable pub from_le_bytes : List ℕ → ℕ
from_le_bytes [] = 0
from_le_bytes (b ∷ bs) = b + 256 * from_le_bytes bs

-- `to_be_bytes` and `from_be_bytes`.
unfoldable pub be_bytes : ℕ → ℕ → List ℕ
unfolding le_bytes
be_bytes w v = reverse (le_bytes w v)

unfoldable pub from_be_bytes : List ℕ → ℕ
unfolding from_le_bytes
from_be_bytes bs = from_le_bytes (reverse bs)

pub length-le_bytes : (w v : ℕ) → length (le_bytes w v) ≡ w
unfolding le_bytes
length-le_bytes zero v = refl
length-le_bytes (suc w) v = omega (arith, length-le_bytes w (v / 256))

pub from_le_bytes-le_bytes : (w v : ℕ) → v < 256 ^ w → from_le_bytes (le_bytes w v) ≡ v
unfolding le_bytes from_le_bytes
from_le_bytes-le_bytes zero v h = omega arith
from_le_bytes-le_bytes (suc w) v h =
    omega (arith, from_le_bytes-le_bytes w (v / 256) (omega (arith, pow-suc 256 w)))

pub le_bytes-IsByte : (w v : ℕ) → All IsByte (le_bytes w v)
unfolding le_bytes
le_bytes-IsByte zero v = tt
le_bytes-IsByte (suc w) v = (omega arith, le_bytes-IsByte w (v / 256))
