-- ===== src/Nvhttp/Hex.antt =====
-- `to_hex` and `from_hex` of crates/moonlight-core/src/nvhttp.rs, and the other hex printers.
use tempest_addon_moonlight.Base.{
  ℕ, ◌+◌, ◌-◌, ◌*◌, ◌/◌, ◌%◌, ◌<◌, ◌≡◌, refl, Bool, true, ◌&&◌, ◌||◌, Option, none, some, List, [],
  ◌∷◌, arith, Text, bytes, IsByte, All, length, ◌==◌, ltb, leb, if◌then◌else◌, Result, ok, err,
  ◌>>=◌, Fail, error, panic,
}
use tempest_addon_moonlight.Str.{trim}
use tempest_addon_moonlight.Str.Trim.{IsVisible, trim-visible}

-- `{x:02X}` and `{x:02x}` for a byte.
upper_digit : ℕ → ℕ
upper_digit d = if ltb d 10 then b'0' + d else b'A' + (d - 10)

unfoldable pub lower_digit : ℕ → ℕ
lower_digit d = if ltb d 10 then b'0' + d else b'a' + (d - 10)

unfoldable pub to_hex : List ℕ → Text
unfolding upper_digit
to_hex [] = []
to_hex (b ∷ bs) = upper_digit (b / 16) ∷ upper_digit (b % 16) ∷ to_hex bs

-- `to_hex(..).to_lowercase()`, and the lower-case printing of the unique id.
unfoldable pub to_hex_lower : List ℕ → Text
unfolding lower_digit
to_hex_lower [] = []
to_hex_lower (b ∷ bs) = lower_digit (b / 16) ∷ lower_digit (b % 16) ∷ to_hex_lower bs

-- Two digits of each byte.
pub length-to_hex_lower : (bs : List ℕ) → length (to_hex_lower bs) ≡ 2 * length bs
unfolding to_hex_lower
length-to_hex_lower [] = refl
length-to_hex_lower (b ∷ bs) = omega (arith, length-to_hex_lower bs)

-- `char::to_digit(16)`
unfoldable pub hex_value : ℕ → Option ℕ
hex_value c =
    if leb b'0' c && leb c b'9'
    then some (c - b'0')
    else if leb b'A' c && leb c b'F'
    then some (c - b'A' + 10)
    else if leb b'a' c && leb c b'f'
    then some (c - b'a' + 10)
    else none

hex_digits : ℕ → ℕ → Option ℕ
unfolding hex_value
hex_digits a b = elim (hex_value a) [
  | none ↦ none
  | some h ↦ elim (hex_value b) [ none ↦ none | some l ↦ some (h * 16 + l) ]
]

-- `u8::from_str_radix` of a text of two bytes: a leading `+` is taken.
unfoldable pub hex_pair : ℕ → ℕ → Option ℕ
unfolding hex_digits
hex_pair a b = if a == b'+' then hex_value b else hex_digits a b

-- `is_char_boundary` in front of `rest`: the next byte does not continue a character.
unfoldable pub is_boundary : Text → Bool
is_boundary [] = true
is_boundary (c ∷ cs) = ltb c 0x80 || leb 0xC0 c

-- The chunks `&s[i..i + 2]`; a chunk that ends inside a character panics.
unfoldable pub from_hex_pairs : Text → Result Fail (List ℕ)
from_hex_pairs [] = ok []
from_hex_pairs (a ∷ []) = err (panic (bytes "byte index out of bounds"))
from_hex_pairs (a ∷ (b ∷ rest)) =
    let more = from_hex_pairs rest in
    if is_boundary rest
    then elim (hex_pair a b) [
      | none ↦ err (error (bytes "bad hex: invalid digit found in string"))
      | some v ↦ do vs ← more; ok (v ∷ vs)
    ]
    else err (panic (bytes "byte index is not a char boundary"))

unfoldable pub from_hex : Text → Result Fail (List ℕ)
from_hex s =
    let s' = trim s in
    if length s' % 2 == 0 then from_hex_pairs s' else err (error (bytes "odd-length hex"))

to_hex-IsVisible : (bs : List ℕ) → All IsByte bs → All IsVisible (to_hex bs)
unfolding to_hex
to_hex-IsVisible [] h = tt
to_hex-IsVisible (b ∷ bs) h = (ground arith, (ground arith, to_hex-IsVisible bs h.1))

pub length-to_hex : (bs : List ℕ) → length (to_hex bs) ≡ 2 * length bs
unfolding to_hex
length-to_hex [] = refl
length-to_hex (b ∷ bs) = omega (arith, length-to_hex bs)

hex_value-upper_digit : (d : ℕ) → d < 16 → hex_value (upper_digit d) ≡ some d
unfolding hex_value upper_digit
hex_value-upper_digit d h = ground arith

hex_pair-upper_digit :
    (b : ℕ) → b < 256 → hex_pair (upper_digit (b / 16)) (upper_digit (b % 16)) ≡ some b
unfolding upper_digit hex_pair
hex_pair-upper_digit b h = ground arith

to_hex-is_boundary : (bs : List ℕ) → All IsByte bs → is_boundary (to_hex bs) ≡ true
unfolding to_hex is_boundary
to_hex-is_boundary [] h = refl
to_hex-is_boundary (b ∷ bs) h = ground arith

from_hex_pairs-to_hex : (bs : List ℕ) → All IsByte bs → from_hex_pairs (to_hex bs) ≡ ok bs
unfolding to_hex from_hex_pairs
from_hex_pairs-to_hex [] h = refl
from_hex_pairs-to_hex (b ∷ bs) h =
    ground (arith, hex_pair-upper_digit b, to_hex-is_boundary bs h.1, from_hex_pairs-to_hex bs h.1)

-- What `to_hex` prints of a byte string, `from_hex` reads back.
from_hex-to_hex : (bs : List ℕ) → All IsByte bs → from_hex (to_hex bs) ≡ ok bs
unfolding from_hex
from_hex-to_hex bs h =
    rw (trim-visible (to_hex bs) (to_hex-IsVisible bs h), length-to_hex bs)
      (ground (arith, from_hex_pairs-to_hex bs h))
