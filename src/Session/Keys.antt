-- ===== src/Session/Keys.antt =====
-- `vk_from_code` of crates/moonlight-core/src/session.rs: from `KeyboardEvent.code` to a Windows
-- virtual-key code.
use tempest_addon_moonlight.Base.{
  ℕ, ◌≤◌, ◌<◌, ◌≡◌, ◌&&◌, Option, none, some, List, [], ◌∷◌, ◌++◌, arith, Text, bytes, text_eq, leb,
  if◌then◌else◌, All,
}
use Prim.Native.String.{String}
use tempest_addon_moonlight.Str.{strip_prefix}

-- One character in the range, behind the prefix.
unfoldable pub single_in : ℕ → ℕ → Option Text → Option ℕ
single_in lo hi none = none
single_in lo hi (some []) = none
single_in lo hi (some (b ∷ [])) = if leb lo b && leb b hi then some b else none
single_in lo hi (some (b ∷ (c ∷ cs))) = none

-- The arms of the `match`, in order.
abbrev pub key_table : List (String × ℕ)
key_table =
    ("Enter", 0x0D)
    ∷ ("NumpadEnter", 0x0D)
    ∷ ("Space", 0x20)
    ∷ ("Backspace", 0x08)
    ∷ ("Tab", 0x09)
    ∷ ("Escape", 0x1B)
    ∷ ("ArrowLeft", 0x25)
    ∷ ("ArrowUp", 0x26)
    ∷ ("ArrowRight", 0x27)
    ∷ ("ArrowDown", 0x28)
    ∷ ("Delete", 0x2E)
    ∷ ("Insert", 0x2D)
    ∷ ("Home", 0x24)
    ∷ ("End", 0x23)
    ∷ ("PageUp", 0x21)
    ∷ ("PageDown", 0x22)
    ∷ ("CapsLock", 0x14)
    ∷ ("ShiftLeft", 0x10)
    ∷ ("ShiftRight", 0x10)
    ∷ ("ControlLeft", 0x11)
    ∷ ("ControlRight", 0x11)
    ∷ ("AltLeft", 0x12)
    ∷ ("AltRight", 0x12)
    ∷ ("MetaLeft", 0x5B)
    ∷ ("MetaRight", 0x5B)
    ∷ ("Minus", 0xBD)
    ∷ ("Equal", 0xBB)
    ∷ ("BracketLeft", 0xDB)
    ∷ ("BracketRight", 0xDD)
    ∷ ("Backslash", 0xDC)
    ∷ ("Semicolon", 0xBA)
    ∷ ("Quote", 0xDE)
    ∷ ("Backquote", 0xC0)
    ∷ ("Comma", 0xBC)
    ∷ ("Period", 0xBE)
    ∷ ("Slash", 0xBF)
    ∷ ("F1", 0x70)
    ∷ ("F2", 0x71)
    ∷ ("F3", 0x72)
    ∷ ("F4", 0x73)
    ∷ ("F5", 0x74)
    ∷ ("F6", 0x75)
    ∷ ("F7", 0x76)
    ∷ ("F8", 0x77)
    ∷ ("F9", 0x78)
    ∷ ("F10", 0x79)
    ∷ ("F11", 0x7A)
    ∷ ("F12", 0x7B)
    ∷ []

unfoldable pub lookup_key : List (String × ℕ) → Text → Option ℕ
lookup_key [] code = none
lookup_key ((k, v) ∷ t) code = if text_eq (bytes k) code then some v else lookup_key t code

unfoldable pub vk_from_code : Text → Option ℕ
unfolding single_in
vk_from_code code = elim (single_in b'A' b'Z' (strip_prefix (bytes "Key") code)) [
  | some b ↦ some b
  | none ↦ elim (single_in b'0' b'9' (strip_prefix (bytes "Digit") code)) [
    | some b ↦ some b
    | none ↦ lookup_key key_table code
  ]
]

single_in_range :
    (lo hi : ℕ) (r : Option Text) (b : ℕ) → single_in lo hi r ≡ some b → (lo ≤ b) × (b ≤ hi)
unfolding single_in
single_in_range lo hi none b h = absurd (ground arith)
single_in_range lo hi (some []) b h = absurd (ground arith)
single_in_range lo hi (some (c ∷ [])) b h = ground arith
single_in_range lo hi (some (c ∷ (d ∷ ds))) b h = absurd (ground arith)

abbrev pub IsVk : ℕ → Type 0
IsVk v = (1 ≤ v) × (v < 256)

lookup_key-IsVk :
    (t : List (String × ℕ)) (code : Text) (v : ℕ)
    → All (λ (e : String × ℕ). IsVk e.1) t
    → lookup_key t code ≡ some v
    → IsVk v
unfolding lookup_key
lookup_key-IsVk [] code v h e = absurd (ground arith)
lookup_key-IsVk ((k, w) ∷ t) code v h e = ground (arith, lookup_key-IsVk t code v h.1)

-- Every key that is mapped gets a code of one byte that is not zero, so the cast to `c_short`
-- keeps it.
vk_from_code-IsVk : (code : Text) (v : ℕ) → vk_from_code code ≡ some v → IsVk v
unfolding vk_from_code
vk_from_code-IsVk code v h = ground (
  arith,
  single_in_range b'A' b'Z' (strip_prefix (bytes "Key") code) v,
  single_in_range b'0' b'9' (strip_prefix (bytes "Digit") code) v,
  lookup_key-IsVk key_table code v (omega arith),
)

vk_from_code_letter :
    (c : ℕ) → b'A' ≤ c → c ≤ b'Z' → vk_from_code (bytes "Key" ++ (c ∷ [])) ≡ some c
unfolding vk_from_code bytes strip_prefix single_in
vk_from_code_letter c lo hi = ground arith

vk_from_code_digit :
    (c : ℕ) → b'0' ≤ c → c ≤ b'9' → vk_from_code (bytes "Digit" ++ (c ∷ [])) ≡ some c
unfolding vk_from_code bytes strip_prefix single_in
vk_from_code_digit c lo hi = ground arith

-- The key of a capital letter sends that letter, and the key of a digit that digit.
vk_from_code_typed :
    (c d : ℕ)
    → b'A' ≤ c
    → c ≤ b'Z'
    → b'0' ≤ d
    → d ≤ b'9'
    → (vk_from_code (bytes "Key" ++ (c ∷ [])) ≡ some c)
      × (vk_from_code (bytes "Digit" ++ (d ∷ [])) ≡ some d)
vk_from_code_typed c d lo hi lo' hi' = (vk_from_code_letter c lo hi, vk_from_code_digit d lo' hi')
