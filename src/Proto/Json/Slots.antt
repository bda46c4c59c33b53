-- ===== src/Proto/Json/Slots.antt =====
-- Objects written from slots: a name and the value it has, if it is not left out.
use tempest_addon_moonlight.Base.{
  ℕ, ◌<◌, ◌≡◌, refl, ap, ◌∙◌, Bool, true, ◌&&◌, not, Option, none, some, List, [], ◌∷◌, Text,
  text_eq, text_eq→eq, Bool-cases, inl, inr, if◌then◌else◌, arith,
}
use tempest_addon_moonlight.Base.Options.{◌>>=◌}
use tempest_addon_moonlight.Proto.Json.{number}
use tempest_addon_moonlight.Proto.Value.{field, end}
use tempest_addon_moonlight.Proto.Value.{
  Json, Fields, Found, missing, found, lookup, uint, below, once,
}
use tempest_addon_moonlight.Transport.{F32}

-- The names of an object in the order it has them, each with its value or none if it is left out.
abbrev pub Slots : Type 0
Slots = List (Text × Option Json)

slot_field : Text → Option Json → Fields → Fields
slot_field k none fs = fs
slot_field k (some v) fs = field k v fs

unfoldable pub object : Slots → Fields
unfolding slot_field
object [] = end
object (s ∷ ss) = slot_field s.0 s.1 (object ss)

unfoldable pub from_option : Option Json → Found
from_option none = missing
from_option (some v) = found v

-- What a reader should find under a name.
unfoldable pub slot : Text → Slots → Found
unfolding from_option
slot k [] = missing
slot k (s ∷ ss) = let rest = slot k ss in if text_eq k s.0 then from_option s.1 else rest

unfoldable pub absent : Text → Slots → Bool
absent k [] = true
absent k (s ∷ ss) = not (text_eq k s.0) && absent k ss

unfoldable pub distinct : Slots → Bool
unfolding absent
distinct [] = true
distinct (s ∷ ss) = absent s.0 ss && distinct ss

lookup-absent : (k : Text) (ss : Slots) → absent k ss ≡ true → lookup k (object ss) ≡ missing
unfolding lookup object slot_field absent
lookup-absent k [] h = refl
lookup-absent k ((k', none) ∷ ss) h = ground (arith, lookup-absent k ss)
lookup-absent k ((k', some v) ∷ ss) h = ground (arith, lookup-absent k ss)

lookup-repeated :
    (k k' : Text) (ss : Slots)
    → text_eq k k' ≡ true
    → absent k' ss ≡ true
    → lookup k (object ss) ≡ missing
lookup-repeated k k' ss same h =
    ap (λ n. lookup n (object ss)) (text_eq→eq k k' same) ∙ lookup-absent k' ss h

lookup-object : (k : Text) (ss : Slots) → distinct ss ≡ true → lookup k (object ss) ≡ slot k ss
unfolding lookup object slot_field distinct slot from_option once
lookup-object k [] h = refl
lookup-object k ((k', none) ∷ ss) h = elim (Bool-cases (text_eq k k')) [
  | inl same ↦ ground (arith, lookup-repeated k k' ss same)
  | inr other ↦ ground (arith, lookup-object k ss)
]
lookup-object k ((k', some v) ∷ ss) h = elim (Bool-cases (text_eq k k')) [
  | inl same ↦ ground (arith, lookup-repeated k k' ss same)
  | inr other ↦ ground (arith, lookup-object k ss)
]

-- One more field of a reader is read.
pub then_read {ℓ κ} :
    {A : Type ℓ} {B : Type κ} {o : Option A} (f : A → Option B) {r : Option B} (a : A)
    → o ≡ some a
    → f a ≡ r
    → (o >>= f) ≡ r
then_read f a h rest = ap (λ o. o >>= f) h ∙ rest

pub bind_assoc {ℓ κ μ} :
    {A : Type ℓ} {B : Type κ} {C : Type μ} (o : Option A) (f : A → Option B) (g : B → Option C)
    → ((o >>= f) >>= g) ≡ (o >>= (λ a. f a >>= g))
bind_assoc none f g = refl
bind_assoc (some a) f g = refl

-- A field is read from the slot of its name.
pub read_slot :
    {A : Type 0} (p : Found → Option A) (k : Text) (ss : Slots) (w : Found) (a : A)
    → distinct ss ≡ true
    → slot k ss ≡ w
    → p w ≡ some a
    → p (lookup k (object ss)) ≡ some a
read_slot p k ss w a apart here h = ap p (lookup-object k ss apart) ∙ ap p here ∙ h

-- A number that is written is read by every reader of large enough integers.
pub uint-number : (as_f32 : ℕ → F32) (top n : ℕ) → n < top → uint top (number as_f32 n) ≡ some n
unfolding uint below
uint-number as_f32 top n h = ground arith
