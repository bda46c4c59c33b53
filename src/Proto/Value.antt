-- ===== src/Proto/Value.antt =====
-- JSON values as serde reads them for crates/moonlight-addon/src/proto.rs: the fields of an object and the
-- types of their values. The text of JSON is `serde_json`'s.
use tempest_addon_moonlight.Base.{
  ℕ, ◌^◌, Bool, Option, none, some, Text, text_eq, ltb, if◌then◌else◌,
}
use tempest_addon_moonlight.Base.Options.{◌>>=◌}
use tempest_addon_moonlight.Transport.{F32}

-- A number: what it is if it is an integer from 0 to 2^64 - 1, and what it is as an `f32`.
pub record Number : Type 0 where
  pub uint : Option ℕ
  pub as_f32 : F32

mutual
  pub data Json : Type 0 where
    null : Json
    bool : Bool → Json
    num : Number → Json
    str : Text → Json
    arr : Items → Json
    obj : Fields → Json

  pub data Items : Type 0 where
    nil : Items
    cons : Json → Items → Items

  pub data Fields : Type 0 where
    end : Fields
    field : Text → Json → Fields → Fields

-- A name in an object; a name that is read and stands there twice is an error.
pub data Found : Type 0 where
  missing : Found
  found : Json → Found
  twice : Found

unfoldable pub once : Json → Found → Found
once v missing = found v
once v (found w) = twice
once v twice = twice

unfoldable pub lookup : Text → Fields → Found
unfolding once
lookup k end = missing
lookup k (field k' v fs) = let rest = lookup k fs in if text_eq k k' then once v rest else rest

-- A field without `serde(default)`, and one with it.
unfoldable pub required : {A : Type 0} → (Json → Option A) → Found → Option A
required p missing = none
required p (found v) = p v
required p twice = none

unfoldable pub defaulted : {A : Type 0} → A → (Json → Option A) → Found → Option A
defaulted d p missing = some d
defaulted d p (found v) = p v
defaulted d p twice = none

-- The values of the fields: an unsigned integer below a bound, and so on.
unfoldable pub below : ℕ → Option ℕ → Option ℕ
below top none = none
below top (some n) = if ltb n top then some n else none

unfoldable pub uint : ℕ → Json → Option ℕ
unfolding below
uint top (num n) = below top n.uint
uint top _ = none

unfoldable pub f32 : Json → Option F32
f32 (num n) = some n.as_f32
f32 _ = none

unfoldable pub flag : Json → Option Bool
flag (bool b) = some b
flag _ = none

unfoldable pub text : Json → Option Text
text (str t) = some t
text _ = none

unfoldable pub text_or_null : Json → Option (Option Text)
text_or_null null = some none
text_or_null (str t) = some (some t)
text_or_null _ = none

-- A field of the doc, whose default is filled in later.
unfoldable pub present : {A : Type 0} → (Json → Option A) → Json → Option (Option A)
present p v = p v >>= (λ a. some (some a))

abbrev pub u8 : ℕ
u8 = 2 ^ 8

abbrev pub u16 : ℕ
u16 = 2 ^ 16

abbrev pub u32 : ℕ
u32 = 2 ^ 32
