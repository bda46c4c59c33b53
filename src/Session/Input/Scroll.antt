-- ===== src/Session/Input/Scroll.antt =====
-- The wheel: which scroll event a browser delta becomes.
use tempest_addon_moonlight.Base.{
  ℕ, zero, suc, ◌/◌, ◌^◌, ◌≡◌, refl, min, Bool, true, false, not, List, [], ◌∷◌, arith,
  if◌then◌else◌, pos, negsuc, neg,
}
use tempest_addon_moonlight.Transport.{F32, finite, inf, nan, wheel}
use tempest_addon_moonlight.Session.Input.{
  LiSend, high_res_scroll, InputState, clamp_to_i16, negate, is_zero, send_input,
}

-- `lines` whole units of a delta that points down (`negative` is its sign bit): up is positive.
abbrev pub scroll_event : Bool → ℕ → List LiSend
scroll_event negative lines = elim lines [
  | zero ↦ []
  | suc n ↦ high_res_scroll (if negative then pos (suc n) else negsuc n) ∷ []
]

-- The whole units of a delta, at most 32767; a NaN has none.
abbrev pub whole_units : F32 → ℕ
whole_units (finite s m) = min (m / 2 ^ 149) 32767
whole_units (inf s) = 32767
whole_units nan = 0

abbrev pub is_negative : F32 → Bool
is_negative (finite s m) = s
is_negative (inf s) = s
is_negative nan = false

signed_event :
    (s : Bool) (n : ℕ)
    → (if is_zero (if not s then neg n else pos n)
        then []
        else high_res_scroll (if not s then neg n else pos n) ∷ [])
      ≡ scroll_event s n
unfolding is_zero neg
signed_event true zero = refl
signed_event true (suc n) = ground arith
signed_event false zero = refl
signed_event false (suc n) = refl

-- A delta scrolls by its whole units, at most 32767, in the opposite sense; one below a unit, a zero
-- and a NaN send nothing.
pub send_input_wheel :
    (s : InputState) (x y : ℕ) (dx dy : F32)
    → send_input s (wheel x y dx dy) ≡ (s, scroll_event (is_negative dy) (whole_units dy))
unfolding send_input clamp_to_i16 negate
send_input_wheel s x y dx (finite n m) = λ i. (s, signed_event n (min (m / 2 ^ 149) 32767) i)
send_input_wheel s x y dx (inf n) = λ i. (s, signed_event n 32767 i)
send_input_wheel s x y dx nan = refl
