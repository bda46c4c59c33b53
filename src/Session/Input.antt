-- ===== src/Session/Input.antt =====
-- `MoonlightSession::send_input` of crates/moonlight-core/src/session.rs. The calls into the C
-- library are a list of values, in their order.
pub mod Buttons
pub mod Scroll
use tempest_addon_moonlight.Base.{
  ℕ, zero, suc, ◌+◌, ◌-◌, ◌*◌, ◌/◌, ◌%◌, ◌^◌, min, Bool, true, false, not, Option, none, some, List,
  [], ◌∷◌, ◌++◌, Text, ◌==◌, ltb, if◌then◌else◌, ℤ, pos, negsuc, neg, as_i16,
}
use tempest_addon_moonlight.Transport.{
  F32, finite, inf, nan, RemoteInput, pointer, wheel, key, clipboard_text,
}
use tempest_addon_moonlight.Session.Keys.{vk_from_code}

-- The `LiSend…Event` calls that the engine makes.
pub data LiSend : Type 0 where
  mouse_position : ℤ → ℤ → ℤ → ℤ → LiSend
  mouse_button : ℕ → ℕ → LiSend
  high_res_scroll : ℤ → LiSend
  keyboard : ℕ → ℕ → ℕ → LiSend

-- The fields of `MoonlightSession` that input uses.
pub record InputState : Type 0 where
  pub ref_width : ℕ
  pub ref_height : ℕ
  pub last_buttons : ℕ

abbrev pub button_action_press : ℕ
button_action_press = 7

abbrev pub button_action_release : ℕ
button_action_release = 8

abbrev pub key_action_down : ℕ
key_action_down = 3

abbrev pub key_action_up : ℕ
key_action_up = 4

-- The masks 1, 2, 4 as bit numbers 0, 1, 2: `buttons & mask != 0`.
unfoldable pub has_bit : ℕ → ℕ → Bool
has_bit buttons i = buttons / 2 ^ i % 2 == 1

-- The event of one button, from whether it was and whether it is now down.
unfoldable pub toggle : Bool → Bool → ℕ → List LiSend
toggle true true button = []
toggle true false button = mouse_button button_action_release button ∷ []
toggle false true button = mouse_button button_action_press button ∷ []
toggle false false button = []

-- BUTTON_LEFT, BUTTON_MIDDLE, BUTTON_RIGHT are 1, 2, 3.
unfoldable pub button_changes : ℕ → ℕ → List LiSend
unfolding toggle
button_changes prev buttons =
    toggle (has_bit prev 0) (has_bit buttons 0) 1
    ++ (toggle (has_bit prev 1) (has_bit buttons 1) 2
        ++ toggle (has_bit prev 2) (has_bit buttons 2) 3)

-- `v.clamp(-32767.0, 32767.0) as c_short`: the cast cuts towards zero, and takes a NaN to 0.
unfoldable pub clamp_to_i16 : F32 → ℤ
clamp_to_i16 (finite negative m) =
    let size = min (m / 2 ^ 149) 32767 in if negative then neg size else pos size
clamp_to_i16 (inf negative) = if negative then neg 32767 else pos 32767
clamp_to_i16 nan = pos 0

-- `-dy`
unfoldable pub negate : F32 → F32
negate (finite negative m) = finite (not negative) m
negate (inf negative) = inf (not negative)
negate nan = nan

is_zero : ℤ → Bool
is_zero (pos n) = n == 0
is_zero (negsuc n) = false

unfoldable pub send_input : InputState → RemoteInput → InputState × List LiSend
unfolding button_changes is_zero
send_input s (pointer x y buttons) = (
  record s { last_buttons = buttons },
  mouse_position (as_i16 x) (as_i16 y) (as_i16 s.ref_width) (as_i16 s.ref_height)
      ∷ button_changes s.last_buttons buttons,
)
send_input s (wheel x y dx dy) =
    let amount = clamp_to_i16 (negate dy) in
    (s, if is_zero amount then [] else high_res_scroll amount ∷ [])
send_input s (key down code ch mods) = (
  s,
  elim (vk_from_code code) [
    | none ↦ []
    | some vk ↦ keyboard vk (if down then key_action_down else key_action_up) 0 ∷ []
  ],
)
send_input s (clipboard_text t) = (s, [])
