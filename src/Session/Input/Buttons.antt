-- ===== src/Session/Input/Buttons.antt =====
-- The host's view of the mouse buttons: what the press and release events that the engine sends add
-- up to.
use tempest_addon_moonlight.Base.{
  ℕ, ◌≡◌, refl, ap, ◌∙◌, ◌/◌, ◌%◌, Bool, true, false, Option, none, some, List, [], ◌∷◌, ◌++◌,
  append_assoc, arith, ◌==◌, if◌then◌else◌,
}
use tempest_addon_moonlight.Transport.{RemoteInput, pointer, wheel, key, clipboard_text}
use tempest_addon_moonlight.Session.Input.{
  LiSend, mouse_position, mouse_button, high_res_scroll, keyboard, InputState, has_bit, toggle,
  button_changes, send_input,
}

-- The buttons of the last pointer event among the inputs, or the given ones.
unfoldable pub last_pointer : ℕ → List RemoteInput → ℕ
last_pointer buttons [] = buttons
last_pointer buttons (pointer x y now ∷ is) = last_pointer now is
last_pointer buttons (wheel x y dx dy ∷ is) = last_pointer buttons is
last_pointer buttons (key down code ch mods ∷ is) = last_pointer buttons is
last_pointer buttons (clipboard_text t ∷ is) = last_pointer buttons is

-- What the host holds down: left, middle, right. A press of a button that is down, or a release of
-- one that is up, breaks the protocol.
pub record Held : Type 0 where
  pub left : Bool
  pub middle : Bool
  pub right : Bool

abbrev pub held_of : ℕ → Held
held_of buttons = record {
  left = buttons / 1 % 2 == 1;
  middle = buttons / 2 % 2 == 1;
  right = buttons / 4 % 2 == 1;
}

change : Bool → Bool → Option Bool
change true true = none
change true false = some true
change false true = some false
change false false = none

set_button : ℕ → Bool → Held → Option Held
unfolding change
set_button button down h =
    if button == 1
    then elim (change down h.left) [ none ↦ none | some b ↦ some (record h { left = b }) ]
    else if button == 2
    then elim (change down h.middle) [ none ↦ none | some b ↦ some (record h { middle = b }) ]
    else if button == 3
    then elim (change down h.right) [ none ↦ none | some b ↦ some (record h { right = b }) ]
    else none

unfoldable pub host_event : LiSend → Held → Option Held
unfolding set_button
host_event (mouse_position x y w ht) h = some h
host_event (mouse_button action button) h =
    if action == 7
    then set_button button true h
    else if action == 8
    then set_button button false h
    else none
host_event (high_res_scroll a) h = some h
host_event (keyboard vk action mods) h = some h

unfoldable pub host_events : List LiSend → Held → Option Held
host_events [] h = some h
host_events (e ∷ es) h = elim (host_event e h) [ none ↦ none | some h' ↦ host_events es h' ]

unfoldable pub send_all : InputState → List RemoteInput → InputState × List LiSend
send_all s [] = (s, [])
send_all s (i ∷ is) =
    let (s1, es) = send_input s i in let (s2, more) = send_all s1 is in (s2, es ++ more)

abbrev held : Bool → Bool → Bool → Held
held l m r = record { left = l; middle = m; right = r }

left_toggle :
    (was now m r : Bool) (rest : List LiSend)
    → host_events (toggle was now 1 ++ rest) (held was m r) ≡ host_events rest (held now m r)
unfolding toggle host_events host_event
left_toggle true true m r rest = refl
left_toggle true false m r rest = refl
left_toggle false true m r rest = refl
left_toggle false false m r rest = refl

middle_toggle :
    (was now l r : Bool) (rest : List LiSend)
    → host_events (toggle was now 2 ++ rest) (held l was r) ≡ host_events rest (held l now r)
unfolding toggle host_events host_event
middle_toggle true true l r rest = refl
middle_toggle true false l r rest = refl
middle_toggle false true l r rest = refl
middle_toggle false false l r rest = refl

right_toggle :
    (was now l m : Bool) (rest : List LiSend)
    → host_events (toggle was now 3 ++ rest) (held l m was) ≡ host_events rest (held l m now)
unfolding toggle host_events host_event
right_toggle true true l m rest = refl
right_toggle true false l m rest = refl
right_toggle false true l m rest = refl
right_toggle false false l m rest = refl

host_events-button_changes :
    (prev buttons : ℕ) (rest : List LiSend)
    → host_events (button_changes prev buttons ++ rest) (held_of prev)
      ≡ host_events rest (held_of buttons)
unfolding button_changes has_bit
host_events-button_changes prev buttons rest =
    rw (append_assoc, append_assoc)
      (left_toggle (has_bit prev 0) (has_bit buttons 0) (has_bit prev 1) (has_bit prev 2) _
        ∙ middle_toggle (has_bit prev 1) (has_bit buttons 1) (has_bit buttons 0) (has_bit prev 2) _
        ∙ right_toggle (has_bit prev 2) (has_bit buttons 2) (has_bit buttons 0) (has_bit buttons 1)
            rest)

-- One input leaves the host with the buttons of the last pointer event.
send_input-held :
    (s : InputState) (i : RemoteInput) (rest : List LiSend)
    → host_events ((send_input s i).1 ++ rest) (held_of s.last_buttons)
      ≡ host_events rest (held_of (send_input s i).0.last_buttons)
unfolding send_input host_events host_event
send_input-held s (pointer x y buttons) rest =
    host_events-button_changes s.last_buttons buttons rest
send_input-held s (wheel x y dx dy) rest = ground arith
send_input-held s (key down code ch mods) rest = ground arith
send_input-held s (clipboard_text t) rest = refl

send_input-last_pointer :
    (s : InputState) (i : RemoteInput) (is : List RemoteInput)
    → last_pointer (send_input s i).0.last_buttons is ≡ last_pointer s.last_buttons (i ∷ is)
unfolding send_input last_pointer
send_input-last_pointer s (pointer x y buttons) is = refl
send_input-last_pointer s (wheel x y dx dy) is = refl
send_input-last_pointer s (key down code ch mods) is = refl
send_input-last_pointer s (clipboard_text t) is = refl

-- After any inputs the host holds the buttons of the last pointer event, or those from before when there
-- is none, and on the way no button was pressed that was down or released that was up.
pub send_all-held :
    (s : InputState) (is : List RemoteInput)
    → host_events (send_all s is).1 (held_of s.last_buttons)
      ≡ some (held_of (last_pointer s.last_buttons is))
unfolding send_all
send_all-held s [] = unfold host_events last_pointer in refl
send_all-held s (i ∷ is) =
    send_input-held s i (send_all (send_input s i).0 is).1
    ∙ send_all-held (send_input s i).0 is
    ∙ ap (λ b. some (held_of b)) (send_input-last_pointer s i is)
