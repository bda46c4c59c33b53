-- ===== src/Session/Lifecycle/Close.antt =====
-- The close of a session in its log.
use tempest_addon_moonlight.Base.{◌≡◌, ap, Bool, true, false, List, [], ◌∷◌, All, Text, arith}
use tempest_addon_moonlight.Session.State.{Event, closed}
use tempest_addon_moonlight.Session.Lifecycle.{
  Phase, over, bad, next_phase, phase_of, from_idle, from_prompting, from_busy, from_failed,
  from_started, from_live, from_stopped,
}

pub is_closed : Event → Bool
is_closed (closed t) = true
is_closed _ = false

is_open : Phase → Bool
is_open over = false
is_open bad = false
is_open _ = true

next_phase-is_open :
    (ph : Phase) (e : Event)
    → is_open (next_phase ph e) ≡ true
    → (is_open ph ≡ true) × (is_closed e ≡ false)
unfolding is_open is_closed next_phase from_idle from_prompting from_busy from_failed from_started
    from_live from_stopped
next_phase-is_open ph e h = ground arith

over-closed :
    (ph : Phase) (e : Event)
    → next_phase ph e ≡ over
    → (is_open ph ≡ true) × (t : Text) × (e ≡ closed t)
unfolding is_open is_closed next_phase from_idle from_prompting from_busy from_failed from_started
    from_live from_stopped
over-closed ph e h = ground arith

abbrev pub NotClosed : Event → Type 0
NotClosed e = is_closed e ≡ false

open-NotClosed : (es : List Event) → is_open (phase_of es) ≡ true → All NotClosed es
unfolding phase_of
open-NotClosed [] h = tt
open-NotClosed (e ∷ es) h =
    let (before, now) = next_phase-is_open (phase_of es) e h in (now, open-NotClosed es before)

-- A log that is over: its newest event is the close, and no other event is one.
pub over-NotClosed :
    (es : List Event)
    → phase_of es ≡ over
    → (t : Text) × (rest : List Event) × (es ≡ closed t ∷ rest) × All NotClosed rest
unfolding phase_of
over-NotClosed [] h = cc
over-NotClosed (e ∷ es) h =
    let (before, t, same) = over-closed (phase_of es) e h in
    (t, es, ap (λ x. x ∷ es) same, open-NotClosed es before)
