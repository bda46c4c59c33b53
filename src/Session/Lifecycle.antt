-- ===== src/Session/Lifecycle.antt =====
-- What a session promises its host, as an automaton over the events of its log: prompts are taken
-- down, a launched app is released, and the close comes once and last.
pub mod Outside
pub mod Stages
pub mod Run
pub mod Stop
pub mod Close
use tempest_addon_moonlight.Base.{
  ℕ, ◌≡◌, refl, ◌⊎◌, inl, inr, Bool, true, false, Option, none, some, List, [], ◌∷◌, Text, bytes,
  text_eq, if◌then◌else◌, Result, ok, err, Fail, error, panic,
}
use tempest_addon_moonlight.Str.{starts_with}
use tempest_addon_moonlight.Session.State.{
  Event, identity_learned, service_message, pair_prompt, pair_finished, launched, stream_started,
  ready, frame, stream_stopped, cancelled, closed, State, Ended, ended, still_running,
  host_terminated,
}

-- `busy`: the host has launched the app; `failed`: the stream did not start, `started`: it did;
-- `stopped`: the stream is down and the host not released.
pub data Phase : Type 0 where
  idle prompting busy failed started live stopped over bad : Phase

pub from_idle : Event → Phase
from_idle (identity_learned u c k) = idle
from_idle (service_message t) = idle
from_idle (pair_prompt p u) = prompting
from_idle (launched true) = busy
from_idle (launched false) = idle
from_idle (closed t) = over
from_idle _ = bad

-- Only a panic closes a session while the prompt is up.
pub from_prompting : Event → Phase
from_prompting (pair_finished e) = idle
from_prompting (closed t) = if starts_with (bytes "internal error: ") t then over else bad
from_prompting _ = bad

pub from_busy : Event → Phase
from_busy (stream_started true) = started
from_busy (stream_started false) = failed
from_busy _ = bad

pub from_failed : Event → Phase
from_failed (cancelled b) = idle
from_failed _ = bad

pub from_started : Event → Phase
from_started ready = live
from_started _ = bad

pub from_live : Event → Phase
from_live (service_message t) = live
from_live (frame u) = live
from_live stream_stopped = stopped
from_live _ = bad

-- Only a session that the host itself ended closes without a `/cancel`.
pub from_stopped : Event → Phase
from_stopped (cancelled b) = idle
from_stopped (closed t) = if text_eq t host_terminated then over else bad
from_stopped _ = bad

-- Nothing follows the close.
unfoldable pub next_phase : Phase → Event → Phase
unfolding from_idle from_prompting from_busy from_failed from_started from_live from_stopped
next_phase idle e = from_idle e
next_phase prompting e = from_prompting e
next_phase busy e = from_busy e
next_phase failed e = from_failed e
next_phase started e = from_started e
next_phase live e = from_live e
next_phase stopped e = from_stopped e
next_phase over e = bad
next_phase bad e = bad

-- The phase after a log, whose head is the newest event.
unfoldable pub phase_of : List Event → Phase
unfolding next_phase
phase_of [] = idle
phase_of (e ∷ es) = next_phase (phase_of es) e

-- Where a computation may stop with a failure.
abbrev pub FailsIn : Fail → Phase → Type 0
FailsIn (error t) ph = (ph ≡ idle) ⊎ ((ph ≡ stopped) × (t ≡ host_terminated))
FailsIn (panic t) ph = (ph ≡ idle) ⊎ (ph ≡ prompting)

-- The phase that a computation leaves, with its value.
pub data After {W A : Type 0} (Q : A → Phase → Type 0) (p : State W × Result Fail A) : Type 0 where
  done : (a : A) → p.1 ≡ ok a → Q a (phase_of p.0.log) → After Q p
  failed_with : (f : Fail) → p.1 ≡ err f → FailsIn f (phase_of p.0.log) → After Q p

abbrev pub In : {A : Type 0} → Phase → A → Phase → Type 0
In q a ph = ph ≡ q

-- The end of a loop: a stream that was stopped is released.
abbrev pub Finished : Ended → Phase → Type 0
Finished ended ph = ph ≡ idle
Finished still_running ph = ph ≡ live

-- A thread that ended has closed its session; one that still runs is streaming.
abbrev pub IsAccepted : {W : Type 0} → State W × Ended → Type 0
IsAccepted (s, ended) = phase_of s.log ≡ over
IsAccepted (s, still_running) = phase_of s.log ≡ live
