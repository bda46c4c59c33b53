-- ===== src/Addon/Output.antt =====
-- What a session sends to the host: `send`, `Callbacks` and `frame_sink` of
-- crates/moonlight-addon/src/main.rs. `serde_json::to_vec` is a parameter.
pub mod Wire
pub mod Heard
pub mod Mixed
use tempest_addon_moonlight.Base.{
  ℕ, Bool, Option, none, some, List, [], ◌∷◌, Text, bytes, text_eq, if◌then◌else◌, Result, ok, err,
}
use tempest_addon_moonlight.Proto.Messages.{EventMsg, AddonMsg}
use tempest_addon_moonlight.Proto.Framing.{Sink, IoError, control, frame}
use tempest_addon_moonlight.Session.State.{Event}
use tempest_addon_moonlight.Transport.{FrameUpdate, discriminant}

-- The calls of the trait `MoonlightCallbacks`.
pub data Callback : Type 0 where
  on_service_message : Text → Callback
  on_ready : Callback
  on_closed : Text → Callback
  on_pair_prompt : Text → Text → Callback
  on_pair_finished : Option Text → Callback
  on_identity_learned : Text → Text → Text → Callback

-- `(reason != "session ended").then_some(reason)`
unfoldable pub close_error : Text → Option Text
close_error reason = if text_eq reason (bytes "session ended") then none else some reason

unfoldable pub addon_msg : ℕ → Callback → AddonMsg
unfolding close_error
addon_msg session (on_service_message line) = AddonMsg.event session (EventMsg.service_message line)
addon_msg session on_ready = AddonMsg.session_ready session 0 0
addon_msg session (on_closed reason) = AddonMsg.session_closed session (close_error reason)
addon_msg session (on_pair_prompt pin url) = AddonMsg.event session (EventMsg.pair_prompt pin url)
addon_msg session (on_pair_finished e) = AddonMsg.event session (EventMsg.pair_finished e)
addon_msg session (on_identity_learned u c k) = AddonMsg.event session (EventMsg.identity u c k)

-- `send`: an error is only logged.
unfoldable pub send : (AddonMsg → Result Text (List ℕ)) → Sink → AddonMsg → Sink
send to_vec s msg = (control to_vec s msg).0

unfoldable pub frame_of : ℕ → FrameUpdate → Sink → Sink × Result IoError (Unit {0})
frame_of session u s =
    frame s session u.frame_id (discriminant u.codec) u.key u.width u.height (u.x, u.y, u.w, u.h)
      (u.sx, u.sy) u.payload

-- The closure of `frame_sink`: the first frame that fails ends the batch.
unfoldable pub frame_sink : ℕ → List FrameUpdate → Sink → Sink
frame_sink session [] s = s
frame_sink session (u ∷ us) s =
    let (s', r) = frame_of session u s in elim r [ ok done ↦ frame_sink session us s' | err e ↦ s' ]

-- What a step of the engine calls: a callback, the frame sink with a batch of one, or neither.
unfoldable pub callback : Event → Option Callback
callback (Event.identity_learned u c k) = some (on_identity_learned u c k)
callback (Event.service_message t) = some (on_service_message t)
callback (Event.pair_prompt p u) = some (on_pair_prompt p u)
callback (Event.pair_finished e) = some (on_pair_finished e)
callback (Event.launched b) = none
callback (Event.stream_started b) = none
callback Event.ready = some on_ready
callback (Event.frame u) = none
callback Event.stream_stopped = none
callback (Event.cancelled b) = none
callback (Event.closed t) = some (on_closed t)

batch : Event → List FrameUpdate
batch (Event.frame u) = u ∷ []
batch _ = []

unfoldable pub deliver : (AddonMsg → Result Text (List ℕ)) → ℕ → Event → Sink → Sink
unfolding batch
deliver to_vec session e s = elim (callback e) [
  | some c ↦ send to_vec s (addon_msg session c)
  | none ↦ frame_sink session (batch e) s
]
