-- ===== src/Addon/Output/Wire.antt =====
-- What the host reads of a session: crates/moonlight-addon/src/main.rs over the framing of proto.rs.
use tempest_addon_moonlight.Base.{
  ℕ, suc, ◌≡◌, refl, ap, ◌∙◌, false, Option, none, some, List, [], ◌∷◌, ◌++◌, All, All-split, Text,
  ok, length, Result-cases, inl, inr,
}
use tempest_addon_moonlight.Proto.Messages.{AddonMsg}
use tempest_addon_moonlight.Proto.Framing.{
  Sink, raw, control, frame, frame_bytes, kind_control, kind_frame,
}
use tempest_addon_moonlight.Proto.Framing.RoundTrip.{
  message, reader, raw-message, Fits, raw_all, read_all, read_all-raw_all,
}
use tempest_addon_moonlight.Session.Doc.{MoonlightConnectDoc}
use tempest_addon_moonlight.Session.State.{Event, State, Deps, ended}
use tempest_addon_moonlight.Session.Engine.{session_thread}
use tempest_addon_moonlight.Session.Lifecycle.{phase_of}
use tempest_addon_moonlight.Session.Lifecycle.Run.{session_thread-IsAccepted}
use tempest_addon_moonlight.Session.Lifecycle.Stop.{close_of}
use tempest_addon_moonlight.Session.Lifecycle.Close.{NotClosed, over-NotClosed}
use tempest_addon_moonlight.Addon.Output.{
  Callback, on_closed, addon_msg, send, frame_of, frame_sink, callback, deliver,
}
use tempest_addon_moonlight.Transport.{FrameUpdate, discriminant}

-- The messages of one step of the engine, by PROTOCOL.md.
unfoldable pub frame_message : ℕ → FrameUpdate → ℕ × List ℕ
frame_message session u = (
  kind_frame,
  frame_bytes session u.frame_id (discriminant u.codec) u.key u.width u.height (u.x, u.y, u.w, u.h)
      (u.sx, u.sy) u.payload,
)

-- A batch of one frame writes that frame, whether it succeeds or not.
frame_sink_one :
    (session : ℕ) (u : FrameUpdate) (s : Sink)
    → frame_sink session (u ∷ []) s ≡ (frame_of session u s).0
unfolding frame_sink
frame_sink_one session u s = elim (Result-cases (frame_of session u s).1) [
  | inl (x, e) ↦ rw (e, frame_sink) refl
  | inr (x, e) ↦ rw (e, frame_sink) refl
]

module _ (json : AddonMsg → List ℕ) (session : ℕ) where
  unfoldable pub callback_message : Option Callback → Event → List (ℕ × List ℕ)
  callback_message (some c) e = (kind_control, json (addon_msg session c)) ∷ []
  callback_message none (Event.frame u) = frame_message session u ∷ []
  callback_message none _ = []

  unfoldable pub step_messages : Event → List (ℕ × List ℕ)
  unfolding callback_message frame_message
  step_messages e = callback_message (callback e) e

  -- The messages of a log, the oldest first.
  unfoldable pub messages : List Event → List (ℕ × List ℕ)
  messages [] = []
  messages (e ∷ es) = messages es ++ step_messages e

  -- The engine's steps delivered in their order.
  unfoldable pub deliver_all : List Event → Sink → Sink
  deliver_all [] s = s
  deliver_all (e ∷ es) s = deliver (λ m. ok (json m)) session e (deliver_all es s)

  abbrev pub healthy : List ℕ → Sink
  healthy w = record { written = w; room = none; poisoned = false }

  pub deliver-raw_all :
      (w : List ℕ) (e : Event)
      → All Fits (step_messages e)
      → deliver (λ m. ok (json m)) session e (healthy w) ≡ raw_all (healthy w) (step_messages e)
  unfolding deliver step_messages callback_message callback frame_sink frame_of frame_message frame
      raw_all send control
  deliver-raw_all w (Event.identity_learned u c k) h = refl
  deliver-raw_all w (Event.service_message t) h = refl
  deliver-raw_all w (Event.pair_prompt p u) h = refl
  deliver-raw_all w (Event.pair_finished x) h = refl
  deliver-raw_all w (Event.launched b) h = refl
  deliver-raw_all w (Event.stream_started b) h = refl
  deliver-raw_all w Event.ready h = refl
  deliver-raw_all w (Event.frame u) h = frame_sink_one session u (healthy w)
  deliver-raw_all w Event.stream_stopped h = refl
  deliver-raw_all w (Event.cancelled b) h = refl
  deliver-raw_all w (Event.closed t) h = refl

  pub raw_all-append :
      (s : Sink) (xs ys : List (ℕ × List ℕ)) → raw_all s (xs ++ ys) ≡ raw_all (raw_all s xs) ys
  unfolding raw_all
  raw_all-append s [] ys = refl
  raw_all-append s (x ∷ xs) ys = raw_all-append (raw s x.0 x.1).0 xs ys

  pub raw_all-healthy :
      (w : List ℕ) (ms : List (ℕ × List ℕ))
      → All Fits ms
      → (w' : List ℕ) × (raw_all (healthy w) ms ≡ healthy w')
  unfolding raw_all
  raw_all-healthy w [] h = (w, refl)
  raw_all-healthy w (m ∷ ms) h =
      rw (raw-message w m.0 m.1 h.0, raw_all) (raw_all-healthy (w ++ message m.0 m.1) ms h.1)

  deliver_all-raw_all :
      (es : List Event)
      → All Fits (messages es)
      → deliver_all es (healthy []) ≡ raw_all (healthy []) (messages es)
  unfolding deliver_all messages raw_all
  deliver_all-raw_all [] h = refl
  deliver_all-raw_all (e ∷ es) h =
      let (before, now) = All-split Fits (messages es) (step_messages e) h in
      let (w, stays) = raw_all-healthy [] (messages es) before in
      rw
        (
          deliver_all-raw_all es before,
          stays,
          deliver-raw_all w e now,
          raw_all-append (healthy []) (messages es) (step_messages e),
          stays,
        )
        refl

  -- On a healthy pipe, and when every message is below the limit, the host reads exactly the messages
  -- of the session's steps, in their order, and then the end of the pipe.
  pub read_all-deliver_all :
      (es : List Event)
      → All Fits (messages es)
      → read_all (suc (length (messages es))) (reader (deliver_all es (healthy [])).written none)
        ≡ some (messages es)
  read_all-deliver_all es h = rw (deliver_all-raw_all es h) (read_all-raw_all (messages es) h)

  abbrev pub closing : Text → List (ℕ × List ℕ)
  closing t = (kind_control, json (addon_msg session (on_closed t))) ∷ []

  messages-closed :
      (log : List Event) (t : Text) (rest : List Event)
      → log ≡ Event.closed t ∷ rest
      → messages log ≡ messages rest ++ closing t
  unfolding messages step_messages callback_message callback
  messages-closed log t rest h = rw h refl

module _ {W Cert Key : Type 0} (d : Deps W Cert Key) (json : AddonMsg → List ℕ) (session : ℕ) where
  -- Whatever happens to a session that started with an empty log, once its thread has ended the host
  -- reads, on a healthy pipe and when every message is below the limit, the messages of its steps and
  -- then the one `session_closed`, which no step before it sent.
  session_thread_wire :
      (fuel : ℕ) (doc : MoonlightConnectDoc) (s : State W)
      → s.log ≡ []
      → (session_thread d fuel doc s).1 ≡ ended
      → All Fits (messages json session (session_thread d fuel doc s).0.log)
      → (t : Text) × (rest : List Event) × All NotClosed rest
        × (read_all (suc (length (messages json session (session_thread d fuel doc s).0.log))) (
              reader
                (deliver_all json session
                  (session_thread d fuel doc s).0.log
                  (healthy json session [])).written
                none)
            ≡ some (messages json session rest ++ closing json session t))
  unfolding phase_of
  session_thread_wire fuel doc s empty e fits =
      let over' =
        close_of (session_thread d fuel doc s)
          (session_thread-IsAccepted d fuel doc s (rw empty refl)) e in
      let (t, rest, log, none_before) = over-NotClosed (session_thread d fuel doc s).0.log over' in
      (
        t,
        rest,
        none_before,
        read_all-deliver_all json session (session_thread d fuel doc s).0.log fits
            ∙ ap some (messages-closed json session (session_thread d fuel doc s).0.log t rest log),
      )
