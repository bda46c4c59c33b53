-- ===== src/Session/Frames.antt =====
-- The frames that the loop of crates/moonlight-core/src/session.rs hands to the sink, against the units
-- that the C library submits meanwhile.
pub mod Loop
pub mod Takeover
use tempest_addon_moonlight.Base.{
  ℕ, zero, suc, ◌+◌, ◌*◌, ◌≤◌, ◌≡◌, refl, sym, ap, ◌∙◌, Bool, true, false, Bool-cases, inl, inr,
  none, some, List, [], ◌∷◌, ◌++◌, append_assoc, append-nil, map, All, length, arith, min, Result,
  ok, err,
}
use mathlib.Core.List.{map-append}
use tempest_addon_moonlight.Session.Doc.{MoonlightConnectDoc}
use tempest_addon_moonlight.Session.State.{
  Async, stop_set, submit, setup, terminate, other_start, other_stop, Event, frame, State, Deps,
  Ended, ended, still_running, apply_async, apply_all, emit,
}
use tempest_addon_moonlight.Session.State.Queue.{dr_submit_ours, arriving, IsAlone, apply_all-queue}
use tempest_addon_moonlight.Session.State.Format.{
  last_format, arriving-append, apply_all-sink, apply_all-format, apply_all-world,
}
use tempest_addon_moonlight.Session.Plan.{frame_update}
use tempest_addon_moonlight.Session.Engine.{observe, stop_stream, pump}
use tempest_addon_moonlight.Session.Lifecycle.Run.{receive-cases}
use tempest_addon_moonlight.Session.Lifecycle.Outside.{apply_all-log}
use tempest_addon_moonlight.Stream.{
  VideoUnit, Owner, Globals, is_terminated, to_unit, dr_submit, dr_setup, cl_connection_terminated,
}
use tempest_addon_moonlight.Transport.{FrameUpdate}

-- The frames of a log, the oldest first.
unfoldable pub frames : List Event → List FrameUpdate
frames [] = []
frames (frame u ∷ es) = frames es ++ (u ∷ [])
frames (_ ∷ es) = frames es

-- The frames that were handed over, and those that the queued units will be.
unfoldable pub pending : {W : Type 0} → MoonlightConnectDoc → State W → List FrameUpdate
unfolding frames
pending doc s = frames s.log ++ map (frame_update doc) s.globals.queue

module _ {W Cert Key : Type 0} (d : Deps W Cert Key) (doc : MoonlightConnectDoc) where
  -- What the other threads do in the next `n` turns.
  unfoldable pub turns : ℕ → W → List Async
  turns zero w = []
  turns (suc n) w = (d.tick w).1 ++ turns n (d.tick w).0

  -- The frames that the first `n` turns after a state bring.
  unfoldable pub incoming : ℕ → State W → List FrameUpdate
  unfolding turns
  incoming n s = map (frame_update doc) (arriving (turns n s.world) s.globals.negotiated_format)

  -- From one state to another in `n` turns nothing is lost, repeated or moved.
  abbrev pub Kept : ℕ → State W → State W → Type 0
  Kept n s t = pending doc t ≡ pending doc s ++ incoming n s

  module _ (alone : (w : W) → All IsAlone (d.tick w).1) where
    pub observe-sink :
        (s : State W)
        → s.globals.video_sink ≡ some Owner.ours
        → (observe d s).globals.video_sink ≡ some Owner.ours
    unfolding observe
    observe-sink s o =
        apply_all-sink (d.tick s.world).1 (record s { world = (d.tick s.world).0 }) (alone s.world)
          o

    pub pending-observe :
        (s : State W)
        → s.globals.video_sink ≡ some Owner.ours
        → pending doc (observe d s)
          ≡ pending doc s
            ++ map (frame_update doc) (arriving (d.tick s.world).1 s.globals.negotiated_format)
    unfolding observe pending
    pending-observe s o =
        let s0 : State W = record s { world = (d.tick s.world).0 } in
        let as' = (d.tick s.world).1 in
        let kept : List FrameUpdate = map (frame_update doc) s.globals.queue in
        let new : List FrameUpdate =
          map (frame_update doc) (arriving as' s.globals.negotiated_format) in
        ap (λ l. frames l ++ map (frame_update doc) (apply_all as' s0).globals.queue)
          (apply_all-log as' s0)
        ∙ ap (λ q. frames s.log ++ map (frame_update doc) q)
            (apply_all-queue as' s0 (alone s.world) o)
        ∙ ap (λ q. frames s.log ++ q)
            (map-append (frame_update doc) s.globals.queue
              (arriving as' s.globals.negotiated_format))
        ∙ sym (append_assoc (frames s.log) kept new)

    pub incoming-observe :
        (n : ℕ) (s : State W)
        → s.globals.video_sink ≡ some Owner.ours
        → incoming n (observe d s)
          ≡ map (frame_update doc) (
              arriving
                (turns n (d.tick s.world).0)
                (last_format (d.tick s.world).1 s.globals.negotiated_format))
    unfolding observe incoming
    incoming-observe n s o =
        let s0 : State W = record s { world = (d.tick s.world).0 } in
        let as' = (d.tick s.world).1 in
        λ i. map (frame_update doc) (
          arriving (turns n (apply_all-world as' s0 i))
            (apply_all-format as' s0 (alone s.world) o i))

    -- One turn of the other threads, then the rest.
    pub one_more :
        (n : ℕ) (s t : State W)
        → s.globals.video_sink ≡ some Owner.ours
        → Kept n (observe d s) t
        → Kept (suc n) s t
    unfolding incoming turns
    one_more n s t o h =
        let as' = (d.tick s.world).1 in
        let format = s.globals.negotiated_format in
        let later = turns n (d.tick s.world).0 in
        h
        ∙ ap (λ p. p ++ incoming n (observe d s)) (pending-observe s o)
        ∙ ap (λ q. (pending doc s ++ map (frame_update doc) (arriving as' format)) ++ q)
            (incoming-observe n s o)
        ∙ append_assoc (pending doc s) (map (frame_update doc) (arriving as' format)) _
        ∙ ap (λ q. pending doc s ++ q)
            (sym (
              map-append (frame_update doc) (arriving as' format)
                (arriving later (last_format as' format))))
        ∙ ap (λ us. pending doc s ++ map (frame_update doc) us)
            (sym (arriving-append as' later format))

    pub here : (s : State W) → Kept 0 s s
    unfolding incoming turns arriving
    here s = sym (append-nil (pending doc s))

    -- The head of the queue becomes the newest frame.
    pub pending-received :
        (s t : State W) (u : VideoUnit) (rest : List VideoUnit)
        → s.globals.queue ≡ u ∷ rest
        → t ≡ record s {
          globals = record (s.globals) { queue = rest };
          log = frame (frame_update doc u) ∷ s.log;
        }
        → pending doc t ≡ pending doc s
    unfolding pending frames
    pending-received s t u rest q e =
        ap (pending doc) e
        ∙ append_assoc (frames s.log) (frame_update doc u ∷ []) (map (frame_update doc) rest)
        ∙ ap (λ us. frames s.log ++ map (frame_update doc) us) (sym q)
