-- ===== src/Session/Frames/Loop.antt =====
-- The loop of crates/moonlight-core/src/session.rs against what its queue holds and receives.
use tempest_addon_moonlight.Base.{
  ℕ, zero, suc, ◌+◌, ◌*◌, ◌≤◌, ◌≡◌, refl, ap, ◌∙◌, Bool-cases, inl, inr, some, List, [], ◌∷◌, ◌++◌,
  length, length-append, arith, min, All, ok,
}
use tempest_addon_moonlight.Session.Doc.{MoonlightConnectDoc}
use tempest_addon_moonlight.Session.State.{Event, frame, State, Deps, still_running, emit}
use tempest_addon_moonlight.Session.State.Queue.{IsAlone, apply_all-queue}
use tempest_addon_moonlight.Session.Lifecycle.Outside.{apply_all-log}
use tempest_addon_moonlight.Session.Plan.{frame_update}
use tempest_addon_moonlight.Session.Engine.{observe, stop_stream, pump}
use tempest_addon_moonlight.Session.Lifecycle.Run.{receive-cases}
use tempest_addon_moonlight.Session.Frames.{
  frames, pending, incoming, Kept, observe-sink, one_more, here, pending-received,
}
use tempest_addon_moonlight.Stream.{VideoUnit, Owner, is_terminated, drop_sink}

module _ {W Cert Key : Type 0} (d : Deps W Cert Key) (doc : MoonlightConnectDoc)
    (alone : (w : W) → All IsAlone (d.tick w).1) where
  -- What the loop keeps of `n` turns at most three a round.
  abbrev pub Pumped : ℕ → State W → State W → Type 0
  Pumped fuel s t = (n : ℕ) × (n ≤ 3 * fuel) × Kept d doc n s t

  -- The state once the head of the queue was handed over.
  abbrev received : VideoUnit → List VideoUnit → State W → State W
  received u rest s = record s {
    globals = record (s.globals) { queue = rest };
    log = frame (frame_update doc u) ∷ s.log;
  }

  three_turns :
      (n : ℕ) (s t : State W)
      → s.globals.video_sink ≡ some Owner.ours
      → Kept d doc n (observe d (observe d (observe d s))) t
      → Kept d doc (suc (suc (suc n))) s t
  three_turns n s t o k =
      let o1 = observe-sink d doc alone s o in
      let o2 = observe-sink d doc alone (observe d s) o1 in
      one_more d doc alone _ s t o (
        one_more d doc alone _ (observe d s) t o1
          (one_more d doc alone n (observe d (observe d s)) t o2 k))

  stop_stream-Kept : (s : State W) → Kept d doc 0 s (stop_stream d s).0
  unfolding stop_stream emit drop_sink pending frames
  stop_stream-Kept s = here d doc alone s

  received-Kept :
      (n : ℕ) (s t : State W) (u : VideoUnit) (rest : List VideoUnit)
      → s.globals.queue ≡ u ∷ rest
      → Kept d doc n (received u rest s) t
      → Kept d doc n s t
  unfolding incoming
  received-Kept n s t u rest q k =
      k ∙ ap (λ p. p ++ incoming d doc n s) (pending-received d doc alone s _ u rest q refl)

  -- When our sender is installed and no other session touches the stream, then however many rounds the
  -- loop makes and however it ends, the frames that it has handed over, and after them those of the
  -- units still queued, are the frames from before, those of the units that were queued and those of the
  -- units that the C library submitted meanwhile, in at most three turns of the other threads a round:
  -- none is lost, repeated or moved.
  pub pump-frames :
      (fuel : ℕ) (s : State W)
      → s.globals.video_sink ≡ some Owner.ours
      → Pumped fuel s (pump d fuel doc s).0
  unfolding pump stop_stream emit
  pump-frames zero s o = (0, omega arith, here d doc alone s)
  pump-frames (suc f) s o =
      let s1 : State W = observe d s in
      let s2 : State W = observe d s1 in
      let s3 : State W = observe d s2 in
      let o1 = observe-sink d doc alone s o in
      let o3 = observe-sink d doc alone s2 (observe-sink d doc alone s1 o1) in
      elim (Bool-cases s1.stop) [
        | inl e ↦ rw (e, pump) (1, omega arith, one_more d doc alone 0 s s1 o (here d doc alone s1))
        | inr e ↦ elim (Bool-cases (is_terminated s2.globals)) [
          | inl e' ↦
              rw (e, e', pump)
                (
                  2,
                  omega arith,
                  one_more d doc alone 1 s _ o
                      (one_more d doc alone 0 s1 _ o1 (stop_stream-Kept s2)),
                )
          | inr e' ↦ elim (receive-cases s3.globals.queue s3.globals.video_sink) [
            | inl (u, rest, q) ↦
                let s4 : State W = received u rest s3 in
                let (n, le, k) = pump-frames f s4 o3 in
                rw (e, e', q, pump)
                  (
                    suc (suc (suc n)),
                    omega arith,
                    three_turns n s _ o (received-Kept n s3 _ u rest q k),
                  )
            | inr (q, inl x) ↦
                let (n, le, k) = pump-frames f s3 o3 in
                rw (e, e', q, x, pump) (suc (suc (suc n)), omega arith, three_turns n s _ o k)
            | inr (q, inr (inl x)) ↦
                rw (e, e', q, x, pump) (3, omega arith, three_turns 0 s s3 o (here d doc alone s3))
            | inr (q, inr (inr x)) ↦
                rw (e, e', q, x, pump) (3, omega arith, three_turns 0 s s3 o (here d doc alone s3))
          ]
        ]
      ]

  observe-grows :
      (s : State W)
      → s.globals.video_sink ≡ some Owner.ours
      → length s.globals.queue ≤ length (observe d s).globals.queue
  unfolding observe
  observe-grows s o =
      let as' = (d.tick s.world).1 in
      rw
        (
          apply_all-queue as' (record s { world = (d.tick s.world).0 }) (alone s.world) o,
          length-append,
        )
        (omega arith)

  observe-frames : (s : State W) → frames (observe d s).log ≡ frames s.log
  unfolding observe
  observe-frames s = ap frames (apply_all-log (d.tick s.world).1 _)

  -- The frames of a log, against those of a state and what as many rounds as `fuel` hand over.
  abbrev Progress : ℕ → State W → List Event → Type 0
  Progress fuel s es =
      length (frames s.log) + min fuel (length s.globals.queue) ≤ length (frames es)

  observe-Progress :
      (fuel : ℕ) (s : State W) (es : List Event)
      → s.globals.video_sink ≡ some Owner.ours
      → Progress fuel (observe d s) es
      → Progress fuel s es
  observe-Progress fuel s es o h =
      let grows = observe-grows s o in let same = ap length (observe-frames s) in grind arith

  received-Progress :
      (f : ℕ) (s : State W) (es : List Event) (u : VideoUnit) (rest : List VideoUnit)
      → s.globals.queue ≡ u ∷ rest
      → Progress f (received u rest s) es
      → Progress (suc f) s es
  unfolding frames
  received-Progress f s es u rest q h =
      let one = length-append (frames s.log) (frame_update doc u ∷ []) in rw q (grind arith)

  waiting-Progress :
      (f : ℕ) (s : State W) (es : List Event)
      → s.globals.queue ≡ []
      → Progress f s es
      → Progress (suc f) s es
  waiting-Progress f s es q h = rw q (grind arith)

  -- When our sender is installed and no other session touches the stream, a loop that still runs after
  -- a number of rounds has handed over at least that many frames more, or one for each unit that was
  -- queued when it began.
  pub pump-Progress :
      (fuel : ℕ) (s : State W)
      → s.globals.video_sink ≡ some Owner.ours
      → (pump d fuel doc s).1 ≡ ok still_running
      → Progress fuel s (pump d fuel doc s).0.log
  unfolding pump stop_stream emit
  pump-Progress zero s o = λ run. omega arith
  pump-Progress (suc f) s o =
      let s1 : State W = observe d s in
      let s2 : State W = observe d s1 in
      let s3 : State W = observe d s2 in
      let o1 = observe-sink d doc alone s o in
      let o2 = observe-sink d doc alone s1 o1 in
      let o3 = observe-sink d doc alone s2 o2 in
      let back : (es : List Event) → Progress (suc f) s3 es → Progress (suc f) s es = λ es h.
        observe-Progress _ s es o (observe-Progress _ s1 es o1 (observe-Progress _ s2 es o2 h)) in
      elim (Bool-cases s1.stop) [
        | inl e ↦ rw (e, pump) (λ run. cc)
        | inr e ↦ elim (Bool-cases (is_terminated s2.globals)) [
          | inl e' ↦ rw (e, e', pump) (λ run. cc)
          | inr e' ↦ elim (receive-cases s3.globals.queue s3.globals.video_sink) [
            | inl (u, rest, q) ↦
                rw (e, e', q, pump)
                  (λ run. back _ (
                    received-Progress f s3 _ u rest q
                      (pump-Progress f (received u rest s3) o3 run)))
            | inr (q, inl x) ↦
                rw (e, e', q, x, pump)
                  (λ run. back _ (waiting-Progress f s3 _ q (pump-Progress f s3 o3 run)))
            | inr (q, inr (inl x)) ↦ rw (e, e', q, x, pump) (λ run. cc)
            | inr (q, inr (inr x)) ↦ rw (e, e', q, x, pump) (λ run. cc)
          ]
        ]
      ]
