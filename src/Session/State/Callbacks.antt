-- ===== src/Session/State/Callbacks.antt =====
-- The callbacks of crates/moonlight-core/src/stream.rs as the steps that the worker of session.rs sees.
use mathlib.Core.Path.{subst}
use tempest_addon_moonlight.Base.{
  ℕ, Bool, true, sym, ◌++◌, append_assoc, append-nil, ◌≡◌, refl, ap, ◌∙◌, ◌⊎◌, inl, inr, Option,
  none, some, List, [], ◌∷◌, All, Text, ℤ, pos,
}
use tempest_addon_moonlight.Session.State.{
  Async, submit, setup, terminate, State, apply_async, apply_all,
}
use tempest_addon_moonlight.Session.State.Queue.{IsAlone}
use tempest_addon_moonlight.Stream.{
  Globals, Owner, VideoUnit, DecodeUnit, to_unit, dr_submit, dr_setup, cl_connection_terminated,
}
use tempest_addon_moonlight.Stream.Callbacks.{LiCallback, Process, handler, call, call_all}

-- The steps of a list of callbacks: those that set no static are none.
unfoldable pub steps_of : List LiCallback → List Async
steps_of [] = []
steps_of (LiCallback.setup f w h ∷ cs) = setup f ∷ steps_of cs
steps_of (LiCallback.submit_decode_unit du ∷ cs) = submit du ∷ steps_of cs
steps_of (LiCallback.connection_terminated e ∷ cs) = terminate ∷ steps_of cs
steps_of (c ∷ cs) = steps_of cs

-- An answer that lets the C library go on: none is asked for, or `DR_OK`.
abbrev pub IsFine : Option ℤ → Type 0
IsFine a = (a ≡ none) ⊎ (a ≡ some (pos 0))

steps_of-IsAlone : (cs : List LiCallback) → All IsAlone (steps_of cs)
unfolding steps_of
steps_of-IsAlone [] = tt
steps_of-IsAlone (LiCallback.setup f w h ∷ cs) = (tt, steps_of-IsAlone cs)
steps_of-IsAlone (LiCallback.submit_decode_unit du ∷ cs) = (tt, steps_of-IsAlone cs)
steps_of-IsAlone (LiCallback.connection_terminated e ∷ cs) = (tt, steps_of-IsAlone cs)
steps_of-IsAlone (LiCallback.start ∷ cs) = steps_of-IsAlone cs
steps_of-IsAlone (LiCallback.stop ∷ cs) = steps_of-IsAlone cs
steps_of-IsAlone (LiCallback.cleanup ∷ cs) = steps_of-IsAlone cs
steps_of-IsAlone (LiCallback.audio_init ∷ cs) = steps_of-IsAlone cs
steps_of-IsAlone (LiCallback.audio_start ∷ cs) = steps_of-IsAlone cs
steps_of-IsAlone (LiCallback.audio_stop ∷ cs) = steps_of-IsAlone cs
steps_of-IsAlone (LiCallback.audio_cleanup ∷ cs) = steps_of-IsAlone cs
steps_of-IsAlone (LiCallback.decode_and_play_sample ∷ cs) = steps_of-IsAlone cs
steps_of-IsAlone (LiCallback.stage_starting n ∷ cs) = steps_of-IsAlone cs
steps_of-IsAlone (LiCallback.stage_complete n ∷ cs) = steps_of-IsAlone cs
steps_of-IsAlone (LiCallback.stage_failed n e ∷ cs) = steps_of-IsAlone cs
steps_of-IsAlone (LiCallback.connection_started ∷ cs) = steps_of-IsAlone cs

handler-IsFine : (c : LiCallback) (g : Globals) → IsFine (handler c g).1
unfolding handler
handler-IsFine (LiCallback.setup f w h) g = inr refl
handler-IsFine (LiCallback.submit_decode_unit du) g = inr refl
handler-IsFine (LiCallback.connection_terminated e) g = inl refl
handler-IsFine LiCallback.start g = inl refl
handler-IsFine LiCallback.stop g = inl refl
handler-IsFine LiCallback.cleanup g = inl refl
handler-IsFine LiCallback.audio_init g = inr refl
handler-IsFine LiCallback.audio_start g = inl refl
handler-IsFine LiCallback.audio_stop g = inl refl
handler-IsFine LiCallback.audio_cleanup g = inl refl
handler-IsFine LiCallback.decode_and_play_sample g = inl refl
handler-IsFine (LiCallback.stage_starting n) g = inl refl
handler-IsFine (LiCallback.stage_complete n) g = inl refl
handler-IsFine (LiCallback.stage_failed n e) g = inl refl
handler-IsFine LiCallback.connection_started g = inl refl

-- What the calls should leave, each described by the calls alone: the format of the last setup, whether one
-- told the end of the connection, and the units of a session whose sender is installed, each with the format
-- that was set last.
unfoldable pub last_setup : List LiCallback → ℕ → ℕ
last_setup [] format = format
last_setup (LiCallback.setup f w h ∷ cs) format = last_setup cs f
last_setup (c ∷ cs) format = last_setup cs format

unfoldable pub has_end : List LiCallback → Bool → Bool
has_end [] ended = ended
has_end (LiCallback.connection_terminated e ∷ cs) ended = true
has_end (c ∷ cs) ended = has_end cs ended

unfoldable pub units : List LiCallback → ℕ → List VideoUnit
units [] format = []
units (LiCallback.setup f w h ∷ cs) format = units cs f
units (LiCallback.submit_decode_unit (some du) ∷ cs) format = to_unit format du ∷ units cs format
units (c ∷ cs) format = units cs format

unfoldable pub kept_by : Option Owner → List VideoUnit → List VideoUnit
kept_by (some Owner.ours) us = us
kept_by (some Owner.theirs) us = []
kept_by none us = []

pub record IsEffect (cs : List LiCallback) (g g' : Globals) : Type 0 where
  pub video_sink : g'.video_sink ≡ g.video_sink
  pub negotiated_format : g'.negotiated_format ≡ last_setup cs g.negotiated_format
  pub terminated : g'.terminated ≡ has_end cs g.terminated
  pub queue : g'.queue ≡ g.queue ++ kept_by g.video_sink (units cs g.negotiated_format)

no-IsEffect : (g : Globals) → IsEffect [] g g
unfolding last_setup has_end units kept_by
no-IsEffect g = record {
  video_sink = refl;
  negotiated_format = refl;
  terminated = refl;
  queue = nothing g.video_sink;
}
  where
    nothing : (o : Option Owner) → g.queue ≡ g.queue ++ kept_by o []
    nothing (some Owner.ours) = sym (append-nil g.queue)
    nothing (some Owner.theirs) = sym (append-nil g.queue)
    nothing none = sym (append-nil g.queue)

dr_submit-kept_by :
    (du : DecodeUnit) (g : Globals) (o : Option Owner)
    → g.video_sink ≡ o
    → dr_submit (some du) g
      ≡ record g { queue = g.queue ++ kept_by o (to_unit g.negotiated_format du ∷ []) }
unfolding dr_submit kept_by
dr_submit-kept_by du g (some Owner.ours) h = rw h refl
dr_submit-kept_by du g (some Owner.theirs) h =
    rw h (λ i. record g { video_sink = some Owner.theirs; queue = sym (append-nil g.queue) i })
dr_submit-kept_by du g none h =
    rw h (λ i. record g { video_sink = none; queue = sym (append-nil g.queue) i })

kept_by-cons :
    (o : Option Owner) (u : VideoUnit) (us : List VideoUnit)
    → kept_by o (u ∷ []) ++ kept_by o us ≡ kept_by o (u ∷ us)
unfolding kept_by
kept_by-cons (some Owner.ours) u us = refl
kept_by-cons (some Owner.theirs) u us = refl
kept_by-cons none u us = refl

submitted :
    (du : DecodeUnit) (cs : List LiCallback) (g g' : Globals)
    → IsEffect cs
        (record g { queue = g.queue ++ kept_by g.video_sink (to_unit g.negotiated_format du ∷ []) })
        g'
    → IsEffect (LiCallback.submit_decode_unit (some du) ∷ cs) g g'
unfolding last_setup has_end units
submitted du cs g g' x =
    let u = to_unit g.negotiated_format du in
    let us = units cs g.negotiated_format in
    record {
      video_sink = x.video_sink;
      negotiated_format = x.negotiated_format;
      terminated = x.terminated;
      queue =
          x.queue
          ∙ append_assoc g.queue (kept_by g.video_sink (u ∷ [])) (kept_by g.video_sink us)
          ∙ ap (λ q. g.queue ++ q) (kept_by-cons g.video_sink u us);
    }

ended_stays : (cs : List LiCallback) → has_end cs true ≡ true
unfolding has_end
ended_stays [] = refl
ended_stays (LiCallback.start ∷ cs) = ended_stays cs
ended_stays (LiCallback.stop ∷ cs) = ended_stays cs
ended_stays (LiCallback.cleanup ∷ cs) = ended_stays cs
ended_stays (LiCallback.audio_init ∷ cs) = ended_stays cs
ended_stays (LiCallback.audio_start ∷ cs) = ended_stays cs
ended_stays (LiCallback.audio_stop ∷ cs) = ended_stays cs
ended_stays (LiCallback.audio_cleanup ∷ cs) = ended_stays cs
ended_stays (LiCallback.decode_and_play_sample ∷ cs) = ended_stays cs
ended_stays (LiCallback.stage_starting n ∷ cs) = ended_stays cs
ended_stays (LiCallback.stage_complete n ∷ cs) = ended_stays cs
ended_stays (LiCallback.stage_failed n e ∷ cs) = ended_stays cs
ended_stays (LiCallback.connection_started ∷ cs) = ended_stays cs
ended_stays (LiCallback.submit_decode_unit none ∷ cs) = ended_stays cs
ended_stays (LiCallback.setup f w h ∷ cs) = ended_stays cs
ended_stays (LiCallback.submit_decode_unit (some du) ∷ cs) = ended_stays cs
ended_stays (LiCallback.connection_terminated e ∷ cs) = refl

handler-IsEffect :
    (c : LiCallback) (cs : List LiCallback) (g g' : Globals)
    → IsEffect cs (handler c g).0 g'
    → IsEffect (c ∷ cs) g g'
unfolding handler last_setup has_end units dr_setup cl_connection_terminated dr_submit
handler-IsEffect (LiCallback.setup f w h) cs g g' x = record {
  video_sink = x.video_sink;
  negotiated_format = x.negotiated_format;
  terminated = x.terminated;
  queue = x.queue;
}
handler-IsEffect (LiCallback.submit_decode_unit (some du)) cs g g' x =
    submitted du cs g g'
      (subst (λ v. IsEffect cs v g') (dr_submit-kept_by du g g.video_sink refl) x)
handler-IsEffect (LiCallback.connection_terminated e) cs g g' x = record {
  video_sink = x.video_sink;
  negotiated_format = x.negotiated_format;
  terminated = x.terminated ∙ ended_stays cs;
  queue = x.queue;
}
handler-IsEffect LiCallback.start cs g g' x = record {
  video_sink = x.video_sink;
  negotiated_format = x.negotiated_format;
  terminated = x.terminated;
  queue = x.queue;
}
handler-IsEffect LiCallback.stop cs g g' x = record {
  video_sink = x.video_sink;
  negotiated_format = x.negotiated_format;
  terminated = x.terminated;
  queue = x.queue;
}
handler-IsEffect LiCallback.cleanup cs g g' x = record {
  video_sink = x.video_sink;
  negotiated_format = x.negotiated_format;
  terminated = x.terminated;
  queue = x.queue;
}
handler-IsEffect LiCallback.audio_init cs g g' x = record {
  video_sink = x.video_sink;
  negotiated_format = x.negotiated_format;
  terminated = x.terminated;
  queue = x.queue;
}
handler-IsEffect LiCallback.audio_start cs g g' x = record {
  video_sink = x.video_sink;
  negotiated_format = x.negotiated_format;
  terminated = x.terminated;
  queue = x.queue;
}
handler-IsEffect LiCallback.audio_stop cs g g' x = record {
  video_sink = x.video_sink;
  negotiated_format = x.negotiated_format;
  terminated = x.terminated;
  queue = x.queue;
}
handler-IsEffect LiCallback.audio_cleanup cs g g' x = record {
  video_sink = x.video_sink;
  negotiated_format = x.negotiated_format;
  terminated = x.terminated;
  queue = x.queue;
}
handler-IsEffect LiCallback.decode_and_play_sample cs g g' x = record {
  video_sink = x.video_sink;
  negotiated_format = x.negotiated_format;
  terminated = x.terminated;
  queue = x.queue;
}
handler-IsEffect (LiCallback.stage_starting n) cs g g' x = record {
  video_sink = x.video_sink;
  negotiated_format = x.negotiated_format;
  terminated = x.terminated;
  queue = x.queue;
}
handler-IsEffect (LiCallback.stage_complete n) cs g g' x = record {
  video_sink = x.video_sink;
  negotiated_format = x.negotiated_format;
  terminated = x.terminated;
  queue = x.queue;
}
handler-IsEffect (LiCallback.stage_failed n e) cs g g' x = record {
  video_sink = x.video_sink;
  negotiated_format = x.negotiated_format;
  terminated = x.terminated;
  queue = x.queue;
}
handler-IsEffect LiCallback.connection_started cs g g' x = record {
  video_sink = x.video_sink;
  negotiated_format = x.negotiated_format;
  terminated = x.terminated;
  queue = x.queue;
}
handler-IsEffect (LiCallback.submit_decode_unit none) cs g g' x = record {
  video_sink = x.video_sink;
  negotiated_format = x.negotiated_format;
  terminated = x.terminated;
  queue = x.queue;
}

module _ {W : Type 0} where
  -- One callback is its step.
  handler-apply_all :
      (c : LiCallback) (cs : List LiCallback) (s : State W)
      → apply_all (steps_of (c ∷ cs)) s
        ≡ apply_all (steps_of cs) (record s { globals = (handler c s.globals).0 })
  unfolding handler steps_of apply_all apply_async
  handler-apply_all (LiCallback.setup f w h) cs s = refl
  handler-apply_all (LiCallback.submit_decode_unit du) cs s = refl
  handler-apply_all (LiCallback.connection_terminated e) cs s = refl
  handler-apply_all LiCallback.start cs s = refl
  handler-apply_all LiCallback.stop cs s = refl
  handler-apply_all LiCallback.cleanup cs s = refl
  handler-apply_all LiCallback.audio_init cs s = refl
  handler-apply_all LiCallback.audio_start cs s = refl
  handler-apply_all LiCallback.audio_stop cs s = refl
  handler-apply_all LiCallback.audio_cleanup cs s = refl
  handler-apply_all LiCallback.decode_and_play_sample cs s = refl
  handler-apply_all (LiCallback.stage_starting n) cs s = refl
  handler-apply_all (LiCallback.stage_complete n) cs s = refl
  handler-apply_all (LiCallback.stage_failed n e) cs s = refl
  handler-apply_all LiCallback.connection_started cs s = refl

module _ (li_get_stage_name : ℤ → Option Text) (lossy : Text → Text) {W : Type 0} where
  -- Whatever the C library calls, in whatever order: the sender stays as it is, the format is that of the last
  -- setup, the connection has ended if it had or if a call said so, and the units are queued in their order,
  -- each with the format that was set last, if the sender is the session's own. The worker's steps make the
  -- same of the statics, and leave the rest of its state alone; and every answer lets the C library go on.
  pub call_all-apply_all :
      (cs : List LiCallback) (p : Process) (s : State W)
      → s.globals ≡ p.globals
      → (apply_all (steps_of cs) s
          ≡ record s { globals = (call_all li_get_stage_name lossy cs p).0.globals })
        × All IsAlone (steps_of cs)
        × IsEffect cs p.globals (call_all li_get_stage_name lossy cs p).0.globals
        × All IsFine (call_all li_get_stage_name lossy cs p).1
  unfolding call_all call steps_of apply_all
  call_all-apply_all [] p s h = (λ i. record s { globals = h i }, tt, no-IsEffect p.globals, tt)
  call_all-apply_all (c ∷ cs) p s h =
      let p1 = (call li_get_stage_name lossy c p).0 in
      let s1 : State W = record s { globals = (handler c s.globals).0 } in
      let (same, alone, effect, fine) = call_all-apply_all cs p1 s1 (ap (λ g. (handler c g).0) h) in
      (
        handler-apply_all c cs s ∙ same,
        steps_of-IsAlone (c ∷ cs),
        handler-IsEffect c cs p.globals _ effect,
        (handler-IsFine c p.globals, fine),
      )
