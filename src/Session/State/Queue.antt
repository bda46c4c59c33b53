-- ===== src/Session/State/Queue.antt =====
-- The video units on their way from the C library's callbacks (crates/moonlight-core/src/stream.rs)
-- to the loop of session.rs.
use tempest_addon_moonlight.Base.{
  ℕ, ◌≡◌, refl, sym, ap, ◌∙◌, none, some, List, [], ◌∷◌, ◌++◌, append_assoc, append-nil, All,
}
use tempest_addon_moonlight.Session.State.{
  Async, stop_set, submit, setup, terminate, other_start, other_stop, State, apply_async, apply_all,
}
use tempest_addon_moonlight.Stream.{
  Globals, Owner, VideoUnit, DecodeUnit, to_unit, dr_submit, dr_setup, cl_connection_terminated,
}

-- The units of a run of steps, each with the format that was set last; a null pointer is none.
unfoldable pub arriving : List Async → ℕ → List VideoUnit
arriving [] format = []
arriving (stop_set ∷ as') format = arriving as' format
arriving (submit none ∷ as') format = arriving as' format
arriving (submit (some du) ∷ as') format = to_unit format du ∷ arriving as' format
arriving (setup f ∷ as') format = arriving as' f
arriving (terminate ∷ as') format = arriving as' format
arriving (other_start ∷ as') format = arriving as' format
arriving (other_stop ∷ as') format = arriving as' format

-- No other session of the process touches the stream.
abbrev pub IsAlone : Async → Type 0
IsAlone other_start = ⊥
IsAlone other_stop = ⊥
IsAlone _ = Unit

pub dr_submit_ours :
    (du : DecodeUnit) (g : Globals)
    → g.video_sink ≡ some Owner.ours
    → dr_submit (some du) g ≡ record g { queue = g.queue ++ (to_unit g.negotiated_format du ∷ []) }
unfolding dr_submit
dr_submit_ours du g h = rw h refl

module _ {W : Type 0} where
  -- While our sender is installed and no other session touches the stream, the units that the C library
  -- submits are queued once each and in their order, with the codec of the format that was set last;
  -- a stop or a termination drops none of them.
  pub apply_all-queue :
      (as' : List Async) (s : State W)
      → All IsAlone as'
      → s.globals.video_sink ≡ some Owner.ours
      → (apply_all as' s).globals.queue
        ≡ s.globals.queue ++ arriving as' s.globals.negotiated_format
  unfolding apply_all apply_async arriving dr_submit dr_setup cl_connection_terminated
  apply_all-queue [] s h o = sym (append-nil s.globals.queue)
  apply_all-queue (stop_set ∷ as') s h o = apply_all-queue as' (apply_async stop_set s) h.1 o
  apply_all-queue (submit none ∷ as') s h o =
      apply_all-queue as' (apply_async (submit none) s) h.1 o
  apply_all-queue (submit (some du) ∷ as') s h o =
      let queued = record (s.globals) {
        queue = s.globals.queue ++ (to_unit s.globals.negotiated_format du ∷ []);
      } in
      ap (λ g. (apply_all as' (record s { globals = g })).globals.queue)
        (dr_submit_ours du s.globals o)
      ∙ apply_all-queue as' (record s { globals = queued }) h.1 o
      ∙ append_assoc s.globals.queue (to_unit s.globals.negotiated_format du ∷ []) _
  apply_all-queue (setup f ∷ as') s h o = apply_all-queue as' (apply_async (setup f) s) h.1 o
  apply_all-queue (terminate ∷ as') s h o = apply_all-queue as' (apply_async terminate s) h.1 o
  apply_all-queue (other_start ∷ as') s h o = absurd h.0
  apply_all-queue (other_stop ∷ as') s h o = absurd h.0
