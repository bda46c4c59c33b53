-- ===== src/Session/State/Format.antt =====
-- What a run of callbacks (crates/moonlight-core/src/stream.rs) leaves of the sender, the format and
-- the world, for the loop of session.rs.
use tempest_addon_moonlight.Base.{ℕ, ◌≡◌, refl, ap, ◌∙◌, none, some, List, [], ◌∷◌, ◌++◌, All}
use tempest_addon_moonlight.Session.State.{
  Async, stop_set, submit, setup, terminate, other_start, other_stop, State, apply_async, apply_all,
}
use tempest_addon_moonlight.Session.State.Queue.{dr_submit_ours, arriving, IsAlone}
use tempest_addon_moonlight.Stream.{Owner, to_unit, dr_submit, dr_setup, cl_connection_terminated}

-- The format that is set after a run of steps.
unfoldable pub last_format : List Async → ℕ → ℕ
last_format [] format = format
last_format (setup f ∷ as') format = last_format as' f
last_format (stop_set ∷ as') format = last_format as' format
last_format (submit du ∷ as') format = last_format as' format
last_format (terminate ∷ as') format = last_format as' format
last_format (other_start ∷ as') format = last_format as' format
last_format (other_stop ∷ as') format = last_format as' format

pub arriving-append :
    (xs ys : List Async) (f : ℕ)
    → arriving (xs ++ ys) f ≡ arriving xs f ++ arriving ys (last_format xs f)
unfolding arriving last_format
arriving-append [] ys f = refl
arriving-append (stop_set ∷ xs) ys f = arriving-append xs ys f
arriving-append (submit none ∷ xs) ys f = arriving-append xs ys f
arriving-append (submit (some du) ∷ xs) ys f = ap (◌∷◌ (to_unit f du)) (arriving-append xs ys f)
arriving-append (setup g ∷ xs) ys f = arriving-append xs ys g
arriving-append (terminate ∷ xs) ys f = arriving-append xs ys f
arriving-append (other_start ∷ xs) ys f = arriving-append xs ys f
arriving-append (other_stop ∷ xs) ys f = arriving-append xs ys f

pub last_format-append :
    (xs ys : List Async) (f : ℕ) → last_format (xs ++ ys) f ≡ last_format ys (last_format xs f)
unfolding last_format
last_format-append [] ys f = refl
last_format-append (stop_set ∷ xs) ys f = last_format-append xs ys f
last_format-append (submit du ∷ xs) ys f = last_format-append xs ys f
last_format-append (setup g ∷ xs) ys f = last_format-append xs ys g
last_format-append (terminate ∷ xs) ys f = last_format-append xs ys f
last_format-append (other_start ∷ xs) ys f = last_format-append xs ys f
last_format-append (other_stop ∷ xs) ys f = last_format-append xs ys f

module _ {W : Type 0} where
  -- A step of the other threads leaves our sender where it is, unless it is another session's.
  pub apply_async-sink :
      (a : Async) (s : State W)
      → IsAlone a
      → s.globals.video_sink ≡ some Owner.ours
      → (apply_async a s).globals.video_sink ≡ some Owner.ours
  unfolding apply_async dr_submit dr_setup cl_connection_terminated
  apply_async-sink stop_set s h o = o
  apply_async-sink (submit none) s h o = o
  apply_async-sink (submit (some du)) s h o =
      ap (λ g. g.video_sink) (dr_submit_ours du s.globals o) ∙ o
  apply_async-sink (setup f) s h o = o
  apply_async-sink terminate s h o = o
  apply_async-sink other_start s h o = absurd h
  apply_async-sink other_stop s h o = absurd h

  pub apply_all-sink :
      (as' : List Async) (s : State W)
      → All IsAlone as'
      → s.globals.video_sink ≡ some Owner.ours
      → (apply_all as' s).globals.video_sink ≡ some Owner.ours
  unfolding apply_all
  apply_all-sink [] s h o = o
  apply_all-sink (a ∷ as') s h o =
      apply_all-sink as' (apply_async a s) h.1 (apply_async-sink a s h.0 o)

  pub apply_all-format :
      (as' : List Async) (s : State W)
      → All IsAlone as'
      → s.globals.video_sink ≡ some Owner.ours
      → (apply_all as' s).globals.negotiated_format ≡ last_format as' s.globals.negotiated_format
  unfolding apply_all apply_async last_format dr_submit dr_setup cl_connection_terminated
  apply_all-format [] s h o = refl
  apply_all-format (stop_set ∷ as') s h o = apply_all-format as' (apply_async stop_set s) h.1 o
  apply_all-format (submit none ∷ as') s h o =
      apply_all-format as' (apply_async (submit none) s) h.1 o
  apply_all-format (submit (some du) ∷ as') s h o =
      apply_all-format as' (apply_async (submit (some du)) s) h.1
        (apply_async-sink (submit (some du)) s tt o)
      ∙ ap (λ g. last_format as' g.negotiated_format) (dr_submit_ours du s.globals o)
  apply_all-format (setup f ∷ as') s h o = apply_all-format as' (apply_async (setup f) s) h.1 o
  apply_all-format (terminate ∷ as') s h o = apply_all-format as' (apply_async terminate s) h.1 o
  apply_all-format (other_start ∷ as') s h o = absurd h.0
  apply_all-format (other_stop ∷ as') s h o = absurd h.0

  apply_async-world : (a : Async) (s : State W) → (apply_async a s).world ≡ s.world
  unfolding apply_async
  apply_async-world stop_set s = refl
  apply_async-world (submit du) s = refl
  apply_async-world (setup f) s = refl
  apply_async-world terminate s = refl
  apply_async-world other_start s = refl
  apply_async-world other_stop s = refl

  pub apply_all-world : (as' : List Async) (s : State W) → (apply_all as' s).world ≡ s.world
  unfolding apply_all
  apply_all-world [] s = refl
  apply_all-world (a ∷ as') s = apply_all-world as' (apply_async a s) ∙ apply_async-world a s
