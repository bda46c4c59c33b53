-- ===== src/Session/Frames/Takeover.antt =====
-- Two sessions in one process: what becomes of the one of crates/moonlight-core/src/session.rs whose sender
-- another one replaced (`VIDEO_SINK` of stream.rs holds one sender at a time).
use tempest_addon_moonlight.Base.{
  ℕ, zero, suc, ◌<◌, ◌≡◌, refl, sym, ap, ◌∙◌, Bool-cases, inl, inr, Option, none, some, List, [],
  ◌∷◌, length, arith, All, Result, ok, err, Fail, error, panic,
}
use tempest_addon_moonlight.Identity.{MoonlightIdentity}
use tempest_addon_moonlight.Nvhttp.Net.{next}
use tempest_addon_moonlight.Nvhttp.Requests
use tempest_addon_moonlight.Session.Doc.{MoonlightConnectDoc}
use tempest_addon_moonlight.Session.State.{
  Async, stop_set, submit, setup, terminate, other_start, other_stop, State, Deps, Ended, ended,
  apply_async, apply_all, emit, outside,
}
use tempest_addon_moonlight.Session.Engine.{
  observe, stop_stream, report_cancel, release_host, finish, pump,
}
use tempest_addon_moonlight.Session.Lifecycle.Run.{receive-cases}
use tempest_addon_moonlight.Session.Lifecycle.Stop.{Stopped, returned, stopped_with, finish-Stopped}
use tempest_addon_moonlight.Stream.{
  DecodeUnit, Owner, Globals, is_terminated, dr_submit, dr_setup, cl_connection_terminated,
  drop_sink,
}

-- A step with which the other session's sender stays installed.
abbrev pub IsOngoing : Async → Type 0
IsOngoing other_stop = ⊥
IsOngoing _ = Unit

-- Another session's sender is installed, and these units are still queued for ours.
pub record Taken {W : Type 0} (n : ℕ) (s : State W) : Type 0 where
  pub theirs : s.globals.video_sink ≡ some Owner.theirs
  pub queued : length s.globals.queue ≡ n

dr_submit-theirs :
    (du : Option DecodeUnit) (g : Globals) → g.video_sink ≡ some Owner.theirs → dr_submit du g ≡ g
unfolding dr_submit
dr_submit-theirs none g h = refl
dr_submit-theirs (some du) g h = rw h refl

module _ {W : Type 0} (n : ℕ) where
  apply_async-Taken :
      (a : Async) (s : State W) → IsOngoing a → Taken n s → Taken n (apply_async a s)
  unfolding apply_async dr_setup cl_connection_terminated
  apply_async-Taken stop_set s h t = record { theirs = t.theirs; queued = t.queued }
  apply_async-Taken (submit du) s h t =
      let same = dr_submit-theirs du s.globals t.theirs in
      record {
        theirs = ap (λ g. g.video_sink) same ∙ t.theirs;
        queued = ap (λ g. length g.queue) same ∙ t.queued;
      }
  apply_async-Taken (setup f) s h t = record { theirs = t.theirs; queued = t.queued }
  apply_async-Taken terminate s h t = record { theirs = t.theirs; queued = t.queued }
  apply_async-Taken other_start s h t = record { theirs = refl; queued = t.queued }
  apply_async-Taken other_stop s h t = absurd h

  apply_all-Taken :
      (as' : List Async) (s : State W) → All IsOngoing as' → Taken n s → Taken n (apply_all as' s)
  unfolding apply_all
  apply_all-Taken [] s h t = t
  apply_all-Taken (a ∷ as') s h t = apply_all-Taken as' _ h.1 (apply_async-Taken a s h.0 t)

-- A loop that ended by itself, or after it had taken the stream down.
data Left {W : Type 0} (p : State W × Result Fail Ended) : Type 0 where
  left : p.1 ≡ ok ended → Left p
  taken_down : (f : Fail) → p.1 ≡ err f → p.0.globals.video_sink ≡ none → Left p

module _ {W Cert Key : Type 0} (d : Deps W Cert Key)
    (ongoing : (w : W) → All IsOngoing (d.tick w).1) where
  observe-Taken : (n : ℕ) (s : State W) → Taken n s → Taken n (observe d s)
  unfolding observe
  observe-Taken n s t =
      apply_all-Taken n (d.tick s.world).1 _ (ongoing s.world)
        (record { theirs = t.theirs; queued = t.queued })

  pump-Left :
      (fuel n : ℕ) (doc : MoonlightConnectDoc) (s : State W)
      → n < fuel
      → Taken n s
      → Left (pump d fuel doc s)
  unfolding pump
  pump-Left zero n doc s lt t = absurd (omega arith)
  pump-Left (suc f) n doc s lt t =
      let s1 : State W = observe d s in
      let s2 : State W = observe d s1 in
      let s3 : State W = observe d s2 in
      let t3 = observe-Taken n s2 (observe-Taken n s1 (observe-Taken n s t)) in
      elim (Bool-cases s1.stop) [
        | inl e ↦ rw (e, pump) (left refl)
        | inr e ↦ elim (Bool-cases (is_terminated s2.globals)) [
          | inl e' ↦ rw (e, e', pump) (unfold stop_stream emit drop_sink in taken_down _ refl refl)
          | inr e' ↦ elim (receive-cases s3.globals.queue s3.globals.video_sink) [
            | inl (u, rest, q) ↦
                let one_less : suc (length rest) ≡ n = ap length (sym q) ∙ t3.queued in
                rw (e, e', q, pump)
                  (pump-Left f (length rest) doc _ (omega arith)
                    (record { theirs = t3.theirs; queued = refl }))
            | inr (q, inl o) ↦ let both = sym t3.theirs ∙ o in cc
            | inr (q, inr (inl o)) ↦ rw (e, e', q, o, pump) (left refl)
            | inr (q, inr (inr o)) ↦ rw (e, e', q, o, pump) (left refl)
          ]
        ]
      ]

  report_cancel-globals :
      (p : State W × Result Fail (Unit {0})) → (report_cancel d p).0.globals ≡ p.0.globals
  unfolding report_cancel emit
  report_cancel-globals (s, ok u) = refl
  report_cancel-globals (s, err (error e)) = refl
  report_cancel-globals (s, err (panic e)) = refl

  release_host-globals :
      (id : MoonlightIdentity) (doc : MoonlightConnectDoc) (s : State W)
      → (release_host d id doc s).0.globals ≡ s.globals
  unfolding release_host outside
  release_host-globals id doc s =
      report_cancel-globals (outside (Requests.cancel d.net id doc.host doc.https_port) s)

  next-sink :
      {A : Type 0} (p : State W × Result Fail A) (r : Result Fail Ended)
      → p.0.globals.video_sink ≡ none
      → (next p (λ _ s. (s, r))).0.globals.video_sink ≡ none
  next-sink (s, ok a) r h = h
  next-sink (s, err e) r h = h

  finish-sink :
      (id : MoonlightIdentity) (doc : MoonlightConnectDoc) (p : State W × Result Fail Ended)
      → Left p
      → (next p (finish d id doc)).0.globals.video_sink ≡ none
  unfolding finish stop_stream emit drop_sink
  finish-sink id doc (s, r) (left e) =
      rw (e, finish)
        (next-sink (release_host d id doc _) (ok ended)
          (ap (λ g. g.video_sink) (release_host-globals id doc _)))
  finish-sink id doc (s, r) (taken_down f e h) = rw e h

  Left-Stopped : (p : State W × Result Fail Ended) → Left p → Stopped p
  Left-Stopped p (left e) = returned e
  Left-Stopped p (taken_down f e h) = stopped_with f e

  -- When another session has installed its sender and goes on, then a loop that makes more rounds than units
  -- are queued for it ends, though nothing told it to stop, and once it has cleaned up no sender is installed:
  -- the other session's is gone as well.
  pub pump_replaced :
      (id : MoonlightIdentity) (doc : MoonlightConnectDoc) (fuel n : ℕ) (s : State W)
      → n < fuel
      → Taken n s
      → Stopped (next (pump d fuel doc s) (finish d id doc))
        × ((next (pump d fuel doc s) (finish d id doc)).0.globals.video_sink ≡ none)
  pump_replaced id doc fuel n s lt t =
      let l = pump-Left fuel n doc s lt t in
      (
        finish-Stopped d id doc (pump d fuel doc s) (Left-Stopped _ l),
        finish-sink id doc (pump d fuel doc s) l,
      )
