-- ===== src/Session/Lifecycle/Stop.antt =====
-- When the loop of crates/moonlight-core/src/session.rs ends: the stop flag is seen.
use tempest_addon_moonlight.Base.{
  ℕ, zero, suc, ◌-◌, ◌<◌, ◌≡◌, refl, inl, inr, ◌⊎◌, Bool, true, false, ◌||◌, List, [], ◌∷◌, arith,
  ◌==◌, Result, ok, err, Fail, error, panic, Bool-cases, ok_or,
}
use tempest_addon_moonlight.Identity.{MoonlightIdentity}
use tempest_addon_moonlight.Nvhttp.Net.{M, next}
use tempest_addon_moonlight.Nvhttp.Xml.{HostApp, ServerInfo}
use tempest_addon_moonlight.Session.Doc.{MoonlightConnectDoc}
use tempest_addon_moonlight.Session.State.{
  Async, stop_set, submit, setup, terminate, other_start, other_stop, State, Deps, Ended, ended,
  still_running, apply_async, apply_all, emit, outside,
}
use tempest_addon_moonlight.Session.Plan.{choose_app, stream_options}
use tempest_addon_moonlight.Session.Engine.{
  observe, get_identity, pair_if_needed, do_launch, or_release, start_stream, load_stop,
  get_server_info, stop_stream, release_host, finish, pump, stream_app, run_paired, run_moonlight,
  report_outcome, session_thread,
}
use tempest_addon_moonlight.Session.Lifecycle.{idle, over, phase_of, IsAccepted}
use tempest_addon_moonlight.Session.Lifecycle.Run.{receive-cases, session_thread-IsAccepted}
use tempest_addon_moonlight.Session.State.Format.{apply_all-world}
use tempest_addon_moonlight.Stream.{is_terminated}

unfoldable pub has_stop : List Async → Bool
has_stop [] = false
has_stop (stop_set ∷ as') = true
has_stop (submit du ∷ as') = has_stop as'
has_stop (setup f ∷ as') = has_stop as'
has_stop (terminate ∷ as') = has_stop as'
has_stop (other_start ∷ as') = has_stop as'
has_stop (other_stop ∷ as') = has_stop as'

or_right : (a b : Bool) → a ≡ false → a || b ≡ true → b ≡ true
or_right true b e h = cc
or_right false b e h = h

pred_suc : (n : ℕ) → suc n - 1 ≡ n
pred_suc n = omega arith

module _ {W : Type 0} where
  apply_all-stop : (as' : List Async) (s : State W) → s.stop ≡ true → (apply_all as' s).stop ≡ true
  unfolding apply_all apply_async
  apply_all-stop [] s h = h
  apply_all-stop (stop_set ∷ as') s h = apply_all-stop as' (apply_async stop_set s) refl
  apply_all-stop (submit du ∷ as') s h = apply_all-stop as' (apply_async (submit du) s) h
  apply_all-stop (setup f ∷ as') s h = apply_all-stop as' (apply_async (setup f) s) h
  apply_all-stop (terminate ∷ as') s h = apply_all-stop as' (apply_async terminate s) h
  apply_all-stop (other_start ∷ as') s h = apply_all-stop as' (apply_async other_start s) h
  apply_all-stop (other_stop ∷ as') s h = apply_all-stop as' (apply_async other_stop s) h

  has_stop-stop :
      (as' : List Async) (s : State W) → has_stop as' ≡ true → (apply_all as' s).stop ≡ true
  unfolding has_stop apply_all apply_async
  has_stop-stop [] s h = cc
  has_stop-stop (stop_set ∷ as') s h = apply_all-stop as' (apply_async stop_set s) refl
  has_stop-stop (submit du ∷ as') s h = has_stop-stop as' (apply_async (submit du) s) h
  has_stop-stop (setup f ∷ as') s h = has_stop-stop as' (apply_async (setup f) s) h
  has_stop-stop (terminate ∷ as') s h = has_stop-stop as' (apply_async terminate s) h
  has_stop-stop (other_start ∷ as') s h = has_stop-stop as' (apply_async other_start s) h
  has_stop-stop (other_stop ∷ as') s h = has_stop-stop as' (apply_async other_stop s) h

pub close_of :
    {W : Type 0} (p : State W × Ended) → IsAccepted p → p.1 ≡ ended → phase_of p.0.log ≡ over
close_of (s, ended) h e = h
close_of (s, still_running) h e = cc

-- A loop that ended, one way or the other.
pub data Stopped {W : Type 0} (p : State W × Result Fail Ended) : Type 0 where
  returned : p.1 ≡ ok ended → Stopped p
  stopped_with : (f : Fail) → p.1 ≡ err f → Stopped p

module _ {W Cert Key : Type 0} (d : Deps W Cert Key) where
  -- Whether the flag is set in one of the first `n` turns of the other threads.
  unfoldable pub stops : ℕ → W → Bool
  stops zero w = false
  stops (suc n) w = has_stop (d.tick w).1 || stops n (d.tick w).0

  -- The flag is set, or it will be within `n` turns.
  abbrev Pending : ℕ → State W → Type 0
  Pending n s = (s.stop ≡ true) ⊎ (stops n s.world ≡ true)

  observe-stop : (s : State W) → s.stop ≡ true → (observe d s).stop ≡ true
  unfolding observe
  observe-stop s h = apply_all-stop (d.tick s.world).1 _ h

  observe-world : (s : State W) → (observe d s).world ≡ (d.tick s.world).0
  unfolding observe
  observe-world s = apply_all-world (d.tick s.world).1 _

  observe-Pending : (n : ℕ) (s : State W) → Pending n s → Pending (n - 1) (observe d s)
  unfolding stops
  observe-Pending n s (inl h) = inl (observe-stop s h)
  observe-Pending zero s (inr h) = inl cc
  observe-Pending (suc n) s (inr h) = elim (Bool-cases (has_stop (d.tick s.world).1)) [
    | inl e ↦ inl (unfold observe in has_stop-stop (d.tick s.world).1 _ e)
    | inr e ↦ inr (rw (observe-world s, pred_suc n) (or_right _ _ e h))
  ]

  -- A flag that is still to be seen leaves a turn to wait for.
  fewer :
      (n f : ℕ) (s : State W) → n < suc f → s.stop ≡ false → Pending (n - 1) s → n - 1 - 1 - 1 < f
  unfolding stops
  fewer n f s lt e (inl h) = cc
  fewer zero f s lt e (inr h) = cc
  fewer (suc zero) f s lt e (inr h) = cc
  fewer (suc (suc n)) f s lt e (inr h) = omega arith

  pump-Stopped :
      (fuel n : ℕ) (doc : MoonlightConnectDoc) (s : State W)
      → n < fuel
      → Pending n s
      → Stopped (pump d fuel doc s)
  unfolding pump
  pump-Stopped zero n doc s lt h = ground arith
  pump-Stopped (suc f) n doc s lt h =
      let s1 : State W = observe d s in
      let s2 : State W = observe d s1 in
      let s3 : State W = observe d s2 in
      let h1 : Pending (n - 1) s1 = observe-Pending n s h in
      let h3 : Pending (n - 1 - 1 - 1) s3 = observe-Pending _ s2 (observe-Pending _ s1 h1) in
      elim (Bool-cases s1.stop) [
        | inl e ↦ rw (e, pump) (returned refl)
        | inr e ↦
            let le : n - 1 - 1 - 1 < f = fewer n f s1 lt e h1 in
            elim (Bool-cases (is_terminated s2.globals)) [
              | inl e' ↦ rw (e, e', pump) (unfold stop_stream emit in stopped_with _ refl)
              | inr e' ↦ elim (receive-cases s3.globals.queue s3.globals.video_sink) [
                | inl (u, rest, q) ↦ rw (e, e', q, pump) (pump-Stopped f _ doc _ le h3)
                | inr (q, inl o) ↦ rw (e, e', q, o, pump) (pump-Stopped f _ doc s3 le h3)
                | inr (q, inr (inl o)) ↦ rw (e, e', q, o, pump) (returned refl)
                | inr (q, inr (inr o)) ↦ rw (e, e', q, o, pump) (returned refl)
              ]
            ]
      ]

  next-Stopped :
      {A : Type 0} (p : State W × Result Fail A) {k : A → M (State W) Ended}
      → ((a : A) (s : State W) → Stopped (k a s))
      → Stopped (next p k)
  next-Stopped (s, ok a) f = f a s
  next-Stopped (s, err e) f = stopped_with e refl

  pub finish-Stopped :
      (id : MoonlightIdentity) (doc : MoonlightConnectDoc) (p : State W × Result Fail Ended)
      → Stopped p
      → Stopped (next p (finish d id doc))
  unfolding finish
  finish-Stopped id doc (s, r) (returned e) =
      rw (e, finish)
        (next-Stopped (stop_stream d s)
          λ u s1. next-Stopped (release_host d id doc s1) λ u' s2. returned refl)
  finish-Stopped id doc (s, r) (stopped_with f e) = rw e (stopped_with f refl)

module _ {W Cert Key : Type 0} (d : Deps W Cert Key) (n fuel : ℕ) (lt : n < fuel)
    (stop : (w : W) → stops d n w ≡ true) where
  stream_app-Stopped :
      (id : MoonlightIdentity) (doc : MoonlightConnectDoc) (si : ServerInfo) (app : HostApp)
      (s : State W)
      → Stopped (stream_app d fuel id doc si app s)
  unfolding stream_app
  stream_app-Stopped id doc si app s = next-Stopped d (emit _ s) λ u1 s1.
      next-Stopped d (do_launch d id doc app.id s1) λ launch s2.
        next-Stopped d (or_release d id doc (start_stream d (stream_options doc si launch) s2))
          λ u3 s3. next-Stopped d (emit _ s3) λ u4 s4. next-Stopped d (emit _ s4) λ u5 s5.
            finish-Stopped d id doc (pump d fuel doc s5)
              (pump-Stopped d fuel n doc s5 lt (inr (stop s5.world)))

  run_paired-Stopped :
      (id : MoonlightIdentity) (doc : MoonlightConnectDoc) (si : ServerInfo) (b : Bool)
      (s : State W)
      → Stopped (run_paired d fuel id doc si b s)
  unfolding run_paired
  run_paired-Stopped id doc si true s = returned refl
  run_paired-Stopped id doc si false s = next-Stopped d (outside _ s) λ apps s1.
      next-Stopped d (s1, ok_or (choose_app apps) _) λ app s2. stream_app-Stopped id doc si app s2

  run_moonlight-Stopped :
      (doc : MoonlightConnectDoc) (s : State W) → Stopped (run_moonlight d fuel doc s)
  unfolding run_moonlight load_stop
  run_moonlight-Stopped doc s = next-Stopped d (get_identity d doc s) λ id s1.
      next-Stopped d (outside _ s1) λ u2 s2. next-Stopped d (emit _ s2) λ u3 s3.
        next-Stopped d (get_server_info d id doc s3) λ si s4.
          next-Stopped d (pair_if_needed d id doc (si.pair_status == 0) s4)
            λ u5 s5. run_paired-Stopped id doc si (observe d s5).stop (observe d s5)

  report_outcome-ended :
      (p : State W × Result Fail Ended) → Stopped p → (report_outcome d p).1 ≡ ended
  unfolding report_outcome
  report_outcome-ended (s, r) (returned e) = rw (e, report_outcome) refl
  report_outcome-ended (s, r) (stopped_with (error t) e) = rw (e, report_outcome) refl
  report_outcome-ended (s, r) (stopped_with (panic t) e) = rw (e, report_outcome) refl

  session_thread-ended :
      (doc : MoonlightConnectDoc) (s : State W) → (session_thread d fuel doc s).1 ≡ ended
  unfolding session_thread
  session_thread-ended doc s = report_outcome-ended _ (run_moonlight-Stopped doc s)

  -- When within any `n` turns of the other threads the stop flag is set, the worker ends within
  -- `fuel > n` rounds of its streaming loop, and a session that began with an idle phase is over: it has
  -- been closed.
  pub session_thread-stops :
      (doc : MoonlightConnectDoc) (s : State W)
      → phase_of s.log ≡ idle
      → ((session_thread d fuel doc s).1 ≡ ended)
        × (phase_of (session_thread d fuel doc s).0.log ≡ over)
  session_thread-stops doc s h = (
    session_thread-ended doc s,
    close_of (session_thread d fuel doc s) (session_thread-IsAccepted d fuel doc s h)
        (session_thread-ended doc s),
  )
