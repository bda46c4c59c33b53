-- ===== src/Session/Lifecycle/Run.antt =====
-- The whole worker against the automaton, and when it ends.
use tempest_addon_moonlight.Base.{
  ℕ, zero, suc, ◌≡◌, refl, ◌∙◌, inl, inr, ◌⊎◌, Bool, true, false, Option, none, some, List, [], ◌∷◌,
  bytes, text_eq_refl, Result, Fail, error, panic, Option-cases, Bool-cases,
}
use tempest_addon_moonlight.Identity.{MoonlightIdentity}
use tempest_addon_moonlight.Nvhttp.Xml.{HostApp, ServerInfo}
use tempest_addon_moonlight.Session.Doc.{MoonlightConnectDoc}
use tempest_addon_moonlight.Session.State.{
  Event, frame, ready, State, Deps, Ended, ended, still_running, host_terminated,
}
use tempest_addon_moonlight.Session.Plan.{choose_app, frame_update, stream_options}
use tempest_addon_moonlight.Session.Engine.{
  observe, load_stop, get_server_info, pair_if_needed, pump, stream_app, run_paired, run_moonlight,
  report_outcome, session_thread,
}
use tempest_addon_moonlight.Session.Lifecycle.{
  idle, started, live, next_phase, phase_of, After, done, failed_with, In, Finished, IsAccepted,
}
use tempest_addon_moonlight.Session.Lifecycle.Outside.{next-After, outside-After, phase-observe}
use tempest_addon_moonlight.Session.Lifecycle.Stages.{
  emit-After, get_identity-After, do_pairing-After, stop_stream-After, do_launch-After,
  start_stream-Started, or_release-After, finish-After,
}
use tempest_addon_moonlight.Str.Find.{starts_with-append}
use tempest_addon_moonlight.Stream.{Owner, VideoUnit, is_terminated}
use tempest_addon_moonlight.Str.Find.{starts_with-append}

pub receive-cases :
    (q : List VideoUnit) (o : Option Owner)
    → ((u : VideoUnit) × (rest : List VideoUnit) × (q ≡ u ∷ rest))
      ⊎ ((q ≡ []) × ((o ≡ some Owner.ours) ⊎ ((o ≡ some Owner.theirs) ⊎ (o ≡ none))))
receive-cases (u ∷ rest) o = inl (u, rest, refl)
receive-cases [] (some Owner.ours) = inr (refl, inl refl)
receive-cases [] (some Owner.theirs) = inr (refl, inr (inl refl))
receive-cases [] none = inr (refl, inr (inr refl))

module _ {W Cert Key : Type 0} (d : Deps W Cert Key) where
  frame-live :
      (e : VideoUnit) (doc : MoonlightConnectDoc) (es : List Event)
      → phase_of es ≡ live
      → phase_of (frame (frame_update doc e) ∷ es) ≡ live
  unfolding phase_of next_phase
  frame-live e doc es h = rw h refl

  pump-After :
      (f : ℕ) (doc : MoonlightConnectDoc) (s : State W)
      → phase_of s.log ≡ live
      → After (In live) (pump d f doc s)
  unfolding pump
  pump-After zero doc s h = done still_running refl h
  pump-After (suc f) doc s h =
      let s1 : State W = observe d s in
      let s2 : State W = observe d s1 in
      let s3 : State W = observe d s2 in
      let h1 : phase_of s1.log ≡ live = phase-observe d s ∙ h in
      let h2 : phase_of s2.log ≡ live = phase-observe d s1 ∙ h1 in
      let h3 : phase_of s3.log ≡ live = phase-observe d s2 ∙ h2 in
      elim (Bool-cases s1.stop) [
        | inl e ↦ rw (e, pump) (done ended refl h1)
        | inr e ↦ elim (Bool-cases (is_terminated s2.globals)) [
          | inl e' ↦
              rw (e, e', pump)
                (next-After (stop_stream-After d s2 h2)
                  λ u s' h'. failed_with (error host_terminated) refl (inr (h', refl)))
          | inr e' ↦ elim (receive-cases s3.globals.queue s3.globals.video_sink) [
            | inl (u, rest, q) ↦
                rw (e, e', q, pump) (pump-After f doc _ (frame-live u doc s3.log h3))
            | inr (q, inl o) ↦ rw (e, e', q, o, pump) (pump-After f doc s3 h3)
            | inr (q, inr (inl o)) ↦ rw (e, e', q, o, pump) (done ended refl h3)
            | inr (q, inr (inr o)) ↦ rw (e, e', q, o, pump) (done ended refl h3)
          ]
        ]
      ]

  stream_app-After :
      (fuel : ℕ) (id : MoonlightIdentity) (doc : MoonlightConnectDoc) (si : ServerInfo)
      (app : HostApp) (s : State W)
      → phase_of s.log ≡ idle
      → After Finished (stream_app d fuel id doc si app s)
  unfolding stream_app next_phase
  stream_app-After fuel id doc si app s h = next-After (emit-After _ s idle h) λ u s1 h1.
      next-After (do_launch-After d id doc app.id s1 h1) λ launch s2 h2.
        let opts = stream_options doc si launch in
        next-After (or_release-After d id doc _ (start_stream-Started d opts s2 h2)) λ u3 s3 h3.
          next-After (emit-After ready s3 started h3) λ u4 s4 h4.
            next-After (emit-After _ s4 live h4) λ u5 s5 h5.
              next-After (pump-After fuel doc s5 h5) λ e s6 h6. finish-After d id doc e s6 h6

  run_paired-After :
      (fuel : ℕ) (id : MoonlightIdentity) (doc : MoonlightConnectDoc) (si : ServerInfo) (b : Bool)
      (s : State W)
      → phase_of s.log ≡ idle
      → After Finished (run_paired d fuel id doc si b s)
  unfolding run_paired
  run_paired-After fuel id doc si true s h = done ended refl h
  run_paired-After fuel id doc si false s h = next-After (outside-After _ s h) λ apps s1 h1.
      elim (Option-cases (choose_app apps)) [
        | inl e ↦ rw e (failed_with _ refl (inl h1))
        | inr (app, e) ↦ rw e (stream_app-After fuel id doc si app s1 h1)
      ]

  pair_if_needed-After :
      (id : MoonlightIdentity) (doc : MoonlightConnectDoc) (b : Bool) (s : State W)
      → phase_of s.log ≡ idle
      → After (In idle) (pair_if_needed d id doc b s)
  unfolding pair_if_needed
  pair_if_needed-After id doc true s h = do_pairing-After d id doc s h
  pair_if_needed-After id doc false s h = done tt refl h

  run_moonlight-After :
      (fuel : ℕ) (doc : MoonlightConnectDoc) (s : State W)
      → phase_of s.log ≡ idle
      → After Finished (run_moonlight d fuel doc s)
  unfolding run_moonlight load_stop get_server_info next_phase
  run_moonlight-After fuel doc s h = next-After (get_identity-After d doc s h) λ id s1 h1.
      next-After (outside-After _ s1 h1) λ u2 s2 h2.
        next-After (emit-After _ s2 idle h2) λ u3 s3 h3.
          next-After (outside-After _ s3 h3) λ si s4 h4.
            next-After (pair_if_needed-After id doc _ s4 h4) λ u5 s5 h5.
              run_paired-After fuel id doc si (observe d s5).stop (observe d s5)
                (phase-observe d s5 ∙ h5)

  close-After :
      (p : State W × Result Fail Ended) → After Finished p → IsAccepted (report_outcome d p)
  unfolding report_outcome next_phase phase_of
  close-After (s, r) (done ended e h) = rw (e, report_outcome) (rw h refl)
  close-After (s, r) (done still_running e h) = rw (e, report_outcome) h
  close-After (s, r) (failed_with (error t) e (inl h)) = rw (e, report_outcome) (rw h refl)
  close-After (s, r) (failed_with (error t) e (inr (h, g))) =
      rw (e, report_outcome) (rw h (rw g (rw (text_eq_refl host_terminated) refl)))
  close-After (s, r) (failed_with (panic t) e (inl h)) = rw (e, report_outcome) (rw h refl)
  close-After (s, r) (failed_with (panic t) e (inr h)) =
      rw (e, report_outcome) (rw h (rw (starts_with-append (bytes "internal error: ") t) refl))

  -- However the host, the C library and the other threads behave, and after any number of rounds of
  -- the streaming loop, the log of a session that began with an idle phase is one the automaton
  -- accepts: if the thread has ended, the log is over, so `closed` came exactly once and last, each
  -- prompt was taken down (unless a panic closed the session), each stream that started was stopped,
  -- and the host was released with `/cancel` unless it ended the session itself; if the thread still
  -- runs, it is in the streaming loop.
  pub session_thread-IsAccepted :
      (fuel : ℕ) (doc : MoonlightConnectDoc) (s : State W)
      → phase_of s.log ≡ idle
      → IsAccepted (session_thread d fuel doc s)
  unfolding session_thread
  session_thread-IsAccepted fuel doc s h = close-After _ (run_moonlight-After fuel doc s h)
