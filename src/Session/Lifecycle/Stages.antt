-- ===== src/Session/Lifecycle/Stages.antt =====
-- Each stage of the worker takes the session from one phase to another.
use tempest_addon_moonlight.Base.{
  ℕ, zero, suc, ◌≡◌, refl, ap, ◌∙◌, inl, inr, Bool, true, false, Text, Result, ok, err, Fail, error,
  panic, Option-cases, ℤ, pos, negsuc,
}
use tempest_addon_moonlight.Identity.{MoonlightIdentity, generate}
use tempest_addon_moonlight.Nvhttp.Requests
use tempest_addon_moonlight.Nvhttp.Requests.{LaunchSession}
use tempest_addon_moonlight.Session.Doc.{MoonlightConnectDoc, restore_identity}
use tempest_addon_moonlight.Session.State.{
  Event, stream_stopped, cancelled, State, Deps, Ended, ended, still_running, emit, outside,
}
use tempest_addon_moonlight.Session.Engine.{
  observe, get_identity, report_pairing, do_pairing, stop_stream, report_cancel, release_host,
  report_launch, do_launch, started as code_started, start_stream, or_release, finish,
}
use tempest_addon_moonlight.Session.Lifecycle.{
  Phase, idle, prompting, busy, failed, started, live, stopped, next_phase, phase_of, After, done,
  failed_with, In, Finished,
}
use tempest_addon_moonlight.Session.Lifecycle.Outside.{
  next-After, outside-After, phase-outside, calm_ok, calm_error, cancel-IsCalm, phase-observe,
}
use tempest_addon_moonlight.Stream.{StreamOptions, nul_error, connection, install_sink}

module _ {W : Type 0} where
  pub emit-After :
      (e : Event) (s : State W) (ph : Phase)
      → phase_of s.log ≡ ph
      → After (In (next_phase ph e)) (emit e s)
  unfolding emit phase_of
  emit-After e s ph h = done tt refl (ap (λ p. next_phase p e) h)

module _ {W Cert Key : Type 0} (d : Deps W Cert Key) where
  pub get_identity-After :
      (doc : MoonlightConnectDoc) (s : State W)
      → phase_of s.log ≡ idle
      → After (In idle) (get_identity d doc s)
  unfolding get_identity next_phase
  get_identity-After doc s h = elim (Option-cases (restore_identity doc)) [
    | inr (id, e) ↦ rw (e, get_identity) (done id refl h)
    | inl e ↦
        rw (e, get_identity)
          (next-After (outside-After (generate d.generator) s h)
            λ id s1 h1. next-After (emit-After _ s1 idle h1) λ u s2 h2. done id refl h2)
  ]

  report_pairing-After :
      (p : State W × Result Fail (Unit {0}))
      → phase_of p.0.log ≡ prompting
      → After (In idle) (report_pairing d p)
  unfolding report_pairing next_phase
  report_pairing-After (s, ok u) h =
      next-After (emit-After _ s prompting h) λ u s1 h1. emit-After _ s1 idle h1
  report_pairing-After (s, err (error t)) h =
      next-After (emit-After _ s prompting h) λ u s1 h1. failed_with (error t) refl (inl h1)
  report_pairing-After (s, err (panic t)) h = failed_with (panic t) refl (inr h)

  random_salt-After :
      (s : State W)
      → phase_of s.log ≡ prompting
      → After (In prompting) (outside (Requests.random_salt d.net) s)
  unfolding outside Requests.random_salt
  random_salt-After s h = done (d.net.rand_bytes 16 s.world).1 refl h

  pub do_pairing-After :
      (id : MoonlightIdentity) (doc : MoonlightConnectDoc) (s : State W)
      → phase_of s.log ≡ idle
      → After (In idle) (do_pairing d id doc s)
  unfolding do_pairing next_phase
  do_pairing-After id doc s h = next-After (outside-After _ s h) λ pin s1 h1.
      next-After (emit-After _ s1 idle h1) λ u s2 h2.
        next-After (emit-After _ s2 idle h2) λ u s3 h3.
          next-After (random_salt-After s3 h3)
            λ salt s4 h4. report_pairing-After (outside _ s4) (phase-outside _ s4 ∙ h4)

  -- A pipe to the C library that is shut down leaves the host to be released.
  pub stop_stream-After :
      (s : State W) → phase_of s.log ≡ live → After (In stopped) (stop_stream d s)
  unfolding stop_stream next_phase
  stop_stream-After s h = emit-After stream_stopped _ live h

  release_host-After :
      (id : MoonlightIdentity) (doc : MoonlightConnectDoc) (s : State W) (ph : Phase)
      → phase_of s.log ≡ ph
      → ((b : Bool) → next_phase ph (cancelled b) ≡ idle)
      → After (In idle) (release_host d id doc s)
  unfolding release_host report_cancel outside
  release_host-After id doc s ph h back =
      elim (cancel-IsCalm d.net id doc.host doc.https_port s.world) [
        | calm_ok u e ↦ rw (e, report_cancel) (at true (emit-After (cancelled true) s1 ph h))
        | calm_error t e ↦ rw (e, report_cancel) (at false (emit-After (cancelled false) s1 ph h))
      ]
    where
      s1 : State W
      s1 = record s { world = (Requests.cancel d.net id doc.host doc.https_port s.world).0 }

      at :
          (b : Bool)
          → After (In (next_phase ph (cancelled b))) (emit (cancelled b) s1)
          → After (In idle) (emit (cancelled b) s1)
      at b a = rw (back b) at a

  report_launch-After :
      (p : State W × Result Fail LaunchSession)
      → phase_of p.0.log ≡ idle
      → After (In busy) (report_launch d p)
  unfolding report_launch next_phase
  report_launch-After (s, ok l) h = next-After (emit-After _ s idle h) λ u s1 h1. done l refl h1
  report_launch-After (s, err (error t)) h =
      next-After (emit-After _ s idle h) λ u s1 h1. failed_with (error t) refl (inl h1)
  report_launch-After (s, err (panic t)) h =
      next-After (emit-After _ s idle h) λ u s1 h1. failed_with (panic t) refl (inl h1)

  pub do_launch-After :
      (id : MoonlightIdentity) (doc : MoonlightConnectDoc) (app_id : ℕ) (s : State W)
      → phase_of s.log ≡ idle
      → After (In busy) (do_launch d id doc app_id s)
  unfolding do_launch
  do_launch-After id doc app_id s h = report_launch-After (outside _ s) (phase-outside _ s ∙ h)

  -- A stream that started, or one that did not.
  pub data Started (p : State W × Result Fail (Unit {0})) : Type 0 where
    is_started : p.1 ≡ ok tt → phase_of p.0.log ≡ started → Started p
    not_started : (t : Text) → p.1 ≡ err (error t) → phase_of p.0.log ≡ failed → Started p

  code_started-Started :
      (s : State W) (rc : ℤ) → phase_of s.log ≡ busy → Started (code_started d s rc)
  unfolding code_started emit phase_of next_phase
  code_started-Started s (pos zero) h = is_started refl (rw h)
  code_started-Started s (pos (suc n)) h = not_started _ refl (rw h)
  code_started-Started s (negsuc n) h = not_started _ refl (rw h)

  pub start_stream-Started :
      (opts : StreamOptions) (s : State W) → phase_of s.log ≡ busy → Started (start_stream d opts s)
  unfolding start_stream next_phase phase_of
  start_stream-Started opts s h = elim (Option-cases (nul_error opts)) [
    | inr (t, e) ↦ rw (e, start_stream) (not_started t refl (rw h))
    | inl e ↦
        rw (e, start_stream)
          (let (w, rc) = d.li_start (connection opts) s.world in
            let s1 : State W = record s { world = w; globals = install_sink s.globals } in
            code_started-Started (observe d s1) rc (phase-observe d s1 ∙ h))
  ]

  pub or_release-After :
      (id : MoonlightIdentity) (doc : MoonlightConnectDoc) (p : State W × Result Fail (Unit {0}))
      → Started p
      → After (In started) (or_release d id doc p)
  unfolding or_release next_phase
  or_release-After id doc (s, r) (is_started e h) = rw (e, or_release) (done tt refl h)
  or_release-After id doc (s, r) (not_started t e h) =
      rw (e, or_release)
        (next-After (release_host-After id doc s failed h (λ b. refl))
          λ u s1 h1. failed_with (error t) refl (inl h1))

  pub finish-After :
      (id : MoonlightIdentity) (doc : MoonlightConnectDoc) (e : Ended) (s : State W)
      → phase_of s.log ≡ live
      → After Finished (finish d id doc e s)
  unfolding finish next_phase
  finish-After id doc still_running s h = done still_running refl h
  finish-After id doc ended s h = next-After (stop_stream-After s h) λ u s1 h1.
      next-After (release_host-After id doc s1 stopped h1 (λ b. refl))
        λ u' s2 h2. done ended refl h2
