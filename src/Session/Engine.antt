-- ===== src/Session/Engine.antt =====
-- The worker of crates/moonlight-core/src/session.rs: `run_moonlight` by its stages, and the thread
-- around it.
use tempest_addon_moonlight.Base.{
  ℕ, zero, suc, Bool, true, false, none, some, [], ◌∷◌, ◌++◌, bytes, ◌==◌, ℤ, pos, signed, Result,
  ok, err, Fail, error, panic, ok_or,
}
use tempest_addon_moonlight.Identity.{MoonlightIdentity, generate}
use tempest_addon_moonlight.Nvhttp.Xml.{ServerInfo, HostApp}
use tempest_addon_moonlight.Nvhttp.Net.{M, next, ◌>>=◌, ◌>>◌, pure, lift, fail}
use tempest_addon_moonlight.Nvhttp.Requests
use tempest_addon_moonlight.Nvhttp.Requests.{LaunchSession, aes_iv}
use tempest_addon_moonlight.Nvhttp.Pairing
use tempest_addon_moonlight.Nvhttp.Pairing.{Crypto}
use tempest_addon_moonlight.Session.Doc.{
  MoonlightConnectDoc, restore_identity, pin_text, web_ui_url,
}
use tempest_addon_moonlight.Stream.{
  StreamOptions, Owner, connection, nul_error, is_terminated, install_sink, drop_sink,
}
use tempest_addon_moonlight.Session.State.{
  identity_learned, service_message, pair_prompt, pair_finished, launched, stream_started, ready,
  frame, stream_stopped, cancelled, closed, State, Deps, Ended, ended, still_running, apply_all,
  emit, outside, or_else, host_terminated,
}
use tempest_addon_moonlight.Session.Plan.{runtime_error, choose_app, frame_update, stream_options}

module _ {W Cert Key : Type 0} (d : Deps W Cert Key) where
  -- Other threads run, then the engine reads the state.
  unfoldable pub observe : State W → State W
  observe s = let (w, as') = d.tick s.world in apply_all as' (record s { world = w })

  unfoldable pub load_stop : M (State W) Bool
  load_stop s = let s' = observe s in (s', ok s'.stop)

  unfoldable pub get_identity : MoonlightConnectDoc → M (State W) MoonlightIdentity
  get_identity doc = elim (restore_identity doc) [
    | some id ↦ pure id
    | none ↦ (do
      id ← outside (generate d.generator)
      emit (identity_learned id.unique_id (d.lossy id.cert_pem) (d.lossy id.key_pem))
      pure id)
  ]

  unfoldable pub get_server_info : MoonlightIdentity → MoonlightConnectDoc → M (State W) ServerInfo
  get_server_info id doc = outside (
      or_else (Requests.server_info_https d.net id doc.host doc.https_port)
        (Requests.server_info d.net doc.host doc.http_port id.unique_id))

  -- The result of the pairing, reported either way unless it is a panic.
  unfoldable pub report_pairing :
      State W × Result Fail (Unit {0}) → State W × Result Fail (Unit {0})
  report_pairing (s, ok u) =
      next (emit (pair_finished none) s) (λ _. emit (service_message (bytes "Paired")))
  report_pairing (s, err (error e)) =
      next (emit (pair_finished (some e)) s) (λ _ s'. (s', err (error e)))
  report_pairing (s, err (panic e)) = (s, err (panic e))

  unfoldable pub do_pairing : MoonlightIdentity → MoonlightConnectDoc → M (State W) (Unit {0})
  unfolding report_pairing
  do_pairing id doc = do
    pin ← outside (λ w. let (w', b, e) = d.net.rand_bytes 2 w in (w', ok (pin_text b)))
    let url = web_ui_url doc.host
    emit (service_message (bytes "Pairing — open " ++ (url ++ (bytes " and enter PIN " ++ pin))))
    emit (pair_prompt pin url)
    salt ← outside (Requests.random_salt d.net)
    let key = Pairing.derive_aes_key d.net d.crypto salt pin
    λ s. report_pairing (outside (Pairing.pair d.net d.crypto id doc.host doc.http_port salt key) s)

  unfoldable pub pair_if_needed :
      MoonlightIdentity → MoonlightConnectDoc → Bool → M (State W) (Unit {0})
  pair_if_needed id doc true = do_pairing id doc
  pair_if_needed id doc false = pure tt

  -- `stream::stop_stream`
  unfoldable pub stop_stream : M (State W) (Unit {0})
  stop_stream s =
      emit stream_stopped (record s { world = d.li_stop s.world; globals = drop_sink s.globals })

  -- `release_host`: an error of `/cancel` is dropped here (the source prints it).
  unfoldable pub report_cancel : State W × Result Fail (Unit {0}) → State W × Result Fail (Unit {0})
  report_cancel (s, ok u) = emit (cancelled true) s
  report_cancel (s, err (error e)) = emit (cancelled false) s
  report_cancel (s, err (panic e)) = (s, err (panic e))

  unfoldable pub release_host : MoonlightIdentity → MoonlightConnectDoc → M (State W) (Unit {0})
  unfolding report_cancel
  release_host id doc s =
      report_cancel (outside (Requests.cancel d.net id doc.host doc.https_port) s)

  -- The call of `nvhttp::launch` in the log.
  unfoldable pub report_launch :
      State W × Result Fail LaunchSession → State W × Result Fail LaunchSession
  report_launch (s, ok l) = next (emit (launched true) s) (λ _ s'. (s', ok l))
  report_launch (s, err e) = next (emit (launched false) s) (λ _ s'. (s', err e))

  unfoldable pub do_launch : MoonlightIdentity → MoonlightConnectDoc → ℕ → M (State W) LaunchSession
  unfolding report_launch
  do_launch id doc app_id s = report_launch (
      outside (Requests.launch d.net id doc.host doc.https_port app_id doc.width doc.height doc.fps)
        s)

  -- What is left to do when `LiStartConnection` returns with its code.
  unfoldable pub started : State W → ℤ → State W × Result Fail (Unit {0})
  started s (pos zero) = emit (stream_started true) s
  started s rc = (
    record s { globals = drop_sink s.globals; log = stream_started false ∷ s.log },
    err (error (bytes "LiStartConnection failed (code " ++ (signed rc ++ (b')' ∷ [])))),
  )

  -- `stream::start_stream`: the sink is installed first, and an early return leaves it.
  unfoldable pub start_stream : StreamOptions → M (State W) (Unit {0})
  unfolding started
  start_stream opts s =
      let s1 : State W = record s { globals = install_sink s.globals } in
      elim (nul_error opts) [
        | some e ↦ (record s1 { log = stream_started false ∷ s1.log }, err (error e))
        | none ↦
            let (w, rc) = d.li_start (connection opts) s1.world in
            let s2 : State W = observe (record s1 { world = w }) in started s2 rc
      ]

  -- The loop that hands units to the frame sink, and what ends it.
  unfoldable pub pump : ℕ → MoonlightConnectDoc → M (State W) Ended
  pump zero doc s = (s, ok still_running)
  pump (suc f) doc s =
      let s1 = observe s in
      elim (s1.stop) [
        | true ↦ (s1, ok ended)
        | false ↦
            let s2 = observe s1 in
            elim (is_terminated s2.globals) [
              | true ↦ next (stop_stream s2) (λ _. fail host_terminated)
              | false ↦
                  let s3 = observe s2 in
                  elim (s3.globals.queue) [
                    | u ∷ rest ↦
                        let s4 : State W = record s3 {
                          globals = record (s3.globals) { queue = rest };
                          log = frame (frame_update doc u) ∷ s3.log;
                        } in
                        pump f doc s4
                    | [] ↦ elim (s3.globals.video_sink) [
                      | some Owner.ours ↦ pump f doc s3
                      | some Owner.theirs ↦ (s3, ok ended)
                      | none ↦ (s3, ok ended)
                    ]
                  ]
            ]
      ]

  -- The error of a stream that does not start, once the host is released.
  unfoldable pub or_release :
      MoonlightIdentity
      → MoonlightConnectDoc
      → State W × Result Fail (Unit {0})
      → State W × Result Fail (Unit {0})
  or_release id doc (s, ok u) = (s, ok u)
  or_release id doc (s, err e) = next (release_host id doc s) (λ _ s'. (s', err e))

  -- After the loop; a loop that still runs has not got there.
  unfoldable pub finish : MoonlightIdentity → MoonlightConnectDoc → Ended → M (State W) Ended
  finish id doc still_running = pure still_running
  finish id doc ended = do stop_stream; release_host id doc; pure ended

  -- From the launch on.
  unfoldable pub stream_app :
      ℕ → MoonlightIdentity → MoonlightConnectDoc → ServerInfo → HostApp → M (State W) Ended
  unfolding or_release finish
  stream_app fuel id doc si app = do
    emit (service_message (bytes "Launching " ++ (app.title ++ bytes " …")))
    launch ← do_launch id doc app.id
    λ s. or_release id doc (start_stream (stream_options doc si launch) s)
    emit ready
    emit (service_message (bytes "Connected"))
    e ← pump fuel doc
    finish id doc e

  -- After pairing, unless the session was stopped meanwhile.
  unfoldable pub run_paired :
      ℕ → MoonlightIdentity → MoonlightConnectDoc → ServerInfo → Bool → M (State W) Ended
  run_paired fuel id doc si true = pure ended
  run_paired fuel id doc si false = do
    apps ← outside (Requests.app_list d.net id doc.host doc.https_port)
    app ← lift (ok_or (choose_app apps) (error (bytes "host exposes no launchable apps")))
    stream_app fuel id doc si app

  unfoldable pub run_moonlight : ℕ → MoonlightConnectDoc → M (State W) Ended
  run_moonlight fuel doc = do
    id ← get_identity doc
    outside (λ w. let (w', e) = d.runtime w in (w', runtime_error e))
    emit (service_message (bytes "Connecting to " ++ (doc.host ++ bytes " …")))
    si ← get_server_info id doc
    pair_if_needed id doc (si.pair_status == 0)
    stopped ← load_stop
    run_paired fuel id doc si stopped

  -- The worker thread: every outcome is reported once, a panic with its message.
  unfoldable pub report_outcome : State W × Result Fail Ended → State W × Ended
  report_outcome (s, ok still_running) = (s, still_running)
  report_outcome (s, ok ended) = (record s { log = closed (bytes "session ended") ∷ s.log }, ended)
  report_outcome (s, err (error e)) = (record s { log = closed e ∷ s.log }, ended)
  report_outcome (s, err (panic m)) =
      (record s { log = closed (bytes "internal error: " ++ m) ∷ s.log }, ended)

  unfoldable pub session_thread : ℕ → MoonlightConnectDoc → State W → State W × Ended
  unfolding report_outcome
  session_thread fuel doc s = report_outcome (run_moonlight fuel doc s)
