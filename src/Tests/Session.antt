-- ===== src/Tests/Session.antt =====
-- The session of crates/moonlight-core at the small host.
use tempest_addon_moonlight.Base.{
  length, ◌%◌, some, ◌≡◌, refl, Bool, true, false, [], ◌∷◌, bytes, replicate, arith, ok, text_eq,
  decimal, decimal_loop, le_bytes, from_le_bytes, be_bytes, from_be_bytes, neg,
}
use tempest_addon_moonlight.Nvhttp.Pairing.Handshake.{Handshake, pair_iff}
use tempest_addon_moonlight.Session.State.{Event, ended}
use tempest_addon_moonlight.Str.{
  strip_prefix, starts_with, find, contains, trim_start, trim_end, trim,
}
use tempest_addon_moonlight.Str.Number.{parse_uint}
use tempest_addon_moonlight.Nvhttp.Hex.{
  to_hex, to_hex_lower, hex_value, hex_pair, is_boundary, from_hex_pairs, from_hex,
}
use tempest_addon_moonlight.Nvhttp.Xml.{
  between, xml_tag, parse_server_info, split, parse_app, parse_app_list, launch_started,
  is_paired_reply, is_status_200,
}
use tempest_addon_moonlight.Nvhttp.Requests.{
  uuid_text, aes_iv, key_id, launch_url, plain_url, checked, new_uuid, https_client, https_get,
  server_info_https, app_list, cancel, launch, rand16,
}
use tempest_addon_moonlight.Nvhttp.Pairing.{
  pair_url, aes_ecb, pair_req, get_server_cert, client_challenge, server_challenge_resp,
  check_server, client_pairing_secret, pair,
}
use tempest_addon_moonlight.Identity.{
  make_key, make_name, make_serial, give, make_date, built_by, give_names, give_dates, make_cert,
  to_identity, generate_inner, generate, cert_hex,
}
use tempest_addon_moonlight.Stream.{
  to_unit, dr_submit, is_terminated, connection, nul_error, install_sink, drop_sink,
}
use tempest_addon_moonlight.Session.Doc.{new_doc, restore_identity}
use tempest_addon_moonlight.Session.Plan.{
  runtime_error, choose_app, eq_ignore_ascii_case, frame_update, stream_options,
}
use tempest_addon_moonlight.Session.State.{apply_async, apply_all, emit, outside, or_else}
use tempest_addon_moonlight.Session.Engine.{
  observe, load_stop, get_identity, get_server_info, pair_if_needed, stop_stream, report_cancel,
  release_host, report_launch, do_launch, started, start_stream, pump, or_release, finish,
  stream_app, run_paired, run_moonlight, report_outcome, session_thread,
}
use tempest_addon_moonlight.Session.Lifecycle.{IsAccepted, over, phase_of}
use tempest_addon_moonlight.Session.Lifecycle.Run.{session_thread-IsAccepted}
use tempest_addon_moonlight.Session.Lifecycle.Stop.{has_stop, stops, session_thread-stops}
use tempest_addon_moonlight.Nvhttp.Requests.Launch.{IsKeyed, launch-IsKeyed}
use tempest_addon_moonlight.Session.Doc.{pin_text}
use tempest_addon_moonlight.Session.Doc.Pin.{pin_text_lem}
use tempest_addon_moonlight.Tests.World.{
  granted, net_of, crypto_of, pairing_reply, identity, deps, initial, doc,
}

session_thread-IsAccepted_example : IsAccepted (session_thread deps 9 doc initial)
unfolding phase_of
session_thread-IsAccepted_example = session_thread-IsAccepted deps 9 doc initial refl

pub set_soon : (w : Bool) → stops deps 2 w ≡ true
unfolding stops has_stop
set_soon true = refl
set_soon false = refl

session_thread-stops_example :
    ((session_thread deps 9 doc initial).1 ≡ ended)
    × (phase_of (session_thread deps 9 doc initial).0.log ≡ over)
unfolding phase_of
session_thread-stops_example = session_thread-stops deps 2 9 (omega arith) set_soon doc initial refl

-- A host that is paired: the whole life of a session.
pub life :
    (session_thread deps 9 doc initial).0.log
    ≡ Event.closed (bytes "session ended")
      ∷ Event.cancelled true
      ∷ Event.stream_stopped
      ∷ Event.service_message (bytes "Connected")
      ∷ Event.ready
      ∷ Event.stream_started true
      ∷ Event.launched true
      ∷ Event.service_message (bytes "Launching Desktop …")
      ∷ Event.service_message (bytes "Connecting to host …")
      ∷ Event.identity_learned (bytes "0303030303030303") (1 ∷ []) (2 ∷ [])
      ∷ []
unfolding bytes decimal decimal_loop le_bytes from_le_bytes be_bytes from_be_bytes neg text_eq
    strip_prefix starts_with find contains trim_start trim_end trim parse_uint to_hex to_hex_lower
    hex_value hex_pair is_boundary from_hex_pairs from_hex between xml_tag parse_server_info split
    parse_app parse_app_list launch_started is_paired_reply is_status_200 uuid_text aes_iv key_id
    launch_url plain_url checked new_uuid https_client https_get server_info_https app_list cancel
    launch rand16 make_key make_name make_serial give make_date built_by give_names give_dates
    make_cert to_identity generate_inner generate cert_hex to_unit dr_submit is_terminated
    connection nul_error install_sink drop_sink new_doc restore_identity runtime_error choose_app
    eq_ignore_ascii_case frame_update stream_options apply_async apply_all emit outside or_else
    observe load_stop get_identity get_server_info pair_if_needed stop_stream report_cancel
    release_host report_launch do_launch started start_stream pump or_release finish stream_app
    run_paired run_moonlight report_outcome session_thread
life = refl

pair_iff_example :
    (pair (net_of pairing_reply) (crypto_of 0) identity (bytes "h") 47989 [] [] true ≡ (true, ok tt)
      → Handshake (net_of pairing_reply) (crypto_of 0) identity (bytes "h") 47989 [] [] true true)
    × (Handshake (net_of pairing_reply) (crypto_of 0) identity (bytes "h") 47989 [] [] true true
        → pair (net_of pairing_reply) (crypto_of 0) identity (bytes "h") 47989 [] [] true
          ≡ (true, ok tt))
pair_iff_example =
    pair_iff (net_of pairing_reply) (crypto_of 0) identity (bytes "h") 47989 [] [] true true

-- The small host pairs.
paired :
    pair (net_of pairing_reply) (crypto_of 0) identity (bytes "h") 47989 [] [] true ≡ (true, ok tt)
unfolding bytes decimal decimal_loop le_bytes from_le_bytes be_bytes from_be_bytes neg text_eq
    strip_prefix starts_with find contains trim_start trim_end trim parse_uint to_hex to_hex_lower
    hex_value hex_pair is_boundary from_hex_pairs from_hex between xml_tag parse_server_info split
    parse_app parse_app_list launch_started is_paired_reply is_status_200 uuid_text aes_iv key_id
    launch_url plain_url checked new_uuid https_client https_get server_info_https app_list cancel
    launch rand16 pair_url aes_ecb pair_req get_server_cert client_challenge server_challenge_resp
    check_server client_pairing_secret pair make_key make_name make_serial give make_date built_by
    give_names give_dates make_cert to_identity generate_inner generate cert_hex
paired = refl

launched :
    launch (net_of granted) identity (bytes "h") 47984 7 1920 1080 60 true
    ≡ (true, ok (record { aes_key = replicate 16 7; aes_key_id = 117901063 }))
unfolding bytes decimal decimal_loop le_bytes from_le_bytes be_bytes from_be_bytes text_eq
    strip_prefix starts_with find contains trim_start trim_end trim to_hex to_hex_lower between
    xml_tag launch_started is_status_200 uuid_text key_id launch_url checked new_uuid https_client
    https_get launch rand16
launched = refl

launch-IsKeyed_example : IsKeyed (record { aes_key = replicate 16 7; aes_key_id = 117901063 })
launch-IsKeyed_example =
    launch-IsKeyed (net_of granted) identity (bytes "h") 47984 7 1920 1080 60 true true _ launched

pin_text_lem_example :
    (length (pin_text (0 ∷ 42 ∷ [])) ≡ 4)
    × (parse_uint 9999 (pin_text (0 ∷ 42 ∷ [])) ≡ some (from_be_bytes (0 ∷ 42 ∷ []) % 10000))
pin_text_lem_example = pin_text_lem (0 ∷ 42 ∷ [])
