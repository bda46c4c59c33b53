-- ===== src/Tests/Json.antt =====
-- The JSON of the control messages at concrete inputs.
use tempest_addon_moonlight.Base.{
  ℕ, zero, suc, ◌≡◌, refl, true, false, none, some, List, [], ◌∷◌, Text, bytes, text_eq, arith,
  if◌then◌else◌, Result, ok,
}
use tempest_addon_moonlight.Proto.Messages.{
  EventMsg, InputMsg, HostMsg, AddonMsg, DocFields, fill_defaults,
}
use tempest_addon_moonlight.Proto.Json.{
  decode_host, host_msg, encode_addon, number, connect_doc, doc_fields,
}
use tempest_addon_moonlight.Proto.Value.{str, obj, end, field}
use tempest_addon_moonlight.Proto.Value.{Json, Fields, required, lookup, text, uint}
use tempest_addon_moonlight.Proto.Json.Slots.{object}
use tempest_addon_moonlight.Proto.Json.Host.{
  connect_slots, encode_host, host_slots, DocFits, Fits, InputFits, HostFits,
}
use tempest_addon_moonlight.Proto.Json.Incoming.{decode_host-connect, decode_host-encode_host}
use tempest_addon_moonlight.Proto.Json.Outgoing.{AddonFits, read_addon, read_addon-encode_addon}
use tempest_addon_moonlight.Proto.Framing.{abi}
use tempest_addon_moonlight.Proto.Framing.RoundTrip.{reader}
use tempest_addon_moonlight.Addon.Output.{send}
use tempest_addon_moonlight.Addon.Output.Wire.{healthy}
use tempest_addon_moonlight.Addon.Run.{Env, run, no_sessions}
use tempest_addon_moonlight.Addon.Run.Stream.{
  from_json, handle_all, Packet, packet, unknown, messages, Travels, Sent, host_stream,
  run-messages,
}
use tempest_addon_moonlight.Base.{All, ◌++◌}
use tempest_addon_moonlight.Base.Options.{◌>>=◌}
use tempest_addon_moonlight.Proto.Framing.RoundTrip.{Fits as IsSmall}
use tempest_addon_moonlight.Session.State.{Event}
use tempest_addon_moonlight.Session.Engine.{session_thread}
use tempest_addon_moonlight.Session.Lifecycle.{phase_of}
use tempest_addon_moonlight.Session.Lifecycle.Close.{NotClosed}
use tempest_addon_moonlight.Session.Lifecycle.Stop.{session_thread-stops}
use tempest_addon_moonlight.Addon.Output.{addon_msg, callback, close_error}
use tempest_addon_moonlight.Addon.Output.Wire
use tempest_addon_moonlight.Addon.Output.Wire.{step_messages}
use tempest_addon_moonlight.Addon.Output.Heard.{
  error_of, Arrives, said, heard, hear_all, read_of, log_of, session_thread-heard,
}
use tempest_addon_moonlight.Tests.Session.{life, set_soon}
use tempest_addon_moonlight.Tests.World.{deps, initial, doc}
use tempest_addon_moonlight.Transport.{F32, finite}

abbrev whole : ℕ → F32
whole n = finite false n

abbrev only_host : DocFields
only_host = record {
  host = bytes "10.0.0.2";
  http_port = none;
  https_port = some 443;
  width = none;
  height = none;
  fps = none;
  bitrate_kbps = none;
  use_hevc = none;
  client_unique_id = none;
  client_cert_pem = none;
  client_key_pem = none;
}

decode_host-connect_example :
    decode_host (obj (object (connect_slots whole (λ d. none) 7 only_host)))
    ≡ some (HostMsg.connect 7 (fill_defaults only_host))
unfolding DocFits Fits
decode_host-connect_example =
    decode_host-connect whole (λ d. none) 7 only_host (omega arith)
      (tt, omega arith, tt, tt, tt, tt)

abbrev key_press : HostMsg
key_press = HostMsg.input 3 (
    InputMsg.key true (bytes "KeyA") (some (bytes "A"))
      (record { ctrl = false; alt = false; shift = true; meta = false }))

decode_host-encode_host_example :
    decode_host (encode_host whole (λ d. none) key_press) ≡ some key_press
unfolding HostFits InputFits
decode_host-encode_host_example =
    decode_host-encode_host whole (λ d. none) key_press (omega arith, tt)

abbrev closed : AddonMsg
closed = AddonMsg.session_closed 3 (some (bytes "lost"))

read_addon-encode_addon_example : read_addon (encode_addon whole closed) ≡ some closed
unfolding AddonFits
read_addon-encode_addon_example = read_addon-encode_addon whole closed (omega arith)

-- A port that is no `u16`, a missing host, an unknown tag, and a session that stands there twice.
refused :
    (decode_host (
        obj (
          field (bytes "t") (str (bytes "resize")) (
            field (bytes "session") (number whole 1) (
              field
                (bytes "width")
                (number whole 65536)
                (field (bytes "height") (number whole 1) end)))))
      ≡ none)
    × (decode_host (
          obj (
            field
              (bytes "t")
              (str (bytes "connect"))
              (field (bytes "session") (number whole 1) (field (bytes "doc") (obj end) end))))
        ≡ none)
    × (decode_host (
          obj (
            field (bytes "t") (str (bytes "Close")) (field (bytes "session") (number whole 1) end)))
        ≡ none)
    × (decode_host (
          obj (
            field (bytes "t") (str (bytes "close")) (
              field
                (bytes "session")
                (number whole 1)
                (field (bytes "session") (number whole 1) end))))
        ≡ none)
unfolding decode_host host_msg required lookup text_eq bytes text uint connect_doc doc_fields
refused = (refl, refl, refl, refl)

-- A JSON text of two messages: a hello is written [1], anything else [2] and read as a close.
abbrev parse : List ℕ → Result Text Json
parse (suc zero ∷ p) = ok (encode_host whole (λ d. none) (HostMsg.hello 1 []))
parse p = ok (encode_host whole (λ d. none) (HostMsg.close 7))

show_fields : Fields → List ℕ
show_fields (field k (str t) fs) = if text_eq t (bytes "hello") then 1 ∷ [] else 2 ∷ []
show_fields _ = []

show : Json → List ℕ
unfolding show_fields
show (obj o) = show_fields o
show _ = []

abbrev env : Env
env = record {
  from_slice = λ p. from_json (parse p);
  to_vec = λ m. ok (1 ∷ []);
  debug = λ m. [];
  addon_version = bytes "1";
  spawns = λ n. true;
}

abbrev packets : List Packet
packets = unknown 2 (0 ∷ []) ∷ packet (HostMsg.close 7) ∷ []

hello-Travels : Travels env parse show whole (λ d. none) (HostMsg.hello abi [])
unfolding HostFits show encode_host host_slots object bytes text_eq
hello-Travels = record { fits = omega arith; parsed = refl; small = omega arith }

close-Travels : Travels env parse show whole (λ d. none) (HostMsg.close 7)
unfolding HostFits show encode_host host_slots object bytes text_eq
close-Travels = record { fits = omega arith; parsed = refl; small = omega arith }

run-messages_example :
    run 4 env
      (reader
        (host_stream env parse show whole (λ d. none) (packet (HostMsg.hello abi []) ∷ packets))
        none)
      (healthy (λ m. []) 0 [])
    ≡ some (
      handle_all env (messages packets) no_sessions,
      send env.to_vec
          (healthy (λ m. []) 0 [])
          (AddonMsg.ready env.addon_version (bytes "moonlight" ∷ [])),
      ok tt,
    )
unfolding Sent
run-messages_example =
    run-messages env parse show whole (λ d. none) (λ p. refl) 4 [] packets (healthy (λ m. []) 0 [])
      hello-Travels ((omega arith, omega arith), (close-Travels, tt)) (omega arith)

-- A JSON text of the messages of a session's life by their first byte, with the line of a service message.
abbrev print : AddonMsg → List ℕ
print (AddonMsg.event session (EventMsg.service_message line)) = 0 ∷ line
print (AddonMsg.event session e) = 1 ∷ []
print (AddonMsg.session_ready session w h) = 2 ∷ []
print m = 3 ∷ []

abbrev parse_addon : List ℕ → Result Text Json
parse_addon (zero ∷ line) =
    ok (encode_addon whole (AddonMsg.event 3 (EventMsg.service_message line)))
parse_addon (suc zero ∷ t) = ok (
    encode_addon whole
      (AddonMsg.event 3 (EventMsg.identity (bytes "0303030303030303") (1 ∷ []) (2 ∷ []))))
parse_addon (suc (suc zero) ∷ t) = ok (encode_addon whole (AddonMsg.session_ready 3 0 0))
parse_addon t = ok (encode_addon whole (AddonMsg.session_closed 3 none))

life-Fits : All IsSmall (Wire.messages print 3 (session_thread deps 9 doc initial).0.log)
unfolding Wire.messages step_messages callback addon_msg bytes
life-Fits =
    rw life
      (omega arith, (omega arith, (omega arith, (omega arith, (omega arith, (omega arith, tt))))))

life-Arrives : All (Arrives parse_addon print whole 3) (session_thread deps 9 doc initial).0.log
unfolding Arrives callback addon_msg close_error text_eq bytes
life-Arrives = rw life (refl, (tt, (tt, (refl, (refl, (tt, (tt, (refl, (refl, (refl, tt))))))))))

session_thread-heard_example :
    (t : Text) × (rest : List Event) × All NotClosed rest
    × ((read_of deps parse_addon print whole 3 (log_of deps parse_addon print whole 3 9 doc initial)
          >>= hear_all parse_addon)
        ≡ some (heard 3 rest ++ (said (AddonMsg.session_closed 3 (error_of t)) ∷ [])))
unfolding phase_of
session_thread-heard_example =
    session_thread-heard deps parse_addon print whole 3 9 doc initial refl
      (session_thread-stops deps 2 9 (omega arith) set_soon doc initial refl).0 (omega arith)
      life-Fits life-Arrives
