-- ===== src/Proto/Json.antt =====
-- The shape of the control messages of crates/moonlight-addon/src/proto.rs as JSON: what the serde
-- attributes of `HostMsg` and `AddonMsg` say. The text of JSON itself is `serde_json`'s. A message is an
-- object; the positional arrays that serde also takes for a struct are left out.
pub mod Slots
pub mod Host
pub mod Incoming
pub mod Outgoing
use tempest_addon_moonlight.Base.{
  ℕ, ◌<◌, ◌^◌, Bool, true, false, Option, none, some, List, [], ◌∷◌, Text, bytes, text_eq, ltb,
  if◌then◌else◌,
}
use tempest_addon_moonlight.Base.Options.{◌>>=◌}
use tempest_addon_moonlight.Proto.Messages.{
  ConnectDoc, Mods, InputMsg, HostMsg, EventMsg, AddonMsg, DocFields, fill_defaults,
}
use tempest_addon_moonlight.Transport.{F32}
use tempest_addon_moonlight.Proto.Value.{
  Fields, Found, Items, Json, Number, arr, below, bool, cons, defaulted, end, f32, field, flag,
  found, lookup, missing, nil, null, num, obj, once, present, required, str, text, text_or_null,
  twice, u16, u32, u8, uint,
}

unfoldable pub doc_fields : Fields → Option DocFields
unfolding present
doc_fields o = do
  host ← required text (lookup (bytes "host") o)
  http_port ← defaulted none (present (uint u16)) (lookup (bytes "httpPort") o)
  https_port ← defaulted none (present (uint u16)) (lookup (bytes "httpsPort") o)
  width ← defaulted none (present (uint u16)) (lookup (bytes "width") o)
  height ← defaulted none (present (uint u16)) (lookup (bytes "height") o)
  fps ← defaulted none (present (uint u16)) (lookup (bytes "fps") o)
  bitrate_kbps ← defaulted none (present (uint u32)) (lookup (bytes "bitrateKbps") o)
  use_hevc ← defaulted none (present flag) (lookup (bytes "useHevc") o)
  client_unique_id ← defaulted none (present text) (lookup (bytes "clientUniqueId") o)
  client_cert_pem ← defaulted none (present text) (lookup (bytes "clientCertPem") o)
  client_key_pem ← defaulted none (present text) (lookup (bytes "clientKeyPem") o)
  some (record {
    host = host;
    http_port = http_port;
    https_port = https_port;
    width = width;
    height = height;
    fps = fps;
    bitrate_kbps = bitrate_kbps;
    use_hevc = use_hevc;
    client_unique_id = client_unique_id;
    client_cert_pem = client_cert_pem;
    client_key_pem = client_key_pem;
  })

unfoldable pub connect_doc : Json → Option ConnectDoc
connect_doc (obj o) = doc_fields o >>= (λ f. some (fill_defaults f))
connect_doc _ = none

abbrev pub no_mods : Mods
no_mods = record { ctrl = false; alt = false; shift = false; meta = false }

unfoldable pub mods : Json → Option Mods
mods (obj o) = do
  ctrl ← defaulted false flag (lookup (bytes "ctrl") o)
  alt ← defaulted false flag (lookup (bytes "alt") o)
  shift ← defaulted false flag (lookup (bytes "shift") o)
  meta ← defaulted false flag (lookup (bytes "meta") o)
  some (record { ctrl = ctrl; alt = alt; shift = shift; meta = meta })
mods _ = none

-- `InputMsg` by its tag `kind`.
unfoldable pub input_msg : Text → Fields → Option InputMsg
input_msg kind o =
    if text_eq kind (bytes "pointer")
    then (do
      x ← required (uint u16) (lookup (bytes "x") o)
      y ← required (uint u16) (lookup (bytes "y") o)
      buttons ← required (uint u8) (lookup (bytes "buttons") o)
      some (InputMsg.pointer x y buttons))
    else if text_eq kind (bytes "wheel")
    then (do
      x ← required (uint u16) (lookup (bytes "x") o)
      y ← required (uint u16) (lookup (bytes "y") o)
      dx ← required f32 (lookup (bytes "dx") o)
      dy ← required f32 (lookup (bytes "dy") o)
      some (InputMsg.wheel x y dx dy))
    else if text_eq kind (bytes "key")
    then (do
      down ← required flag (lookup (bytes "down") o)
      code ← required text (lookup (bytes "code") o)
      ch ← defaulted none text_or_null (lookup (bytes "ch") o)
      m ← defaulted no_mods mods (lookup (bytes "mods") o)
      some (InputMsg.key down code ch m))
    else if text_eq kind (bytes "clipboard")
    then required text (lookup (bytes "text") o) >>= (λ t. some (InputMsg.clipboard t))
    else none

-- `HostMsg` by its tag `t`; the input's fields stand in the same object.
unfoldable pub host_msg : Text → Fields → Option HostMsg
unfolding input_msg
host_msg t o =
    if text_eq t (bytes "hello")
    then (do
      abi ← required (uint u32) (lookup (bytes "abi") o)
      host_version ← defaulted [] text (lookup (bytes "hostVersion") o)
      some (HostMsg.hello abi host_version))
    else if text_eq t (bytes "connect")
    then (do
      session ← required (uint u32) (lookup (bytes "session") o)
      doc ← required connect_doc (lookup (bytes "doc") o)
      some (HostMsg.connect session doc))
    else if text_eq t (bytes "input")
    then (do
      session ← required (uint u32) (lookup (bytes "session") o)
      kind ← required text (lookup (bytes "kind") o)
      input ← input_msg kind o
      some (HostMsg.input session input))
    else if text_eq t (bytes "resize")
    then (do
      session ← required (uint u32) (lookup (bytes "session") o)
      width ← required (uint u16) (lookup (bytes "width") o)
      height ← required (uint u16) (lookup (bytes "height") o)
      some (HostMsg.resize session width height))
    else if text_eq t (bytes "frameAck")
    then (do
      session ← required (uint u32) (lookup (bytes "session") o)
      frame_id ← required (uint u32) (lookup (bytes "frameId") o)
      some (HostMsg.frame_ack session frame_id))
    else if text_eq t (bytes "close")
    then required (uint u32) (lookup (bytes "session") o) >>= (λ s. some (HostMsg.close s))
    else if text_eq t (bytes "shutdown")
    then some HostMsg.shutdown
    else none

-- `Deserialize for HostMsg`; `none` is an error.
unfoldable pub decode_host : Json → Option HostMsg
unfolding host_msg
decode_host (obj o) = required text (lookup (bytes "t") o) >>= (λ t. host_msg t o)
decode_host _ = none

-- A number that is written: every integer of the messages.
abbrev pub number : (ℕ → F32) → ℕ → Json
number as_f32 n = num (record { uint = some n; as_f32 = as_f32 n })

unfoldable pub strings : List Text → Items
strings [] = nil
strings (t ∷ ts) = cons (str t) (strings ts)

-- `skip_serializing_if = "Option::is_none"`
unfoldable pub optional_text : Text → Option Text → Fields → Fields
optional_text k none fs = fs
optional_text k (some t) fs = field k (str t) fs

unfoldable pub event_fields : EventMsg → Fields
event_fields (EventMsg.service_message line) =
    field (bytes "kind") (str (bytes "serviceMessage")) (field (bytes "line") (str line) end)
event_fields (EventMsg.pair_prompt pin url) =
    field (bytes "kind") (str (bytes "pairPrompt"))
      (field (bytes "pin") (str pin) (field (bytes "url") (str url) end))
event_fields (EventMsg.pair_finished e) =
    field (bytes "kind") (str (bytes "pairFinished")) (optional_text (bytes "error") e end)
event_fields (EventMsg.identity unique_id cert_pem key_pem) =
    field (bytes "kind") (str (bytes "identity")) (
      field (bytes "uniqueId") (str unique_id)
        (field (bytes "certPem") (str cert_pem) (field (bytes "keyPem") (str key_pem) end)))

-- `Serialize for AddonMsg`
unfoldable pub encode_addon : (ℕ → F32) → AddonMsg → Json
unfolding strings optional_text event_fields
encode_addon as_f32 (AddonMsg.ready addon_version provides) = obj (
    field (bytes "t") (str (bytes "ready")) (
      field (bytes "addonVersion") (str addon_version)
        (field (bytes "provides") (arr (strings provides)) end)))
encode_addon as_f32 (AddonMsg.session_ready session width height) = obj (
    field (bytes "t") (str (bytes "sessionReady")) (
      field (bytes "session") (number as_f32 session) (
        field (bytes "width") (number as_f32 width)
          (field (bytes "height") (number as_f32 height) end))))
encode_addon as_f32 (AddonMsg.session_closed session e) = obj (
    field (bytes "t") (str (bytes "sessionClosed"))
      (field (bytes "session") (number as_f32 session) (optional_text (bytes "error") e end)))
encode_addon as_f32 (AddonMsg.event session e) = obj (
    field (bytes "t") (str (bytes "event"))
      (field (bytes "session") (number as_f32 session) (event_fields e)))
