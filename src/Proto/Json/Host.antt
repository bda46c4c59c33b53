-- ===== src/Proto/Json/Host.antt =====
-- The host's side of the control messages of crates/moonlight-addon/src/proto.rs, as PROTOCOL.md gives it.
use tempest_addon_moonlight.Base.{ℕ, ◌<◌, Bool, Option, none, some, [], ◌∷◌, Text, bytes}
use tempest_addon_moonlight.Proto.Messages.{ConnectDoc, Mods, InputMsg, HostMsg, DocFields}
use tempest_addon_moonlight.Proto.Json.{number}
use tempest_addon_moonlight.Proto.Value.{num, str, bool, obj}
use tempest_addon_moonlight.Proto.Value.{Json, text, u8, u16, u32}
use tempest_addon_moonlight.Transport.{F32}
use tempest_addon_moonlight.Proto.Json.Slots.{Slots, object}

unfoldable pub opt_flag : Option Bool → Option Json
opt_flag none = none
opt_flag (some b) = some (bool b)

unfoldable pub opt_text : Option Text → Option Json
opt_text none = none
opt_text (some t) = some (str t)

-- A doc that sets every field.
unfoldable pub all_fields : ConnectDoc → DocFields
all_fields d = record {
  host = d.host;
  http_port = some d.http_port;
  https_port = some d.https_port;
  width = some d.width;
  height = some d.height;
  fps = some d.fps;
  bitrate_kbps = some d.bitrate_kbps;
  use_hevc = some d.use_hevc;
  client_unique_id = some d.client_unique_id;
  client_cert_pem = some d.client_cert_pem;
  client_key_pem = some d.client_key_pem;
}

-- A field that is left out, or whose value is below a bound.
unfoldable pub Fits : ℕ → Option ℕ → Type 0
Fits top none = Unit
Fits top (some n) = n < top

unfoldable pub mods_slots : Mods → Slots
mods_slots m =
    (bytes "ctrl", some (bool m.ctrl))
    ∷ (bytes "alt", some (bool m.alt))
    ∷ (bytes "shift", some (bool m.shift))
    ∷ (bytes "meta", some (bool m.meta))
    ∷ []

-- The fields of a doc are within their types.
unfoldable pub DocFits : DocFields → Type 0
unfolding Fits
DocFits f =
    Fits u16 f.http_port
    × Fits u16 f.https_port
    × Fits u16 f.width
    × Fits u16 f.height
    × Fits u16 f.fps
    × Fits u32 f.bitrate_kbps

-- The numbers of a message are within their types.
unfoldable pub InputFits : InputMsg → Type 0
InputFits (InputMsg.pointer x y buttons) = (x < u16) × (y < u16) × (buttons < u8)
InputFits (InputMsg.wheel x y dx dy) = (x < u16) × (y < u16)
InputFits (InputMsg.key down code ch m) = Unit
InputFits (InputMsg.clipboard text) = Unit

unfoldable pub HostFits : HostMsg → Type 0
unfolding InputFits DocFits all_fields
HostFits (HostMsg.hello abi version) = abi < u32
HostFits (HostMsg.connect session doc) = (session < u32) × DocFits (all_fields doc)
HostFits (HostMsg.input session i) = (session < u32) × InputFits i
HostFits (HostMsg.resize session width height) = (session < u32) × (width < u16) × (height < u16)
HostFits (HostMsg.frame_ack session frame_id) = (session < u32) × (frame_id < u32)
HostFits (HostMsg.close session) = session < u32
HostFits HostMsg.shutdown = Unit

-- How the host writes its numbers is its own choice: `as_f32 n` is what an integer is as an `f32`, and
-- `as_uint d` whether it writes `d` as an integer.
module _ (as_f32 : ℕ → F32) (as_uint : F32 → Option ℕ) where
  unfoldable pub real : F32 → Json
  real d = num (record { uint = as_uint d; as_f32 = d })

  unfoldable pub opt_num : Option ℕ → Option Json
  opt_num none = none
  opt_num (some n) = some (number as_f32 n)

  -- PROTOCOL.md, `doc`: all fields but `host` optional.
  unfoldable pub doc_slots : DocFields → Slots
  unfolding opt_num opt_flag opt_text
  doc_slots f =
      (bytes "host", some (str f.host))
      ∷ (bytes "httpPort", opt_num f.http_port)
      ∷ (bytes "httpsPort", opt_num f.https_port)
      ∷ (bytes "width", opt_num f.width)
      ∷ (bytes "height", opt_num f.height)
      ∷ (bytes "fps", opt_num f.fps)
      ∷ (bytes "bitrateKbps", opt_num f.bitrate_kbps)
      ∷ (bytes "useHevc", opt_flag f.use_hevc)
      ∷ (bytes "clientUniqueId", opt_text f.client_unique_id)
      ∷ (bytes "clientCertPem", opt_text f.client_cert_pem)
      ∷ (bytes "clientKeyPem", opt_text f.client_key_pem)
      ∷ []

  -- PROTOCOL.md, `input` kinds.
  unfoldable pub input_slots : InputMsg → Slots
  unfolding mods_slots real opt_text object
  input_slots (InputMsg.pointer x y buttons) =
      (bytes "kind", some (str (bytes "pointer")))
      ∷ (bytes "x", some (number as_f32 x))
      ∷ (bytes "y", some (number as_f32 y))
      ∷ (bytes "buttons", some (number as_f32 buttons))
      ∷ []
  input_slots (InputMsg.wheel x y dx dy) =
      (bytes "kind", some (str (bytes "wheel")))
      ∷ (bytes "x", some (number as_f32 x))
      ∷ (bytes "y", some (number as_f32 y))
      ∷ (bytes "dx", some (real dx))
      ∷ (bytes "dy", some (real dy))
      ∷ []
  input_slots (InputMsg.key down code ch m) =
      (bytes "kind", some (str (bytes "key")))
      ∷ (bytes "down", some (bool down))
      ∷ (bytes "code", some (str code))
      ∷ (bytes "ch", opt_text ch)
      ∷ (bytes "mods", some (obj (object (mods_slots m))))
      ∷ []
  input_slots (InputMsg.clipboard text) =
      (bytes "kind", some (str (bytes "clipboard"))) ∷ (bytes "text", some (str text)) ∷ []

  -- The object of a `connect` whose doc sets only some of the fields.
  unfoldable pub connect_slots : ℕ → DocFields → Slots
  unfolding doc_slots object
  connect_slots session f =
      (bytes "t", some (str (bytes "connect")))
      ∷ (bytes "session", some (number as_f32 session))
      ∷ (bytes "doc", some (obj (object (doc_slots f))))
      ∷ []

  -- PROTOCOL.md, Host → addon.
  unfoldable pub host_slots : HostMsg → Slots
  unfolding input_slots connect_slots
  host_slots (HostMsg.hello abi version) =
      (bytes "t", some (str (bytes "hello")))
      ∷ (bytes "abi", some (number as_f32 abi))
      ∷ (bytes "hostVersion", some (str version))
      ∷ []
  host_slots (HostMsg.connect session doc) = connect_slots session (all_fields doc)
  host_slots (HostMsg.input session i) =
      (bytes "t", some (str (bytes "input")))
      ∷ (bytes "session", some (number as_f32 session))
      ∷ input_slots i
  host_slots (HostMsg.resize session width height) =
      (bytes "t", some (str (bytes "resize")))
      ∷ (bytes "session", some (number as_f32 session))
      ∷ (bytes "width", some (number as_f32 width))
      ∷ (bytes "height", some (number as_f32 height))
      ∷ []
  host_slots (HostMsg.frame_ack session frame_id) =
      (bytes "t", some (str (bytes "frameAck")))
      ∷ (bytes "session", some (number as_f32 session))
      ∷ (bytes "frameId", some (number as_f32 frame_id))
      ∷ []
  host_slots (HostMsg.close session) =
      (bytes "t", some (str (bytes "close"))) ∷ (bytes "session", some (number as_f32 session)) ∷ []
  host_slots HostMsg.shutdown = (bytes "t", some (str (bytes "shutdown"))) ∷ []

  unfoldable pub encode_host : HostMsg → Json
  unfolding host_slots object
  encode_host m = obj (object (host_slots m))
