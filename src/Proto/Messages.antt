-- ===== src/Proto/Messages.antt =====
-- The message types of crates/moonlight-addon/src/proto.rs, and the defaults of the connect doc.
use tempest_addon_moonlight.Base.{ℕ, Bool, false, Option, none, some, List, [], Text}
use tempest_addon_moonlight.Transport.{F32}

pub record ConnectDoc : Type 0 where
  pub host : Text
  pub http_port : ℕ
  pub https_port : ℕ
  pub width : ℕ
  pub height : ℕ
  pub fps : ℕ
  pub bitrate_kbps : ℕ
  pub use_hevc : Bool
  pub client_unique_id : Text
  pub client_cert_pem : Text
  pub client_key_pem : Text

pub record Mods : Type 0 where
  pub ctrl : Bool
  pub alt : Bool
  pub shift : Bool
  pub meta : Bool

pub data InputMsg : Type 0 where
  pointer : ℕ → ℕ → ℕ → InputMsg
  wheel : ℕ → ℕ → F32 → F32 → InputMsg
  key : Bool → Text → Option Text → Mods → InputMsg
  clipboard : Text → InputMsg

pub data HostMsg : Type 0 where
  hello : ℕ → Text → HostMsg
  connect : ℕ → ConnectDoc → HostMsg
  input : ℕ → InputMsg → HostMsg
  resize : ℕ → ℕ → ℕ → HostMsg
  frame_ack : ℕ → ℕ → HostMsg
  close : ℕ → HostMsg
  shutdown : HostMsg

pub data EventMsg : Type 0 where
  service_message : Text → EventMsg
  pair_prompt : Text → Text → EventMsg
  pair_finished : Option Text → EventMsg
  identity : Text → Text → Text → EventMsg

pub data AddonMsg : Type 0 where
  ready : Text → List Text → AddonMsg
  session_ready : ℕ → ℕ → ℕ → AddonMsg
  session_closed : ℕ → Option Text → AddonMsg
  event : ℕ → EventMsg → AddonMsg

abbrev pub d_http_port : ℕ
d_http_port = 47989

abbrev pub d_https_port : ℕ
d_https_port = 47984

abbrev pub d_width : ℕ
d_width = 1920

abbrev pub d_height : ℕ
d_height = 1080

abbrev pub d_fps : ℕ
d_fps = 60

abbrev pub d_bitrate : ℕ
d_bitrate = 20000

-- The fields of a `doc` object as they stand in the JSON: all but `host` may be missing.
pub record DocFields : Type 0 where
  pub host : Text
  pub http_port : Option ℕ
  pub https_port : Option ℕ
  pub width : Option ℕ
  pub height : Option ℕ
  pub fps : Option ℕ
  pub bitrate_kbps : Option ℕ
  pub use_hevc : Option Bool
  pub client_unique_id : Option Text
  pub client_cert_pem : Option Text
  pub client_key_pem : Option Text

abbrev pub unwrap_or {ℓ} : {A : Type ℓ} → Option A → A → A
unwrap_or none d = d
unwrap_or (some a) d = a

-- What the `serde(default)` attributes of `ConnectDoc` put in the place of a missing field.
unfoldable pub fill_defaults : DocFields → ConnectDoc
fill_defaults f = record {
  host = f.host;
  http_port = unwrap_or f.http_port d_http_port;
  https_port = unwrap_or f.https_port d_https_port;
  width = unwrap_or f.width d_width;
  height = unwrap_or f.height d_height;
  fps = unwrap_or f.fps d_fps;
  bitrate_kbps = unwrap_or f.bitrate_kbps d_bitrate;
  use_hevc = unwrap_or f.use_hevc false;
  client_unique_id = unwrap_or f.client_unique_id [];
  client_cert_pem = unwrap_or f.client_cert_pem [];
  client_key_pem = unwrap_or f.client_key_pem [];
}
