-- ===== src/Session/Doc.antt =====
-- The connect doc of crates/moonlight-core/src/session.rs and what is read off it.
pub mod Pin
use tempest_addon_moonlight.Base.{
  ℕ, ◌-◌, ◌%◌, Bool, true, false, ◌||◌, Option, none, some, List, [], ◌∷◌, ◌++◌, Text, bytes,
  decimal, length, replicate, from_be_bytes, if◌then◌else◌,
}
use tempest_addon_moonlight.Identity.{MoonlightIdentity, from_pem}

pub record MoonlightConnectDoc : Type 0 where
  pub host : Text
  pub http_port : ℕ
  pub https_port : ℕ
  pub width : ℕ
  pub height : ℕ
  pub fps : ℕ
  pub bitrate_kbps : ℕ
  pub use_hevc : Bool
  pub client_unique_id : Text
  pub client_cert_pem : Text
  pub client_key_pem : Text

-- `MoonlightConnectDoc::new`
unfoldable pub new_doc : Text → MoonlightConnectDoc
new_doc host = record {
  host = host;
  http_port = 47989;
  https_port = 47984;
  width = 1920;
  height = 1080;
  fps = 60;
  bitrate_kbps = 20000;
  use_hevc = false;
  client_unique_id = [];
  client_cert_pem = [];
  client_key_pem = [];
}

abbrev pub is_empty : Text → Bool
is_empty [] = true
is_empty (c ∷ cs) = false

unfoldable pub restore_identity : MoonlightConnectDoc → Option MoonlightIdentity
unfolding from_pem
restore_identity doc =
    if is_empty doc.client_unique_id
      || (is_empty doc.client_cert_pem || is_empty doc.client_key_pem)
    then none
    else some (from_pem doc.client_unique_id doc.client_cert_pem doc.client_key_pem)

-- `format!("{:04}", u16::from_be_bytes(b) % 10000)`
unfoldable pub pin_text : List ℕ → Text
pin_text b = let d = decimal (from_be_bytes b % 10000) in replicate (4 - length d) b'0' ++ d

unfoldable pub web_ui_url : Text → Text
web_ui_url host = bytes "https://" ++ (host ++ (b':' ∷ decimal 47990))
