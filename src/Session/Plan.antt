-- ===== src/Session/Plan.antt =====
-- The choices that the worker of crates/moonlight-core/src/session.rs makes: the app, the stream's
-- options, the shape of a frame update.
use tempest_addon_moonlight.Base.{
  ℕ, ◌+◌, Bool, true, false, ◌&&◌, Option, none, some, List, [], ◌∷◌, ◌++◌, Text, bytes, ◌==◌, leb,
  if◌then◌else◌, as_i32, Result, ok, err, Fail, error,
}
use tempest_addon_moonlight.Nvhttp.Xml.{ServerInfo, HostApp}
use tempest_addon_moonlight.Nvhttp.Requests.{LaunchSession, aes_iv}
use tempest_addon_moonlight.Session.Doc.{MoonlightConnectDoc}
use tempest_addon_moonlight.Stream.{VideoCodec, VideoUnit, StreamOptions}
use tempest_addon_moonlight.Transport.{FrameCodec, FrameUpdate}

unfoldable pub runtime_error : Option Text → Result Fail (Unit {0})
runtime_error none = ok tt
runtime_error (some e) = err (error (bytes "tokio runtime: " ++ e))

to_lower : ℕ → ℕ
to_lower c = if leb b'A' c && leb c b'Z' then c + 32 else c

-- `eq_ignore_ascii_case`
unfoldable pub eq_ignore_ascii_case : Text → Text → Bool
unfolding to_lower
eq_ignore_ascii_case [] [] = true
eq_ignore_ascii_case [] (b ∷ t) = false
eq_ignore_ascii_case (a ∷ s) [] = false
eq_ignore_ascii_case (a ∷ s) (b ∷ t) = (to_lower a == to_lower b) && eq_ignore_ascii_case s t

find_title : Text → List HostApp → Option HostApp
find_title t [] = none
find_title t (a ∷ as') = if eq_ignore_ascii_case a.title t then some a else find_title t as'

first_app : List HostApp → Option HostApp
first_app [] = none
first_app (a ∷ as') = some a

-- "Desktop", else the first app.
unfoldable pub choose_app : List HostApp → Option HostApp
unfolding find_title first_app
choose_app apps = elim (find_title (bytes "Desktop") apps) [
  | some a ↦ some a
  | none ↦ first_app apps
]

wire_codec : VideoCodec → FrameCodec
wire_codec VideoCodec.h264 = FrameCodec.h264
wire_codec VideoCodec.hevc = FrameCodec.hevc

unfoldable pub frame_update : MoonlightConnectDoc → VideoUnit → FrameUpdate
unfolding wire_codec
frame_update doc u = record {
  codec = wire_codec u.codec;
  frame_id = 0;
  width = doc.width;
  height = doc.height;
  x = 0;
  y = 0;
  w = doc.width;
  h = doc.height;
  key = u.key_frame;
  sx = 0;
  sy = 0;
  payload = u.payload;
}

unfoldable pub stream_options : MoonlightConnectDoc → ServerInfo → LaunchSession → StreamOptions
stream_options doc si launch = record {
  host = doc.host;
  app_version = si.app_version;
  gfe_version = si.gfe_version;
  codec_mode_support = as_i32 si.server_codec_mode_support;
  width = doc.width;
  height = doc.height;
  fps = doc.fps;
  bitrate_kbps = as_i32 doc.bitrate_kbps;
  use_hevc = doc.use_hevc;
  aes_key = launch.aes_key;
  aes_iv = aes_iv launch;
}
