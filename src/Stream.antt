-- ===== src/Stream.antt =====
-- crates/moonlight-core/src/stream.rs: the stream's process-wide state and the callbacks of the C
-- library. `LiStartConnection` and `LiStopConnection` are parameters of its users.
pub mod Callbacks
use tempest_addon_moonlight.Base.{
  ℕ, ◌+◌, ◌*◌, ◌/◌, ◌%◌, ◌^◌, Bool, true, false, Option, none, some, List, [], ◌∷◌, ◌++◌, Text,
  bytes, ◌==◌, if◌then◌else◌, take, ℤ, pos, negsuc,
}

pub data VideoCodec : Type 0 where
  h264 hevc : VideoCodec

pub record VideoUnit : Type 0 where
  pub codec : VideoCodec
  pub key_frame : Bool
  pub payload : List ℕ

pub record StreamOptions : Type 0 where
  pub host : Text
  pub app_version : Text
  pub gfe_version : Text
  pub codec_mode_support : ℤ
  pub width : ℕ
  pub height : ℕ
  pub fps : ℕ
  pub bitrate_kbps : ℤ
  pub use_hevc : Bool
  pub aes_key : List ℕ
  pub aes_iv : List ℕ

-- The sender in `VIDEO_SINK`: the one of this session, or of another one of the process.
pub data Owner : Type 0 where
  ours theirs : Owner

-- `VIDEO_SINK`, `NEGOTIATED_FORMAT` (its bits) and `TERMINATED`, and the units that were sent into
-- this session's channel and not yet received.
pub record Globals : Type 0 where
  pub video_sink : Option Owner
  pub negotiated_format : ℕ
  pub terminated : Bool
  pub queue : List VideoUnit

-- One link of the C buffer list: the readable bytes behind `data`, if it is not null.
pub record Entry : Type 0 where
  pub bytes_at : Option (List ℕ)
  pub len : ℤ

pub record DecodeUnit : Type 0 where
  pub frame_type : ℤ
  pub buffer_list : List Entry

abbrev pub video_format_h264 : ℕ
video_format_h264 = 1

abbrev pub video_format_h265 : ℕ
video_format_h265 = 256

abbrev pub frame_type_idr : ℤ
frame_type_idr = pos 1

entry_bytes : Option (List ℕ) → ℤ → List ℕ
entry_bytes none n = []
entry_bytes (some bs) (pos n) = take n bs
entry_bytes (some bs) (negsuc n) = []

-- The NAL chain as one buffer.
unfoldable pub concat_entries : List Entry → List ℕ
unfolding entry_bytes
concat_entries [] = []
concat_entries (e ∷ es) = entry_bytes e.bytes_at e.len ++ concat_entries es

is_idr : ℤ → Bool
is_idr (pos n) = n == 1
is_idr (negsuc n) = false

-- `NEGOTIATED_FORMAT & VIDEO_FORMAT_H265 != 0`: bit 8.
unfoldable pub negotiated_codec : ℕ → VideoCodec
negotiated_codec format =
    if format / video_format_h265 % 2 == 1 then VideoCodec.hevc else VideoCodec.h264

unfoldable pub to_unit : ℕ → DecodeUnit → VideoUnit
unfolding is_idr negotiated_codec concat_entries
to_unit format du = record {
  codec = negotiated_codec format;
  key_frame = is_idr du.frame_type;
  payload = concat_entries du.buffer_list;
}

-- `dr_submit`; `none` is the null pointer. A unit goes to the sender that is installed.
unfoldable pub dr_submit : Option DecodeUnit → Globals → Globals
unfolding to_unit
dr_submit none g = g
dr_submit (some du) g = elim g.video_sink [
  | none ↦ g
  | some Owner.ours ↦ record g { queue = g.queue ++ (to_unit g.negotiated_format du ∷ []) }
  | some Owner.theirs ↦ g
]

unfoldable pub dr_setup : ℕ → Globals → Globals
dr_setup video_format g = record g { negotiated_format = video_format }

unfoldable pub cl_connection_terminated : Globals → Globals
cl_connection_terminated g = record g { terminated = true }

unfoldable pub is_terminated : Globals → Bool
is_terminated g = g.terminated

-- The fields of `STREAM_CONFIGURATION` and `SERVER_INFORMATION` that `start_stream` sets.
pub record Connection : Type 0 where
  pub address : Text
  pub app_version : Text
  pub gfe_version : Text
  pub codec_mode_support : ℤ
  pub width : ℕ
  pub height : ℕ
  pub fps : ℕ
  pub bitrate : ℤ
  pub packet_size : ℕ
  pub streaming_remotely : ℕ
  pub audio_configuration : ℕ
  pub supported_video_formats : ℕ
  pub client_refresh_rate_x100 : ℕ
  pub color_space : ℕ
  pub color_range : ℕ
  pub encryption_flags : ℕ
  pub remote_input_aes_key : List ℕ
  pub remote_input_aes_iv : List ℕ

-- `(0x3 << 16) | (2 << 8) | 0xCA`: the three do not overlap.
abbrev pub audio_configuration_stereo : ℕ
audio_configuration_stereo = 0x3 * 2 ^ 16 + 2 * 2 ^ 8 + 0xCA

unfoldable pub connection : StreamOptions → Connection
connection opts = record {
  address = opts.host;
  app_version = opts.app_version;
  gfe_version = opts.gfe_version;
  codec_mode_support = opts.codec_mode_support;
  width = opts.width;
  height = opts.height;
  fps = opts.fps;
  bitrate = opts.bitrate_kbps;
  packet_size = 1392;
  streaming_remotely = 2;
  audio_configuration = audio_configuration_stereo;
  supported_video_formats = if opts.use_hevc then video_format_h265 else video_format_h264;
  client_refresh_rate_x100 = opts.fps * 100;
  color_space = 1;
  color_range = 0;
  encryption_flags = 1;
  remote_input_aes_key = take 16 opts.aes_key;
  remote_input_aes_iv = take 16 opts.aes_iv;
}

-- `CString::new` fails on a text with a NUL inside.
has_nul : Text → Bool
has_nul [] = false
has_nul (c ∷ cs) = if c == 0 then true else has_nul cs

unfoldable pub nul_error : StreamOptions → Option Text
unfolding has_nul
nul_error opts =
    if has_nul opts.host
    then some (bytes "host has NUL")
    else if has_nul opts.app_version
    then some (bytes "appver has NUL")
    else if has_nul opts.gfe_version
    then some (bytes "gfever has NUL")
    else none

-- What `start_stream` does before it calls into the C library.
unfoldable pub install_sink : Globals → Globals
install_sink g = record g { video_sink = some Owner.ours; terminated = false }

-- `*VIDEO_SINK = None`
unfoldable pub drop_sink : Globals → Globals
drop_sink g = record g { video_sink = none }
