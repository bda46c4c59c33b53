-- ===== src/Transport.antt =====
-- crates/moonlight-core/src/transport.rs: the frame and input vocabulary.
-- An `f32` is modelled exactly: a finite one is a whole number of units of 2^-149.
use tempest_addon_moonlight.Base.{ℕ, Bool, Option, List, Text}

pub data FrameCodec : Type 0 where
  raw jpeg png copy h264 hevc : FrameCodec

-- `codec as u8`: the discriminants of the `repr(u8)` enum.
unfoldable pub discriminant : FrameCodec → ℕ
discriminant raw = 0
discriminant jpeg = 1
discriminant png = 2
discriminant copy = 3
discriminant h264 = 4
discriminant hevc = 5

pub record FrameUpdate : Type 0 where
  pub codec : FrameCodec
  pub frame_id : ℕ
  pub width : ℕ
  pub height : ℕ
  pub x : ℕ
  pub y : ℕ
  pub w : ℕ
  pub h : ℕ
  pub key : Bool
  pub sx : ℕ
  pub sy : ℕ
  pub payload : List ℕ

pub record KeyMods : Type 0 where
  pub ctrl : Bool
  pub alt : Bool
  pub shift : Bool
  pub meta : Bool

-- `finite s m` is m * 2^-149, negated if `s`; `inf s` is an infinity of that sign.
pub data F32 : Type 0 where
  finite : Bool → ℕ → F32
  inf : Bool → F32
  nan : F32

pub data RemoteInput : Type 0 where
  pointer : ℕ → ℕ → ℕ → RemoteInput
  wheel : ℕ → ℕ → F32 → F32 → RemoteInput
  key : Bool → Text → Option ℕ → KeyMods → RemoteInput
  clipboard_text : Text → RemoteInput
