-- ===== src/Proto/Framing/Header.antt =====
-- The 26-byte FRAME header: PROTOCOL.md's layout read back from what `Writer::frame` builds.
use tempest_addon_moonlight.Base.{
  ℕ, ◌+◌, ◌*◌, ◌/◌, ◌%◌, ◌<◌, ◌≡◌, refl, Bool, true, false, List, arith, ◌==◌, take, drop, le_bytes,
  from_le_bytes, u16_mod, u32_mod,
}
use tempest_addon_moonlight.Proto.Framing.{u8_from_bool, frame_bytes}

-- The host's view of a FRAME payload.
pub record FrameHeader : Type 0 where
  pub session : ℕ
  pub frame_id : ℕ
  pub codec : ℕ
  pub key : Bool
  pub width : ℕ
  pub height : ℕ
  pub rect : ℕ × ℕ × ℕ × ℕ
  pub src : ℕ × ℕ

-- A field of `w` bytes at byte `i`.
abbrev pub field : ℕ → ℕ → List ℕ → ℕ
field i w p = from_le_bytes (take w (drop i p))

-- The header at the offsets of PROTOCOL.md; bit 0 of the flags is the keyframe.
abbrev pub decode_header : List ℕ → FrameHeader
decode_header p = record {
  session = field 0 4 p;
  frame_id = field 4 4 p;
  codec = field 8 1 p;
  key = (field 9 1 p) % 2 == 1;
  width = field 10 2 p;
  height = field 12 2 p;
  rect = (field 14 2 p, field 16 2 p, field 18 2 p, field 20 2 p);
  src = (field 22 2 p, field 24 2 p);
}

pub record InRange (f : FrameHeader) : Type 0 where
  pub session : f.session < u32_mod
  pub frame_id : f.frame_id < u32_mod
  pub codec : f.codec < 256
  pub width : f.width < u16_mod
  pub height : f.height < u16_mod
  pub x : f.rect.0 < u16_mod
  pub y : f.rect.1 < u16_mod
  pub w : f.rect.2 < u16_mod
  pub h : f.rect.3 < u16_mod
  pub sx : f.src.0 < u16_mod
  pub sy : f.src.1 < u16_mod

abbrev pub encode_header : FrameHeader → List ℕ → List ℕ
encode_header h payload =
    frame_bytes h.session h.frame_id h.codec h.key h.width h.height h.rect h.src payload

le_two : (v : ℕ) → v < u16_mod → v % 256 + 256 * (v / 256 % 256 + 256 * 0) ≡ v
le_two v h = omega arith

le_four :
    (v : ℕ)
    → v < u32_mod
    → v % 256
        + 256
          * (v / 256 % 256
              + 256 * (v / 256 / 256 % 256 + 256 * (v / 256 / 256 / 256 % 256 + 256 * 0)))
      ≡ v
le_four v h = omega arith

key_bit : (k : Bool) → ((u8_from_bool k + 256 * 0) % 2 == 1) ≡ k
unfolding u8_from_bool
key_bit true = refl
key_bit false = refl

low_byte : (v : ℕ) → v + 256 * 0 ≡ v
low_byte v = omega arith

-- The host reads back every field that `frame` was given, and the data behind byte 26.
pub decode_header-frame_bytes :
    (h : FrameHeader) (payload : List ℕ)
    → InRange h
    → (decode_header (encode_header h payload) ≡ h) × (drop 26 (encode_header h payload) ≡ payload)
unfolding frame_bytes from_le_bytes le_bytes
decode_header-frame_bytes h payload r = (same, refl)
  where
    same : decode_header (encode_header h payload) ≡ h
    same = λ i. record {
      session = le_four h.session r.session i;
      frame_id = le_four h.frame_id r.frame_id i;
      codec = low_byte h.codec i;
      key = key_bit h.key i;
      width = le_two h.width r.width i;
      height = le_two h.height r.height i;
      rect = (
        le_two h.rect.0 r.x i,
        le_two h.rect.1 r.y i,
        le_two h.rect.2 r.w i,
        le_two h.rect.3 r.h i,
      );
      src = (le_two h.src.0 r.sx i, le_two h.src.1 r.sy i);
    }
