-- ===== src/Proto/Framing.antt =====
-- The framing of crates/moonlight-addon/src/proto.rs: `read_message` and `Writer`.
-- `serde_json::to_vec` is a parameter. A `Read` is the bytes that still arrive and how they end; a
-- `Write` is what was written and how many bytes it still takes.
pub mod RoundTrip
pub mod Limits
pub mod Header
use tempest_addon_moonlight.Base.{
  ℕ, suc, ◌+◌, ◌-◌, ◌*◌, ◌%◌, ◌≤◌, ◌<◌, ◌≡◌, Bool, true, false, ◌||◌, Option, none, some, List, [],
  ◌∷◌, ◌++◌, arith, Text, bytes, decimal, u32_mod, ltb, leb, if◌then◌else◌, Result, ok, err, ◌>>=◌,
  ◌>>◌, ok_or, map_err, length, take, drop, le_bytes, from_le_bytes,
}
use tempest_addon_moonlight.Proto.Messages.{AddonMsg}
use tempest_addon_moonlight.Transport.{FrameCodec, discriminant}

abbrev pub kind_control : ℕ
kind_control = 0x01

abbrev pub kind_frame : ℕ
kind_frame = 0x02

abbrev pub abi : ℕ
abi = 1

abbrev pub max_frame_bytes : ℕ
max_frame_bytes = 32 * 1024 * 1024

-- `io::Error`: the kinds that the code tells apart, with the message of the others.
pub data IoError : Type 0 where
  unexpected_eof : IoError
  invalid_data : Text → IoError
  other : Text → IoError

-- The bytes that still come, and the fault after them; `none` is the end of the input.
pub record Reader : Type 0 where
  pub rest : List ℕ
  pub fault : Option Text

at_end : Option Text → IoError
at_end none = unexpected_eof
at_end (some e) = other e

-- `Read::read_exact` of `n` bytes.
unfoldable pub read_exact : ℕ → Reader → Result IoError (List ℕ × Reader)
unfolding at_end
read_exact n r =
    if ltb (length r.rest) n
    then err (at_end r.fault)
    else ok (take n r.rest, record r { rest = drop n r.rest })

implausible : ℕ → Bool
implausible len = ltb len 1 || ltb max_frame_bytes len

abbrev pub implausible_text : ℕ → Text
implausible_text len =
    bytes "implausible message length " ++ (decimal len ++ bytes " — stream desynchronised")

-- The kind and the payload, behind a length that was accepted.
read_body : ℕ → Reader → Result IoError (Option (ℕ × List ℕ) × Reader)
read_body len r = do
  (kind, r1) ← read_exact 1 r
  (payload, r2) ← read_exact (len - 1) r1
  ok (some (from_le_bytes kind, payload), r2)

-- `read_message`: `ok (none, _)` is a clean end.
unfoldable pub read_message : Reader → Result IoError (Option (ℕ × List ℕ) × Reader)
unfolding implausible read_body
read_message r = elim (read_exact 4 r) [
  | ok (len_buf, r1) ↦
      let len = from_le_bytes len_buf in
      if implausible len then err (invalid_data (implausible_text len)) else read_body len r1
  | err unexpected_eof ↦ ok (none, r)
  | err (invalid_data t) ↦ err (invalid_data t)
  | err (other t) ↦ err (other t)
]

-- A `Write` behind the mutex: `room` is how much it takes before it fails, `none` if it never does.
pub record Sink : Type 0 where
  pub written : List ℕ
  pub room : Option ℕ
  pub poisoned : Bool

-- A pipe without a fault.
abbrev pub healthy : List ℕ → Sink
healthy w = record { written = w; room = none; poisoned = false }

-- `write_all`: what fits is written, also when the rest does not fit.
unfoldable pub write_all : Sink → List ℕ → Sink × Result IoError (Unit {0})
write_all s bs = elim s.room [
  | none ↦ (record s { written = s.written ++ bs }, ok tt)
  | some n ↦ (
    record s { written = s.written ++ take n bs; room = some (n - length bs) },
    if ltb n (length bs) then err (other (bytes "broken pipe")) else ok tt,
  )
]

-- `w1?; w2`
infixl 5 ◌then◌
abbrev ◌then◌ :
    Sink × Result IoError (Unit {0})
    → (Sink → Sink × Result IoError (Unit {0}))
    → Sink × Result IoError (Unit {0})
(s, ok u) then k = k s
(s, err e) then k = (s, err e)

-- `(payload.len() as u32).checked_add(1).filter(|n| *n <= MAX_FRAME_BYTES)`
unfoldable pub message_length : List ℕ → Option ℕ
message_length payload =
    let n = length payload % u32_mod + 1 in
    if ltb n u32_mod then (if leb n max_frame_bytes then some n else none) else none

-- `Writer::raw`; the flush adds nothing to what is written.
unfoldable pub raw : Sink → ℕ → List ℕ → Sink × Result IoError (Unit {0})
unfolding write_all message_length
raw s kind payload = elim (message_length payload) [
  | none ↦ (s, err (invalid_data (bytes "outbound message too large")))
  | some len ↦
      if s.poisoned
      then (s, err (other (bytes "writer mutex poisoned")))
      else write_all s (le_bytes 4 len)
        then (λ s1. write_all s1 (kind ∷ []) then (λ s2. write_all s2 payload))
]

-- `Writer::control`, over the serialiser.
unfoldable pub control :
    (AddonMsg → Result Text (List ℕ)) → Sink → AddonMsg → Sink × Result IoError (Unit {0})
control to_vec s msg = elim (to_vec msg) [
  | ok json ↦ raw s kind_control json
  | err e ↦ (s, err (invalid_data e))
]

u8_from_bool : Bool → ℕ
u8_from_bool true = 1
u8_from_bool false = 0

u16s : List ℕ → List ℕ
u16s [] = []
u16s (v ∷ vs) = le_bytes 2 v ++ u16s vs

-- The header and the payload of `Writer::frame`; the rectangle is (x, y, w, h).
unfoldable pub frame_bytes : ℕ → ℕ → ℕ → Bool → ℕ → ℕ → ℕ × ℕ × ℕ × ℕ → ℕ × ℕ → List ℕ → List ℕ
unfolding u8_from_bool u16s
frame_bytes session frame_id codec key width height rect src payload =
    le_bytes 4 session
    ++ (le_bytes 4 frame_id
        ++ (codec
            ∷ u8_from_bool key
            ∷ (u16s (width ∷ height ∷ rect.0 ∷ rect.1 ∷ rect.2 ∷ rect.3 ∷ src.0 ∷ src.1 ∷ [])
                ++ payload)))

-- `Writer::frame`
unfoldable pub frame :
    Sink
    → ℕ
    → ℕ
    → ℕ
    → Bool
    → ℕ
    → ℕ
    → ℕ × ℕ × ℕ × ℕ
    → ℕ × ℕ
    → List ℕ
    → Sink × Result IoError (Unit {0})
unfolding frame_bytes
frame s session frame_id codec key width height rect src payload =
    raw s kind_frame (frame_bytes session frame_id codec key width height rect src payload)
