-- ===== src/Proto/Framing/RoundTrip.antt =====
-- What `Writer` writes, `read_message` reads back: the framing of proto.rs against itself.
use tempest_addon_moonlight.Base.{
  ℕ, zero, suc, ◌+◌, ◌-◌, ◌%◌, ◌<◌, ◌≡◌, refl, sym, ap, ◌∙◌, false, Option, none, some, List, [],
  ◌∷◌, ◌++◌, append_assoc, append-nil, arith, Text, u32_mod, ok, err, length, length-append,
  take-append_length, drop-append_length, le_bytes, from_le_bytes, length-le_bytes,
  from_le_bytes-le_bytes, All,
}
use mathlib.Core.Option
use tempest_addon_moonlight.Proto.Framing.{
  Reader, Sink, max_frame_bytes, read_exact, read_body, read_message, message_length, raw,
}

-- One message on the wire, as PROTOCOL.md lays it out.
abbrev pub message : ℕ → List ℕ → List ℕ
message kind payload = le_bytes 4 (length payload + 1) ++ (kind ∷ payload)

abbrev pub reader : List ℕ → Option Text → Reader
reader bs fault = record { rest = bs; fault = fault }

pub read_exact-append :
    (n : ℕ) (xs ys : List ℕ) (f : Option Text)
    → length xs ≡ n
    → read_exact n (reader (xs ++ ys) f) ≡ ok (xs, reader ys f)
unfolding read_exact
read_exact-append n xs ys f h =
    rw (take-append_length n xs ys h, drop-append_length n xs ys h)
      (ground (arith, length-append xs ys))

read_body-append :
    (kind : ℕ) (payload more : List ℕ) (f : Option Text)
    → read_body (length payload + 1) (reader (kind ∷ (payload ++ more)) f)
      ≡ ok (some (kind, payload), reader more f)
unfolding read_body from_le_bytes
read_body-append kind payload more f =
    rw (read_exact-append 1 (kind ∷ []) (payload ++ more) f refl)
      (rw (read_exact-append (length payload + 1 - 1) payload more f (omega arith)) (ground arith))

-- A message within the limit is read back whole, and what follows it stays in the reader.
pub read_message-message :
    (kind : ℕ) (payload more : List ℕ) (f : Option Text)
    → length payload < max_frame_bytes
    → read_message (reader (message kind payload ++ more) f)
      ≡ ok (some (kind, payload), reader more f)
unfolding read_message
read_message-message kind payload more f h =
    let n = length payload + 1 in
    rw (append_assoc (le_bytes 4 n) (kind ∷ payload) more) (
      rw
        (
          read_exact-append 4 (le_bytes 4 n) (kind ∷ (payload ++ more)) f (length-le_bytes 4 n),
          read_message,
        )
        (rw (from_le_bytes-le_bytes 4 n (omega arith))
          (ground (arith, read_body-append kind payload more f))))

-- Below 2^32 bytes the length that `raw` computes is the true one, and it is checked.
pub message_length-some :
    (payload : List ℕ)
    → length payload < max_frame_bytes
    → message_length payload ≡ some (length payload + 1)
unfolding message_length
message_length-some payload h = ground (arith, small)
  where
    small : length payload % u32_mod ≡ length payload
    small = omega arith

-- A healthy pipe gets exactly the message.
pub raw-message :
    (w : List ℕ) (kind : ℕ) (payload : List ℕ)
    → length payload < max_frame_bytes
    → raw (record { written = w; room = none; poisoned = false }) kind payload
      ≡ (record { written = w ++ message kind payload; room = none; poisoned = false }, ok tt)
unfolding raw
raw-message w kind payload h = rw (message_length-some payload h, raw) (simp append_assoc)

abbrev pub Fits : ℕ × List ℕ → Type 0
Fits m = length m.1 < max_frame_bytes

-- The messages of all threads in the order in which they took the writer's lock.
unfoldable pub raw_all : Sink → List (ℕ × List ℕ) → Sink
raw_all s [] = s
raw_all s (m ∷ ms) = raw_all (raw s m.0 m.1).0 ms

unfoldable pub stream : List (ℕ × List ℕ) → List ℕ
stream [] = []
stream (m ∷ ms) = message m.0 m.1 ++ stream ms

-- A peer that reads messages until the stream ends cleanly, in at most `fuel` rounds.
unfoldable pub read_all : ℕ → Reader → Option (List (ℕ × List ℕ))
read_all zero r = none
read_all (suc fuel) r = elim (read_message r) [
  | ok (none, r') ↦ some []
  | ok (some m, r') ↦ Option.map (◌∷◌ m) (read_all fuel r')
  | err e ↦ none
]

raw_all-stream :
    (w : List ℕ) (ms : List (ℕ × List ℕ))
    → All Fits ms
    → (raw_all (record { written = w; room = none; poisoned = false }) ms).written ≡ w ++ stream ms
unfolding raw_all stream
raw_all-stream w [] h = sym (append-nil w)
raw_all-stream w ((k, p) ∷ ms) (h, hs) =
    rw (raw-message w k p h, raw_all)
      (raw_all-stream (w ++ message k p) ms hs ∙ append_assoc w (message k p) (stream ms))

read_all-stream :
    (ms : List (ℕ × List ℕ))
    → All Fits ms
    → read_all (suc (length ms)) (reader (stream ms) none) ≡ some ms
unfolding read_all stream
read_all-stream [] h = unfold read_message read_exact in refl
read_all-stream ((k, p) ∷ ms) (h, hs) =
    rw (read_message-message k p (stream ms) none h, read_all)
      (ap (Option.map (◌∷◌ (k, p))) (read_all-stream ms hs))

-- Whatever messages the threads send, and in whatever order they take the lock, a peer that reads
-- a healthy pipe to its end gets exactly those messages in that order.
pub read_all-raw_all :
    (ms : List (ℕ × List ℕ))
    → All Fits ms
    → read_all
        (suc (length ms))
        (reader (raw_all (record { written = []; room = none; poisoned = false }) ms).written none)
      ≡ some ms
read_all-raw_all ms h = rw (raw_all-stream [] ms h) (read_all-stream ms h)
