-- ===== src/Proto/Framing/Limits.antt =====
-- The bounds of the framing: what `read_message` refuses, what `raw` refuses, and what a pipe holds
-- that breaks in the middle of a message.
use tempest_addon_moonlight.Base.{
  ℕ, zero, suc, ◌+◌, ◌-◌, ◌%◌, ◌≤◌, ◌<◌, ◌≡◌, refl, sym, ap, ◌∙◌, inl, inr, ◌⊎◌, ◌↔◌, true, false,
  Option, none, some, List, [], ◌∷◌, ◌++◌, append_assoc, append-nil, arith, Text, bytes, u32_mod,
  ltb, if◌then◌else◌, Bool-cases, Result, ok, err, length, take, drop, length-append, length-take,
  take-append-drop, le_bytes, from_le_bytes, All,
}
use tempest_addon_moonlight.Proto.Framing.{
  IoError, invalid_data, Reader, Sink, healthy, max_frame_bytes, read_exact, read_body,
  implausible_text, read_message, write_all, ◌then◌, message_length, raw,
}
use tempest_addon_moonlight.Proto.Framing.RoundTrip.{
  read_exact-append, message, reader, Fits, raw_all, stream, message_length-some,
}

-- `read_message` ends cleanly exactly when the input ends, without a fault, before four bytes.
pub read_message-end :
    (bs : List ℕ) (f : Option Text) (r : Reader)
    → (read_message (reader bs f) ≡ ok (none, r))
      ↔ ((length bs < 4) × (f ≡ none) × (r ≡ reader bs f))
unfolding read_message read_exact
read_message-end bs none r = (λ h. ground arith, λ h. ground arith)
read_message-end bs (some e) r = (λ h. ground arith, λ h. ground arith)

read_body-inverse :
    (n : ℕ) (ds : List ℕ) (f : Option Text) (kind : ℕ) (payload : List ℕ) (r : Reader)
    → 1 ≤ n
    → read_body n (reader ds f) ≡ ok (some (kind, payload), r)
    → (ds ≡ kind ∷ (payload ++ r.rest)) × (n ≡ length payload + 1) × (r.fault ≡ f)
unfolding read_body read_exact from_le_bytes
read_body-inverse n [] f kind payload r hn h = ground arith
read_body-inverse n (b ∷ ds) f kind payload r hn h =
    ground (arith, take-append-drop (n - 1) ds, length-take (n - 1) ds)

-- A message that is read is shorter than the limit, and its bytes are those consumed.
pub read_message-bounds :
    (bs : List ℕ) (f : Option Text) (kind : ℕ) (payload : List ℕ) (r : Reader)
    → read_message (reader bs f) ≡ ok (some (kind, payload), r)
    → (length payload < max_frame_bytes)
      × (from_le_bytes (take 4 bs) ≡ length payload + 1)
      × (bs ≡ take 4 bs ++ (kind ∷ (payload ++ r.rest)))
      × (r.fault ≡ f)
unfolding read_message read_exact
read_message-bounds bs f kind payload r h = ground (
  arith,
  take-append-drop 4 bs,
  read_body-inverse (from_le_bytes (take 4 bs)) (drop 4 bs) f kind payload r,
)

-- A length of zero or above the limit is refused as soon as it is read, whatever follows.
read_message_implausible :
    (len_buf more : List ℕ) (f : Option Text)
    → length len_buf ≡ 4
    → (from_le_bytes len_buf < 1) ⊎ (max_frame_bytes < from_le_bytes len_buf)
    → read_message (reader (len_buf ++ more) f)
      ≡ err (invalid_data (implausible_text (from_le_bytes len_buf)))
unfolding read_message
read_message_implausible len_buf more f h bad =
    rw (read_exact-append 4 len_buf more f h, read_message) (ground arith)

-- For payloads below 2^32 bytes: `raw` refuses those that with their kind byte pass the limit, with
-- nothing written.
raw_too_large :
    (s : Sink) (kind : ℕ) (payload : List ℕ)
    → max_frame_bytes ≤ length payload
    → length payload < u32_mod
    → raw s kind payload ≡ (s, err (invalid_data (bytes "outbound message too large")))
unfolding raw
raw_too_large s kind payload lo hi = ground arith

-- The length is taken modulo 2^32 before it is checked: a payload of 2^32 + k bytes, k below the
-- limit, is written whole behind the length of k bytes.
raw_wraps :
    (w : List ℕ) (kind : ℕ) (payload : List ℕ) (k : ℕ)
    → length payload ≡ u32_mod + k
    → k < max_frame_bytes
    → raw (record { written = w; room = none; poisoned = false }) kind payload ≡ (
      record {
        written = w ++ (le_bytes 4 (k + 1) ++ (kind ∷ payload));
        room = none;
        poisoned = false;
      },
      ok tt,
    )
unfolding raw
raw_wraps w kind payload k h hk = rw (wrapped, raw) (simp append_assoc)
  where
    wrapped : message_length payload ≡ some (k + 1)
    wrapped = unfold message_length in ground arith

-- On a healthy pipe, for a payload of any length: `raw` looks at the length modulo 2^32 alone. When that
-- is below the limit, the payload is written whole behind it, so that a payload of 2^32 bytes and more
-- is announced with a length that is not its own; otherwise it is refused with nothing written.
pub raw_lem :
    (w : List ℕ) (kind : ℕ) (payload : List ℕ)
    → raw (healthy w) kind payload ≡ (
        if ltb (length payload % u32_mod) max_frame_bytes
        then (healthy (w ++ (le_bytes 4 (length payload % u32_mod + 1) ++ (kind ∷ payload))), ok tt)
        else (healthy w, err (invalid_data (bytes "outbound message too large"))))
unfolding raw
raw_lem w kind payload = elim (Bool-cases (ltb (length payload % u32_mod) max_frame_bytes)) [
  | inl e ↦ rw (e, small e, raw) (simp append_assoc)
  | inr e ↦ rw (e, large e, raw) refl
]
  where
    small :
        ltb (length payload % u32_mod) max_frame_bytes ≡ true
        → message_length payload ≡ some (length payload % u32_mod + 1)
    small e = unfold message_length in ground arith

    large : ltb (length payload % u32_mod) max_frame_bytes ≡ false → message_length payload ≡ none
    large e = unfold message_length in ground arith

-- A pipe that breaks after `n` more bytes gets the first `n` bytes of the message.
abbrev pub breaking : List ℕ → ℕ → Sink
breaking w n = record { written = w; room = some n; poisoned = false }

take-append : (n : ℕ) (xs ys : List ℕ) → take n (xs ++ ys) ≡ take n xs ++ take (n - length xs) ys
take-append zero xs ys = let e : 0 - length xs ≡ 0 = omega arith in rw e
take-append (suc n) [] ys = let e : suc n - 0 ≡ suc n = omega arith in rw e
take-append (suc n) (x ∷ xs) ys =
    let e : suc n - suc (length xs) ≡ n - length xs = omega arith in
    rw e (ap (◌∷◌ x) (take-append n xs ys))

take-nil : (n : ℕ) → take {A = ℕ} n [] ≡ []
take-nil zero = refl
take-nil (suc n) = refl

-- One `write_all` of `a`, with what is written after it.
write_step :
    (w : List ℕ) (n : ℕ) (a b : List ℕ) (k : Sink → Sink × Result IoError (Unit {0}))
    → (k (breaking (w ++ take n a) (n - length a))).0
      ≡ breaking ((w ++ take n a) ++ take (n - length a) b) (n - length a - length b)
    → (write_all (breaking w n) a then k).0 ≡ breaking (w ++ take n (a ++ b)) (n - length (a ++ b))
unfolding write_all
write_step w n a b k h = elim (Bool-cases (ltb n (length a))) [
  | inl short ↦
      let e : n - length a ≡ 0 = ground arith in
      let e' : n - length (a ++ b) ≡ 0 = ground (arith, length-append a b) in
      rw (short, e', take-append n a b, e, append-nil) refl
  | inr fits ↦
      let e' : n - length (a ++ b) ≡ n - length a - length b = ground (arith, length-append a b) in
      rw (fits, e', take-append n a b, ← append_assoc) h
]

raw-breaking :
    (w : List ℕ) (n kind : ℕ) (payload : List ℕ)
    → length payload < max_frame_bytes
    → (raw (breaking w n) kind payload).0
      ≡ breaking (w ++ take n (message kind payload)) (n - length (message kind payload))
unfolding raw
raw-breaking w n kind payload h =
    rw (message_length-some payload h, raw)
      (write_step w n (le_bytes 4 (length payload + 1)) (kind ∷ payload) _
        (write_step _ _ (kind ∷ []) payload _ refl))

-- A pipe that breaks holds a prefix of the messages sent, in their order: no message is cut but
-- the last, and none follows a cut one.
pub raw_all-breaking :
    (w : List ℕ) (n : ℕ) (ms : List (ℕ × List ℕ))
    → All Fits ms
    → (raw_all (breaking w n) ms).written ≡ w ++ take n (stream ms)
unfolding raw_all stream
raw_all-breaking w n [] h = rw (take-nil n, append-nil)
raw_all-breaking w n ((k, p) ∷ ms) (h, hs) =
    rw (raw-breaking w n k p h, raw_all)
      (raw_all-breaking (w ++ take n (message k p)) (n - length (message k p)) ms hs
        ∙ append_assoc w _ _
        ∙ ap (◌++◌ w) (sym (take-append n (message k p) (stream ms))))
