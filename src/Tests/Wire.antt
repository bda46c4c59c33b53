-- ===== src/Tests/Wire.antt =====
-- The framing, the text formats and the input mapping at concrete inputs.
use tempest_addon_moonlight.Base.{
  ℕ, ◌+◌, ◌%◌, ltb, if◌then◌else◌, ◌<◌, ◌≡◌, ◌↔◌, refl, true, false, none, some, Option, List, [],
  ◌∷◌, ◌++◌, Text, bytes, replicate, arith, ok, err, length, length-replicate, take, drop, u32_mod,
  le_bytes, from_le_bytes,
}
use tempest_addon_moonlight.Proto.Framing.{
  invalid_data, max_frame_bytes, read_message, read_exact, raw, healthy,
}
use tempest_addon_moonlight.Proto.Framing.RoundTrip.{
  reader, raw_all, read_all, stream, read_all-raw_all,
}
use tempest_addon_moonlight.Proto.Framing.Limits.{
  read_message-end, read_message-bounds, raw_lem, breaking, raw_all-breaking,
}
use tempest_addon_moonlight.Proto.Framing.Header.{
  FrameHeader, decode_header, encode_header, decode_header-frame_bytes,
}
use tempest_addon_moonlight.Nvhttp.Xml.{xml_tag, between, open_tag, close_tag}
use tempest_addon_moonlight.Nvhttp.Xml.Tags.{IsBetween, xml_tag_iff}
use tempest_addon_moonlight.Session.Input.{InputState, send_input}
use tempest_addon_moonlight.Session.Input.Buttons.{
  held_of, last_pointer, host_events, send_all, send_all-held,
}
use tempest_addon_moonlight.Session.Input.Scroll.{
  scroll_event, whole_units, is_negative, send_input_wheel,
}
use tempest_addon_moonlight.Str.{find, starts_with}
use tempest_addon_moonlight.Transport.{F32, finite, RemoteInput}

abbrev two_messages : List (ℕ × List ℕ)
two_messages = (1, 5 ∷ 6 ∷ []) ∷ (2, []) ∷ []

read_all-raw_all_example :
    read_all 3 (
      reader
        (raw_all (record { written = []; room = none; poisoned = false }) two_messages).written
        none)
    ≡ some two_messages
read_all-raw_all_example = read_all-raw_all two_messages (omega arith, (omega arith, tt))

read_message-end_example :
    (read_message (reader (1 ∷ 2 ∷ []) none) ≡ ok (none, reader (1 ∷ 2 ∷ []) none)) ↔ (
      (length {A = ℕ} (1 ∷ 2 ∷ []) < 4)
      × (◌≡◌ {A = Option Text} none none)
      × (reader (1 ∷ 2 ∷ []) none ≡ reader (1 ∷ 2 ∷ []) none))
read_message-end_example = read_message-end (1 ∷ 2 ∷ []) none (reader (1 ∷ 2 ∷ []) none)

abbrev one_and_more : List ℕ
one_and_more = 2 ∷ 0 ∷ 0 ∷ 0 ∷ 1 ∷ 9 ∷ 7 ∷ []

is_read : read_message (reader one_and_more none) ≡ ok (some (1, 9 ∷ []), reader (7 ∷ []) none)
unfolding read_message read_exact from_le_bytes
is_read = refl

read_message-bounds_example :
    (length {A = ℕ} (9 ∷ []) < max_frame_bytes)
    × (from_le_bytes (take 4 one_and_more) ≡ length {A = ℕ} (9 ∷ []) + 1)
    × (one_and_more ≡ take 4 one_and_more ++ (1 ∷ (9 ∷ [] ++ 7 ∷ [])))
    × (◌≡◌ {A = Option Text} none none)
read_message-bounds_example =
    read_message-bounds one_and_more none 1 (9 ∷ []) (reader (7 ∷ []) none) is_read

-- A payload of a given length; a long one is never computed.
payload_of : (n : ℕ) → (p : List ℕ) × (length p ≡ n)
payload_of n = (replicate n 7, length-replicate n 7)

abbrev wrapping : (p : List ℕ) × (length p ≡ u32_mod + 5)
wrapping = payload_of (u32_mod + 5)

raw_lem_example : raw (healthy []) 1 wrapping.0 ≡ (
    if ltb (length wrapping.0 % u32_mod) max_frame_bytes
    then (healthy ([] ++ (le_bytes 4 (length wrapping.0 % u32_mod + 1) ++ (1 ∷ wrapping.0))), ok tt)
    else (healthy [], err (invalid_data (bytes "outbound message too large"))))
raw_lem_example = raw_lem [] 1 wrapping.0

raw_all-breaking_example :
    (raw_all (breaking [] 9) two_messages).written ≡ [] ++ take 9 (stream two_messages)
raw_all-breaking_example = raw_all-breaking [] 9 two_messages (omega arith, (omega arith, tt))

abbrev header : FrameHeader
header = record {
  session = 1;
  frame_id = 0;
  codec = 4;
  key = true;
  width = 1920;
  height = 1080;
  rect = (0, 0, 1920, 1080);
  src = (0, 0);
}

decode_header-frame_bytes_example :
    (decode_header (encode_header header (8 ∷ [])) ≡ header)
    × (drop 26 (encode_header header (8 ∷ [])) ≡ 8 ∷ [])
decode_header-frame_bytes_example = decode_header-frame_bytes header (8 ∷ []) (record {
  session = omega arith;
  frame_id = omega arith;
  codec = omega arith;
  width = omega arith;
  height = omega arith;
  x = omega arith;
  y = omega arith;
  w = omega arith;
  h = omega arith;
  sx = omega arith;
  sy = omega arith;
})

is_found : xml_tag (bytes "<a>7</a>") (bytes "a") ≡ some (bytes "7")
unfolding xml_tag between find starts_with bytes
is_found = refl

xml_tag_iff_example :
    (xml_tag (bytes "<a>7</a>") (bytes "a") ≡ some (bytes "7"))
    ↔ IsBetween (open_tag (bytes "a")) (close_tag (bytes "a")) (bytes "<a>7</a>") (bytes "7")
xml_tag_iff_example = xml_tag_iff (bytes "<a>7</a>") (bytes "a") (bytes "7")

-- The element is found, so it stands there.
seven_IsBetween :
    IsBetween (open_tag (bytes "a")) (close_tag (bytes "a")) (bytes "<a>7</a>") (bytes "7")
seven_IsBetween = (xml_tag_iff (bytes "<a>7</a>") (bytes "a") (bytes "7")).0 is_found

abbrev input_state : InputState
input_state = record { ref_width = 1920; ref_height = 1080; last_buttons = 0 }

abbrev drag : List RemoteInput
drag = RemoteInput.pointer 1 2 1 ∷ RemoteInput.pointer 9 9 5 ∷ RemoteInput.pointer 9 9 0 ∷ []

send_all-held_example :
    host_events (send_all input_state drag).1 (held_of 0) ≡ some (held_of (last_pointer 0 drag))
send_all-held_example = send_all-held input_state drag

abbrev three_up : F32
three_up = finite true 2140720574880316241112571072632955645004742656

send_input_wheel_example :
    send_input input_state (RemoteInput.wheel 0 0 three_up three_up)
    ≡ (input_state, scroll_event (is_negative three_up) (whole_units three_up))
send_input_wheel_example = send_input_wheel input_state 0 0 three_up three_up
