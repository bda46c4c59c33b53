-- ===== src/Tests/Mixed.antt =====
-- Two sessions of one sidecar whose steps reach the writer in turns.
use tempest_addon_moonlight.Base.{
  ℕ, zero, suc, le_bytes, ◌≡◌, refl, true, false, none, some, List, [], ◌∷◌, All, Text, bytes,
  arith, Result, ok, err, text_eq,
}
use tempest_addon_moonlight.Proto.Messages.{AddonMsg}
use tempest_addon_moonlight.Proto.Framing.{frame_bytes}
use tempest_addon_moonlight.Proto.Framing.RoundTrip.{Fits}
use tempest_addon_moonlight.Proto.Framing.Header.{InRange}
use tempest_addon_moonlight.Proto.Value.{Json}
use tempest_addon_moonlight.Proto.Json.{encode_addon}
use tempest_addon_moonlight.Session.State.{Event}
use tempest_addon_moonlight.Addon.Output.{callback, addon_msg, close_error}
use tempest_addon_moonlight.Addon.Output.Wire.{step_messages}
use tempest_addon_moonlight.Addon.Output.Heard.{wire_code, Heard, heard, header_of, Arrives}
use tempest_addon_moonlight.Addon.Output.Mixed.{
  of_session, addressed, mixed_messages, Admissible, hear_pipe, deliver_mixed-heard,
}
use tempest_addon_moonlight.Transport.{F32, finite, FrameCodec, FrameUpdate}

-- A JSON text of the messages below: their kind and the session.
abbrev print : AddonMsg → List ℕ
print (AddonMsg.session_ready session w h) = 0 ∷ session ∷ []
print (AddonMsg.session_closed session e) = 1 ∷ session ∷ []
print m = []

abbrev whole : ℕ → F32
whole n = finite false n

abbrev parse : List ℕ → Result Text Json
parse (zero ∷ session ∷ []) = ok (encode_addon whole (AddonMsg.session_ready session 0 0))
parse (suc n ∷ session ∷ []) = ok (encode_addon whole (AddonMsg.session_closed session none))
parse t = err []

abbrev picture : FrameUpdate
picture = record {
  codec = FrameCodec.hevc;
  frame_id = 7;
  width = 640;
  height = 480;
  x = 0;
  y = 0;
  w = 640;
  h = 480;
  key = true;
  sx = 0;
  sy = 0;
  payload = 1 ∷ 2 ∷ 3 ∷ [];
}

-- The newest step first.
abbrev steps : List (ℕ × Event)
steps =
    (4, Event.closed (bytes "session ended"))
    ∷ (3, Event.frame picture)
    ∷ (4, Event.stream_stopped)
    ∷ (3, Event.ready)
    ∷ (4, Event.ready)
    ∷ []

steps-Fits : All Fits (mixed_messages print steps)
unfolding mixed_messages step_messages callback addon_msg frame_bytes le_bytes
steps-Fits = (omega arith, (omega arith, (omega arith, (omega arith, tt))))

picture-InRange : InRange (header_of 3 picture)
unfolding wire_code
picture-InRange = record {
  session = omega arith;
  frame_id = omega arith;
  codec = omega arith;
  width = omega arith;
  height = omega arith;
  x = omega arith;
  y = omega arith;
  w = omega arith;
  h = omega arith;
  sx = omega arith;
  sy = omega arith;
}

steps-Admissible : All (Admissible parse print whole) steps
unfolding Arrives callback addon_msg close_error text_eq bytes
steps-Admissible = (
  (omega arith, refl),
  (
    (omega arith, picture-InRange),
    ((omega arith, tt), ((omega arith, refl), ((omega arith, refl), tt))),
  ),
)

deliver_mixed-heard_example :
    (xs : List Heard) × (hear_pipe parse print whole steps ≡ some xs)
    × ((n : ℕ) → addressed n xs ≡ heard n (of_session n steps))
deliver_mixed-heard_example =
    deliver_mixed-heard parse print whole steps steps-Fits steps-Admissible
