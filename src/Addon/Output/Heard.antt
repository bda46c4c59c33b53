-- ===== src/Addon/Output/Heard.antt =====
-- What the host makes of the bytes of a session: crates/moonlight-addon/src/main.rs over the framing and
-- the JSON of proto.rs, read as PROTOCOL.md says.
use tempest_addon_moonlight.Base.{
  ℕ, suc, ◌<◌, ◌≡◌, refl, ap, ◌∙◌, true, false, Option, none, some, List, [], ◌∷◌, ◌++◌, All, Text,
  bytes, text_eq, if◌then◌else◌, length, drop, arith, Result, ok, err, ◌==◌, u32_mod,
}
use tempest_addon_moonlight.Base.Options.{◌>>=◌}
use tempest_addon_moonlight.Proto.Messages.{AddonMsg, EventMsg}
use tempest_addon_moonlight.Proto.Framing.{kind_control, kind_frame, frame_bytes}
use tempest_addon_moonlight.Proto.Framing.Header.{
  FrameHeader, InRange, decode_header, encode_header, decode_header-frame_bytes,
}
use tempest_addon_moonlight.Proto.Framing.RoundTrip.{reader, Fits, read_all}
use tempest_addon_moonlight.Proto.Json.{encode_addon}
use tempest_addon_moonlight.Proto.Value.{Json}
use tempest_addon_moonlight.Proto.Json.Outgoing.{read_addon, AddonFits, read_addon-encode_addon}
use tempest_addon_moonlight.Session.Doc.{MoonlightConnectDoc}
use tempest_addon_moonlight.Session.State.{Event, State, Deps, ended}
use tempest_addon_moonlight.Session.Engine.{session_thread}
use tempest_addon_moonlight.Session.Lifecycle.{phase_of}
use tempest_addon_moonlight.Session.Lifecycle.Run.{session_thread-IsAccepted}
use tempest_addon_moonlight.Session.Lifecycle.Stop.{close_of}
use tempest_addon_moonlight.Session.Lifecycle.Close.{NotClosed, over-NotClosed}
use tempest_addon_moonlight.Addon.Output.{Callback, addon_msg, callback, close_error}
use tempest_addon_moonlight.Addon.Output.Wire.{
  callback_message, frame_message, step_messages, messages, deliver_all, healthy,
  read_all-deliver_all,
}
use tempest_addon_moonlight.Transport.{F32, FrameCodec, FrameUpdate, discriminant}

-- What the host gets out of one packet: a control message, or a frame with its payload.
pub data Heard : Type 0 where
  said : AddonMsg → Heard
  shown : FrameHeader → List ℕ → Heard

unfoldable pub said_of : Option AddonMsg → Option Heard
said_of none = none
said_of (some m) = some (said m)

unfoldable pub hear_json : Result Text Json → Option Heard
unfolding said_of
hear_json (err e) = none
hear_json (ok j) = said_of (read_addon j)

-- A list that was heard has a first part and others.
parts :
    (o : Option Heard) (r : Option (List Heard)) (xs : List Heard)
    → (o >>= (λ x. r >>= (λ tail. some (x ∷ tail)))) ≡ some xs
    → (x : Heard) × (tail : List Heard) × (o ≡ some x) × (r ≡ some tail) × (x ∷ tail ≡ xs)
parts none r xs h = cc
parts (some x) none xs h = cc
parts (some x) (some tail) xs h = (x, tail, refl, refl, cc)

module _ (parse : List ℕ → Result Text Json) where
  unfoldable pub hear : ℕ × List ℕ → Option Heard
  unfolding hear_json
  hear (kind, payload) = elim (kind == kind_control) [
    | true ↦ hear_json (parse payload)
    | false ↦ elim (kind == kind_frame) [
      | true ↦ some (shown (decode_header payload) (drop 26 payload))
      | false ↦ none
    ]
  ]

  -- All packets, or none if one of them makes no sense.
  unfoldable pub hear_all : List (ℕ × List ℕ) → Option (List Heard)
  unfolding hear
  hear_all [] = some []
  hear_all (m ∷ ms) = do x ← hear m; xs ← hear_all ms; some (x ∷ xs)

  pub hear_all-append :
      (ms ns : List (ℕ × List ℕ)) (xs ys : List Heard)
      → hear_all ms ≡ some xs
      → hear_all ns ≡ some ys
      → hear_all (ms ++ ns) ≡ some (xs ++ ys)
  unfolding hear_all
  hear_all-append [] ns xs ys h k = grind arith
  hear_all-append (m ∷ ms) ns xs ys h k =
      let (x, tail, first, others, joined) = parts (hear m) (hear_all ms) xs h in
      rw (first, hear_all-append ms ns tail ys others k, hear_all)
        (ap (λ zs. some (zs ++ ys)) joined)

-- The numbers of the codecs in PROTOCOL.md.
unfoldable pub wire_code : FrameCodec → ℕ
wire_code FrameCodec.raw = 0
wire_code FrameCodec.jpeg = 1
wire_code FrameCodec.png = 2
wire_code FrameCodec.copy = 3
wire_code FrameCodec.h264 = 4
wire_code FrameCodec.hevc = 5

discriminant-wire_code : (c : FrameCodec) → discriminant c ≡ wire_code c
unfolding discriminant wire_code
discriminant-wire_code FrameCodec.raw = refl
discriminant-wire_code FrameCodec.jpeg = refl
discriminant-wire_code FrameCodec.png = refl
discriminant-wire_code FrameCodec.copy = refl
discriminant-wire_code FrameCodec.h264 = refl
discriminant-wire_code FrameCodec.hevc = refl

-- The header of a frame of the session.
abbrev pub header_of : ℕ → FrameUpdate → FrameHeader
header_of session u = record {
  session = session;
  frame_id = u.frame_id;
  codec = wire_code u.codec;
  key = u.key;
  width = u.width;
  height = u.height;
  rect = (u.x, u.y, u.w, u.h);
  src = (u.sx, u.sy);
}

-- The error of a closed session: none for the reason of an ordinary end.
unfoldable pub error_of : Text → Option Text
error_of reason = if text_eq reason (bytes "session ended") then none else some reason

module _ (session : ℕ) where
  -- What the host should hear of a step by PROTOCOL.md: of what the engine tells it the message, field by
  -- field, of a frame its header and payload, of the other steps nothing.
  unfoldable pub event_heard : Event → List Heard
  unfolding error_of
  event_heard (Event.identity_learned unique_id cert_pem key_pem) =
      said (AddonMsg.event session (EventMsg.identity unique_id cert_pem key_pem)) ∷ []
  event_heard (Event.service_message line) =
      said (AddonMsg.event session (EventMsg.service_message line)) ∷ []
  event_heard (Event.pair_prompt pin url) =
      said (AddonMsg.event session (EventMsg.pair_prompt pin url)) ∷ []
  event_heard (Event.pair_finished error) =
      said (AddonMsg.event session (EventMsg.pair_finished error)) ∷ []
  event_heard (Event.launched b) = []
  event_heard (Event.stream_started b) = []
  event_heard Event.ready = said (AddonMsg.session_ready session 0 0) ∷ []
  event_heard (Event.frame u) = shown (header_of session u) u.payload ∷ []
  event_heard Event.stream_stopped = []
  event_heard (Event.cancelled b) = []
  event_heard (Event.closed reason) = said (AddonMsg.session_closed session (error_of reason)) ∷ []

  -- What the host should hear of a log, the oldest step first.
  unfoldable pub heard : List Event → List Heard
  unfolding event_heard
  heard [] = []
  heard (e ∷ es) = heard es ++ event_heard e

module _ (parse : List ℕ → Result Text Json) (json : AddonMsg → List ℕ) (as_f32 : ℕ → F32)
    (session : ℕ) where
  -- The text of a message is parsed as the JSON that it stands for; the numbers of a frame are within the
  -- fields of its header.
  CallbackArrives : Option Callback → Event → Type 0
  CallbackArrives (some c) e =
      parse (json (addon_msg session c)) ≡ ok (encode_addon as_f32 (addon_msg session c))
  CallbackArrives none (Event.frame u) = InRange (header_of session u)
  CallbackArrives none _ = Unit

  unfoldable pub Arrives : Event → Type 0
  unfolding CallbackArrives
  Arrives e = CallbackArrives (callback e) e

  addon_msg-AddonFits : (c : Callback) → session < u32_mod → AddonFits (addon_msg session c)
  unfolding addon_msg AddonFits
  addon_msg-AddonFits (Callback.on_service_message t) h = h
  addon_msg-AddonFits Callback.on_ready h = (h, omega arith, omega arith)
  addon_msg-AddonFits (Callback.on_closed t) h = h
  addon_msg-AddonFits (Callback.on_pair_prompt p u) h = h
  addon_msg-AddonFits (Callback.on_pair_finished e) h = h
  addon_msg-AddonFits (Callback.on_identity_learned u c k) h = h

  hear_all-said :
      (c : Callback)
      → session < u32_mod
      → parse (json (addon_msg session c)) ≡ ok (encode_addon as_f32 (addon_msg session c))
      → hear_all parse ((kind_control, json (addon_msg session c)) ∷ [])
        ≡ some (said (addon_msg session c) ∷ [])
  unfolding hear_all hear hear_json said_of
  hear_all-said c h a =
      rw
        (
          a,
          hear_json,
          read_addon-encode_addon as_f32 (addon_msg session c) (addon_msg-AddonFits c h),
        )
        refl

  hear_all-shown :
      (u : FrameUpdate)
      → InRange (header_of session u)
      → hear_all parse ((kind_frame, encode_header (header_of session u) u.payload) ∷ [])
        ≡ some (shown (header_of session u) u.payload ∷ [])
  unfolding hear_all hear
  hear_all-shown u r =
      let (header, rest) = decode_header-frame_bytes (header_of session u) u.payload r in
      rw (header, rest) refl

  pub hear_all-step :
      (e : Event)
      → session < u32_mod
      → Arrives e
      → hear_all parse (step_messages json session e) ≡ some (event_heard session e)
  unfolding callback step_messages callback_message frame_message Arrives CallbackArrives
      event_heard hear_all addon_msg close_error error_of
  hear_all-step (Event.identity_learned u c k) h a =
      hear_all-said (Callback.on_identity_learned u c k) h a
  hear_all-step (Event.service_message t) h a = hear_all-said (Callback.on_service_message t) h a
  hear_all-step (Event.pair_prompt p u) h a = hear_all-said (Callback.on_pair_prompt p u) h a
  hear_all-step (Event.pair_finished x) h a = hear_all-said (Callback.on_pair_finished x) h a
  hear_all-step (Event.launched b) h a = refl
  hear_all-step (Event.stream_started b) h a = refl
  hear_all-step Event.ready h a = hear_all-said Callback.on_ready h a
  hear_all-step (Event.frame u) h a =
      ap
        (λ c. hear_all parse (
          (
            kind_frame,
            frame_bytes session u.frame_id c u.key u.width u.height (u.x, u.y, u.w, u.h)
                (u.sx, u.sy) u.payload,
          )
          ∷ []))
        (discriminant-wire_code u.codec)
      ∙ hear_all-shown u a
  hear_all-step Event.stream_stopped h a = refl
  hear_all-step (Event.cancelled b) h a = refl
  hear_all-step (Event.closed t) h a = hear_all-said (Callback.on_closed t) h a

  hear_all-messages :
      (es : List Event)
      → session < u32_mod
      → All Arrives es
      → hear_all parse (messages json session es) ≡ some (heard session es)
  unfolding messages heard hear_all
  hear_all-messages [] h a = refl
  hear_all-messages (e ∷ es) h (a, rest) =
      hear_all-append parse (messages json session es) (step_messages json session e) _ _
        (hear_all-messages es h rest) (hear_all-step e h a)

pub heard-closed :
    (session : ℕ) (log : List Event) (t : Text) (rest : List Event)
    → log ≡ Event.closed t ∷ rest
    → heard session log
      ≡ heard session rest ++ (said (AddonMsg.session_closed session (error_of t)) ∷ [])
unfolding heard event_heard
heard-closed session log t rest h = rw h refl

module _ {W Cert Key : Type 0} (d : Deps W Cert Key) (parse : List ℕ → Result Text Json)
    (json : AddonMsg → List ℕ) (as_f32 : ℕ → F32) (session : ℕ) where
  -- The log of the session's thread, and what the host reads of it on a healthy pipe.
  abbrev pub log_of : ℕ → MoonlightConnectDoc → State W → List Event
  log_of fuel doc s = (session_thread d fuel doc s).0.log

  abbrev pub read_of : List Event → Option (List (ℕ × List ℕ))
  read_of log =
      read_all (suc (length (messages json session log)))
        (reader (deliver_all json session log (healthy json session [])).written none)

  -- A session that started with an empty log, once its thread has ended, on a healthy pipe: if every
  -- message is below the limit, its text is parsed as the JSON that it stands for, and the numbers of each
  -- frame and the session's id fit their fields, then a host that reads as PROTOCOL.md says hears the
  -- callbacks and the frames of the session's steps, in their order, with all that they carry, and then
  -- the one `session_closed`, which no step before it sent.
  pub session_thread-heard :
      (fuel : ℕ) (doc : MoonlightConnectDoc) (s : State W)
      → s.log ≡ []
      → (session_thread d fuel doc s).1 ≡ ended
      → session < u32_mod
      → All Fits (messages json session (log_of fuel doc s))
      → All (Arrives parse json as_f32 session) (log_of fuel doc s)
      → (t : Text) × (rest : List Event) × All NotClosed rest
        × ((read_of (log_of fuel doc s) >>= hear_all parse)
            ≡ some
                (heard session rest ++ (said (AddonMsg.session_closed session (error_of t)) ∷ [])))
  unfolding phase_of
  session_thread-heard fuel doc s empty e small fits arrives =
      let log = log_of fuel doc s in
      let over' =
        close_of (session_thread d fuel doc s)
          (session_thread-IsAccepted d fuel doc s (rw empty refl)) e in
      let (t, rest, log_is, none_before) = over-NotClosed log over' in
      (
        t,
        rest,
        none_before,
        ap (λ r. r >>= hear_all parse) (read_all-deliver_all json session log fits)
            ∙ hear_all-messages parse json as_f32 session log small arrives
            ∙ ap some (heard-closed session log t rest log_is),
      )
