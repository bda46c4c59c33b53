-- ===== src/Addon/Run/Stream.antt =====
-- A host that sends messages as PROTOCOL.md says, and what `run` of crates/moonlight-addon/src/main.rs
-- does with its bytes.
use tempest_addon_moonlight.Base.{
  ℕ, zero, suc, ◌+◌, ◌<◌, ◌≡◌, refl, ◌∙◌, true, false, Option, none, some, List, [], ◌∷◌, ◌++◌, All,
  length, Text, bytes, arith, Result, ok, err, Bool-cases, inl, inr, ◌==◌, ◌≢◌,
}
use tempest_addon_moonlight.Proto.Messages.{HostMsg, AddonMsg}
use tempest_addon_moonlight.Proto.Framing.{
  Sink, read_message, read_exact, kind_control, max_frame_bytes, abi,
}
use tempest_addon_moonlight.Proto.Framing.RoundTrip.{reader, message, read_message-message}
use tempest_addon_moonlight.Proto.Json.{decode_host}
use tempest_addon_moonlight.Proto.Value.{Json}
use tempest_addon_moonlight.Proto.Json.Host.{HostFits, encode_host}
use tempest_addon_moonlight.Proto.Json.Incoming.{decode_host-encode_host}
use tempest_addon_moonlight.Transport.{F32}
use tempest_addon_moonlight.Addon.Output.{send}
use tempest_addon_moonlight.Addon.Run.{
  Env, Addon, handle_msg, close_all, decoded, read_control, serve, run, no_sessions,
}

-- `serde_json::from_slice`: a JSON text, and the shape that `Deserialize for HostMsg` reads.
unfoldable pub shaped : Option HostMsg → Result Text HostMsg
shaped none = err (bytes "the shape of no message")
shaped (some m) = ok m

unfoldable pub from_json : Result Text Json → Result Text HostMsg
unfolding shaped
from_json (err e) = err e
from_json (ok j) = shaped (decode_host j)

-- The messages one after another, up to a shutdown or to the end of the input; then every session is
-- closed.
unfoldable pub handle_all : Env → List HostMsg → Addon → Addon
handle_all env [] a = close_all a
handle_all env (m ∷ ms) a =
    let (a', goes_on) = handle_msg env m a in
    let rest = handle_all env ms a' in elim goes_on [ true ↦ rest | false ↦ close_all a' ]

-- What a host puts on the pipe: a control message, or a packet of a kind that the addon does not know.
pub data Packet : Type 0 where
  packet : HostMsg → Packet
  unknown : ℕ → List ℕ → Packet

unfoldable pub messages : List Packet → List HostMsg
messages [] = []
messages (packet m ∷ ps) = m ∷ messages ps
messages (unknown kind payload ∷ ps) = messages ps

module _ (env : Env) (parse : List ℕ → Result Text Json) (show : Json → List ℕ) (as_f32 : ℕ → F32)
    (as_uint : F32 → Option ℕ) where
  -- The payload of a message of the host.
  abbrev pub sent : HostMsg → List ℕ
  sent m = show (encode_host as_f32 as_uint m)

  -- A message whose numbers are within their types, whose text is parsed as the JSON it stands for, and
  -- that is below the limit.
  pub record Travels (m : HostMsg) : Type 0 where
    pub fits : HostFits m
    pub parsed : parse (sent m) ≡ ok (encode_host as_f32 as_uint m)
    pub small : length (sent m) < max_frame_bytes

  -- What a packet of the host has to be: a message that travels, or a packet of another kind below the
  -- limit.
  unfoldable pub Sent : Packet → Type 0
  Sent (packet m) = Travels m
  Sent (unknown kind payload) = (kind ≢ kind_control) × (length payload < max_frame_bytes)

  -- The bytes of the host's packets.
  unfoldable pub host_stream : List Packet → List ℕ
  host_stream [] = []
  host_stream (packet m ∷ ps) = message kind_control (sent m) ++ host_stream ps
  host_stream (unknown kind payload ∷ ps) = message kind payload ++ host_stream ps

  -- What `read_control` makes of the packets: the end, or the next message.
  data Next (f : ℕ) (ps : List Packet) : Type 0 where
    over :
        messages ps ≡ []
        → read_control f env (reader (host_stream ps) none) ≡ some (ok (none, reader [] none))
        → Next f ps
    next :
        (m : HostMsg) (ps' : List Packet)
        → messages ps ≡ m ∷ messages ps'
        → All Sent ps'
        → length ps' < length ps
        → read_control f env (reader (host_stream ps) none)
          ≡ some (ok (some m, reader (host_stream ps') none))
        → Next f ps

  module _ (from_slice : (p : List ℕ) → env.from_slice p ≡ from_json (parse p)) where
    slice-sent : (m : HostMsg) → Travels m → env.from_slice (sent m) ≡ ok m
    unfolding from_json shaped
    slice-sent m h =
        from_slice (sent m)
        ∙ rw (h.parsed, from_json, decode_host-encode_host as_f32 as_uint m h.fits) refl

    read_control-packet :
        (f : ℕ) (m : HostMsg) (bs : List ℕ)
        → Travels m
        → read_control (suc f) env (reader (message kind_control (sent m) ++ bs) none)
          ≡ some (ok (some m, reader bs none))
    unfolding read_control decoded
    read_control-packet f m bs h =
        rw (read_message-message kind_control (sent m) bs none h.small, read_control)
          (rw (slice-sent m h) refl)

    read_control-unknown :
        (f kind : ℕ) (payload bs : List ℕ)
        → kind ≢ kind_control
        → length payload < max_frame_bytes
        → read_control (suc f) env (reader (message kind payload ++ bs) none)
          ≡ read_control f env (reader bs none)
    unfolding read_control
    read_control-unknown f kind payload bs other h =
        let differs : (kind == kind_control) ≡ false = ground arith in
        rw (read_message-message kind payload bs none h, differs, read_control) refl

    read_control-Next : (f : ℕ) (ps : List Packet) → All Sent ps → length ps < f → Next f ps
    unfolding messages host_stream read_control Sent
    read_control-Next zero ps h lt = absurd (omega arith)
    read_control-Next (suc f) [] h lt = over refl (unfold read_message read_exact in refl)
    read_control-Next (suc f) (packet m ∷ ps) (h, hs) lt =
        next m ps refl hs (omega arith) (read_control-packet f m (host_stream ps) h)
    read_control-Next (suc f) (unknown kind payload ∷ ps) (h, hs) lt =
        let skipped = read_control-unknown f kind payload (host_stream ps) h.0 h.1 in
        elim (read_control-Next f ps hs (omega arith)) [
          | over e x ↦ over e (skipped ∙ x)
          | next m ps' e q l x ↦ next m ps' e q (omega arith) (skipped ∙ x)
        ]

    serve-messages :
        (f : ℕ) (ps : List Packet) (a : Addon)
        → All Sent ps
        → length ps < f
        → serve f env (reader (host_stream ps) none) a
          ≡ some (handle_all env (messages ps) a, ok tt)
    unfolding serve handle_all
    serve-messages zero ps a h lt = absurd (omega arith)
    serve-messages (suc f) ps a h lt = elim (read_control-Next (suc f) ps h lt) [
      | over e x ↦ rw (x, e, serve) refl
      | next m ps' e q l x ↦ elim (Bool-cases (handle_msg env m a).1) [
        | inl on ↦
            rw (x, e, on, serve, handle_all)
              (serve-messages f ps' (handle_msg env m a).0 q (omega arith))
        | inr off ↦ rw (x, e, off, serve, handle_all) refl
      ]
    ]

    -- A host that says hello in this version and then sends messages whose numbers are within their types,
    -- as PROTOCOL.md encodes them and below the limit, and between them packets of kinds that the addon
    -- does not know, is served message by message: the addon is ready, each message is handled in its
    -- order up to a shutdown or to the end of the input, every session is closed, and `run` returns well.
    -- As many rounds as there are packets and two more are enough.
    pub run-messages :
        (f : ℕ) (version : Text) (ps : List Packet) (s : Sink)
        → Travels (HostMsg.hello abi version)
        → All Sent ps
        → length ps + 1 < f
        → run f env (reader (host_stream (packet (HostMsg.hello abi version) ∷ ps)) none) s
          ≡ some (
            handle_all env (messages ps) no_sessions,
            send env.to_vec s (AddonMsg.ready env.addon_version (bytes "moonlight" ∷ [])),
            ok tt,
          )
    unfolding run host_stream
    run-messages zero version ps s h hs lt = absurd (omega arith)
    run-messages (suc f) version ps s h hs lt =
        rw (read_control-packet f (HostMsg.hello abi version) (host_stream ps) h, run)
          (rw (serve-messages (suc f) ps no_sessions hs (omega arith)) refl)
