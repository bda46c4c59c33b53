-- ===== src/Proto/Json/Outgoing.antt =====
-- A host's reader of the addon's control messages, written after PROTOCOL.md, and that it reads back
-- what `Serialize for AddonMsg` of crates/moonlight-addon/src/proto.rs writes.
use tempest_addon_moonlight.Base.{
  ℕ, ◌<◌, ◌≡◌, refl, ap, Option, none, some, List, [], ◌∷◌, Text, bytes, text_eq, if◌then◌else◌,
}
use tempest_addon_moonlight.Base.Options.{◌>>=◌}
use tempest_addon_moonlight.Proto.Messages.{EventMsg, AddonMsg}
use tempest_addon_moonlight.Proto.Json.{strings, optional_text, event_fields, encode_addon}
use tempest_addon_moonlight.Proto.Value.{nil, cons, arr, obj}
use tempest_addon_moonlight.Proto.Value.{
  Json, Items, Fields, once, lookup, required, defaulted, uint, text, present, u16, u32,
}
use tempest_addon_moonlight.Proto.Json.Slots.{then_read, uint-number}
use tempest_addon_moonlight.Transport.{F32}

unfoldable pub text_items : Items → Option (List Text)
text_items nil = some []
text_items (cons v vs) = do t ← text v; ts ← text_items vs; some (t ∷ ts)

unfoldable pub texts : Json → Option (List Text)
unfolding text_items
texts (arr vs) = text_items vs
texts _ = none

-- PROTOCOL.md, `event` kinds.
unfoldable pub read_event : Text → Fields → Option EventMsg
read_event kind o =
    if text_eq kind (bytes "serviceMessage")
    then required text (lookup (bytes "line") o) >>= (λ line. some (EventMsg.service_message line))
    else if text_eq kind (bytes "pairPrompt")
    then (do
      pin ← required text (lookup (bytes "pin") o)
      url ← required text (lookup (bytes "url") o)
      some (EventMsg.pair_prompt pin url))
    else if text_eq kind (bytes "pairFinished")
    then defaulted none (present text) (lookup (bytes "error") o)
      >>= (λ e. some (EventMsg.pair_finished e))
    else if text_eq kind (bytes "identity")
    then (do
      unique_id ← required text (lookup (bytes "uniqueId") o)
      cert_pem ← required text (lookup (bytes "certPem") o)
      key_pem ← required text (lookup (bytes "keyPem") o)
      some (EventMsg.identity unique_id cert_pem key_pem))
    else none

-- PROTOCOL.md, Addon → host.
unfoldable pub read_fields : Text → Fields → Option AddonMsg
unfolding read_event texts
read_fields t o =
    if text_eq t (bytes "ready")
    then (do
      version ← required text (lookup (bytes "addonVersion") o)
      provides ← required texts (lookup (bytes "provides") o)
      some (AddonMsg.ready version provides))
    else if text_eq t (bytes "sessionReady")
    then (do
      session ← required (uint u32) (lookup (bytes "session") o)
      width ← required (uint u16) (lookup (bytes "width") o)
      height ← required (uint u16) (lookup (bytes "height") o)
      some (AddonMsg.session_ready session width height))
    else if text_eq t (bytes "sessionClosed")
    then (do
      session ← required (uint u32) (lookup (bytes "session") o)
      e ← defaulted none (present text) (lookup (bytes "error") o)
      some (AddonMsg.session_closed session e))
    else if text_eq t (bytes "event")
    then (do
      session ← required (uint u32) (lookup (bytes "session") o)
      kind ← required text (lookup (bytes "kind") o)
      e ← read_event kind o
      some (AddonMsg.event session e))
    else none

unfoldable pub read_addon : Json → Option AddonMsg
unfolding read_fields
read_addon (obj o) = required text (lookup (bytes "t") o) >>= (λ t. read_fields t o)
read_addon _ = none

-- The numbers of a message are within their types.
unfoldable pub AddonFits : AddonMsg → Type 0
AddonFits (AddonMsg.ready version provides) = Unit
AddonFits (AddonMsg.session_ready session width height) =
    (session < u32) × (width < u16) × (height < u16)
AddonFits (AddonMsg.session_closed session e) = session < u32
AddonFits (AddonMsg.event session e) = session < u32

text_items-strings : (ts : List Text) → text_items (strings ts) ≡ some ts
unfolding text_items strings text
text_items-strings [] = refl
text_items-strings (t ∷ ts) = ap (λ r. r >>= (λ ts. some (t ∷ ts))) (text_items-strings ts)

-- A host that reads as PROTOCOL.md says gets back every message of the addon whose numbers are within
-- their types, a missing `error` as none.
pub read_addon-encode_addon :
    (as_f32 : ℕ → F32) (m : AddonMsg) → AddonFits m → read_addon (encode_addon as_f32 m) ≡ some m
unfolding read_addon read_fields read_event encode_addon AddonFits text_eq bytes lookup once
    required defaulted present text texts strings optional_text event_fields
read_addon-encode_addon as_f32 (AddonMsg.ready version provides) h =
    then_read _ provides (text_items-strings provides) refl
read_addon-encode_addon as_f32 (AddonMsg.session_ready session width height) (h, hw, hh) =
    then_read _ session (uint-number as_f32 u32 session h) (
      then_read _ width (uint-number as_f32 u16 width hw)
        (then_read _ height (uint-number as_f32 u16 height hh) refl))
read_addon-encode_addon as_f32 (AddonMsg.session_closed session none) h =
    then_read _ session (uint-number as_f32 u32 session h) refl
read_addon-encode_addon as_f32 (AddonMsg.session_closed session (some e)) h =
    then_read _ session (uint-number as_f32 u32 session h) refl
read_addon-encode_addon as_f32 (AddonMsg.event session (EventMsg.service_message line)) h =
    then_read _ session (uint-number as_f32 u32 session h) refl
read_addon-encode_addon as_f32 (AddonMsg.event session (EventMsg.pair_prompt pin url)) h =
    then_read _ session (uint-number as_f32 u32 session h) refl
read_addon-encode_addon as_f32 (AddonMsg.event session (EventMsg.pair_finished none)) h =
    then_read _ session (uint-number as_f32 u32 session h) refl
read_addon-encode_addon as_f32 (AddonMsg.event session (EventMsg.pair_finished (some e))) h =
    then_read _ session (uint-number as_f32 u32 session h) refl
read_addon-encode_addon as_f32 (AddonMsg.event session (EventMsg.identity u c k)) h =
    then_read _ session (uint-number as_f32 u32 session h) refl
