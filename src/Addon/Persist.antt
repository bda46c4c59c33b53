-- ===== src/Addon/Persist.antt =====
-- The client identity on its way through the host: reported by the worker of
-- crates/moonlight-core/src/session.rs, sent by crates/moonlight-addon/src/main.rs, kept by the host, and
-- handed back in a later `connect`.
use tempest_addon_moonlight.Base.{
  ℕ, ◌<◌, ◌≡◌, refl, false, Option, none, some, List, ◌∷◌, Text, ok, u32_mod,
}
use tempest_addon_moonlight.Identity.{MoonlightIdentity, generate, from_pem}
use tempest_addon_moonlight.Proto.Messages.{
  ConnectDoc, HostMsg, EventMsg, AddonMsg, DocFields, fill_defaults,
}
use tempest_addon_moonlight.Proto.Value.{obj}
use tempest_addon_moonlight.Proto.Json.{decode_host, encode_addon}
use tempest_addon_moonlight.Proto.Json.Slots.{object}
use tempest_addon_moonlight.Proto.Json.Host.{connect_slots, DocFits}
use tempest_addon_moonlight.Proto.Json.Incoming.{decode_host-connect}
use tempest_addon_moonlight.Proto.Json.Outgoing.{read_addon, AddonFits, read_addon-encode_addon}
use tempest_addon_moonlight.Session.Doc.{MoonlightConnectDoc, is_empty, restore_identity}
use tempest_addon_moonlight.Session.State.{Event, State, Deps, emit, outside}
use tempest_addon_moonlight.Session.Engine.{get_identity}
use tempest_addon_moonlight.Addon.Convert.{to_core_doc}
use tempest_addon_moonlight.Addon.Output.{Callback, addon_msg}
use tempest_addon_moonlight.Transport.{F32}

-- A host that keeps the identity: the fields of the doc that it sends from then on.
unfoldable pub persist : AddonMsg → DocFields → DocFields
persist (AddonMsg.event session (EventMsg.identity unique_id cert_pem key_pem)) f = record f {
  client_unique_id = some unique_id;
  client_cert_pem = some cert_pem;
  client_key_pem = some key_pem;
}
persist _ f = f

-- No part of the identity is empty, and its PEM texts are text.
pub record IsPersistable (lossy : List ℕ → Text) (id : MoonlightIdentity) : Type 0 where
  pub unique_id : is_empty id.unique_id ≡ false
  pub cert_pem : is_empty id.cert_pem ≡ false
  pub key_pem : is_empty id.key_pem ≡ false
  pub cert_text : lossy id.cert_pem ≡ id.cert_pem
  pub key_text : lossy id.key_pem ≡ id.key_pem

-- The message that reports an identity.
abbrev pub learned : ℕ → MoonlightIdentity → AddonMsg
learned session id =
    addon_msg session (Callback.on_identity_learned id.unique_id id.cert_pem id.key_pem)

restore-persist :
    (lossy : List ℕ → Text) (id : MoonlightIdentity) (session : ℕ) (f : DocFields)
    → IsPersistable lossy id
    → restore_identity (to_core_doc (fill_defaults (persist (learned session id) f))) ≡ some id
unfolding restore_identity to_core_doc fill_defaults persist addon_msg from_pem
restore-persist lossy id session f h = rw (h.unique_id, h.cert_pem, h.key_pem) refl

persist-DocFits :
    (id : MoonlightIdentity) (session : ℕ) (f : DocFields)
    → DocFits f
    → DocFits (persist (learned session id) f)
unfolding DocFits persist addon_msg
persist-DocFits id session f h = h

learned-AddonFits :
    (session : ℕ) (id : MoonlightIdentity) → session < u32_mod → AddonFits (learned session id)
unfolding AddonFits addon_msg
learned-AddonFits session id h = h

module _ {W Cert Key : Type 0} (d : Deps W Cert Key) where
  get_identity-generated :
      (doc : MoonlightConnectDoc) (s : State W) (w : W) (id : MoonlightIdentity)
      → IsPersistable d.lossy id
      → restore_identity doc ≡ none
      → generate d.generator s.world ≡ (w, ok id)
      → get_identity d doc s ≡ (
        record s {
          world = w;
          log = Event.identity_learned id.unique_id id.cert_pem id.key_pem ∷ s.log;
        },
        ok id,
      )
  unfolding get_identity outside emit
  get_identity-generated doc s w id h fresh made =
      rw (fresh, get_identity, made, h.cert_text, h.key_text) refl

  get_identity-restored :
      (doc : MoonlightConnectDoc) (s : State W) (id : MoonlightIdentity)
      → restore_identity doc ≡ some id
      → get_identity d doc s ≡ (s, ok id)
  unfolding get_identity
  get_identity-restored doc s id h = rw (h, get_identity) refl

  -- A session without an identity in its doc, when one is generated, reports that identity and goes on with
  -- it. A host that reads the message and keeps its three fields, and sends them with any other fields, within
  -- their types, in a later `connect`, gives that session the same identity: it generates none, reports none
  -- and does nothing else. The identity has no empty part and its PEM texts are text; the ids are within
  -- their type.
  pub get_identity-persist :
      (as_f32 : ℕ → F32) (as_uint : F32 → Option ℕ) (doc : MoonlightConnectDoc) (s s' : State W)
      (w : W) (id : MoonlightIdentity) (session session' : ℕ) (f : DocFields)
      → restore_identity doc ≡ none
      → generate d.generator s.world ≡ (w, ok id)
      → IsPersistable d.lossy id
      → session < u32_mod
      → session' < u32_mod
      → DocFits f
      → (get_identity d doc s ≡ (
        record s {
          world = w;
          log = Event.identity_learned id.unique_id id.cert_pem id.key_pem ∷ s.log;
        },
        ok id,
      ))
        × (m : AddonMsg) × (read_addon (encode_addon as_f32 (learned session id)) ≡ some m)
        × (later : ConnectDoc) × (decode_host
              (obj (object (connect_slots as_f32 as_uint session' (persist m f))))
            ≡ some (HostMsg.connect session' later))
        × (get_identity d (to_core_doc later) s' ≡ (s', ok id))
  get_identity-persist as_f32 as_uint doc s s' w id session session' f fresh made h small small'
        fits =
      let kept = persist (learned session id) f in
      (
        get_identity-generated doc s w id h fresh made,
        learned session id,
        read_addon-encode_addon as_f32 (learned session id) (learned-AddonFits session id small),
        fill_defaults kept,
        decode_host-connect as_f32 as_uint session' kept small' (persist-DocFits id session f fits),
        get_identity-restored (to_core_doc (fill_defaults kept)) s' id
            (restore-persist d.lossy id session f h),
      )
