-- ===== src/Tests/Identity.antt =====
-- The client identity at concrete inputs.
use tempest_addon_moonlight.Base.{
  ◌≡◌, refl, ap, ◌∙◌, Bool, true, false, none, some, [], ◌∷◌, bytes, arith, length,
  length-replicate, ok,
}
use tempest_addon_moonlight.Identity.{
  MoonlightIdentity, Certificate, generate, generate_inner, make_key, make_name, make_serial,
  make_cert, give, make_date, built_by, give_names, give_dates, to_identity,
}
use tempest_addon_moonlight.Identity.SelfSigned.{
  IsSelfSigned, IsIdentityOf, pure-ok, generate-IsSelfSigned,
}
use tempest_addon_moonlight.Nvhttp.Hex.{to_hex_lower}
use tempest_addon_moonlight.Proto.Messages.{ConnectDoc, HostMsg, AddonMsg, DocFields}
use tempest_addon_moonlight.Proto.Value.{obj}
use tempest_addon_moonlight.Proto.Json.{decode_host, encode_addon}
use tempest_addon_moonlight.Proto.Json.Slots.{object}
use tempest_addon_moonlight.Proto.Json.Host.{connect_slots, DocFits, Fits}
use tempest_addon_moonlight.Proto.Json.Outgoing.{read_addon}
use tempest_addon_moonlight.Session.Doc.{new_doc, restore_identity}
use tempest_addon_moonlight.Session.State.{Event}
use tempest_addon_moonlight.Session.Engine.{get_identity}
use tempest_addon_moonlight.Addon.Convert.{to_core_doc, host_only}
use tempest_addon_moonlight.Addon.Persist.{persist, learned, get_identity-persist}
use tempest_addon_moonlight.Transport.{finite}
use tempest_addon_moonlight.Tests.World.{generator, deps, initial, doc}

abbrev made : MoonlightIdentity
made = record { unique_id = bytes "0303030303030303"; cert_pem = 1 ∷ []; key_pem = 2 ∷ [] }

is_made : generate generator false ≡ (false, ok made)
unfolding generate generate_inner make_key make_name make_serial make_cert give make_date built_by
    give_names give_dates to_identity to_hex_lower bytes
is_made = refl

generate-IsSelfSigned_example :
    (key : Unit {0}) × (cert : Certificate Unit) × (drawn : Bool) × (generator.rsa 2048 false
      ≡ (drawn, ok key))
    × IsSelfSigned key cert
    × IsIdentityOf generator key cert made
    × (length made.unique_id ≡ 16)
generate-IsSelfSigned_example =
    generate-IsSelfSigned generator (λ n w w' bs h. ap length (pure-ok h) ∙ length-replicate n 3)
      false false made is_made

abbrev hevc_only : DocFields
hevc_only = record (host_only (bytes "host")) { use_hevc = some true }

get_identity-persist_example :
    (get_identity deps doc initial ≡ (
      record initial {
        world = false;
        log = Event.identity_learned made.unique_id made.cert_pem made.key_pem ∷ initial.log;
      },
      ok made,
    ))
    × (m : AddonMsg) × (read_addon (encode_addon (finite false) (learned 3 made)) ≡ some m)
    × (later : ConnectDoc) × (decode_host
          (obj (object (connect_slots (finite false) (λ x. none) 4 (persist m hevc_only))))
        ≡ some (HostMsg.connect 4 later))
    × (get_identity deps (to_core_doc later) initial ≡ (initial, ok made))
unfolding new_doc restore_identity bytes DocFits Fits
get_identity-persist_example =
    get_identity-persist deps (finite false) (λ x. none) doc initial initial false made 3 4
      hevc_only refl is_made
      (record {
        unique_id = refl;
        cert_pem = refl;
        key_pem = refl;
        cert_text = refl;
        key_text = refl;
      })
      (omega arith) (omega arith) (tt, tt, tt, tt, tt, tt)
