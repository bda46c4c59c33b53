-- ===== src/Addon/Convert.antt =====
-- `to_core_doc` and `to_core_input` of crates/moonlight-addon/src/main.rs.
use tempest_addon_moonlight.Base.{
  ℕ, ◌+◌, ◌*◌, ◌%◌, ◌≡◌, refl, Option, none, some, [], ◌∷◌, Text, ltb, if◌then◌else◌,
}
use tempest_addon_moonlight.Proto.Messages.{ConnectDoc, Mods, InputMsg, DocFields, fill_defaults}
use tempest_addon_moonlight.Session.Doc.{MoonlightConnectDoc, new_doc, restore_identity}
use tempest_addon_moonlight.Transport.{KeyMods, RemoteInput}

unfoldable pub to_core_doc : ConnectDoc → MoonlightConnectDoc
to_core_doc d = record {
  host = d.host;
  http_port = d.http_port;
  https_port = d.https_port;
  width = d.width;
  height = d.height;
  fps = d.fps;
  bitrate_kbps = d.bitrate_kbps;
  use_hevc = d.use_hevc;
  client_unique_id = d.client_unique_id;
  client_cert_pem = d.client_cert_pem;
  client_key_pem = d.client_key_pem;
}

-- The first scalar of a UTF-8 text: `s.chars().next()`.
first_char : Text → Option ℕ
first_char [] = none
first_char (a ∷ t) = if ltb a 0x80 then some a else scalar a t
  where
    scalar : ℕ → Text → Option ℕ
    scalar a [] = none
    scalar a (b ∷ []) = some (a % 32 * 64 + b % 64)
    scalar a (b ∷ (c ∷ [])) =
        some (if ltb a 0xE0 then a % 32 * 64 + b % 64 else (a % 16 * 64 + b % 64) * 64 + c % 64)
    scalar a (b ∷ (c ∷ (d ∷ t))) = some (
        if ltb a 0xE0
        then a % 32 * 64 + b % 64
        else if ltb a 0xF0
        then (a % 16 * 64 + b % 64) * 64 + c % 64
        else ((a % 8 * 64 + b % 64) * 64 + c % 64) * 64 + d % 64)

to_core_char : Option Text → Option ℕ
to_core_char none = none
to_core_char (some s) = first_char s

to_core_mods : Mods → KeyMods
to_core_mods m = record { ctrl = m.ctrl; alt = m.alt; shift = m.shift; meta = m.meta }

unfoldable pub to_core_input : InputMsg → RemoteInput
unfolding first_char to_core_char to_core_mods
to_core_input (InputMsg.pointer x y buttons) = RemoteInput.pointer x y buttons
to_core_input (InputMsg.wheel x y dx dy) = RemoteInput.wheel x y dx dy
to_core_input (InputMsg.key down code ch mods) =
    RemoteInput.key down code (to_core_char ch) (to_core_mods mods)
to_core_input (InputMsg.clipboard text) = RemoteInput.clipboard_text text

-- A `connect` whose doc names the host alone.
abbrev pub host_only : Text → DocFields
host_only host = record {
  host = host;
  http_port = none;
  https_port = none;
  width = none;
  height = none;
  fps = none;
  bitrate_kbps = none;
  use_hevc = none;
  client_unique_id = none;
  client_cert_pem = none;
  client_key_pem = none;
}

-- The defaults that the protocol fills in are those of the engine: a doc that names the host alone is
-- `MoonlightConnectDoc::new`, and it holds no identity to restore.
pub to_core_doc-fill_defaults :
    (host : Text)
    → (to_core_doc (fill_defaults (host_only host)) ≡ new_doc host)
      × (restore_identity (to_core_doc (fill_defaults (host_only host))) ≡ none)
unfolding to_core_doc fill_defaults new_doc restore_identity
to_core_doc-fill_defaults host = (refl, refl)
