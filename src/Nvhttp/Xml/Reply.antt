-- ===== src/Nvhttp/Xml/Reply.antt =====
-- The `/serverinfo` reply of a host, element after element, and what `parse_server_info` of
-- crates/moonlight-core/src/nvhttp.rs reads of it.
use tempest_addon_moonlight.Base.{
  ℕ, ◌≤◌, ◌≡◌, refl, Bool, true, not, ◌&&◌, Bool-cases, inl, inr, some, List, [], ◌∷◌, ◌++◌, arith,
  Text, bytes, text_eq, decimal, ◌==◌, All, All-append,
}
use tempest_addon_moonlight.Str.{starts_with}
use tempest_addon_moonlight.Str.Number.{parse_uint-decimal}
use tempest_addon_moonlight.Nvhttp.Xml.{
  ServerInfo, u8_max, u16_max, u32_max, open_tag, xml_tag, text_field, uint_field,
  parse_server_info,
}
use tempest_addon_moonlight.Nvhttp.Xml.Clear.{clear, IsFlat, decimal-IsFlat}
use tempest_addon_moonlight.Nvhttp.Xml.Fields.{
  IsName, Field, IsField, render, field, xml_tag-render,
}

is_name : Text → Bool
is_name [] = true
is_name (c ∷ t) = not (c == b'<') && (not (c == b'>') && (not (c == b'/') && is_name t))

is_name-IsName : (t : Text) → is_name t ≡ true → IsName t
unfolding is_name
is_name-IsName [] h = tt
is_name-IsName (c ∷ t) h = elim (Bool-cases (c == b'<')) [
  | inl e ↦ absurd (ground arith)
  | inr e ↦ elim (Bool-cases (c == b'>')) [
    | inl e' ↦ absurd (ground arith)
    | inr e' ↦ elim (Bool-cases (c == b'/')) [
      | inl e'' ↦ absurd (ground arith)
      | inr e'' ↦ ((e, e', e''), is_name-IsName t (ground arith))
    ]
  ]
]

-- The elements of the reply.
pub fields_of : ServerInfo → List Field
fields_of info =
    (bytes "hostname", info.hostname)
    ∷ (bytes "appversion", info.app_version)
    ∷ (bytes "GfeVersion", info.gfe_version)
    ∷ (bytes "HttpsPort", decimal info.https_port)
    ∷ (bytes "ServerCodecModeSupport", decimal info.server_codec_mode_support)
    ∷ (bytes "PairStatus", decimal info.pair_status)
    ∷ (bytes "currentgame", decimal info.current_game)
    ∷ (bytes "state", info.state)
    ∷ []

-- What the reply can hold: the texts begin no element, the numbers are of the types of their fields.
pub record IsInfo (info : ServerInfo) : Type 0 where
  pub hostname : IsFlat info.hostname
  pub app_version : IsFlat info.app_version
  pub gfe_version : IsFlat info.gfe_version
  pub state : IsFlat info.state
  pub pair_status : info.pair_status ≤ u8_max
  pub current_game : info.current_game ≤ u32_max
  pub https_port : info.https_port ≤ u16_max
  pub server_codec_mode_support : info.server_codec_mode_support ≤ u32_max

abbrev pub reply : List Field → Text
reply fs = bytes "<root status_code=\"200\">" ++ render fs

fields_of-IsField : (info : ServerInfo) → IsInfo info → All IsField (fields_of info)
unfolding fields_of is_name bytes
fields_of-IsField info h = (
  record { name = is_name-IsName (bytes "hostname") refl; flat = h.hostname },
  (
    record { name = is_name-IsName (bytes "appversion") refl; flat = h.app_version },
    (
      record { name = is_name-IsName (bytes "GfeVersion") refl; flat = h.gfe_version },
      (
        record {
          name = is_name-IsName (bytes "HttpsPort") refl;
          flat = decimal-IsFlat info.https_port;
        },
        (
          record {
            name = is_name-IsName (bytes "ServerCodecModeSupport") refl;
            flat = decimal-IsFlat info.server_codec_mode_support;
          },
          (
            record {
              name = is_name-IsName (bytes "PairStatus") refl;
              flat = decimal-IsFlat info.pair_status;
            },
            (
              record {
                name = is_name-IsName (bytes "currentgame") refl;
                flat = decimal-IsFlat info.current_game;
              },
              (record { name = is_name-IsName (bytes "state") refl; flat = h.state }, tt),
            ),
          ),
        ),
      ),
    ),
  ),
)

text_field-some : (xml tag v : Text) → xml_tag xml tag ≡ some v → text_field xml tag ≡ v
unfolding text_field
text_field-some xml tag v h = rw (h, text_field) refl

uint_field-some :
    (top d n : ℕ) (xml tag : Text)
    → n ≤ top
    → xml_tag xml tag ≡ some (decimal n)
    → uint_field top d xml tag ≡ n
unfolding uint_field
uint_field-some top d n xml tag le h = rw (h, parse_uint-decimal top n le, uint_field) refl

-- A reply whose texts begin no element, whose numbers are of the types of their fields, and whose elements
-- come in this order, with any others behind them, is read as the values that it was made of, whatever port
-- stands for a missing one.
pub parse_server_info-reply :
    (port : ℕ) (info : ServerInfo) (more : List Field)
    → IsInfo info
    → All IsField more
    → parse_server_info port (reply (fields_of info ++ more)) ≡ info
unfolding parse_server_info fields_of field text_eq clear starts_with is_name bytes
parse_server_info-reply port info more h others =
    let fs = fields_of info ++ more in
    let root = bytes "<root status_code=\"200\">" in
    let all : All IsField fs =
      All-append IsField (fields_of info) more (fields_of-IsField info h) others in
    let at : (tag : Text)
        → is_name tag ≡ true
        → clear (open_tag tag) root (render fs) ≡ true
        → xml_tag (reply fs) tag ≡ field tag fs =
      λ tag name clean. xml_tag-render tag root fs (is_name-IsName tag name) all clean in
    λ i. record {
      hostname =
          text_field-some (reply fs) (bytes "hostname") info.hostname
            (at (bytes "hostname") refl refl) i;
      app_version =
          text_field-some (reply fs) (bytes "appversion") info.app_version
            (at (bytes "appversion") refl refl) i;
      gfe_version =
          text_field-some (reply fs) (bytes "GfeVersion") info.gfe_version
            (at (bytes "GfeVersion") refl refl) i;
      pair_status =
          uint_field-some u8_max 0 info.pair_status (reply fs) (bytes "PairStatus") h.pair_status
            (at (bytes "PairStatus") refl refl) i;
      current_game =
          uint_field-some u32_max 0 info.current_game (reply fs) (bytes "currentgame")
            h.current_game (at (bytes "currentgame") refl refl) i;
      state =
          text_field-some (reply fs) (bytes "state") info.state (at (bytes "state") refl refl) i;
      https_port =
          uint_field-some u16_max port info.https_port (reply fs) (bytes "HttpsPort") h.https_port
            (at (bytes "HttpsPort") refl refl) i;
      server_codec_mode_support =
          uint_field-some u32_max 0 info.server_codec_mode_support (reply fs)
            (bytes "ServerCodecModeSupport") h.server_codec_mode_support
            (at (bytes "ServerCodecModeSupport") refl refl) i;
    }
