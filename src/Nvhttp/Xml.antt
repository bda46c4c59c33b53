-- ===== src/Nvhttp/Xml.antt =====
-- `xml_tag` and the parsing of the replies in crates/moonlight-core/src/nvhttp.rs.
pub mod Tags
pub mod Clear
pub mod Apps
pub mod Fields
pub mod Reply
use tempest_addon_moonlight.Base.{
  ℕ, zero, suc, ◌+◌, ◌-◌, ◌^◌, ◌≡◌, refl, Bool, true, false, ◌||◌, not, Option, none, some, List,
  [], ◌∷◌, ◌++◌, Text, bytes, text_eq, length, take, drop,
}
use mathlib.Core.Option
use tempest_addon_moonlight.Str.{find, trim, contains}
use tempest_addon_moonlight.Str.Number.{parse_uint}

abbrev pub open_tag : Text → Text
open_tag tag = b'<' ∷ (tag ++ (b'>' ∷ []))

abbrev pub close_tag : Text → Text
close_tag tag = b'<' ∷ b'/' ∷ (tag ++ (b'>' ∷ []))

-- `&s[from..to]`
abbrev pub slice : Text → ℕ → ℕ → Text
slice s from to = take (to - from) (drop from s)

-- The text between the first `open` and the next `close`, by the indices that the source computes.
unfoldable pub between : Text → Text → Text → Option Text
between open' close' xml = elim (find open' xml) [
  | none ↦ none
  | some i ↦
      let start = i + length open' in
      elim (find close' (drop start xml)) [
        | none ↦ none
        | some j ↦ some (slice xml start (j + start))
      ]
]

unfoldable pub xml_tag : Text → Text → Option Text
xml_tag xml tag = between (open_tag tag) (close_tag tag) xml

pub record ServerInfo : Type 0 where
  pub hostname : Text
  pub app_version : Text
  pub gfe_version : Text
  pub pair_status : ℕ
  pub current_game : ℕ
  pub state : Text
  pub https_port : ℕ
  pub server_codec_mode_support : ℕ

abbrev pub u8_max : ℕ
u8_max = 2 ^ 8 - 1

abbrev pub u16_max : ℕ
u16_max = 2 ^ 16 - 1

abbrev pub u32_max : ℕ
u32_max = 2 ^ 32 - 1

-- `xml_tag(..).unwrap_or_default()`
text_field : Text → Text → Text
text_field xml tag = elim (xml_tag xml tag) [ none ↦ [] | some t ↦ t ]

-- `xml_tag(..).and_then(|s| s.parse().ok()).unwrap_or(d)` at the type whose largest value is `top`.
uint_field : ℕ → ℕ → Text → Text → ℕ
uint_field top d xml tag = elim (xml_tag xml tag) [
  | none ↦ d
  | some t ↦ elim (parse_uint top t) [ none ↦ d | some n ↦ n ]
]

-- The fields of a `/serverinfo` reply, with the port that stands for a missing `HttpsPort`.
unfoldable pub parse_server_info : ℕ → Text → ServerInfo
unfolding text_field uint_field
parse_server_info default_port body = record {
  hostname = text_field body (bytes "hostname");
  app_version = text_field body (bytes "appversion");
  gfe_version = text_field body (bytes "GfeVersion");
  pair_status = uint_field u8_max 0 body (bytes "PairStatus");
  current_game = uint_field u32_max 0 body (bytes "currentgame");
  state = text_field body (bytes "state");
  https_port = uint_field u16_max default_port body (bytes "HttpsPort");
  server_codec_mode_support = uint_field u32_max 0 body (bytes "ServerCodecModeSupport");
}

pub record HostApp : Type 0 where
  pub id : ℕ
  pub title : Text

-- `str::split`; every round drops the pattern, so `length s + 1` rounds are enough.
pub split_loop : ℕ → Text → Text → List Text
split_loop zero pat s = s ∷ []
split_loop (suc f) pat s = elim (find pat s) [
  | none ↦ s ∷ []
  | some i ↦ take i s ∷ split_loop f pat (drop (i + length pat) s)
]

unfoldable pub split : Text → Text → List Text
unfolding split_loop
split s pat = split_loop (suc (length s)) pat s

-- `skip(1)`
skip_one : List Text → List Text
skip_one [] = []
skip_one (c ∷ cs) = cs

-- One `<App>` block; a block without a title or with no number for its id is left out.
unfoldable pub parse_app : Text → Option HostApp
parse_app chunk = elim (xml_tag chunk (bytes "AppTitle")) [
  | none ↦ none
  | some title ↦ elim (xml_tag chunk (bytes "ID")) [
    | none ↦ none
    | some t ↦ elim (parse_uint u32_max (trim t)) [
      | none ↦ none
      | some id ↦ some (record { id = id; title = title })
    ]
  ]
]

filter_apps : List Text → List HostApp
filter_apps [] = []
filter_apps (c ∷ cs) =
    let rest = filter_apps cs in elim (parse_app c) [ none ↦ rest | some a ↦ a ∷ rest ]

unfoldable pub parse_app_list : Text → List HostApp
unfolding skip_one filter_apps split
parse_app_list body = filter_apps (skip_one (split body (bytes "<App>")))

is_nonzero_tag : Text → Text → Bool
is_nonzero_tag body tag = elim (xml_tag body tag) [
  | none ↦ false
  | some t ↦ not (text_eq (trim t) (bytes "0"))
]

-- A fresh session or a resumed one.
unfoldable pub launch_started : Text → Bool
unfolding is_nonzero_tag
launch_started body =
    is_nonzero_tag body (bytes "gamesession") || is_nonzero_tag body (bytes "resume")

-- `xml_tag(&body, "paired").map(|s| s.trim()) == Some("1")`
unfoldable pub is_paired_reply : Text → Bool
is_paired_reply body = elim (xml_tag body (bytes "paired")) [
  | none ↦ false
  | some t ↦ text_eq (trim t) (bytes "1")
]

-- `body.contains("status_code=\"200\"")`
unfoldable pub is_status_200 : Text → Bool
is_status_200 body = contains body (bytes "status_code=\"200\"")
