-- ===== src/Tests/Apps.antt =====
-- A host with two apps, and what it says of itself.
use tempest_addon_moonlight.Base.{◌≡◌, refl, List, [], ◌∷◌, ◌++◌, All, Text, bytes, arith}
use tempest_addon_moonlight.Nvhttp.Xml.{HostApp, ServerInfo, parse_app_list, parse_server_info}
use tempest_addon_moonlight.Nvhttp.Xml.Fields.{Field, IsField}
use tempest_addon_moonlight.Nvhttp.Xml.Reply.{fields_of, reply, IsInfo, parse_server_info-reply}
use tempest_addon_moonlight.Nvhttp.Xml.Apps.{document, IsApp, parse_app_list-document}

-- A line break and two spaces.
abbrev gap : Text
gap = 10 ∷ 32 ∷ 32 ∷ []

abbrev apps : List HostApp
apps = record { id = 881448767; title = bytes "Desk" } ∷ record { id = 7; title = bytes "A>b" } ∷ []

apps-IsApp : All IsApp apps
unfolding bytes
apps-IsApp = (
  record { id = omega arith; title = (refl, (refl, (refl, (refl, tt)))) },
  (record { id = omega arith; title = (refl, (refl, (refl, tt))) }, tt),
)

parse_app_list-document_example : parse_app_list (document gap apps) ≡ apps
parse_app_list-document_example =
    parse_app_list-document gap (refl, (refl, (refl, tt))) apps apps-IsApp

abbrev info : ServerInfo
info = record {
  hostname = bytes "pc";
  app_version = bytes "7.1";
  gfe_version = bytes "3";
  pair_status = 1;
  current_game = 881448767;
  state = bytes "BUSY";
  https_port = 47984;
  server_codec_mode_support = 3843;
}

info-IsInfo : IsInfo info
unfolding bytes
info-IsInfo = record {
  hostname = (refl, (refl, tt));
  app_version = (refl, (refl, (refl, tt)));
  gfe_version = (refl, tt);
  state = (refl, (refl, (refl, (refl, tt))));
  pair_status = omega arith;
  current_game = omega arith;
  https_port = omega arith;
  server_codec_mode_support = omega arith;
}

-- A second element with the tag of the first.
abbrev more : List Field
more = (bytes "hostname", bytes "x") ∷ []

more-IsField : All IsField more
unfolding bytes
more-IsField = (
  record {
    name = (
      (refl, refl, refl),
      (
        (refl, refl, refl),
        (
          (refl, refl, refl),
          (
            (refl, refl, refl),
            (
              (refl, refl, refl),
              ((refl, refl, refl), ((refl, refl, refl), ((refl, refl, refl), tt))),
            ),
          ),
        ),
      ),
    );
    flat = (refl, tt);
  },
  tt,
)

parse_server_info-reply_example : parse_server_info 47984 (reply (fields_of info ++ more)) ≡ info
parse_server_info-reply_example = parse_server_info-reply 47984 info more info-IsInfo more-IsField
