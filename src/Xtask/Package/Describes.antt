-- ===== src/Xtask/Package/Describes.antt =====
-- What the descriptor of `package` of crates/xtask/src/main.rs says.
use tempest_addon_moonlight.Base.{◌≡◌, sym, ap, ◌∙◌, [], ◌∷◌, ◌++◌, append_assoc, Text, bytes}
use tempest_addon_moonlight.Xtask.Package.{descriptor}

-- A text that holds another.
abbrev pub Mentions : Text → Text → Type 0
Mentions t s = (pre : Text) × (post : Text) × (t ≡ pre ++ (s ++ post))

Mentions-after : (p t s : Text) → Mentions t s → Mentions (p ++ t) s
Mentions-after p t s (pre, post, e) =
    (p ++ pre, post, ap (λ t. p ++ t) e ∙ sym (append_assoc p pre _))

quoted : (k t post : Text) → Mentions (k ++ (t ++ (b'"' ∷ post))) (k ++ (t ++ (b'"' ∷ [])))
quoted k t post = (
  [],
  post,
  ap (λ u. k ++ u) (sym (append_assoc t (b'"' ∷ []) post))
      ∙ sym (append_assoc k (t ++ (b'"' ∷ [])) post),
)

-- The descriptor names the target and the executable.
unfoldable pub Describes : Text → Text → Text → Type 0
Describes text target exe =
    Mentions text (bytes "\"target\": \"" ++ (target ++ bytes "\""))
    × Mentions text (bytes "\"exec\": \"bin/" ++ (exe ++ bytes "\""))

pub descriptor-Describes :
    (version abi target exe : Text) → Describes (descriptor version abi target exe) target exe
unfolding descriptor Describes bytes
descriptor-Describes version abi target exe =
    let target_name = bytes "\"target\": \"" ++ (target ++ (b'"' ∷ [])) in
    let exec = bytes "\"exec\": \"bin/" ++ (exe ++ (b'"' ∷ [])) in
    (
      Mentions-after (bytes "{\n  \"id\": \"moonlight\",\n  \"version\": \"") _ target_name (
          Mentions-after version _ target_name (
            Mentions-after (bytes "\",\n  \"abi\": ") _ target_name (
              Mentions-after abi _ target_name (
                Mentions-after (bytes ",\n  ") _ target_name
                  (quoted (bytes "\"target\": \"") target _))))),
      Mentions-after (bytes "{\n  \"id\": \"moonlight\",\n  \"version\": \"") _ exec (
          Mentions-after version _ exec (
            Mentions-after (bytes "\",\n  \"abi\": ") _ exec (
              Mentions-after abi _ exec (
                Mentions-after (bytes ",\n  \"target\": \"") _ exec (
                  Mentions-after target _ exec (
                    Mentions-after
                      (bytes
                        "\",\n  \"displayName\": \"Moonlight\",\n  \"license\": \"GPL-3.0-only\",\n  \"repository\": \"https://github.com/tempest-term/tempest-addon-moonlight\",\n  ")
                      _ exec (quoted (bytes "\"exec\": \"bin/") exe _))))))),
    )
