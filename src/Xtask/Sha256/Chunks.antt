-- ===== src/Xtask/Sha256/Chunks.antt =====
-- The hash of crates/xtask/src/main.rs does not depend on how its input is cut.
use tempest_addon_moonlight.Base.{
  ℕ, ◌≡◌, sym, ap, ◌∙◌, Option, some, List, [], ◌∷◌, ◌++◌, append_assoc, append-nil, All, Result,
  ok, Text,
}
use tempest_addon_moonlight.Nvhttp.Hex.{to_hex_lower}
use tempest_addon_moonlight.Base.Options.{◌>>=◌}
use tempest_addon_moonlight.Xtask.Sha256.{
  Sha256, new, update, finish, hash_reads, finish_hex, sha256_hex,
}
use tempest_addon_moonlight.Xtask.Sha256.Digest.{digest}
use tempest_addon_moonlight.Xtask.Sha256.Absorb.{Absorbed, new-Absorbed, update-Absorbed}
use tempest_addon_moonlight.Xtask.Sha256.Finish.{finish-digest}

abbrev pub concat : List (List ℕ) → List ℕ
concat [] = []
concat (c ∷ cs) = c ++ concat cs

-- One `update` for each chunk.
unfoldable pub update_all : List (List ℕ) → Sha256 → Option Sha256
update_all [] s = some s
update_all (c ∷ cs) s = update s c >>= update_all cs

update_all-digest :
    (cs : List (List ℕ)) (msg : List ℕ) (s : Sha256)
    → Absorbed msg s
    → (update_all cs s >>= finish) ≡ some (digest (msg ++ concat cs))
unfolding update_all
update_all-digest [] msg s h =
    finish-digest msg s h ∙ ap (λ m. some (digest m)) (sym (append-nil msg))
update_all-digest (c ∷ cs) msg s h =
    let (s1, e, h1) = update-Absorbed msg c s h in
    rw (e, update_all)
      (update_all-digest cs (msg ++ c) s1 h1
        ∙ ap (λ m. some (digest m)) (append_assoc msg c (concat cs)))

-- However a message is cut into calls of `update`, empty ones included, the hash ends without getting
-- stuck and is the FIPS 180-4 digest of the whole message.
pub update_all-finish :
    (cs : List (List ℕ)) → (update_all cs new >>= finish) ≡ some (digest (concat cs))
update_all-finish cs = update_all-digest cs [] new new-Absorbed

abbrev pub NonEmpty : List ℕ → Type 0
NonEmpty [] = ⊥
NonEmpty (b ∷ c) = Unit

abbrev pub reads : List (List ℕ) → List (Result Text (List ℕ))
reads [] = []
reads (c ∷ cs) = ok c ∷ reads cs

hash_reads-digest :
    (cs : List (List ℕ)) (more : List (Result Text (List ℕ))) (msg : List ℕ) (s : Sha256)
    → All NonEmpty cs
    → Absorbed msg s
    → hash_reads (reads cs ++ (ok [] ∷ more)) s
      ≡ some (ok (to_hex_lower (digest (msg ++ concat cs))))
unfolding hash_reads finish_hex
hash_reads-digest [] more msg s ne h =
    rw (finish-digest msg s h)
      (ap (λ m. some (ok (to_hex_lower (digest m)))) (sym (append-nil msg)))
hash_reads-digest ([] ∷ cs) more msg s ne h = absurd ne.0
hash_reads-digest ((b ∷ c) ∷ cs) more msg s ne h =
    let (s1, e, h1) = update-Absorbed msg (b ∷ c) s h in
    rw (e, hash_reads)
      (hash_reads-digest cs more (msg ++ (b ∷ c)) s1 ne.1 h1
        ∙ ap (λ m. some (ok (to_hex_lower (digest m)))) (append_assoc msg (b ∷ c) (concat cs)))

-- A file that is read in non-empty pieces up to a read of nothing is reported with the digest of its
-- whole contents in lower-case hex, whatever would be read after that.
pub sha256_hex-digest :
    (cs : List (List ℕ)) (more : List (Result Text (List ℕ)))
    → All NonEmpty cs
    → sha256_hex (ok (reads cs ++ (ok [] ∷ more))) ≡ some (ok (to_hex_lower (digest (concat cs))))
unfolding sha256_hex
sha256_hex-digest cs more ne = hash_reads-digest cs more [] new ne new-Absorbed
