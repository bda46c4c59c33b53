-- ===== src/Tests/Xtask.antt =====
-- The packaging task at concrete inputs: the published SHA-256 vectors, and a package.
use tempest_addon_moonlight.Base.{
  ℕ, ◌+◌, ◌*◌, ◌%◌, ◌≡◌, refl, Bool, true, false, Option, none, some, List, [], ◌∷◌, ◌++◌, Text,
  bytes, decimal, decimal_loop, text_eq, if◌then◌else◌, replicate, be_bytes, from_be_bytes, u32_mod,
  arith, inl, Fail, Result, ok, err,
}
use tempest_addon_moonlight.Nvhttp.Hex.{to_hex_lower}
use tempest_addon_moonlight.Str.{find, starts_with}
use tempest_addon_moonlight.Base.Options.{◌>>=◌}
use tempest_addon_moonlight.Xtask.Sha256.{
  new, update, finish, pad_loop, absorb, compress, schedule, round, words_bytes, wrapping_add,
  rotate_right, shift_right, complement, small_sigma0, small_sigma1, sha256_hex, at,
}
use tempest_addon_moonlight.Xtask.Sha256.Digest.{digest}
use tempest_addon_moonlight.Xtask.Sha256.Chunks.{
  concat, update_all, update_all-finish, reads, sha256_hex-digest,
}
use tempest_addon_moonlight.Xtask.Sha256.Shape.{sigma0, sigma1, schedule-recurrence}
use tempest_addon_moonlight.Xtask.Package.{
  run_package, container_entries, package_target, platform_of, filled_var, exe_of, cargo_build,
  cargo_args, bin_path, check_file, build_payload, add_entry, write_container, report, var_or,
  package_descriptor, descriptor, out_path,
}
use tempest_addon_moonlight.Xtask.Os.{Os, Entry, call, ask, sys}
use tempest_addon_moonlight.Xtask.Package.Archive.{
  Packaged, run_package-Packaged, run_package_unbuilt,
}

-- The digest of a text by the hasher.
hex : Text → Option (Result Text Text)
hex t = sha256_hex (ok (reads (t ∷ [])))

-- The vectors of FIPS 180-4.
vectors :
    (hex [] ≡ some (ok (bytes "e3b0c44298fc1c149afbf4c8996fb92427ae41e4649b934ca495991b7852b855")))
    × (hex (bytes "abc")
        ≡ some (ok (bytes "ba7816bf8f01cfea414140de5dae2223b00361a396177a9cb410ff61f20015ad")))
    × (hex (bytes "abcdbcdecdefdefgefghfghighijhijkijkljklmklmnlmnomnopnopq")
        ≡ some (ok (bytes "248d6a61d20638b8e5c026930c3e6039a33ce45964ff2167f6ecedd419db06c1")))
unfolding hex sha256_hex new update finish pad_loop absorb compress schedule round words_bytes
    wrapping_add rotate_right shift_right complement small_sigma0 small_sigma1 to_hex_lower bytes
    be_bytes from_be_bytes
vectors = (refl, refl, refl)

abbrev pieces : List (List ℕ)
pieces = (97 ∷ 98 ∷ []) ∷ [] ∷ replicate 70 99 ∷ []

update_all-finish_example : (update_all pieces new >>= finish) ≡ some (digest (concat pieces))
update_all-finish_example = update_all-finish pieces

abbrev whole_pieces : List (List ℕ)
whole_pieces = (97 ∷ 98 ∷ []) ∷ replicate 70 99 ∷ []

sha256_hex-digest_example :
    sha256_hex (ok (reads whole_pieces ++ (ok [] ∷ err (bytes "closed") ∷ [])))
    ≡ some (ok (to_hex_lower (digest (concat whole_pieces))))
sha256_hex-digest_example =
    sha256_hex-digest whole_pieces (err (bytes "closed") ∷ []) (tt, (tt, tt))

abbrev block : List ℕ
block = replicate 64 1

schedule-recurrence_example :
    (at (schedule block) 3
      ≡ from_be_bytes (
          at block (3 * 4)
          ∷ at block (3 * 4 + 1)
          ∷ at block (3 * 4 + 2)
          ∷ at block (3 * 4 + 3)
          ∷ []))
    × (at (schedule block) 20
        ≡ (at (schedule block) 4
            + sigma0 (at (schedule block) 5)
            + at (schedule block) 13
            + sigma1 (at (schedule block) 18))
          % u32_mod)
schedule-recurrence_example =
    schedule-recurrence block 3 20 (omega arith) (omega arith) (omega arith)

-- A small machine: the world is what the container holds, the reads of a file give three bytes, and
-- an archive's bytes are those of its first entry.
unfoldable first_contents : List Entry → List ℕ
first_contents [] = []
first_contents (e ∷ es) = e.contents

abbrev environment : Option Text → Text → Option Text
environment target name = if text_eq name (bytes "TPX_TARGET") then target else none

abbrev machine : Option Text → Bool → Os (List Entry)
machine target builds = record {
  env = environment target;
  version = bytes "1.2.3";
  root = bytes "/r";
  os = bytes "linux";
  arch = bytes "x86_64";
  join = λ p q. p ++ (47 ∷ q);
  status = λ program args dir w. (w, ok builds);
  is_file = λ path w. true;
  read = λ path w. ok (1 ∷ 2 ∷ 3 ∷ []);
  create_dir_all = λ path w. (w, ok tt);
  remove_file = λ path w. [];
  start_file = λ es name c mode. ok tt;
  write_all = λ es bs. ok tt;
  finish = λ es. ok (first_contents es);
  create_zip = λ path es w. (es, ok tt);
  file_len = λ path w. ok 3;
  open_file = λ path w. ok (reads (first_contents w ∷ []));
  println = λ t w. w;
  eprintln = λ t w. w;
}

is_packaged :
    run_package (machine (some (bytes "linux-arm64")) true) false []
    ≡ (container_entries (1 ∷ 2 ∷ 3 ∷ []), ok tt)
unfolding run_package first_contents bytes container_entries platform_of package_target filled_var
    exe_of cargo_build cargo_args bin_path check_file build_payload add_entry write_container report
    call ask var_or package_descriptor descriptor out_path sys find starts_with sha256_hex new
    update finish pad_loop absorb compress schedule round words_bytes wrapping_add rotate_right
    shift_right complement small_sigma0 small_sigma1 to_hex_lower be_bytes from_be_bytes text_eq
    decimal decimal_loop
is_packaged = refl

run_package-Packaged_example :
    Packaged
      (machine (some (bytes "linux-arm64")) true)
      false
      []
      (container_entries (1 ∷ 2 ∷ 3 ∷ []))
run_package-Packaged_example =
    run_package-Packaged (machine (some (bytes "linux-arm64")) true) false []
      (container_entries (1 ∷ 2 ∷ 3 ∷ [])) is_packaged

run_package_unbuilt_example :
    (e : Fail) × (run_package (machine (some (bytes "linux-arm64")) false) false [] ≡ ([], err e))
unfolding package_target filled_var text_eq bytes find starts_with platform_of
run_package_unbuilt_example =
    run_package_unbuilt (machine (some (bytes "linux-arm64")) false) false [] []
      (bytes "linux-arm64") (bytes "linux") (ok false) refl refl refl (inl (λ h. cc))
