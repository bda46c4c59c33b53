-- ===== src/Xtask/Package/Archive.antt =====
-- What `package` of crates/xtask/src/main.rs leaves behind when it succeeds, and where it stops.
use mathlib.Core.Path.{subst}
use tempest_addon_moonlight.Base.{
  ℕ, ◌≡◌, refl, sym, ap, ◌∙◌, Option, decimal, Bool, true, false, inl, inr, ◌≢◌, ◌⊎◌, none, some,
  List, [], ◌∷◌, ◌++◌, Text, bytes, text_eq, take-append_length, arith, length, if◌then◌else◌,
  Result, ok, err, Fail, error,
}
use tempest_addon_moonlight.Nvhttp.Net.{next-ok, lift-ok}
use tempest_addon_moonlight.Str.{find, starts_with}
use tempest_addon_moonlight.Xtask.Package.{
  host_platform, host_arch, platform_of, exe_of, container_entries, package_target, cargo_build,
  cargo_args, filled_var, var_or, bin_path, check_file, build_payload, out_path, write_container,
  report, run_package, host_target,
}
use tempest_addon_moonlight.Xtask.Os.{Os, Entry, stored, call, sys, ask}
use tempest_addon_moonlight.Xtask.Package.{digest_of, hex_of, say, package_descriptor}
use tempest_addon_moonlight.Xtask.Package.Wanted.{
  TargetOf, package_target-TargetOf, Split, platform_of-Split, ExeOf, exe_of-ExeOf, Ran,
  cargo_build-Ran, wanted_bin, bin_path-wanted,
}
use tempest_addon_moonlight.Xtask.Package.Describes.{Describes, descriptor-Describes}
use tempest_addon_moonlight.Xtask.Sha256.{sha256_hex}
use tempest_addon_moonlight.Xtask.Package.Payload.{Built, build_payload-Built, sys-ok}

call-ok :
    {W A : Type 0} (p : W × Result Text A) (w' : W) (a : A)
    → ◌≡◌ {A = W × Result Fail A} (p.0, sys p.1) (w', ok a)
    → p ≡ (w', ok a)
unfolding sys
call-ok (v, ok b) w' a h = cc
call-ok (v, err e) w' a h = cc

find_dash :
    (p a : Text) → find (b'-' ∷ []) p ≡ none → find (b'-' ∷ []) (p ++ (b'-' ∷ a)) ≡ some (length p)
unfolding find starts_with
find_dash [] a h = refl
find_dash (c ∷ p) a h = ground (arith, find_dash p a)

-- The platform of a target is what stands before its first dash.
platform_of-join : (p a : Text) → find (b'-' ∷ []) p ≡ none → platform_of (p ++ (b'-' ∷ a)) ≡ ok p
unfolding platform_of bytes
platform_of-join p a h =
    rw (platform_of, find_dash p a h, take-append_length (length p) p (b'-' ∷ a) refl) refl

named_of :
    (p q : Text)
    → ◌≡◌ {A = Result Fail Text} (ok p) (ok q)
    → find (b'-' ∷ []) p ≡ none
    → find (b'-' ∷ []) q ≡ none
named_of p q h k = grind arith

named :
    (mac linux win : Bool) (other : Fail) (p : Text)
    → (if mac
        then ok (bytes "darwin")
        else if linux
        then ok (bytes "linux")
        else if win
        then ok (bytes "win32")
        else err other)
      ≡ ok p
    → find (b'-' ∷ []) p ≡ none
unfolding find starts_with bytes
named true linux win other p h = named_of (bytes "darwin") p h refl
named false true win other p h = named_of (bytes "linux") p h refl
named false false true other p h = named_of (bytes "win32") p h refl
named false false false other p h = cc

host_platform-no_dash : (name p : Text) → host_platform name ≡ ok p → find (b'-' ∷ []) p ≡ none
unfolding host_platform
host_platform-no_dash name p h =
    named (text_eq name (bytes "macos")) (text_eq name (bytes "linux"))
      (text_eq name (bytes "windows")) _ p h

passed :
    {W : Type 0} (there : Bool) (e : Fail) (w w' : W)
    → ◌≡◌ {A = W × Result Fail (Unit {0})} (if there then (w, ok tt) else (w, err e)) (w', ok tt)
    → (there ≡ true) × (w ≡ w')
passed true e w w' h = (refl, ap (λ p. p.0) h)
passed false e w w' h = cc

check_file-ok :
    {W : Type 0} (os : Os W) (bin : Text) (w w' : W)
    → check_file os bin w ≡ (w', ok tt)
    → (os.is_file bin w ≡ true) × (w ≡ w')
unfolding check_file
check_file-ok os bin w w' h = passed (os.is_file bin w) _ w w' h

module _ {W : Type 0} (os : Os W) where
  digest_of-ok :
      (o : Option (Result Text Text)) (hex : Text) → digest_of os o ≡ ok hex → o ≡ some (ok hex)
  unfolding digest_of sys
  digest_of-ok none hex h = cc
  digest_of-ok (some (err e)) hex h = cc
  digest_of-ok (some (ok x)) hex h = cc

  -- The name of the file.
  abbrev pub file_of : Text → Text
  file_of target =
      os.join (os.join os.root (bytes "dist"))
        (bytes "moonlight-" ++ (os.version ++ (b'-' ∷ (target ++ bytes ".tpx"))))

  -- The world after the first three lines of the report.
  abbrev pub three_lines : Text → ℕ → W → W
  three_lines out len w = os.println (bytes "  size:   " ++ (decimal len ++ bytes " bytes")) (
      os.println
        (bytes
          "  unsigned — run scripts/addon-pki/ci-sign.sh (tempest-desktop) to add payload.sig + payload.ts")
        (os.println out w))

  -- What is said of a file: its name, that it is unsigned, its length and its digest.
  pub record Reported (out : Text) (w w' : W) : Type 0 where
    pub len : ℕ
    pub hex : Text
    pub sized : os.file_len out w ≡ ok len
    pub hashed : sha256_hex (os.open_file out (three_lines out len w)) ≡ some (ok hex)
    pub said : w' ≡ os.println (bytes "  sha256: " ++ hex) (three_lines out len w)

  report-Reported : (out : Text) (w w' : W) → report os out w ≡ (w', ok tt) → Reported out w w'
  unfolding report ask say hex_of
  report-Reported out w w' h =
      let (len, e1, h1) = lift-ok w (sys (os.file_len out w)) _ w' tt h in
      let (hex, e2, h2) =
        lift-ok (three_lines out len w)
          (digest_of os (sha256_hex (os.open_file out (three_lines out len w)))) _ w' tt h1 in
      record {
        len = len;
        hex = hex;
        sized = sys-ok (os.file_len out w) len e1;
        hashed = digest_of-ok _ hex e2;
        said = ap (λ p. p.0) (sym h2);
      }

  package_descriptor-Describes :
      (target exe : Text) → Describes (package_descriptor os target exe) target exe
  unfolding package_descriptor
  package_descriptor-Describes target exe =
      descriptor-Describes os.version (var_or (os.env (bytes "ADDON_ABI")) (bytes "1")) target exe

  -- The container's one entry.
  abbrev pub alone : List ℕ → List Entry
  alone payload =
      record { name = bytes "payload.zip"; compression = stored; mode = none; contents = payload }
      ∷ []

  written-ok :
      (out : Text) (payload : List ℕ) (w w' : W)
      → write_container os out payload w ≡ (w', ok tt)
      → (made : W) × (os.create_dir_all (os.join os.root (bytes "dist")) w ≡ (made, ok tt))
        × (os.create_zip out (alone payload) (os.remove_file out made) ≡ (w', ok tt))
  unfolding write_container call container_entries
  written-ok out payload w w' h =
      let (u, made, e, h1) =
        next-ok (call (os.create_dir_all (os.join os.root (bytes "dist"))) w) _ w' tt h in
      (
        made,
        call-ok (os.create_dir_all (os.join os.root (bytes "dist")) w) made tt e,
        call-ok (os.create_zip out (container_entries payload) (os.remove_file out made)) w' tt h1,
      )

  -- A package as it was written: the worlds in which cargo had built, in which the folder was there and in
  -- which the container was.
  pub record Packaged (debug : Bool) (w w' : W) : Type 0 where
    pub target : Text
    pub platform : Text
    pub exe : Text
    pub payload : List ℕ
    pub compiled : W
    pub made : W
    pub written : W
    pub named : TargetOf os target
    pub for_platform : Split target platform
    pub exe_named : ExeOf platform exe
    pub cargo_succeeded : Ran os debug w compiled
    pub there : os.is_file (wanted_bin os debug exe) compiled ≡ true
    pub built : Built os compiled (wanted_bin os debug exe) target exe payload
    pub described : Describes (package_descriptor os target exe) target exe
    pub folder : os.create_dir_all (os.join os.root (bytes "dist")) compiled ≡ (made, ok tt)
    pub contained :
        os.create_zip (file_of target) (alone payload) (os.remove_file (file_of target) made)
        ≡ (written, ok tt)
    pub reported : Reported (file_of target) written w'

  -- When `package` succeeds: the target is that of `TPX_TARGET`, or else this machine's platform and
  -- architecture; cargo was run in the root with the arguments of the profile and of the triple and succeeded; the
  -- binary stood in the folder of that triple and profile; the payload holds in their order, deflated, the binary as
  -- executable, a descriptor that names the target and the executable, the licence and the readme; a new file under
  -- dist, whose name carries the version and the target, holds the payload alone, stored; and what follows only
  -- prints four lines, with the length and the digest of that file.
  pub run_package-Packaged :
      (debug : Bool) (w w' : W) → run_package os debug w ≡ (w', ok tt) → Packaged debug w w'
  unfolding run_package out_path
  run_package-Packaged debug w w' h =
      let (target, e1, h1) = lift-ok w (package_target os) _ w' tt h in
      let (platform, e2, h2) = lift-ok w (platform_of target) _ w' tt h1 in
      let exe = exe_of platform in
      let (u3, w3, e3, h3) = next-ok (cargo_build os debug w) _ w' tt h2 in
      let (u4, w4, e4, h4) = next-ok (check_file os (bin_path os debug exe) w3) _ w' tt h3 in
      let (payload, w5, e5, h5) =
        next-ok (build_payload os (bin_path os debug exe) target exe w4) _ w' tt h4 in
      let (u6, w6, e6, h6) =
        next-ok (write_container os (out_path os target) payload w5) _ w' tt h5 in
      let (made, folder, contained) = written-ok (out_path os target) payload w5 w6 e6 in
      let (there, same) = check_file-ok os (bin_path os debug exe) w3 w4 e4 in
      let (is_built, kept) =
        build_payload-Built os w4 w5 (bin_path os debug exe) target exe payload e5 in
      let place = bin_path-wanted os debug exe in
      record {
        target = target;
        platform = platform;
        exe = exe;
        payload = payload;
        compiled = w3;
        made = made;
        written = w6;
        named = package_target-TargetOf os target e1;
        for_platform = platform_of-Split target platform e2;
        exe_named = exe_of-ExeOf platform;
        cargo_succeeded = cargo_build-Ran os debug w w3 e3;
        there = subst (λ b. os.is_file b w3 ≡ true) place there;
        built =
            subst (λ b. Built os w3 b target exe payload) place
              (subst (λ v. Built os v (bin_path os debug exe) target exe payload) (sym same)
                is_built);
        described = package_descriptor-Describes target exe;
        folder = ap (os.create_dir_all (os.join os.root (bytes "dist"))) (same ∙ sym kept) ∙ folder;
        contained = contained;
        reported = report-Reported (out_path os target) w6 w' h6;
      }

  -- What cargo answers when it is started.
  abbrev cargo_status : Bool → W → W × Result Text Bool
  cargo_status debug =
      os.status (var_or (os.env (bytes "CARGO")) (bytes "cargo"))
        (cargo_args os debug (filled_var (os.env (bytes "CARGO_TARGET")))) os.root

  -- If cargo does not start, does not succeed, or succeeds and leaves no binary where it should be, the task
  -- fails and the world is as cargo left it: nothing is packed.
  pub run_package_unbuilt :
      (debug : Bool) (w w1 : W) (target platform : Text) (answer : Result Text Bool)
      → package_target os ≡ ok target
      → platform_of target ≡ ok platform
      → cargo_status debug w ≡ (w1, answer)
      → (answer ≢ ok true) ⊎ (os.is_file (bin_path os debug (exe_of platform)) w1 ≡ false)
      → (e : Fail) × (run_package os debug w ≡ (w1, err e))
  unfolding run_package cargo_build call sys check_file
  run_package_unbuilt debug w w1 target platform (err e) is_named on answered h =
      (error e, rw (is_named, on, answered) refl)
  run_package_unbuilt debug w w1 target platform (ok false) is_named on answered h =
      (error (bytes "cargo build failed"), rw (is_named, on, answered) refl)
  run_package_unbuilt debug w w1 target platform (ok true) is_named on answered (inl h) =
      absurd (h refl)
  run_package_unbuilt debug w w1 target platform (ok true) is_named on answered (inr h) = (
    error (bin_path os debug (exe_of platform) ++ bytes " not built"),
    rw (is_named, on, answered, h) refl,
  )

  -- Without a `TPX_TARGET`, on a machine that is supported, the target is the machine's platform and
  -- architecture, and its platform is read back.
  host_target-platform :
      (p a : Text)
      → filled_var (os.env (bytes "TPX_TARGET")) ≡ none
      → host_platform os.os ≡ ok p
      → host_arch os.arch ≡ ok a
      → (package_target os ≡ ok (p ++ (b'-' ∷ a))) × (platform_of (p ++ (b'-' ∷ a)) ≡ ok p)
  unfolding package_target host_target
  host_target-platform p a unset h k = (
    rw (unset, h, k, package_target, host_target) refl,
    platform_of-join p a (host_platform-no_dash os.os p h),
  )
