-- ===== src/Xtask/Package.antt =====
-- `package` of crates/xtask/src/main.rs. What it takes from the system is in Xtask/Os.
pub mod Wanted
pub mod Describes
pub mod Payload
pub mod Archive
use tempest_addon_moonlight.Base.{
  ℕ, Bool, true, false, ◌||◌, Option, none, some, List, [], ◌∷◌, ◌++◌, Text, bytes, decimal,
  text_eq, take, if◌then◌else◌, Result, ok, err, map_err, ok_or, Fail, error, panic,
}
use tempest_addon_moonlight.Nvhttp.Net.{M, next, ◌>>=◌, ◌>>◌, pure, lift, fail}
use tempest_addon_moonlight.Str.{find}
use tempest_addon_moonlight.Xtask.Sha256.{sha256_hex}
use tempest_addon_moonlight.Xtask.Os.{Compression, Entry, Os, ask, call, deflated, stored, sys}

is_empty : Text → Bool
is_empty [] = true
is_empty (c ∷ cs) = false

-- `.ok().filter(|t| !t.is_empty())`
unfoldable pub filled_var : Option Text → Option Text
unfolding is_empty
filled_var none = none
filled_var (some t) = if is_empty t then none else some t

unfoldable pub var_or : Option Text → Text → Text
var_or none d = d
var_or (some t) d = t

unfoldable pub host_platform : Text → Result Fail Text
host_platform os =
    if text_eq os (bytes "macos")
    then ok (bytes "darwin")
    else if text_eq os (bytes "linux")
    then ok (bytes "linux")
    else if text_eq os (bytes "windows")
    then ok (bytes "win32")
    else err (error (bytes "unsupported platform: " ++ os))

unfoldable pub host_arch : Text → Result Fail Text
host_arch arch =
    if text_eq arch (bytes "aarch64")
    then ok (bytes "arm64")
    else if text_eq arch (bytes "x86_64")
    then ok (bytes "x64")
    else err (error (bytes "unsupported arch: " ++ arch))

-- `split_once('-')`, the first part.
unfoldable pub platform_of : Text → Result Fail Text
platform_of target = elim (find (bytes "-") target) [
  | some i ↦ ok (take i target)
  | none ↦
      err (error (bytes "TPX_TARGET must look like 'linux-arm64', got '" ++ (target ++ bytes "'")))
]

unfoldable pub exe_of : Text → Text
exe_of platform =
    if text_eq platform (bytes "win32") then bytes "moonlight.exe" else bytes "moonlight"

unfoldable pub descriptor : Text → Text → Text → Text → Text
descriptor version abi target exe =
    bytes "{\n  \"id\": \"moonlight\",\n  \"version\": \""
    ++ (version
        ++ (bytes "\",\n  \"abi\": "
            ++ (abi
                ++ (bytes ",\n  \"target\": \""
                    ++ (target
                        ++ (bytes
                              "\",\n  \"displayName\": \"Moonlight\",\n  \"license\": \"GPL-3.0-only\",\n  \"repository\": \"https://github.com/tempest-term/tempest-addon-moonlight\",\n  \"exec\": \"bin/"
                            ++ (exe
                                ++ bytes
                                    "\",\n  \"provides\": { \"remoteDesktop\": [\"moonlight\"] },\n  \"maxSessions\": 1\n}\n")))))))

abbrev pub exec_name : Text → Text
exec_name exe = bytes "bin/" ++ exe

unfoldable pub container_entries : List ℕ → List Entry
container_entries payload =
    record { name = bytes "payload.zip"; compression = stored; mode = none; contents = payload }
    ∷ []

-- How the program ends: by `process::exit`, or by returning from `main`.
pub data Exit : Type 0 where
  exited : ℕ → Exit
  returned : Result Fail (Unit {0}) → Exit

-- `args().nth(1).unwrap_or_default()`
unfoldable pub task_of : List Text → Text
task_of (program ∷ task ∷ args) = task
task_of _ = []

-- `any(|a| a == "--debug")`
unfoldable pub is_debug : List Text → Bool
is_debug [] = false
is_debug (a ∷ args) = text_eq a (bytes "--debug") || is_debug args

module _ {W : Type 0} (os : Os W) where
  unfoldable pub host_target : Result Fail Text
  host_target = elim (host_platform os.os) [
    | err e ↦ err e
    | ok p ↦ elim (host_arch os.arch) [ err e ↦ err e | ok a ↦ ok (p ++ (b'-' ∷ a)) ]
  ]

  unfoldable pub package_target : Result Fail Text
  unfolding host_target
  package_target = elim (filled_var (os.env (bytes "TPX_TARGET"))) [
    | some t ↦ ok t
    | none ↦ host_target
  ]

  unfoldable pub cargo_args : Bool → Option Text → List Text
  cargo_args debug target =
      bytes "build"
      ∷ bytes "-p"
      ∷ bytes "moonlight-addon"
      ∷ ((if debug then [] else bytes "--release" ∷ [])
          ++ elim target [ none ↦ [] | some t ↦ bytes "--target" ∷ t ∷ [] ])

  unfoldable pub cargo_build : Bool → M W (Unit {0})
  unfolding call
  cargo_build debug = do
    success ← call (
        os.status (var_or (os.env (bytes "CARGO")) (bytes "cargo"))
          (cargo_args debug (filled_var (os.env (bytes "CARGO_TARGET")))) os.root)
    if success then pure tt else fail (bytes "cargo build failed")

  -- Where cargo puts the binary.
  unfoldable pub bin_path : Bool → Text → Text
  unfolding var_or
  bin_path debug exe =
      let target_dir =
        var_or (os.env (bytes "CARGO_TARGET_DIR")) (os.join os.root (bytes "target")) in
      let profile = if debug then bytes "debug" else bytes "release" in
      elim (filled_var (os.env (bytes "CARGO_TARGET"))) [
        | some t ↦ os.join (os.join (os.join target_dir t) profile) exe
        | none ↦ os.join (os.join target_dir profile) exe
      ]

  unfoldable pub check_file : Text → M W (Unit {0})
  check_file bin w =
      if os.is_file bin w then (w, ok tt) else (w, err (error (bin ++ bytes " not built")))

  unfoldable pub package_descriptor : Text → Text → Text
  package_descriptor target exe =
      descriptor os.version (var_or (os.env (bytes "ADDON_ABI")) (bytes "1")) target exe

  -- One more entry of the payload; its contents are read once it is started.
  unfoldable pub add_entry :
      List Entry → Text → Option ℕ → (W → Result Text (List ℕ)) → M W (List Entry)
  unfolding ask
  add_entry es name mode contents = do
    ask (λ w. os.start_file es name deflated mode)
    bs ← ask contents
    ask (λ w. os.write_all es bs)
    pure (es ++ (record { name = name; compression = deflated; mode = mode; contents = bs } ∷ []))

  -- The payload in memory.
  unfoldable pub build_payload : Text → Text → Text → M W (List ℕ)
  unfolding add_entry ask
  build_payload bin target exe = do
    es1 ← add_entry [] (exec_name exe) (some 0o755) (os.read bin)
    es2 ← add_entry es1 (bytes "descriptor.json") none (λ w. ok (package_descriptor target exe))
    es3 ← add_entry es2 (bytes "LICENSE") none (os.read (os.join os.root (bytes "LICENSE")))
    es4 ← add_entry es3 (bytes "README.md") none (os.read (os.join os.root (bytes "README.md")))
    ask (λ w. os.finish es4)

  unfoldable pub out_path : Text → Text
  out_path target =
      os.join (os.join os.root (bytes "dist"))
        (bytes "moonlight-" ++ (os.version ++ (b'-' ∷ (target ++ bytes ".tpx"))))

  digest_of : Option (Result Text Text) → Result Fail Text
  digest_of none = err (panic (bytes "hash"))
  digest_of (some r) = sys r

  hex_of : Text → M W Text
  unfolding digest_of
  hex_of path w = (w, digest_of (sha256_hex (os.open_file path w)))

  say : Text → M W (Unit {0})
  say t w = (os.println t w, ok tt)

  unfoldable pub report : Text → M W (Unit {0})
  unfolding hex_of say ask
  report out = do
    len ← ask (os.file_len out)
    say out
    say (
        bytes
          "  unsigned — run scripts/addon-pki/ci-sign.sh (tempest-desktop) to add payload.sig + payload.ts")
    say (bytes "  size:   " ++ (decimal len ++ bytes " bytes"))
    hex ← hex_of out
    say (bytes "  sha256: " ++ hex)

  -- The container, written to a fresh file.
  unfoldable pub write_container : Text → List ℕ → M W (Unit {0})
  unfolding call
  write_container out payload = do
    call (os.create_dir_all (os.join os.root (bytes "dist")))
    λ w. (os.remove_file out w, ok tt)
    call (os.create_zip out (container_entries payload))

  -- `package`
  unfoldable pub run_package : Bool → M W (Unit {0})
  unfolding check_file
  run_package debug = do
    target ← lift package_target
    platform ← lift (platform_of target)
    let exe = exe_of platform
    cargo_build debug
    check_file (bin_path debug exe)
    payload ← build_payload (bin_path debug exe) target exe
    write_container (out_path target) payload
    report (out_path target)

  -- `main`, with the program's arguments.
  unfoldable pub main : List Text → W → W × Exit
  unfolding task_of is_debug
  main args w =
      let (w', r) = run_package (is_debug args) w in
      if text_eq (task_of args) (bytes "package")
      then (w', returned r)
      else (os.eprintln (bytes "usage: cargo xtask package [--debug]") w, exited 2)
