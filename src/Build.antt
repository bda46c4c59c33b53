-- ===== src/Build.antt =====
-- crates/moonlight-core/build.rs: the build of the vendored C library and where its archives are found.
-- The environment, files, cmake and cargo's standard output are parameters over a world `W`; the tree of
-- cmake's build directory is finite, without a cycle of links.
pub mod Archives
pub mod Patch
use tempest_addon_moonlight.Base.{
  ℕ, zero, suc, Bool, true, false, not, ◌||◌, ◌==◌, Option, none, some, List, [], ◌∷◌, ◌++◌, Text,
  bytes, text_eq, length, drop, if◌then◌else◌, Result, ok, err, Fail, panic,
}
use tempest_addon_moonlight.Nvhttp.Net.{M, next, ◌>>=◌, ◌>>◌, pure, lift}
use tempest_addon_moonlight.Proto.Messages.{unwrap_or}
use tempest_addon_moonlight.Str.{starts_with, contains}

-- `str::replace` of a pattern that is not empty, in at most so many rounds as the text has bytes.
replace_loop : ℕ → Text → Text → Text → Text
replace_loop zero pat new s = s
replace_loop (suc f) pat new [] = []
replace_loop (suc f) pat new (c ∷ s) =
    let here = replace_loop f pat new (drop (length pat) (c ∷ s)) in
    let later = replace_loop f pat new s in
    if starts_with pat (c ∷ s) then new ++ here else c ∷ later

unfoldable pub replace : Text → Text → Text → Text
unfolding replace_loop
replace pat new s = replace_loop (length s) pat new s

-- A name at its last dot: what stands before it and after it.
unfoldable pub split_last : Text → Option (Text × Text)
split_last [] = none
split_last (c ∷ cs) = elim (split_last cs) [
  | some (before, after) ↦ some (c ∷ before, after)
  | none ↦ if c == b'.' then some ([], cs) else none
]

-- `Path::extension` and `Path::file_stem` of a file name: a name that only begins with a dot has none.
unfoldable pub extension : Text → Option Text
extension name = elim (split_last name) [
  | none ↦ none
  | some ([], after) ↦ none
  | some (c ∷ before, after) ↦ some after
]

unfoldable pub file_stem : Text → Text
file_stem name = elim (split_last name) [
  | none ↦ name
  | some ([], after) ↦ name
  | some (c ∷ before, after) ↦ c ∷ before
]

-- What `read_dir` gives: the entries that could be read, files and directories; `none` is a directory that
-- cannot be read.
mutual
  pub data Node : Type 0 where
    file : Text → Node
    dir : Text → Listing → Node

  pub data Listing : Type 0 where
    unreadable : Listing
    empty : Listing
    entry : Node → Listing → Listing

-- A path that was found: its parent and its file name.
pub record Found : Type 0 where
  pub parent : Text
  pub name : Text

unfoldable pub is_archive_ext : Option Text → Bool
is_archive_ext none = false
is_archive_ext (some e) = text_eq e (bytes "a") || text_eq e (bytes "lib")

-- What `collect_static_archives` pushes for a directory, in its order.
unfoldable mutual
  pub collect : (Text → Text → Text) → Text → Listing → List Found
  collect join path unreadable = []
  collect join path empty = []
  collect join path (entry n l) = collect_node join path n ++ collect join path l

  pub collect_node : (Text → Text → Text) → Text → Node → List Found
  collect_node join path (dir name l) = collect join (join path name) l
  collect_node join path (file name) =
      if is_archive_ext (extension name) then record { parent = path; name = name } ∷ [] else []

-- `trim_start_matches("lib")`, in at most so many rounds as the text has bytes.
unfoldable pub trim_lib : ℕ → Text → Text
trim_lib zero s = s
trim_lib (suc f) s =
    let rest = trim_lib f (drop 3 s) in if starts_with (bytes "lib") s then rest else s

-- The test of the search in `build_moonlight`: `moonlight-common-c.lib` or `libmoonlight-common-c.a`.
unfoldable pub is_library : Text → Found → Bool
is_library lib p =
    let stem = file_stem p.name in text_eq stem lib || text_eq (trim_lib (length stem) stem) lib

unfoldable pub find_library : Text → List Found → Option Found
find_library lib [] = none
find_library lib (p ∷ ps) =
    let rest = find_library lib ps in if is_library lib p then some p else rest

abbrev pub marker : Text
marker = bytes "# tempest: dropped -Werror"

abbrev pub needle : Text
needle = bytes "-Wno-unused-parameter -Werror)"

unfoldable pub patched : Text → Text
patched text = marker ++ (b'\n' ∷ replace needle (bytes "-Wno-unused-parameter)") text)

pub record System (W : Type 0) : Type 0 where
  pub env : Text → Option Text
  pub join : Text → Text → Text
  pub exists : Text → W → Bool
  pub read_to_string : Text → W → Result Text Text
  pub write : Text → Text → W → W × Result Text (Unit {0})
  pub println : Text → W → W
  -- `cmake::Config` with its definitions, built: the directory of the build, or a panic.
  pub cmake : Text → List (Text × Text) → W → W × Result Fail Text
  pub listing : Text → W → Listing

module _ {W : Type 0} (os : System W) where
  unfoldable written : W × Result Text (Unit {0}) → W
  written (w, ok u) = w
  written (w, err e) = os.println (bytes "cargo:warning=moonlight: could not drop -Werror: " ++ e) w

  unfoldable drop_flag : Text → Text → W → W
  unfolding written
  drop_flag path text w =
      if contains text marker
      then w
      else if not (contains text needle)
      then os.println
          (bytes "cargo:warning=moonlight: -Werror flag not found; upstream may have changed it") w
      else written (os.write path (patched text) w)

  unfoldable pub drop_werror : Text → W → W
  unfolding drop_flag
  drop_werror vendor w = elim (os.read_to_string (os.join vendor (bytes "CMakeLists.txt")) w) [
    | err e ↦ w
    | ok text ↦ drop_flag (os.join vendor (bytes "CMakeLists.txt")) text w
  ]

  -- The lines of one library: where its archive is, or a warning, and that it is linked.
  unfoldable pub search_line : Text → Text → Option Found → Text
  search_line lib build_dir (some p) = bytes "cargo:rustc-link-search=native=" ++ p.parent
  search_line lib build_dir none =
      bytes "cargo:warning=moonlight: no archive for " ++ (lib ++ (bytes " under " ++ build_dir))

  unfoldable pub link : Text → List Found → Text → W → W
  unfolding search_line
  link build_dir archives lib w =
      os.println (bytes "cargo:rustc-link-lib=static=" ++ lib)
        (os.println (search_line lib build_dir (find_library lib archives)) w)

  windows_libs : Bool → W → W
  windows_libs false w = w
  windows_libs true w =
      os.println (bytes "cargo:rustc-link-lib=winmm")
        (os.println (bytes "cargo:rustc-link-lib=ws2_32") w)

  unfoldable pub definitions : Text → Text → List (Text × Text)
  definitions openssl_include openssl_root =
      (bytes "BUILD_SHARED_LIBS", bytes "OFF")
      ∷ (bytes "USE_MBEDTLS", bytes "OFF")
      ∷ (bytes "OPENSSL_USE_STATIC_LIBS", bytes "TRUE")
      ∷ (bytes "OPENSSL_ROOT_DIR", openssl_root)
      ∷ (bytes "OPENSSL_INCLUDE_DIR", openssl_include)
      ∷ []

  -- What follows cmake.
  unfoldable pub link_all : Text → Text → W → W
  unfolding windows_libs
  link_all target dst w =
      let build_dir = os.join dst (bytes "build") in
      let archives = collect os.join build_dir (os.listing build_dir w) in
      let w1 = link build_dir archives (bytes "moonlight-common-c") w in
      let w2 = link build_dir archives (bytes "enet") w1 in
      os.println (bytes "cargo:rerun-if-changed=../../vendor/moonlight-common-c/src")
        (windows_libs (contains target (bytes "windows")) w2)

  unfoldable pub build_moonlight : Text → Text → Text → W → W × Result Fail (Unit {0})
  build_moonlight openssl_include openssl_root target w =
      let vendor = bytes "../../vendor/moonlight-common-c" in
      let built =
        next (os.cmake vendor (definitions openssl_include openssl_root) (drop_werror vendor w))
          (λ dst w'. (link_all target dst w', ok tt)) in
      if os.exists (os.join vendor (bytes "CMakeLists.txt")) w then built else (
        w,
        err (
            panic (
              bytes
                "vendor/moonlight-common-c missing. Run:\n  git submodule update --init --recursive vendor/moonlight-common-c")),
      )

  -- `main`; a build script that panics fails the build.
  unfoldable pub main : W → W × Result Fail (Unit {0})
  main w = elim (os.env (bytes "DEP_OPENSSL_ROOT")) [
    | none ↦
        (w, err (panic (bytes "DEP_OPENSSL_ROOT unset — openssl-sys must be a direct dependency")))
    | some root ↦
        build_moonlight
          (unwrap_or (os.env (bytes "DEP_OPENSSL_INCLUDE")) (os.join root (bytes "include"))) root
          (unwrap_or (os.env (bytes "TARGET")) []) w
  ]
