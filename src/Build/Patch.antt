-- ===== src/Build/Patch.antt =====
-- `drop_werror` of crates/moonlight-core/build.rs rewrites the file once.
use tempest_addon_moonlight.Base.{◌≡◌, refl, true, false, some, ok, Text, bytes, [], ◌∷◌, ◌++◌}
use tempest_addon_moonlight.Str.{contains, starts_with, find}
use tempest_addon_moonlight.Str.Find.{starts_with-append}
use tempest_addon_moonlight.Build.{System, marker, needle, patched, drop_werror, drop_flag, written}

find_start : (pat s : Text) → starts_with pat s ≡ true → find pat s ≡ some 0
unfolding find
find_start pat [] h = rw h refl
find_start pat (c ∷ s) h = rw h refl

-- A text that begins with the marker contains it.
contains-marker : (t : Text) → contains (marker ++ t) marker ≡ true
unfolding contains
contains-marker t =
    rw (contains, find_start marker (marker ++ t) (starts_with-append marker t)) refl

module _ {W : Type 0} (os : System W) where
  -- A file that has the flag and no marker, and whose patched text is written and read back, is patched by
  -- one run, and a further run leaves it alone.
  pub drop_werror_twice :
      (vendor text : Text) (w w' : W)
      → os.read_to_string (os.join vendor (bytes "CMakeLists.txt")) w ≡ ok text
      → contains text marker ≡ false
      → contains text needle ≡ true
      → os.write (os.join vendor (bytes "CMakeLists.txt")) (patched text) w ≡ (w', ok tt)
      → os.read_to_string (os.join vendor (bytes "CMakeLists.txt")) w' ≡ ok (patched text)
      → (drop_werror os vendor w ≡ w') × (drop_werror os vendor (drop_werror os vendor w) ≡ w')
  unfolding drop_werror drop_flag written patched
  drop_werror_twice vendor text w w' is_text unmarked has_flag is_written read_back =
      let first : drop_werror os vendor w ≡ w' =
        rw (drop_werror, is_text, unmarked, has_flag, is_written) refl in
      let second : drop_werror os vendor w' ≡ w' =
        rw (drop_werror, read_back, contains-marker _) refl in
      (first, rw first second)
