-- ===== src/Tests/Build.antt =====
-- The build script at concrete inputs.
use tempest_addon_moonlight.Base.{◌≡◌, refl, true, none, [], ◌∷◌, ◌++◌, Text, bytes, ok}
use tempest_addon_moonlight.Str.{contains, find, starts_with}
use tempest_addon_moonlight.Build.{
  System, Listing, file, dir, empty, unreadable, entry, patched, replace, drop_werror,
}
use tempest_addon_moonlight.Build.Patch.{drop_werror_twice}

-- A machine whose world is the text of the one file.
abbrev machine : System Text
machine = record {
  env = λ name. none;
  join = λ p q. p ++ (b'/' ∷ q);
  exists = λ p w. true;
  read_to_string = λ p w. ok w;
  write = λ p t w. (t, ok tt);
  println = λ t w. w;
  cmake = λ d defs w. (w, ok []);
  listing = λ p w. empty;
}

abbrev flags : Text
flags = bytes "add(-Wno-unused-parameter -Werror)\n"

drop_werror_twice_example :
    (drop_werror machine (bytes "v") flags ≡ patched flags)
    × (drop_werror machine (bytes "v") (drop_werror machine (bytes "v") flags) ≡ patched flags)
unfolding contains find starts_with bytes
drop_werror_twice_example =
    drop_werror_twice machine (bytes "v") flags flags (patched flags) refl refl refl refl refl

-- What is written.
patched-flags : patched flags ≡ bytes "# tempest: dropped -Werror\nadd(-Wno-unused-parameter)\n"
unfolding patched replace starts_with bytes
patched-flags = refl

-- A multi-config build directory.
abbrev tree : Listing
tree = entry (dir (bytes "Secret") unreadable) (
    entry (file (bytes "CMakeCache.txt")) (
      entry
        (dir (bytes "Release") (entry (file (bytes "enet.lib")) (entry (file (bytes "x.a")) empty)))
        empty))
