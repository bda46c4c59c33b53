-- ===== src/Build/Archives.antt =====
-- Where the search of crates/moonlight-core/build.rs finds the archives of cmake's build directory.
use tempest_addon_moonlight.Base.{
  ◌≡◌, refl, sym, ap, ◌∙◌, ◌⊎◌, inl, inr, Bool, true, false, Bool-cases, none, some, List, [], ◌∷◌,
  ◌++◌, Text, bytes, if◌then◌else◌, arith,
}
use mathlib.Core.Path.{subst}
use tempest_addon_moonlight.Build.{
  Node, Listing, Found, unreadable, empty, entry, file, dir, extension, is_archive_ext, collect,
  collect_node, is_library, find_library,
}

-- A file of that name stands in a directory or below it, where the directories can be read.
unfoldable mutual
  pub HasFile : Text → Listing → Type 0
  HasFile name unreadable = ⊥
  HasFile name empty = ⊥
  HasFile name (entry n l) = NodeHasFile name n ⊎ HasFile name l

  pub NodeHasFile : Text → Node → Type 0
  NodeHasFile name (file f) = f ≡ name
  NodeHasFile name (dir d l) = HasFile name l

-- The file `p.name` stands in the directory `p.parent`, which is `path` or lies below it.
unfoldable mutual
  pub StandsIn : (Text → Text → Text) → Text → Found → Listing → Type 0
  StandsIn join path p unreadable = ⊥
  StandsIn join path p empty = ⊥
  StandsIn join path p (entry n l) = NodeStandsIn join path p n ⊎ StandsIn join path p l

  pub NodeStandsIn : (Text → Text → Text) → Text → Found → Node → Type 0
  NodeStandsIn join path p (file f) = (f ≡ p.name) × (path ≡ p.parent)
  NodeStandsIn join path p (dir d l) = StandsIn join (join path d) p l

Finds : Text → List Found → Type 0
Finds lib ps = (p : Found) × (find_library lib ps ≡ some p)

Finds-left : (lib : Text) (ps qs : List Found) → Finds lib ps → Finds lib (ps ++ qs)
unfolding Finds find_library
Finds-left lib [] qs (p, e) = cc
Finds-left lib (q ∷ ps) qs (p, e) = elim (Bool-cases (is_library lib q)) [
  | inl here ↦ (q, rw (here, find_library) refl)
  | inr later ↦
      let passed : find_library lib (q ∷ ps) ≡ find_library lib ps =
        rw (later, find_library) refl in
      let (p', e') = Finds-left lib ps qs (p, sym passed ∙ e) in (p', rw (later, find_library) e')
]

Finds-right : (lib : Text) (ps qs : List Found) → Finds lib qs → Finds lib (ps ++ qs)
unfolding Finds find_library
Finds-right lib [] qs h = h
Finds-right lib (q ∷ ps) qs h = elim (Bool-cases (is_library lib q)) [
  | inl here ↦ (q, rw (here, find_library) refl)
  | inr later ↦ let (p, e) = Finds-right lib ps qs h in (p, rw (later, find_library) e)
]

file-Finds :
    (lib : Text) (join : Text → Text → Text) (path name : Text)
    → is_archive_ext (extension name) ≡ true
    → is_library lib (record { parent = path; name = name }) ≡ true
    → Finds lib (collect_node join path (file name))
unfolding Finds collect find_library
file-Finds lib join path name ext here =
    (record { parent = path; name = name }, rw (ext, here, collect_node, find_library) refl)

-- An archive that is in the tree is collected, and so a library is found.
mutual
  unfolding collect HasFile

  collect-Finds :
      (lib : Text) (join : Text → Text → Text) (path name : Text) (l : Listing)
      → is_archive_ext (extension name) ≡ true
      → ((parent : Text) → is_library lib (record { parent = parent; name = name }) ≡ true)
      → HasFile name l
      → Finds lib (collect join path l)
  collect-Finds lib join path name unreadable ext here h = absurd h
  collect-Finds lib join path name empty ext here h = absurd h
  collect-Finds lib join path name (entry n l) ext here (inl h) =
      Finds-left lib (collect_node join path n) (collect join path l)
        (node-Finds lib join path name n ext here h)
  collect-Finds lib join path name (entry n l) ext here (inr h) =
      Finds-right lib (collect_node join path n) (collect join path l)
        (collect-Finds lib join path name l ext here h)

  node-Finds :
      (lib : Text) (join : Text → Text → Text) (path name : Text) (n : Node)
      → is_archive_ext (extension name) ≡ true
      → ((parent : Text) → is_library lib (record { parent = parent; name = name }) ≡ true)
      → NodeHasFile name n
      → Finds lib (collect_node join path n)
  node-Finds lib join path name (file f) ext here h =
      subst (λ f. Finds lib (collect_node join path (file f))) (sym h)
        (file-Finds lib join path name ext (here path))
  node-Finds lib join path name (dir d l) ext here h =
      collect-Finds lib join (join path d) name l ext here h

find-append :
    (lib : Text) (ps qs : List Found) (p : Found)
    → find_library lib (ps ++ qs) ≡ some p
    → (find_library lib ps ≡ some p) ⊎ (find_library lib qs ≡ some p)
unfolding find_library
find-append lib [] qs p h = inr h
find-append lib (q ∷ ps) qs p h = ground (arith, find-append lib ps qs p)

found_if :
    (lib : Text) (q p : Found) (b : Bool)
    → find_library lib (if b then q ∷ [] else []) ≡ some p
    → (b ≡ true) × (q ≡ p) × (is_library lib p ≡ true)
unfolding find_library
found_if lib q p false h = cc
found_if lib q p true h = elim (Bool-cases (is_library lib q)) [
  | inl here ↦
      let found_it : find_library lib (q ∷ []) ≡ some q = rw (here, find_library) refl in
      let same : q ≡ p = cc in (refl, same, ap (is_library lib) (sym same) ∙ here)
  | inr other ↦
      let found_none : find_library lib (q ∷ []) ≡ none = rw (other, find_library) refl in cc
]

find-file :
    (lib path f : Text) (p : Found)
    → find_library lib
        (if is_archive_ext (extension f) then record { parent = path; name = f } ∷ [] else [])
      ≡ some p
    → (f ≡ p.name)
      × (path ≡ p.parent)
      × (is_archive_ext (extension p.name) ≡ true)
      × (is_library lib p ≡ true)
unfolding find_library
find-file lib path f p h =
    let (is_ext, same, matches) =
      found_if lib (record { parent = path; name = f }) p (is_archive_ext (extension f)) h in
    (
      ap (λ q. q.name) same,
      ap (λ q. q.parent) same,
      ap (λ q. is_archive_ext (extension q.name)) (sym same) ∙ is_ext,
      matches,
    )

-- What is found stands in the tree, is an archive and is of the library.
mutual
  unfolding collect StandsIn find_library

  find-StandsIn :
      (lib : Text) (join : Text → Text → Text) (path : Text) (l : Listing) (p : Found)
      → find_library lib (collect join path l) ≡ some p
      → StandsIn join path p l
        × (is_archive_ext (extension p.name) ≡ true)
        × (is_library lib p ≡ true)
  find-StandsIn lib join path unreadable p h = cc
  find-StandsIn lib join path empty p h = cc
  find-StandsIn lib join path (entry n l) p h =
      elim (find-append lib (collect_node join path n) (collect join path l) p h) [
        | inl first ↦ let (a, b, c) = find-node lib join path n p first in (inl a, b, c)
        | inr later ↦ let (a, b, c) = find-StandsIn lib join path l p later in (inr a, b, c)
      ]

  find-node :
      (lib : Text) (join : Text → Text → Text) (path : Text) (n : Node) (p : Found)
      → find_library lib (collect_node join path n) ≡ some p
      → NodeStandsIn join path p n
        × (is_archive_ext (extension p.name) ≡ true)
        × (is_library lib p ≡ true)
  find-node lib join path (file f) p h =
      let (name, parent, is_ext, matches) = find-file lib path f p h in
      ((name, parent), is_ext, matches)
  find-node lib join path (dir d l) p h = find-StandsIn lib join (join path d) l p h

-- The file names of the archives of a library, on MSVC and elsewhere.
abbrev pub IsArchiveOf : Text → Text → Type 0
IsArchiveOf lib name = (name ≡ lib ++ bytes ".lib") ⊎ (name ≡ bytes "lib" ++ (lib ++ bytes ".a"))

abbrev pub IsLinked : Text → Type 0
IsLinked lib = (lib ≡ bytes "moonlight-common-c") ⊎ (lib ≡ bytes "enet")

Recognised : Text → Text → Type 0
Recognised lib name =
    (is_archive_ext (extension name) ≡ true)
    × ((parent : Text) → is_library lib (record { parent = parent; name = name }) ≡ true)
