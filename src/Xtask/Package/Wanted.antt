-- ===== src/Xtask/Package/Wanted.antt =====
-- What `package` of crates/xtask/src/main.rs is to build, where and under which names, written apart from it.
use tempest_addon_moonlight.Base.{
  ℕ, ◌≡◌, refl, sym, ap, ◌∙◌, ◌<◌, ◌≢◌, ◌⊎◌, inl, inr, Bool, true, false, Option, none, some, List,
  [], ◌∷◌, ◌++◌, Text, bytes, text_eq, text_eq_refl, text_eq→eq, take, drop, length, arith,
  if◌then◌else◌, Result, ok, err, Fail, Bool-cases,
}
use tempest_addon_moonlight.Nvhttp.Net.{next, pure, fail}
use tempest_addon_moonlight.Str.{find, starts_with}
use tempest_addon_moonlight.Str.Find.{find_sound, find_first}
use tempest_addon_moonlight.Xtask.Os.{Os, sys, call}
use tempest_addon_moonlight.Xtask.Package.{
  filled_var, is_empty, var_or, host_platform, host_arch, host_target, package_target, platform_of,
  exe_of, cargo_args, cargo_build, bin_path,
}

-- A variable that is set, and not to nothing.
unfoldable pub given : Option Text → Option Text
given none = none
given (some []) = none
given (some (c ∷ cs)) = some (c ∷ cs)

unfoldable pub given_or : Option Text → Text → Text
given_or (some t) d = t
given_or none d = d

filled_var-given : (o : Option Text) → filled_var o ≡ given o
unfolding filled_var is_empty given
filled_var-given none = refl
filled_var-given (some []) = refl
filled_var-given (some (c ∷ cs)) = refl

var_or-given_or : (o : Option Text) (d : Text) → var_or o d ≡ given_or o d
unfolding var_or given_or
var_or-given_or none d = refl
var_or-given_or (some t) d = refl

-- Node's word for a platform of Rust's, and for an architecture.
abbrev pub NodePlatform : Text → Text → Type 0
NodePlatform name p =
    ((name ≡ bytes "macos") × (p ≡ bytes "darwin"))
    ⊎ ((name ≡ bytes "linux") × (p ≡ bytes "linux"))
    ⊎ ((name ≡ bytes "windows") × (p ≡ bytes "win32"))

abbrev pub NodeArch : Text → Text → Type 0
NodeArch name a =
    ((name ≡ bytes "aarch64") × (a ≡ bytes "arm64")) ⊎ ((name ≡ bytes "x86_64") × (a ≡ bytes "x64"))

of_three :
    (b1 b2 b3 : Bool) (x y z p : Text) (e : Fail)
    → ◌≡◌ {A = Result Fail Text}
        (if b1 then ok x else if b2 then ok y else if b3 then ok z else err e)
        (ok p)
    → ((b1 ≡ true) × (p ≡ x)) ⊎ ((b2 ≡ true) × (p ≡ y)) ⊎ ((b3 ≡ true) × (p ≡ z))
of_three true b2 b3 x y z p e h = inl (refl, cc)
of_three false true b3 x y z p e h = inr (inl (refl, cc))
of_three false false true x y z p e h = inr (inr (refl, cc))
of_three false false false x y z p e h = cc

of_two :
    (b1 b2 : Bool) (x y p : Text) (e : Fail)
    → ◌≡◌ {A = Result Fail Text} (if b1 then ok x else if b2 then ok y else err e) (ok p)
    → ((b1 ≡ true) × (p ≡ x)) ⊎ ((b2 ≡ true) × (p ≡ y))
of_two true b2 x y p e h = inl (refl, cc)
of_two false true x y p e h = inr (refl, cc)
of_two false false x y p e h = cc

host_platform-NodePlatform : (name p : Text) → host_platform name ≡ ok p → NodePlatform name p
unfolding host_platform
host_platform-NodePlatform name p h =
    elim (of_three (text_eq name (bytes "macos")) (text_eq name (bytes "linux"))
      (text_eq name (bytes "windows")) _ _ _ p _ h) [
        | inl (e, same) ↦ inl (text_eq→eq _ _ e, same)
        | inr (inl (e, same)) ↦ inr (inl (text_eq→eq _ _ e, same))
        | inr (inr (e, same)) ↦ inr (inr (text_eq→eq _ _ e, same))
      ]

host_arch-NodeArch : (name a : Text) → host_arch name ≡ ok a → NodeArch name a
unfolding host_arch
host_arch-NodeArch name a h =
    elim (of_two (text_eq name (bytes "aarch64")) (text_eq name (bytes "x86_64")) _ _ a _ h) [
      | inl (e, same) ↦ inl (text_eq→eq _ _ e, same)
      | inr (e, same) ↦ inr (text_eq→eq _ _ e, same)
    ]

-- A target as it is split: its platform is what stands before its first dash.
pub record Split (target platform : Text) : Type 0 where
  pub rest : Text
  pub joined : target ≡ platform ++ (b'-' ∷ rest)
  pub first : (j : ℕ) → j < length platform → starts_with (b'-' ∷ []) (drop j target) ≡ false

split-ok :
    (i : Option ℕ) (target platform : Text) (e : Fail)
    → ◌≡◌ {A = Result Fail Text}
        (elim i [ some i ↦ ok (take i target) | none ↦ err e ])
        (ok platform)
    → (n : ℕ) × (i ≡ some n) × (platform ≡ take n target)
split-ok none target platform e h = cc
split-ok (some i) target platform e h = (i, refl, cc)

below : {a n j : ℕ} → a ≡ n → j < a → j < n
below e h = omega arith

pub platform_of-Split :
    (target platform : Text) → platform_of target ≡ ok platform → Split target platform
unfolding platform_of bytes
platform_of-Split target platform h =
    let (n, found, is_taken) = split-ok (find (b'-' ∷ []) target) target platform _ h in
    let (joined, len) = find_sound (b'-' ∷ []) target n found in
    record {
      rest = drop 1 (drop n target);
      joined = joined ∙ ap (λ p. p ++ (b'-' ∷ drop 1 (drop n target))) (sym is_taken);
      first = λ j h. find_first (b'-' ∷ []) target n j found (below (ap length is_taken ∙ len) h);
    }

abbrev pub ExeOf : Text → Text → Type 0
ExeOf platform exe =
    ((platform ≡ bytes "win32") × (exe ≡ bytes "moonlight.exe"))
    ⊎ ((platform ≢ bytes "win32") × (exe ≡ bytes "moonlight"))

pub exe_of-ExeOf : (platform : Text) → ExeOf platform (exe_of platform)
unfolding exe_of
exe_of-ExeOf platform = elim (Bool-cases (text_eq platform (bytes "win32"))) [
  | inl e ↦ inl (text_eq→eq _ _ e, rw e refl)
  | inr e ↦ inr (λ same. let r = text_eq_refl (bytes "win32") in cc, rw e refl)
]

joined_of :
    (p a : Result Fail Text) (target : Text)
    → ◌≡◌ {A = Result Fail Text}
        (elim p [ err e ↦ err e | ok p ↦ elim a [ err e ↦ err e | ok a ↦ ok (p ++ (b'-' ∷ a)) ] ])
        (ok target)
    → (x : Text) × (y : Text) × (p ≡ ok x) × (a ≡ ok y) × (target ≡ x ++ (b'-' ∷ y))
joined_of (err e) a target h = cc
joined_of (ok p) (err e) target h = cc
joined_of (ok p) (ok a) target h = (p, a, refl, refl, cc)

target_of :
    (v : Option Text) (host : Result Fail Text) (target : Text)
    → ◌≡◌ {A = Result Fail Text} (elim v [ some t ↦ ok t | none ↦ host ]) (ok target)
    → (v ≡ some target) ⊎ ((v ≡ none) × (host ≡ ok target))
target_of none host target h = inr (refl, h)
target_of (some t) host target h = inl cc

module _ {W : Type 0} (os : Os W) where
  -- The target that this machine is.
  pub HostTarget : Text → Type 0
  HostTarget target =
      (p : Text) × (a : Text) × NodePlatform os.os p
      × NodeArch os.arch a
      × (target ≡ p ++ (b'-' ∷ a))

  -- The target: that of `TPX_TARGET`, or this machine's.
  abbrev pub TargetOf : Text → Type 0
  TargetOf target =
      (given (os.env (bytes "TPX_TARGET")) ≡ some target)
      ⊎ ((given (os.env (bytes "TPX_TARGET")) ≡ none) × HostTarget target)

  host_target-join : (target : Text) → host_target os ≡ ok target → HostTarget target
  unfolding host_target HostTarget
  host_target-join target h =
      let (p, a, hp, ha, e) = joined_of (host_platform os.os) (host_arch os.arch) target h in
      (p, a, host_platform-NodePlatform os.os p hp, host_arch-NodeArch os.arch a ha, e)

  pub package_target-TargetOf : (target : Text) → package_target os ≡ ok target → TargetOf target
  unfolding package_target
  package_target-TargetOf target h =
      elim (target_of (filled_var (os.env (bytes "TPX_TARGET"))) (host_target os) target h) [
        | inl e ↦ inl (sym (filled_var-given _) ∙ e)
        | inr (e, h') ↦ inr (sym (filled_var-given _) ∙ e, host_target-join target h')
      ]

  -- What cargo is given.
  unfoldable pub wanted_args : Bool → Option Text → List Text
  wanted_args true none = bytes "build" ∷ bytes "-p" ∷ bytes "moonlight-addon" ∷ []
  wanted_args true (some t) =
      bytes "build" ∷ bytes "-p" ∷ bytes "moonlight-addon" ∷ bytes "--target" ∷ t ∷ []
  wanted_args false none =
      bytes "build" ∷ bytes "-p" ∷ bytes "moonlight-addon" ∷ bytes "--release" ∷ []
  wanted_args false (some t) =
      bytes "build"
      ∷ bytes "-p"
      ∷ bytes "moonlight-addon"
      ∷ bytes "--release"
      ∷ bytes "--target"
      ∷ t
      ∷ []

  cargo_args-wanted : (debug : Bool) (t : Option Text) → cargo_args os debug t ≡ wanted_args debug t
  unfolding cargo_args wanted_args
  cargo_args-wanted true none = refl
  cargo_args-wanted true (some t) = refl
  cargo_args-wanted false none = refl
  cargo_args-wanted false (some t) = refl

  pub Ran : Bool → W → W → Type 0
  Ran debug w w1 =
      os.status (given_or (os.env (bytes "CARGO")) (bytes "cargo"))
        (wanted_args debug (given (os.env (bytes "CARGO_TARGET")))) os.root w
      ≡ (w1, ok true)

  -- Where cargo should put the binary: in the folder of the triple of a cross build, and in that of the profile.
  unfoldable pub place : Bool → Option Text → Text → Text → Text
  place true none base exe = os.join (os.join base (bytes "debug")) exe
  place false none base exe = os.join (os.join base (bytes "release")) exe
  place true (some t) base exe = os.join (os.join (os.join base t) (bytes "debug")) exe
  place false (some t) base exe = os.join (os.join (os.join base t) (bytes "release")) exe

  unfoldable pub wanted_bin : Bool → Text → Text
  wanted_bin debug exe =
      place debug (given (os.env (bytes "CARGO_TARGET")))
        (given_or (os.env (bytes "CARGO_TARGET_DIR")) (os.join os.root (bytes "target"))) exe

  bin_path-place :
      (debug : Bool) (t : Option Text) (dir : Text) (exe : Text)
      → (elim t [
        | some t ↦
            os.join (os.join (os.join dir t) (if debug then bytes "debug" else bytes "release")) exe
        | none ↦ os.join (os.join dir (if debug then bytes "debug" else bytes "release")) exe
      ])
        ≡ place debug t dir exe
  unfolding place
  bin_path-place true none dir exe = refl
  bin_path-place true (some t) dir exe = refl
  bin_path-place false none dir exe = refl
  bin_path-place false (some t) dir exe = refl

  pub bin_path-wanted : (debug : Bool) (exe : Text) → bin_path os debug exe ≡ wanted_bin debug exe
  unfolding bin_path wanted_bin
  bin_path-wanted debug exe =
      rw
        (
          sym (filled_var-given (os.env (bytes "CARGO_TARGET"))),
          sym (
              var_or-given_or (os.env (bytes "CARGO_TARGET_DIR"))
                (os.join os.root (bytes "target"))),
        )
        (bin_path-place debug (filled_var (os.env (bytes "CARGO_TARGET"))) _ exe)

  cargo-ok :
      (p : W × Result Text Bool) (e : Text) (w' : W)
      → next (p.0, sys p.1) (λ b. if b then pure tt else fail e) ≡ (w', ok tt)
      → p ≡ (w', ok true)
  unfolding sys
  cargo-ok (w, err x) e w' h = cc
  cargo-ok (w, ok true) e w' h = ap (λ p. (p.0, ok true)) h
  cargo-ok (w, ok false) e w' h = cc

  pub cargo_build-Ran :
      (debug : Bool) (w w' : W) → cargo_build os debug w ≡ (w', ok tt) → Ran debug w w'
  unfolding cargo_build call Ran
  cargo_build-Ran debug w w' h =
      rw
        (
          sym (filled_var-given (os.env (bytes "CARGO_TARGET"))),
          sym (var_or-given_or (os.env (bytes "CARGO")) (bytes "cargo")),
          sym (cargo_args-wanted debug (filled_var (os.env (bytes "CARGO_TARGET")))),
        )
        (cargo-ok _ (bytes "cargo build failed") w' h)
