-- ===== src/Xtask/Package/Payload.antt =====
-- What `package` of crates/xtask/src/main.rs puts into the payload.
use tempest_addon_moonlight.Base.{
  ℕ, ◌≡◌, refl, sym, ap, Option, none, some, List, [], ◌∷◌, ◌++◌, Text, bytes, Result, ok, err,
  Fail,
}
use tempest_addon_moonlight.Nvhttp.Net.{next}
use tempest_addon_moonlight.Xtask.Package.{exec_name, add_entry, package_descriptor, build_payload}
use tempest_addon_moonlight.Xtask.Os.{Os, Entry, deflated, ask, sys}

pub sys-ok : {A : Type 0} (r : Result Text A) (a : A) → sys r ≡ ok a → r ≡ ok a
unfolding sys
sys-ok (ok b) a h = cc
sys-ok (err e) a h = cc

-- A deflated entry, and the entries that a payload should have, in their order.
abbrev pub entry : Text → Option ℕ → List ℕ → Entry
entry name mode contents = record {
  name = name;
  compression = deflated;
  mode = mode;
  contents = contents;
}

unfoldable pub payload_entries : Text → List ℕ → Text → List ℕ → List ℕ → List Entry
payload_entries exe binary text license readme =
    entry (bytes "bin/" ++ exe) (some 0o755) binary
    ∷ entry (bytes "descriptor.json") none text
    ∷ entry (bytes "LICENSE") none license
    ∷ entry (bytes "README.md") none readme
    ∷ []

-- A step that gives nothing and leaves the world alone, in front of one that succeeds.
skip-ok :
    {W A B : Type 0} (w : W) (r : Result Fail (Unit {0})) (a : A) (k : A → W → W × Result Fail B)
    (w' : W) (b : B)
    → next (next (w, r) (λ _ v. (v, ok a))) k ≡ (w', ok b)
    → k a w ≡ (w', ok b)
skip-ok w (ok u) a k w' b h = h
skip-ok w (err e) a k w' b h = cc

read-ok :
    {W B : Type 0} (w : W) (contents : Result Text (List ℕ))
    (wrote : List ℕ → Result Fail (Unit {0})) (entries : List ℕ → List Entry)
    (k : List Entry → W → W × Result Fail B) (w' : W) (b : B)
    → next (next (w, sys contents) (λ bs v. next (v, wrote bs) (λ _ v. (v, ok (entries bs))))) k
      ≡ (w', ok b)
    → (bs : List ℕ) × (contents ≡ ok bs) × (k (entries bs) w ≡ (w', ok b))
unfolding sys
read-ok w (err e) wrote entries k w' b h = cc
read-ok w (ok bs) wrote entries k w' b h = (bs, refl, skip-ok w (wrote bs) (entries bs) k w' b h)

-- Start, read and write, when they and what follows succeed.
entry-ok :
    {W B : Type 0} (w : W) (started : Result Fail (Unit {0})) (contents : W → Result Text (List ℕ))
    (wrote : List ℕ → Result Fail (Unit {0})) (entries : List ℕ → List Entry)
    (k : List Entry → W → W × Result Fail B) (w' : W) (b : B)
    → next
        (next
          (w, started)
          (λ _ v.
            next (v, sys (contents v)) (λ bs v. next (v, wrote bs) (λ _ v. (v, ok (entries bs))))))
        k
      ≡ (w', ok b)
    → (bs : List ℕ) × (contents w ≡ ok bs) × (k (entries bs) w ≡ (w', ok b))
entry-ok w (err e) contents wrote entries k w' b h = cc
entry-ok w (ok u) contents wrote entries k w' b h = read-ok w (contents w) wrote entries k w' b h

text-ok :
    {W B : Type 0} (w : W) (started wrote : Result Fail (Unit {0})) (es : List Entry)
    (k : List Entry → W → W × Result Fail B) (w' : W) (b : B)
    → next (next (w, started) (λ _ v. next (v, wrote) (λ _ v. (v, ok es)))) k ≡ (w', ok b)
    → k es w ≡ (w', ok b)
text-ok w (err e) wrote es k w' b h = cc
text-ok w (ok u) wrote es k w' b h = skip-ok w wrote es k w' b h

module _ {W : Type 0} (os : Os W) where
  -- Adding an entry that succeeds, with what follows.
  add_entry-ok :
      {B : Type 0} (w : W) (es : List Entry) (name : Text) (mode : Option ℕ)
      (contents : W → Result Text (List ℕ)) (k : List Entry → W → W × Result Fail B) (w' : W)
      (b : B)
      → next (add_entry os es name mode contents w) k ≡ (w', ok b)
      → (bs : List ℕ) × (contents w ≡ ok bs) × (k (es ++ (entry name mode bs ∷ [])) w ≡ (w', ok b))
  unfolding add_entry ask sys
  add_entry-ok w es name mode contents k w' b h =
      entry-ok w (sys (os.start_file es name deflated mode)) contents
        (λ bs. sys (os.write_all es bs)) (λ bs. es ++ (entry name mode bs ∷ [])) k w' b h

  add_text-ok :
      {B : Type 0} (w : W) (es : List Entry) (name text : Text) (mode : Option ℕ)
      (k : List Entry → W → W × Result Fail B) (w' : W) (b : B)
      → next (add_entry os es name mode (λ v. ok text) w) k ≡ (w', ok b)
      → k (es ++ (entry name mode text ∷ [])) w ≡ (w', ok b)
  unfolding add_entry ask sys
  add_text-ok w es name text mode k w' b h =
      text-ok w (sys (os.start_file es name deflated mode)) (sys (os.write_all es text))
        (es ++ (entry name mode text ∷ [])) k w' b h

  abbrev pub root_file : Text → W → Result Text (List ℕ)
  root_file name = os.read (os.join os.root name)

  -- What went into a payload that was built in the world `w`.
  pub record Built (w : W) (bin target exe : Text) (payload : List ℕ) : Type 0 where
    pub binary : List ℕ
    pub license : List ℕ
    pub readme : List ℕ
    pub binary_read : os.read bin w ≡ ok binary
    pub license_read : root_file (bytes "LICENSE") w ≡ ok license
    pub readme_read : root_file (bytes "README.md") w ≡ ok readme
    pub packed :
        os.finish (payload_entries exe binary (package_descriptor os target exe) license readme)
        ≡ ok payload

  -- A payload that is built holds the binary, the descriptor and the two texts, read in this world.
  pub build_payload-Built :
      (w w' : W) (bin target exe : Text) (payload : List ℕ)
      → build_payload os bin target exe w ≡ (w', ok payload)
      → Built w bin target exe payload × (w' ≡ w)
  unfolding build_payload ask payload_entries
  build_payload-Built w w' bin target exe payload h =
      let text = package_descriptor os target exe in
      let (binary, r1, h1) =
        add_entry-ok w [] (exec_name exe) (some 0o755) (os.read bin) _ w' payload h in
      let es1 = entry (exec_name exe) (some 0o755) binary ∷ [] in
      let h2 = add_text-ok w es1 (bytes "descriptor.json") text none _ w' payload h1 in
      let es2 = es1 ++ (entry (bytes "descriptor.json") none text ∷ []) in
      let (license, r3, h3) =
        add_entry-ok w es2 (bytes "LICENSE") none (root_file (bytes "LICENSE")) _ w' payload h2 in
      let es3 = es2 ++ (entry (bytes "LICENSE") none license ∷ []) in
      let (readme, r4, h4) =
        add_entry-ok w es3 (bytes "README.md") none (root_file (bytes "README.md")) _ w' payload
          h3 in
      (
        record {
          binary = binary;
          license = license;
          readme = readme;
          binary_read = r1;
          license_read = r3;
          readme_read = r4;
          packed = sys-ok _ payload (ap (λ p. p.1) h4);
        },
        ap (λ p. p.0) (sym h4),
      )
