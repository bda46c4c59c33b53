-- ===== src/Identity/SelfSigned.antt =====
-- What `generate` of crates/moonlight-core/src/identity.rs makes.
use tempest_addon_moonlight.Base.{
  ℕ, ◌*◌, ◌≡◌, refl, sym, ap, ◌∙◌, List, [], ◌∷◌, some, Text, length, bytes, Result, ok, err, Fail,
  error, panic,
}
use tempest_addon_moonlight.Nvhttp.Hex.{to_hex_lower, length-to_hex_lower}
use tempest_addon_moonlight.Nvhttp.Net.{next-ok, lift-ok}
use tempest_addon_moonlight.Identity.{
  MoonlightIdentity, Name, Certificate, Call, Generator, blank, built_by, give, make_date, make_key,
  make_name, make_cert, make_serial, give_names, give_dates, builder, to_identity, generate_inner,
  generate, generation_failed, set_version, set_serial_number, set_subject_name, set_issuer_name,
  set_pubkey, set_not_before, set_not_after, sign,
}

pub pure-ok :
    {W A : Type 0} {w w' : W} {a b : A} → ◌≡◌ {A = W × Result Fail A} (w, ok a) (w', ok b) → b ≡ a
pure-ok h = cc

-- The name that moonlight-qt uses.
abbrev pub common_name : Name
common_name = (bytes "CN", bytes "NVIDIA GameStream Client") ∷ []

-- What moonlight-qt makes: version 3, its own issuer under the common name, its own key's signature with
-- SHA-256 over all of it, and a validity of twenty years from now.
pub record IsSelfSigned {Key : Type 0} (key : Key) (cert : Certificate Key) : Type 0 where
  pub version : cert.version ≡ some 2
  pub serial : ℕ
  pub serial_set : cert.serial ≡ some serial
  pub subject : cert.subject ≡ common_name
  pub issuer : cert.issuer ≡ common_name
  pub public_key : cert.public_key ≡ some key
  pub signed : cert.signed ≡ some (key, bytes "sha256")
  pub not_before : cert.not_before ≡ some 0
  pub not_after : cert.not_after ≡ some (365 * 20)

-- What the setters of `generate_inner` and the signature leave.
abbrev built : {Key : Type 0} → Key → ℕ → Certificate Key
built key serial = built_by (sign key (bytes "sha256")) (
    built_by (set_not_after (365 * 20)) (
      built_by (set_not_before 0) (
        built_by (set_pubkey key) (
          built_by (set_issuer_name common_name) (
            built_by (set_subject_name common_name)
              (built_by (set_serial_number serial) (built_by (set_version 2) blank)))))))

built-IsSelfSigned :
    {Key : Type 0} (key : Key) (serial : ℕ) (cert : Certificate Key)
    → cert ≡ built key serial
    → IsSelfSigned key cert
unfolding built_by
built-IsSelfSigned key serial cert whole = record {
  version = ap (λ c. c.version) whole;
  serial = serial;
  serial_set = ap (λ c. c.serial) whole;
  subject = ap (λ c. c.subject) whole;
  issuer = ap (λ c. c.issuer) whole;
  public_key = ap (λ c. c.public_key) whole;
  signed = ap (λ c. c.signed) whole;
  not_before = ap (λ c. c.not_before) whole;
  not_after = ap (λ c. c.not_after) whole;
}

given :
    {Key : Type 0} (d0 d1 : ℕ) (c c1 c2 : Certificate Key)
    → d0 ≡ 0
    → d1 ≡ 365 * 20
    → c1 ≡ built_by (set_not_before d0) c
    → c2 ≡ built_by (set_not_after d1) c1
    → c2 ≡ built_by (set_not_after (365 * 20)) (built_by (set_not_before 0) c)
given d0 d1 c c1 c2 h1 h2 h3 h4 = rw (h4, h3, h2, h1) refl

chained :
    {Key : Type 0} (key : Key) (serial : ℕ) (c1 c2 c3 c4 cert : Certificate Key)
    → c1 ≡ built_by (set_version 2) blank
    → c2 ≡ built_by (set_serial_number serial) c1
    → c3
      ≡ built_by
          (set_pubkey key)
          (built_by (set_issuer_name common_name) (built_by (set_subject_name common_name) c2))
    → c4 ≡ built_by (set_not_after (365 * 20)) (built_by (set_not_before 0) c3)
    → cert ≡ built_by (sign key (bytes "sha256")) c4
    → cert ≡ built key serial
chained key serial c1 c2 c3 c4 cert h1 h2 h3 h4 h5 = rw (h5, h4, h3, h2, h1) refl

module _ {W Key : Type 0} (g : Generator W Key) where
  make_key-ok :
      (w w' : W) (key : Key)
      → make_key g w ≡ (w', ok key)
      → (w1 : W) × (g.rsa 2048 w ≡ (w1, ok key))
  unfolding make_key
  make_key-ok w w' key h =
      let (drawn, w1, e1, h1) = next-ok (g.rsa 2048 w) _ w' key h in
      let (u, w2, e2, h2) = next-ok (g.call _ w1) _ w' key h1 in
      (w1, e1 ∙ ap (λ k. (w1, ok k)) (sym (pure-ok h2)))

  make_name-ok :
      (w w' : W) (field value : Text) (name : Name)
      → make_name g field value w ≡ (w', ok name)
      → name ≡ (field, value) ∷ []
  unfolding make_name
  make_name-ok w w' field value name h =
      let (u1, w1, e1, h1) = next-ok (g.call _ w) _ w' name h in
      let (u2, w2, e2, h2) = next-ok (g.call _ w1) _ w' name h1 in pure-ok h2

  make_date-ok : (w w' : W) (n m : ℕ) → make_date g n w ≡ (w', ok m) → m ≡ n
  unfolding make_date
  make_date-ok w w' n m h = let (u1, w1, e1, h1) = next-ok (g.call _ w) _ w' m h in pure-ok h1

  give-ok :
      (w w' : W) (c c' : Certificate Key) (a : Call Key)
      → give g c a w ≡ (w', ok c')
      → c' ≡ built_by a c
  unfolding give
  give-ok w w' c c' a h = let (u1, w1, e1, h1) = next-ok (g.call _ w) _ w' c' h in pure-ok h1

  give_names-ok :
      (w w' : W) (c c' : Certificate Key) (key : Key) (name : Name)
      → give_names g c key name w ≡ (w', ok c')
      → c'
        ≡ built_by
            (set_pubkey key)
            (built_by (set_issuer_name name) (built_by (set_subject_name name) c))
  unfolding give_names
  give_names-ok w w' c c' key name h =
      let (c1, w1, e1, h1) = next-ok (give g c (set_subject_name name) w) _ w' c' h in
      let (c2, w2, e2, h2) = next-ok (give g c1 (set_issuer_name name) w1) _ w' c' h1 in
      give-ok w2 w' c2 c' _ h2
      ∙ ap (built_by (set_pubkey key))
          (give-ok w1 w2 c1 c2 _ e2 ∙ ap (built_by (set_issuer_name name)) (give-ok w w1 c c1 _ e1))

  give_dates-ok :
      (w w' : W) (c c' : Certificate Key)
      → give_dates g c w ≡ (w', ok c')
      → c' ≡ built_by (set_not_after (365 * 20)) (built_by (set_not_before 0) c)
  unfolding give_dates
  give_dates-ok w w' c c' h =
      let (d0, w1, e1, h1) = next-ok (make_date g 0 w) _ w' c' h in
      let (d1, w2, e2, h2) = next-ok (make_date g (365 * 20) w1) _ w' c' h1 in
      let (c1, w3, e3, h3) = next-ok (give g c (set_not_before d0) w2) _ w' c' h2 in
      given d0 d1 c c1 c' (make_date-ok w w1 0 d0 e1) (make_date-ok w1 w2 (365 * 20) d1 e2)
        (give-ok w2 w3 c c1 _ e3) (give-ok w3 w' c1 c' _ h3)

  make_cert-IsSelfSigned :
      (w w' : W) (key : Key) (cert : Certificate Key)
      → make_cert g key common_name w ≡ (w', ok cert)
      → IsSelfSigned key cert
  unfolding make_cert
  make_cert-IsSelfSigned w w' key cert h =
      let (u1, w1, e1, h1) = next-ok (g.call builder w) _ w' cert h in
      let (c1, w2, e2, h2) = next-ok (give g blank (set_version 2) w1) _ w' cert h1 in
      let (serial, w3, e3, h3) = next-ok (make_serial g w2) _ w' cert h2 in
      let (c2, w4, e4, h4) = next-ok (give g c1 (set_serial_number serial) w3) _ w' cert h3 in
      let (c3, w5, e5, h5) = next-ok (give_names g c2 key common_name w4) _ w' cert h4 in
      let (c4, w6, e6, h6) = next-ok (give_dates g c3 w5) _ w' cert h5 in
      built-IsSelfSigned key serial cert (
        chained key serial c1 c2 c3 c4 cert (give-ok w1 w2 blank c1 _ e2) (give-ok w3 w4 c1 c2 _ e4)
          (give_names-ok w4 w5 c2 c3 _ _ e5) (give_dates-ok w5 w6 c3 c4 e6)
          (give-ok w6 w' c4 cert _ h6))

  generated :
      (p : W × Result Fail MoonlightIdentity) (w' : W) (id : MoonlightIdentity)
      → generation_failed g p ≡ (w', ok id)
      → p ≡ (w', ok id)
  unfolding generation_failed
  generated (w, ok id) w' id' h = h
  generated (w, err (error e)) w' id h = cc
  generated (w, err (panic e)) w' id h = cc

  -- An identity: the PEM texts of a certificate and of its key, and the hex of eight random bytes.
  pub record IsIdentityOf (key : Key) (cert : Certificate Key) (id : MoonlightIdentity)
      : Type 0 where
    pub random : List ℕ
    pub eight : length random ≡ 8
    pub unique_id : id.unique_id ≡ to_hex_lower random
    pub cert_pem : g.cert_to_pem cert ≡ ok id.cert_pem
    pub key_pem : g.key_to_pem key ≡ ok id.key_pem

  module _
      (fills : (n : ℕ) (w w' : W) (bs : List ℕ)
        → g.rand_bytes n w ≡ (w', ok bs)
        → length bs ≡ n) where
    to_identity-IsIdentityOf :
        (w w' : W) (key : Key) (cert : Certificate Key) (id : MoonlightIdentity)
        → to_identity g key cert w ≡ (w', ok id)
        → IsIdentityOf key cert id
    unfolding to_identity
    to_identity-IsIdentityOf w w' key cert id h =
        let (cert_pem, e1, h1) = lift-ok w (g.cert_to_pem cert) _ w' id h in
        let (key_pem, e2, h2) = lift-ok w (g.key_to_pem key) _ w' id h1 in
        let (random, w1, e3, h3) = next-ok (g.rand_bytes 8 w) _ w' id h2 in
        let same = pure-ok h3 in
        record {
          random = random;
          eight = fills 8 w w1 random e3;
          unique_id = ap (λ i. i.unique_id) same;
          cert_pem = e1 ∙ ap (λ i. ok i.cert_pem) (sym same);
          key_pem = e2 ∙ ap (λ i. ok i.key_pem) (sym same);
        }

    -- If the random generator fills its buffers, an identity that is generated is made of the PEM texts of a
    -- fresh RSA key of 2048 bits and of a certificate whose builder was given version 3, a serial number, the common name
    -- of moonlight-qt as subject and issuer, this key, and a validity from now for twenty years of 365 days, and
    -- was signed last, by this key with SHA-256; its id is 16 hex digits of eight random bytes.
    pub generate-IsSelfSigned :
        (w w' : W) (id : MoonlightIdentity)
        → generate g w ≡ (w', ok id)
        → (key : Key) × (cert : Certificate Key) × (drawn : W) × (g.rsa 2048 w ≡ (drawn, ok key))
          × IsSelfSigned key cert
          × IsIdentityOf key cert id
          × (length id.unique_id ≡ 16)
    unfolding generate generate_inner
    generate-IsSelfSigned w w' id h =
        let h0 = generated (generate_inner g w) w' id h in
        let (key, w1, e1, h1) = next-ok (make_key g w) _ w' id h0 in
        let (name, w2, e2, h2) =
          next-ok (make_name g (bytes "CN") (bytes "NVIDIA GameStream Client") w1) _ w' id h1 in
        let (cert, w3, e3, h3) = next-ok (make_cert g key name w2) _ w' id h2 in
        let is_common = make_name-ok w1 w2 _ _ name e2 in
        let is_id = to_identity-IsIdentityOf w3 w' key cert id h3 in
        let (drawn, rsa) = make_key-ok w w1 key e1 in
        (
          key,
          cert,
          drawn,
          rsa,
          make_cert-IsSelfSigned w2 w3 key cert
              (ap (λ n. make_cert g key n w2) (sym is_common) ∙ e3),
          is_id,
          ap length is_id.unique_id
              ∙ length-to_hex_lower is_id.random
              ∙ ap (λ n. 2 * n) is_id.eight,
        )
