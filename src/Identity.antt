-- ===== src/Identity.antt =====
-- crates/moonlight-core/src/identity.rs: the client identity. OpenSSL is a parameter: what its calls
-- answer, its random numbers, and the PEM texts that it makes of a key and of a certificate.
pub mod SelfSigned
use tempest_addon_moonlight.Base.{
  ℕ, Option, none, some, List, [], ◌∷◌, Text, bytes, ◌++◌, ◌*◌, Result, ok, err, Fail, error, panic,
}
use tempest_addon_moonlight.Nvhttp.Hex.{to_hex, to_hex_lower}
use tempest_addon_moonlight.Nvhttp.Net.{M, next, ◌>>=◌, ◌>>◌, pure}

pub record MoonlightIdentity : Type 0 where
  pub unique_id : Text
  pub cert_pem : List ℕ
  pub key_pem : List ℕ

-- An X.509 name: its entries in their order.
abbrev pub Name : Type 0
Name = List (Text × Text)

-- What the builder of a certificate holds: what its setters were given, the validity in days from now, and
-- the key and the digest of the signature over it.
pub record Certificate (Key : Type 0) : Type 0 where
  pub version : Option ℕ
  pub serial : Option ℕ
  pub subject : Name
  pub issuer : Name
  pub public_key : Option Key
  pub not_before : Option ℕ
  pub not_after : Option ℕ
  pub signed : Option (Key × Text)

-- The calls that can fail: those that make a value of what they are given, and the setters.
pub data Call (Key : Type 0) : Type 0 where
  from_rsa : Key → Call Key
  name_builder : Call Key
  append_entry : Text → Text → Call Key
  builder : Call Key
  set_version : ℕ → Call Key
  big_num : Call Key
  to_asn1_integer : ℕ → Call Key
  set_serial_number : ℕ → Call Key
  set_subject_name : Name → Call Key
  set_issuer_name : Name → Call Key
  set_pubkey : Key → Call Key
  days_from_now : ℕ → Call Key
  set_not_before : ℕ → Call Key
  set_not_after : ℕ → Call Key
  sign : Key → Text → Call Key

-- The documented effect of a call on the builder: a setter sets its field, and a signature is over the
-- fields as they are, so that a later setter leaves none.
unfoldable pub built_by : {Key : Type 0} → Call Key → Certificate Key → Certificate Key
built_by (set_version n) c = record c { version = some n; signed = none }
built_by (set_serial_number n) c = record c { serial = some n; signed = none }
built_by (set_subject_name n) c = record c { subject = n; signed = none }
built_by (set_issuer_name n) c = record c { issuer = n; signed = none }
built_by (set_pubkey key) c = record c { public_key = some key; signed = none }
built_by (set_not_before n) c = record c { not_before = some n; signed = none }
built_by (set_not_after n) c = record c { not_after = some n; signed = none }
built_by (sign key digest) c = record c { signed = some (key, digest) }
built_by _ c = c

abbrev pub blank : {Key : Type 0} → Certificate Key
blank = record {
  version = none;
  serial = none;
  subject = [];
  issuer = [];
  public_key = none;
  not_before = none;
  not_after = none;
  signed = none;
}

pub record Generator (W Key : Type 0) : Type 0 where
  pub call : Call Key → M W (Unit {0})
  -- `Rsa::generate` of so many bits, `BigNum::rand` below 2 to so many, `rand_bytes` of so many bytes.
  pub rsa : ℕ → M W Key
  pub rand : ℕ → M W ℕ
  pub rand_bytes : ℕ → M W (List ℕ)
  pub cert_to_pem : Certificate Key → Result Fail (List ℕ)
  pub key_to_pem : Key → Result Fail (List ℕ)

module _ {W Key : Type 0} (g : Generator W Key) where
  unfoldable pub make_key : M W Key
  make_key = do key ← g.rsa 2048; g.call (from_rsa key); pure key

  unfoldable pub make_name : Text → Text → M W Name
  make_name field value = do
    g.call name_builder
    g.call (append_entry field value)
    pure ((field, value) ∷ [])

  unfoldable pub make_serial : M W ℕ
  make_serial = do g.call big_num; n ← g.rand 159; g.call (to_asn1_integer n); pure n

  -- `Asn1Time::days_from_now`
  unfoldable pub make_date : ℕ → M W ℕ
  make_date days = do g.call (days_from_now days); pure days

  -- One call on the builder.
  unfoldable pub give : Certificate Key → Call Key → M W (Certificate Key)
  unfolding built_by
  give c a = do g.call a; pure (built_by a c)

  unfoldable pub give_names : Certificate Key → Key → Name → M W (Certificate Key)
  give_names c key name = do
    c1 ← give c (set_subject_name name)
    c2 ← give c1 (set_issuer_name name)
    give c2 (set_pubkey key)

  unfoldable pub give_dates : Certificate Key → M W (Certificate Key)
  give_dates c = do
    not_before ← make_date 0
    not_after ← make_date (365 * 20)
    c1 ← give c (set_not_before not_before)
    give c1 (set_not_after not_after)

  unfoldable pub make_cert : Key → Name → M W (Certificate Key)
  make_cert key name = do
    g.call builder
    c1 ← give blank (set_version 2)
    serial ← make_serial
    c2 ← give c1 (set_serial_number serial)
    c3 ← give_names c2 key name
    c4 ← give_dates c3
    give c4 (sign key (bytes "sha256"))

  unfoldable pub to_identity : Key → Certificate Key → M W MoonlightIdentity
  to_identity key cert = do
    cert_pem ← λ w. (w, g.cert_to_pem cert)
    key_pem ← λ w. (w, g.key_to_pem key)
    id ← g.rand_bytes 8
    pure (record { unique_id = to_hex_lower id; cert_pem = cert_pem; key_pem = key_pem })

  unfoldable pub generate_inner : M W MoonlightIdentity
  generate_inner = do
    key ← make_key
    name ← make_name (bytes "CN") (bytes "NVIDIA GameStream Client")
    cert ← make_cert key name
    to_identity key cert

  generation_failed : W × Result Fail MoonlightIdentity → W × Result Fail MoonlightIdentity
  generation_failed (w, ok id) = (w, ok id)
  generation_failed (w, err (error e)) =
      (w, err (error (bytes "moonlight identity generation failed: " ++ e)))
  generation_failed (w, err (panic e)) = (w, err (panic e))

  unfoldable pub generate : M W MoonlightIdentity
  unfolding generation_failed
  generate w = generation_failed (generate_inner w)

unfoldable pub from_pem : Text → List ℕ → List ℕ → MoonlightIdentity
from_pem unique_id cert_pem key_pem = record {
  unique_id = unique_id;
  cert_pem = cert_pem;
  key_pem = key_pem;
}

unfoldable pub cert_hex : MoonlightIdentity → Text
cert_hex id = to_hex id.cert_pem
