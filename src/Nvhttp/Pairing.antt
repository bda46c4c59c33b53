-- ===== src/Nvhttp/Pairing.antt =====
-- `PairingClient` of crates/moonlight-core/src/nvhttp.rs: the PIN handshake. OpenSSL's hash, cipher,
-- certificates and signatures are parameters; a parsed certificate and a key are values of `Cert`
-- and `Key`.
pub mod Sent
pub mod Greeting
pub mod Secrets
pub mod Handshake
use tempest_addon_moonlight.Base.{
  ℕ, ◌+◌, ◌-◌, ◌<◌, Bool, true, false, Option, none, some, List, [], ◌∷◌, ◌++◌, Text, bytes,
  decimal, text_eq, length, take, drop, ltb, if◌then◌else◌, Result, ok, err, ok_or, map_err, Fail,
  error,
}
use tempest_addon_moonlight.Identity.{MoonlightIdentity, cert_hex}
use tempest_addon_moonlight.Nvhttp.Hex.{to_hex, from_hex}
use tempest_addon_moonlight.Nvhttp.Xml.{slice, xml_tag, is_paired_reply}
use tempest_addon_moonlight.Nvhttp.Net.{Net, M, next, ◌>>=◌, ◌>>◌, pure, lift, fail}
use tempest_addon_moonlight.Nvhttp.Requests.{checked, new_uuid, rand16}

pub data Mode : Type 0 where
  encrypt decrypt : Mode

pub record Crypto (Cert Key : Type 0) : Type 0 where
  pub sha256 : List ℕ → List ℕ
  -- The steps of a `Crypter` without padding: it is made, fed and finished.
  pub bad_key : Mode → List ℕ → Option Text
  pub update : Mode → List ℕ → List ℕ → Result Text (List ℕ)
  pub finalize : Mode → List ℕ → List ℕ → Result Text (List ℕ)
  pub cert_from_pem : List ℕ → Result Text Cert
  pub signature : Cert → List ℕ
  pub public_key : Cert → Result Text Key
  pub key_from_pem : List ℕ → Result Text Key
  pub verify : Key → List ℕ → List ℕ → Result Text Bool
  pub sign : Key → List ℕ → Result Text (List ℕ)

-- `format!("{prefix}{e}")` of an error.
abbrev pub tagged : Text → Text → Fail
tagged prefix e = error (prefix ++ e)

query_string : List (Text × Text) → Text
query_string [] = []
query_string ((k, v) ∷ []) = k ++ (b'=' ∷ v)
query_string ((k, v) ∷ (q ∷ qs)) = k ++ (b'=' ∷ (v ++ (b'&' ∷ query_string (q ∷ qs))))

unfoldable pub pair_url : Text → ℕ → List (Text × Text) → Text
unfolding query_string
pair_url host http_port q =
    bytes "http://" ++ (host ++ (b':' ∷ (decimal http_port ++ (bytes "/pair?" ++ query_string q))))

module _ {W Cert Key : Type 0} (net : Net W) (c : Crypto Cert Key) where
  unfoldable pub aes_ecb : Mode → List ℕ → List ℕ → Result Fail (List ℕ)
  aes_ecb mode key input = elim (c.bad_key mode key) [
    | some e ↦ err (tagged (bytes "aes init: ") e)
    | none ↦ elim (c.update mode key input) [
      | err e ↦ err (tagged (bytes "aes update: ") e)
      | ok out ↦ elim (c.finalize mode key input) [
        | err e ↦ err (tagged (bytes "aes final: ") e)
        | ok rest ↦ ok (out ++ rest)
      ]
    ]
  ]

  -- `MoonlightIdentity::certificate` and `private_key`.
  abbrev pub certificate : MoonlightIdentity → Result Fail Cert
  certificate identity =
      map_err (tagged (bytes "bad client cert PEM: ")) (c.cert_from_pem identity.cert_pem)

  abbrev pub private_key : MoonlightIdentity → Result Fail Key
  private_key identity =
      map_err (tagged (bytes "bad client key PEM: ")) (c.key_from_pem identity.key_pem)

  unfoldable pub derive_aes_key : List ℕ → Text → List ℕ
  derive_aes_key salt pin = take 16 (c.sha256 (salt ++ pin))

  -- One phase: the id, a fresh uuid and the parameters of the phase.
  unfoldable pub pair_req : MoonlightIdentity → Text → ℕ → List (Text × Text) → M W Text
  pair_req identity host http_port params = do
    uuid ← new_uuid net
    let q = (bytes "uniqueid", identity.unique_id) ∷ (bytes "uuid", uuid) ∷ params
    λ w. checked (bytes "pair") (bytes "pair phase") (net.get none (pair_url host http_port q) w)

  -- A hex field of a reply.
  pub hex_tag : Text → Text → Text → M W (List ℕ)
  hex_tag b tag missing = do t ← lift (ok_or (xml_tag b tag) (error missing)); lift (from_hex t)

  -- Phase 1: the host's certificate, once the user has typed the PIN.
  unfoldable pub get_server_cert : MoonlightIdentity → Text → ℕ → List ℕ → M W Cert
  unfolding hex_tag
  get_server_cert identity host http_port salt = do
    b ← pair_req identity host http_port (
        (bytes "devicename", bytes "tempest")
        ∷ (bytes "updateState", bytes "1")
        ∷ (bytes "phrase", bytes "getservercert")
        ∷ (bytes "salt", to_hex salt)
        ∷ (bytes "clientcert", cert_hex identity)
        ∷ [])
    if is_paired_reply b
        then (do
          pem ← hex_tag b (bytes "plaincert") (bytes "phase 1: no plaincert")
          lift (map_err (tagged (bytes "bad server cert: ")) (c.cert_from_pem pem)))
        else fail (bytes "phase 1: host declined pairing (paired != 1)")

  -- Phase 2: our challenge under the key; the host's digest and its own challenge come back.
  unfoldable pub client_challenge :
      MoonlightIdentity → Text → ℕ → List ℕ → List ℕ → M W (List ℕ × List ℕ)
  unfolding hex_tag
  client_challenge identity host http_port aes_key challenge = do
    enc ← lift (aes_ecb encrypt aes_key challenge)
    b ← pair_req identity host http_port ((bytes "clientchallenge", to_hex enc) ∷ [])
    raw ← hex_tag b (bytes "challengeresponse") (bytes "phase 2: no challengeresponse")
    resp ← lift (aes_ecb decrypt aes_key raw)
    if ltb (length resp) 48
        then fail (bytes "phase 2: short challenge response")
        else pure (slice resp 0 32, slice resp 32 48)

  -- Phase 3: the hash of the host's challenge, our certificate's signature and our secret; the
  -- host's secret and its signature come back.
  unfoldable pub server_challenge_resp :
      MoonlightIdentity → Text → ℕ → List ℕ → List ℕ → List ℕ → List ℕ → M W (List ℕ × List ℕ)
  unfolding hex_tag
  server_challenge_resp identity host http_port aes_key server_challenge cert_sig client_secret = do
    enc ←
        lift (aes_ecb encrypt aes_key (c.sha256 (server_challenge ++ (cert_sig ++ client_secret))))
    b ← pair_req identity host http_port ((bytes "serverchallengeresp", to_hex enc) ∷ [])
    secret ← hex_tag b (bytes "pairingsecret") (bytes "phase 3: no pairingsecret")
    if ltb (length secret) (16 + 256)
        then fail (bytes "phase 3: short pairing secret")
        else pure (slice secret 0 16, slice secret 16 (16 + 256))

  -- The host's two proofs: its digest shows the PIN, its signature the certificate.
  unfoldable pub check_server : Cert → List ℕ → List ℕ → List ℕ → List ℕ → Result Fail (Unit {0})
  check_server cert challenge response secret signature =
      if text_eq (c.sha256 (challenge ++ (c.signature cert ++ secret))) response
      then elim (c.public_key cert) [
        | err e ↦ err (tagged (bytes "server pubkey: ") e)
        | ok key ↦ elim (c.verify key secret signature) [
          | err e ↦ err (error e)
          | ok true ↦ ok tt
          | ok false ↦ err (error (bytes "pairing failed: bad server signature"))
        ]
      ]
      else err (error (bytes "pairing failed: wrong PIN (server response mismatch)"))

  -- Phase 4: our secret and our signature of it.
  unfoldable pub client_pairing_secret : MoonlightIdentity → Text → ℕ → List ℕ → M W (Unit {0})
  client_pairing_secret identity host http_port client_secret = do
    key ← lift (private_key identity)
    sig ← lift (map_err error (c.sign key client_secret))
    b ←
        pair_req identity host http_port
          ((bytes "clientpairingsecret", to_hex (client_secret ++ sig)) ∷ [])
    if is_paired_reply b
        then pure tt
        else fail (bytes "phase 4: host rejected client pairing secret")

  unfoldable pub pair : MoonlightIdentity → Text → ℕ → List ℕ → List ℕ → M W (Unit {0})
  pair identity host http_port salt aes_key = do
    cert ← get_server_cert identity host http_port salt
    challenge ← rand16 net
    (response, server_challenge) ← client_challenge identity host http_port aes_key challenge
    own ← lift (certificate identity)
    client_secret ← rand16 net
    (secret, signature) ←
        server_challenge_resp identity host http_port aes_key server_challenge (c.signature own)
          client_secret
    lift (check_server cert challenge response secret signature)
    client_pairing_secret identity host http_port client_secret
