-- ===== src/Nvhttp/Pairing/Handshake.antt =====
-- When `PairingClient::pair` of crates/moonlight-core/src/nvhttp.rs succeeds.
use tempest_addon_moonlight.Base.{
  ℕ, ◌≡◌, refl, none, true, false, List, ◌++◌, Text, bytes, text_eq, text_eq_refl, text_eq→eq, ok,
  map_err, Bool-cases, Result-cases, inl, inr,
}
use tempest_addon_moonlight.Identity.{MoonlightIdentity}
use tempest_addon_moonlight.Nvhttp.Net.{Net, next-ok, lift-ok}
use tempest_addon_moonlight.Nvhttp.Requests.{rand16}
use tempest_addon_moonlight.Nvhttp.Pairing.Sent.{map_err-ok, rand16-ok, ok-rand16}
use tempest_addon_moonlight.Nvhttp.Pairing.Greeting.{
  Greeted, Challenged, get_server_cert-Greeted, Greeted-get_server_cert,
  client_challenge-Challenged, Challenged-client_challenge,
}
use tempest_addon_moonlight.Nvhttp.Pairing.Secrets.{
  Revealed, Confirmed, server_challenge_resp-Revealed, Revealed-server_challenge_resp,
  client_pairing_secret-Confirmed, Confirmed-client_pairing_secret,
}
use tempest_addon_moonlight.Nvhttp.Pairing.{
  Crypto, tagged, get_server_cert, client_challenge, server_challenge_resp, check_server, pair,
}

module _ {W Cert Key : Type 0} (net : Net W) (c : Crypto Cert Key) (identity : MoonlightIdentity)
    (host : Text) (http_port : ℕ) (salt aes_key : List ℕ) where
  -- What the client accepts as the host's proof: it knew the PIN, and it owns its certificate.
  abbrev pub IsProof : Cert → List ℕ → List ℕ → List ℕ → List ℕ → Type 0
  IsProof cert challenge response secret signature =
      (key : Key) × (c.sha256 (challenge ++ (c.signature cert ++ secret)) ≡ response)
      × (c.public_key cert ≡ ok key)
      × (c.verify key secret signature ≡ ok true)

  check_server-IsProof :
      (cert : Cert) (challenge response secret signature : List ℕ)
      → check_server net c cert challenge response secret signature ≡ ok tt
      → IsProof cert challenge response secret signature
  unfolding check_server
  check_server-IsProof cert challenge response secret signature h =
      elim (Bool-cases (text_eq (c.sha256 (challenge ++ (c.signature cert ++ secret))) response)) [
        | inl e ↦ elim (Result-cases (c.public_key cert)) [
          | inl (key, k) ↦ elim (Result-cases (c.verify key secret signature)) [
            | inl (true, v) ↦ (key, text_eq→eq _ _ e, k, v)
            | inl (false, v) ↦ cc
            | inr (x, v) ↦ cc
          ]
          | inr (x, k) ↦ cc
        ]
        | inr e ↦ cc
      ]

  IsProof-check_server :
      (cert : Cert) (challenge response secret signature : List ℕ)
      → IsProof cert challenge response secret signature
      → check_server net c cert challenge response secret signature ≡ ok tt
  unfolding check_server
  IsProof-check_server cert challenge response secret signature (key, e, k, v) =
      rw (e, text_eq_refl response, k, v) refl

  -- A whole handshake from `w` to `w'`: what the two sides drew, sent and computed, the host's proof, and our own
  -- secret accepted.
  pub record Handshake (w w' : W) : Type 0 where
    pub cert : Cert
    pub own : Cert
    pub challenge : List ℕ
    pub response : List ℕ
    pub server_challenge : List ℕ
    pub client_secret : List ℕ
    pub secret : List ℕ
    pub signature : List ℕ
    pub w1 : W
    pub w2 : W
    pub w3 : W
    pub w4 : W
    pub w5 : W
    pub greeted : Greeted net c identity host http_port salt w w1 cert
    pub drew_challenge : net.rand_bytes 16 w1 ≡ (w2, challenge, none)
    pub challenged :
        Challenged net c identity host http_port aes_key challenge w2 w3 response server_challenge
    pub own_cert : c.cert_from_pem identity.cert_pem ≡ ok own
    pub drew_secret : net.rand_bytes 16 w3 ≡ (w4, client_secret, none)
    pub revealed :
        Revealed net c identity host http_port aes_key server_challenge
          (c.signature own)
          client_secret
          w4
          w5
          secret
          signature
    pub proof : IsProof cert challenge response secret signature
    pub confirmed : Confirmed net c identity host http_port client_secret w5 w'

  pair-Handshake :
      (w w' : W) → pair net c identity host http_port salt aes_key w ≡ (w', ok tt) → Handshake w w'
  unfolding pair
  pair-Handshake w w' h =
      let (cert, w1, e1, h1) =
        next-ok (get_server_cert net c identity host http_port salt w) _ w' tt h in
      let (challenge, w2, e2, h2) = next-ok (rand16 net w1) _ w' tt h1 in
      let ((response, server_challenge), w3, e3, h3) =
        next-ok (client_challenge net c identity host http_port aes_key challenge w2) _ w' tt h2 in
      let (own, e4, h4) =
        lift-ok w3
          (map_err (tagged (bytes "bad client cert PEM: ")) (c.cert_from_pem identity.cert_pem)) _
          w' tt h3 in
      let (client_secret, w4, e5, h5) = next-ok (rand16 net w3) _ w' tt h4 in
      let ((secret, signature), w5, e6, h6) =
        next-ok
          (server_challenge_resp net c identity host http_port aes_key server_challenge
            (c.signature own) client_secret w4)
          _ w' tt h5 in
      let (u, e7, h7) =
        lift-ok w5 (check_server net c cert challenge response secret signature) _ w' tt h6 in
      record {
        cert = cert;
        own = own;
        challenge = challenge;
        response = response;
        server_challenge = server_challenge;
        client_secret = client_secret;
        secret = secret;
        signature = signature;
        w1 = w1;
        w2 = w2;
        w3 = w3;
        w4 = w4;
        w5 = w5;
        greeted = get_server_cert-Greeted net c identity host http_port salt w w1 cert e1;
        drew_challenge = rand16-ok net w1 w2 challenge e2;
        challenged =
            client_challenge-Challenged net c identity host http_port aes_key challenge w2 w3
              response server_challenge e3;
        own_cert =
            map_err-ok (tagged (bytes "bad client cert PEM: ")) (c.cert_from_pem identity.cert_pem)
              own e4;
        drew_secret = rand16-ok net w3 w4 client_secret e5;
        revealed =
            server_challenge_resp-Revealed net c identity host http_port aes_key server_challenge
              (c.signature own) client_secret w4 w5 secret signature e6;
        proof = check_server-IsProof cert challenge response secret signature e7;
        confirmed =
            client_pairing_secret-Confirmed net c identity host http_port client_secret w5 w' h7;
      }

  Handshake-pair :
      (w w' : W) → Handshake w w' → pair net c identity host http_port salt aes_key w ≡ (w', ok tt)
  unfolding pair
  Handshake-pair w w' h =
      rw
        (
          Greeted-get_server_cert net c identity host http_port salt w h.w1 h.cert h.greeted,
          ok-rand16 net h.w1 h.w2 h.challenge h.drew_challenge,
          Challenged-client_challenge net c identity host http_port aes_key h.challenge h.w2 h.w3
              h.response h.server_challenge h.challenged,
          h.own_cert,
          ok-rand16 net h.w3 h.w4 h.client_secret h.drew_secret,
          Revealed-server_challenge_resp net c identity host http_port aes_key h.server_challenge
              (c.signature h.own) h.client_secret h.w4 h.w5 h.secret h.signature h.revealed,
          IsProof-check_server h.cert h.challenge h.response h.secret h.signature h.proof,
        )
        (Confirmed-client_pairing_secret net c identity host http_port h.client_secret h.w5 w'
          h.confirmed)

  -- Pairing succeeds exactly when the two sides went through this transcript. Each request goes out under our id and a
  -- fresh uuid and is answered with the status 200: (1) we send the salt and our certificate, and the host says that it
  -- pairs and sends its certificate; (2) we send 16 random bytes under the key, and get under the key, in at least
  -- 48 bytes, a digest of 32 and a challenge of 16; (3) we send under the key the hash of that challenge, our
  -- certificate's signature and 16 random bytes, our secret, and get, in at least 272 bytes, 16 of the host's secret and
  -- 256 of a signature; the hash of our challenge, the signature of the host's certificate and its secret is the
  -- digest of (2), and its signature of the secret verifies under that certificate; (4) we send our secret and our
  -- key's signature of it, and the host says that it is paired.
  pub pair_iff :
      (w w' : W)
      → (pair net c identity host http_port salt aes_key w ≡ (w', ok tt) → Handshake w w')
        × (Handshake w w' → pair net c identity host http_port salt aes_key w ≡ (w', ok tt))
  pair_iff w w' = (pair-Handshake w w', Handshake-pair w w')
