-- ===== src/Nvhttp/Pairing/Secrets.antt =====
-- Phases 3 and 4 of `PairingClient::pair` of crates/moonlight-core/src/nvhttp.rs, each as what the two sides
-- sent and computed when it succeeded.
use mathlib.Core.Path.{subst}
use tempest_addon_moonlight.Base.{
  ℕ, ◌≡◌, refl, ap, ◌≤◌, List, [], ◌∷◌, ◌++◌, Text, bytes, ltb, length, take, drop, ok, error,
  map_err,
}
use tempest_addon_moonlight.Identity.{MoonlightIdentity}
use tempest_addon_moonlight.Nvhttp.Hex.{to_hex}
use tempest_addon_moonlight.Nvhttp.Xml.{is_paired_reply}
use tempest_addon_moonlight.Nvhttp.Net.{Net, next-ok, lift-ok}
use tempest_addon_moonlight.Nvhttp.Pairing.{
  encrypt, Crypto, tagged, aes_ecb, pair_req, server_challenge_resp, client_pairing_secret,
}
use tempest_addon_moonlight.Nvhttp.Pairing.Sent.{
  Paired, Field, Sent, Ciphered, is_paired_reply-Paired, Paired-is_paired_reply, map_err-ok, if-ok,
  if_not-ok, pair_req-Sent, Sent-pair_req, hex_tag-next, Field-hex_tag, aes_ecb-Ciphered,
  Ciphered-aes_ecb,
}
use tempest_addon_moonlight.Nvhttp.Pairing.Greeting.{pure-eq, long-le, le-long}

module _ {W Cert Key : Type 0} (net : Net W) (c : Crypto Cert Key) (identity : MoonlightIdentity)
    (host : Text) (http_port : ℕ) where
  -- Phase 3: we send under the key the hash of the host's challenge, the signature of our certificate and our secret;
  -- the host reveals 16 bytes of its secret and 256 of a signature.
  pub record Revealed (aes_key server_challenge cert_sig client_secret : List ℕ) (w w' : W)
      (secret signature : List ℕ) : Type 0 where
    pub enc : List ℕ
    pub reply : Text
    pub both : List ℕ
    pub encrypted :
        Ciphered net c identity host http_port encrypt aes_key
          (c.sha256 (server_challenge ++ (cert_sig ++ client_secret)))
          enc
    pub sent :
        Sent net c identity host http_port
          ((bytes "serverchallengeresp", to_hex enc) ∷ [])
          w
          w'
          reply
    pub field : Field reply (bytes "pairingsecret") both
    pub long : 272 ≤ length both
    pub first : secret ≡ take 16 both
    pub then_signature : signature ≡ take 256 (drop 16 both)

  -- Phase 4: we send our secret and our key's signature of it; the host accepts them.
  pub record Confirmed (client_secret : List ℕ) (w w' : W) : Type 0 where
    pub key : Key
    pub sig : List ℕ
    pub reply : Text
    pub own_key : c.key_from_pem identity.key_pem ≡ ok key
    pub signed : c.sign key client_secret ≡ ok sig
    pub sent :
        Sent net c identity host http_port
          ((bytes "clientpairingsecret", to_hex (client_secret ++ sig)) ∷ [])
          w
          w'
          reply
    pub paired : Paired reply

  pub server_challenge_resp-Revealed :
      (aes_key server_challenge cert_sig client_secret : List ℕ) (w w' : W)
      (secret signature : List ℕ)
      → server_challenge_resp net c identity host http_port aes_key server_challenge cert_sig
          client_secret w
        ≡ (w', ok (secret, signature))
      → Revealed aes_key server_challenge cert_sig client_secret w w' secret signature
  unfolding server_challenge_resp
  server_challenge_resp-Revealed aes_key server_challenge cert_sig client_secret w w' secret
        signature h =
      let out : List ℕ × List ℕ = (secret, signature) in
      let hash = c.sha256 (server_challenge ++ (cert_sig ++ client_secret)) in
      let (enc, e0, h0) = lift-ok w (aes_ecb net c encrypt aes_key hash) _ w' out h in
      let (b, w1, e1, h1) =
        next-ok
          (pair_req net c identity host http_port ((bytes "serverchallengeresp", to_hex enc) ∷ [])
            w)
          _ w' out h0 in
      let (both, field, h2) = hex_tag-next net c identity host http_port b _ _ w1 _ w' out h1 in
      let (short, h4) = if_not-ok (ltb (length both) 272) _ _ w1 w' out h2 in
      let (same, parts) = pure-eq h4 in
      record {
        enc = enc;
        reply = b;
        both = both;
        encrypted = aes_ecb-Ciphered net c identity host http_port encrypt aes_key hash enc e0;
        sent =
            subst
              (λ v.
                Sent net c identity host http_port ((bytes "serverchallengeresp", to_hex enc) ∷ [])
                  w v b)
              same
              (pair_req-Sent net c identity host http_port
                ((bytes "serverchallengeresp", to_hex enc) ∷ []) w w1 b e1);
        field = field;
        long = long-le (length both) 272 short;
        first = ap (λ p. p.0) parts;
        then_signature = ap (λ p. p.1) parts;
      }

  pub Revealed-server_challenge_resp :
      (aes_key server_challenge cert_sig client_secret : List ℕ) (w w' : W)
      (secret signature : List ℕ)
      → Revealed aes_key server_challenge cert_sig client_secret w w' secret signature
      → server_challenge_resp net c identity host http_port aes_key server_challenge cert_sig
          client_secret w
        ≡ (w', ok (secret, signature))
  unfolding server_challenge_resp
  Revealed-server_challenge_resp aes_key server_challenge cert_sig client_secret w w' secret
        signature r =
      rw
        (
          Ciphered-aes_ecb net c identity host http_port encrypt aes_key
              (c.sha256 (server_challenge ++ (cert_sig ++ client_secret))) r.enc r.encrypted,
          Sent-pair_req net c identity host http_port
              ((bytes "serverchallengeresp", to_hex r.enc) ∷ []) w w' r.reply r.sent,
          Field-hex_tag net c identity host http_port r.reply (bytes "pairingsecret")
              (bytes "phase 3: no pairingsecret") r.both w' r.field,
          le-long (length r.both) 272 r.long,
          r.first,
          r.then_signature,
        )
        refl

  pub client_pairing_secret-Confirmed :
      (client_secret : List ℕ) (w w' : W)
      → client_pairing_secret net c identity host http_port client_secret w ≡ (w', ok tt)
      → Confirmed client_secret w w'
  unfolding client_pairing_secret
  client_pairing_secret-Confirmed client_secret w w' h =
      let (key, e0, h0) =
        lift-ok w
          (map_err (tagged (bytes "bad client key PEM: ")) (c.key_from_pem identity.key_pem)) _ w'
          tt h in
      let (sig, e1, h1) = lift-ok w (map_err error (c.sign key client_secret)) _ w' tt h0 in
      let (b, w1, e2, h2) =
        next-ok
          (pair_req net c identity host http_port
            ((bytes "clientpairingsecret", to_hex (client_secret ++ sig)) ∷ []) w)
          _ w' tt h1 in
      let (said, h3) = if-ok (is_paired_reply b) _ _ w1 w' tt h2 in
      record {
        key = key;
        sig = sig;
        reply = b;
        own_key =
            map_err-ok (tagged (bytes "bad client key PEM: ")) (c.key_from_pem identity.key_pem) key
              e0;
        signed = map_err-ok error (c.sign key client_secret) sig e1;
        sent =
            subst
              (λ v.
                Sent net c identity host http_port
                  ((bytes "clientpairingsecret", to_hex (client_secret ++ sig)) ∷ []) w v b)
              (ap (λ p. p.0) h3)
              (pair_req-Sent net c identity host http_port
                ((bytes "clientpairingsecret", to_hex (client_secret ++ sig)) ∷ []) w w1 b e2);
        paired = is_paired_reply-Paired b said;
      }

  pub Confirmed-client_pairing_secret :
      (client_secret : List ℕ) (w w' : W)
      → Confirmed client_secret w w'
      → client_pairing_secret net c identity host http_port client_secret w ≡ (w', ok tt)
  unfolding client_pairing_secret
  Confirmed-client_pairing_secret client_secret w w' r =
      rw
        (
          r.own_key,
          r.signed,
          Sent-pair_req net c identity host http_port
              ((bytes "clientpairingsecret", to_hex (client_secret ++ r.sig)) ∷ []) w w' r.reply
              r.sent,
          Paired-is_paired_reply r.reply r.paired,
        )
        refl
