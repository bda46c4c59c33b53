-- ===== src/Nvhttp/Pairing/Greeting.antt =====
-- Phases 1 and 2 of `PairingClient::pair` of crates/moonlight-core/src/nvhttp.rs, each as what the two sides
-- sent and computed when it succeeded.
use mathlib.Core.Path.{subst}
use tempest_addon_moonlight.Base.{
  ℕ, ◌≡◌, refl, ap, ◌≤◌, false, List, [], ◌∷◌, Text, bytes, arith, ltb, length, take, drop, Result,
  ok, Fail,
}
use tempest_addon_moonlight.Identity.{MoonlightIdentity, cert_hex}
use tempest_addon_moonlight.Nvhttp.Hex.{to_hex}
use tempest_addon_moonlight.Nvhttp.Xml.{is_paired_reply}
use tempest_addon_moonlight.Nvhttp.Net.{Net, next-ok, lift-ok}
use tempest_addon_moonlight.Nvhttp.Pairing.{
  encrypt, decrypt, Crypto, tagged, aes_ecb, pair_req, get_server_cert, client_challenge,
}
use tempest_addon_moonlight.Nvhttp.Pairing.Sent.{
  Paired, Field, Sent, Ciphered, is_paired_reply-Paired, Paired-is_paired_reply, map_err-ok, if-ok,
  if_not-ok, pair_req-Sent, Sent-pair_req, hex_tag-next, Field-hex_tag, aes_ecb-Ciphered,
  Ciphered-aes_ecb,
}

pub pure-eq :
    {W A : Type 0} {w w' : W} {a b : A}
    → ◌≡◌ {A = W × Result Fail A} (w, ok a) (w', ok b)
    → (w ≡ w') × (b ≡ a)
pure-eq h = (ap (λ p. p.0) h, cc)

pub long-le : (n m : ℕ) → ltb n m ≡ false → m ≤ n
long-le n m h = ground arith

pub le-long : (n m : ℕ) → m ≤ n → ltb n m ≡ false
le-long n m h = ground arith

-- The parameters of the first request.
abbrev greeting : MoonlightIdentity → List ℕ → List (Text × Text)
greeting identity salt =
    (bytes "devicename", bytes "tempest")
    ∷ (bytes "updateState", bytes "1")
    ∷ (bytes "phrase", bytes "getservercert")
    ∷ (bytes "salt", to_hex salt)
    ∷ (bytes "clientcert", to_hex identity.cert_pem)
    ∷ []

module _ {W Cert Key : Type 0} (net : Net W) (c : Crypto Cert Key) (identity : MoonlightIdentity)
    (host : Text) (http_port : ℕ) where
  -- Phase 1: we send the salt and our certificate; the host accepts and sends its own.
  pub record Greeted (salt : List ℕ) (w w' : W) (cert : Cert) : Type 0 where
    pub reply : Text
    pub pem : List ℕ
    pub sent : Sent net c identity host http_port (greeting identity salt) w w' reply
    pub paired : Paired reply
    pub plaincert : Field reply (bytes "plaincert") pem
    pub parsed : c.cert_from_pem pem ≡ ok cert

  -- Phase 2: we send our challenge under the key; under the key the host answers with 32 bytes of a digest and 16
  -- of its own challenge.
  pub record Challenged (aes_key challenge : List ℕ) (w w' : W) (response server_challenge : List ℕ)
      : Type 0 where
    pub enc : List ℕ
    pub reply : Text
    pub raw : List ℕ
    pub resp : List ℕ
    pub encrypted : Ciphered net c identity host http_port encrypt aes_key challenge enc
    pub sent :
        Sent net c identity host http_port ((bytes "clientchallenge", to_hex enc) ∷ []) w w' reply
    pub field : Field reply (bytes "challengeresponse") raw
    pub decrypted : Ciphered net c identity host http_port decrypt aes_key raw resp
    pub long : 48 ≤ length resp
    pub digest : response ≡ take 32 resp
    pub rest : server_challenge ≡ take 16 (drop 32 resp)

  pub get_server_cert-Greeted :
      (salt : List ℕ) (w w' : W) (cert : Cert)
      → get_server_cert net c identity host http_port salt w ≡ (w', ok cert)
      → Greeted salt w w' cert
  unfolding get_server_cert cert_hex
  get_server_cert-Greeted salt w w' cert h =
      let (b, w1, e1, h1) =
        next-ok (pair_req net c identity host http_port (greeting identity salt) w) _ w' cert h in
      let (said, h2) = if-ok (is_paired_reply b) _ _ w1 w' cert h1 in
      let (pem, field, h3) = hex_tag-next net c identity host http_port b _ _ w1 _ w' cert h2 in
      record {
        reply = b;
        pem = pem;
        sent =
            subst (λ v. Sent net c identity host http_port (greeting identity salt) w v b)
              (ap (λ p. p.0) h3)
              (pair_req-Sent net c identity host http_port (greeting identity salt) w w1 b e1);
        paired = is_paired_reply-Paired b said;
        plaincert = field;
        parsed =
            map_err-ok (tagged (bytes "bad server cert: ")) (c.cert_from_pem pem) cert
              (ap (λ p. p.1) h3);
      }

  pub Greeted-get_server_cert :
      (salt : List ℕ) (w w' : W) (cert : Cert)
      → Greeted salt w w' cert
      → get_server_cert net c identity host http_port salt w ≡ (w', ok cert)
  unfolding get_server_cert cert_hex
  Greeted-get_server_cert salt w w' cert r =
      rw
        (
          Sent-pair_req net c identity host http_port (greeting identity salt) w w' r.reply r.sent,
          Paired-is_paired_reply r.reply r.paired,
          Field-hex_tag net c identity host http_port r.reply (bytes "plaincert")
              (bytes "phase 1: no plaincert") r.pem w' r.plaincert,
          r.parsed,
        )
        refl

  pub client_challenge-Challenged :
      (aes_key challenge : List ℕ) (w w' : W) (response server_challenge : List ℕ)
      → client_challenge net c identity host http_port aes_key challenge w
        ≡ (w', ok (response, server_challenge))
      → Challenged aes_key challenge w w' response server_challenge
  unfolding client_challenge
  client_challenge-Challenged aes_key challenge w w' response server_challenge h =
      let out : List ℕ × List ℕ = (response, server_challenge) in
      let (enc, e0, h0) = lift-ok w (aes_ecb net c encrypt aes_key challenge) _ w' out h in
      let (b, w1, e1, h1) =
        next-ok
          (pair_req net c identity host http_port ((bytes "clientchallenge", to_hex enc) ∷ []) w) _
          w' out h0 in
      let (raw, field, h2) = hex_tag-next net c identity host http_port b _ _ w1 _ w' out h1 in
      let (resp, e3, h3) = lift-ok w1 (aes_ecb net c decrypt aes_key raw) _ w' out h2 in
      let (short, h4) = if_not-ok (ltb (length resp) 48) _ _ w1 w' out h3 in
      let (same, parts) = pure-eq h4 in
      record {
        enc = enc;
        reply = b;
        raw = raw;
        resp = resp;
        encrypted = aes_ecb-Ciphered net c identity host http_port encrypt aes_key challenge enc e0;
        sent =
            subst
              (λ v.
                Sent net c identity host http_port ((bytes "clientchallenge", to_hex enc) ∷ []) w v
                  b)
              same
              (pair_req-Sent net c identity host http_port
                ((bytes "clientchallenge", to_hex enc) ∷ []) w w1 b e1);
        field = field;
        decrypted = aes_ecb-Ciphered net c identity host http_port decrypt aes_key raw resp e3;
        long = long-le (length resp) 48 short;
        digest = ap (λ p. p.0) parts;
        rest = ap (λ p. p.1) parts;
      }

  pub Challenged-client_challenge :
      (aes_key challenge : List ℕ) (w w' : W) (response server_challenge : List ℕ)
      → Challenged aes_key challenge w w' response server_challenge
      → client_challenge net c identity host http_port aes_key challenge w
        ≡ (w', ok (response, server_challenge))
  unfolding client_challenge
  Challenged-client_challenge aes_key challenge w w' response server_challenge r =
      rw
        (
          Ciphered-aes_ecb net c identity host http_port encrypt aes_key challenge r.enc
              r.encrypted,
          Sent-pair_req net c identity host http_port ((bytes "clientchallenge", to_hex r.enc) ∷ [])
              w w' r.reply r.sent,
          Field-hex_tag net c identity host http_port r.reply (bytes "challengeresponse")
              (bytes "phase 2: no challengeresponse") r.raw w' r.field,
          Ciphered-aes_ecb net c identity host http_port decrypt aes_key r.raw r.resp r.decrypted,
          le-long (length r.resp) 48 r.long,
          r.digest,
          r.rest,
        )
        refl
