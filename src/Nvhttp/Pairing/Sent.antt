-- ===== src/Nvhttp/Pairing/Sent.antt =====
-- What the steps of `PairingClient` of crates/moonlight-core/src/nvhttp.rs send and read, each written
-- out from the calls of the network and of OpenSSL.
use tempest_addon_moonlight.Base.{
  ℕ, ◌≡◌, refl, sym, ap, ◌∙◌, Bool, true, arith, false, Option, none, some, List, [], ◌∷◌, ◌++◌,
  append-nil, Text, bytes, decimal, text_eq, text_eq_refl, text_eq→eq, if◌then◌else◌, Result, ok,
  err, Fail, error, ok_or, map_err,
}
use tempest_addon_moonlight.Str.{contains, trim}
use tempest_addon_moonlight.Identity.{MoonlightIdentity}
use tempest_addon_moonlight.Nvhttp.Hex.{from_hex}
use tempest_addon_moonlight.Nvhttp.Xml.{xml_tag, is_paired_reply, is_status_200}
use tempest_addon_moonlight.Nvhttp.Net.{
  M, Net, Reply, send_failed, read_failed, body, next, next-ok, lift-ok, fail,
}
use tempest_addon_moonlight.Nvhttp.Requests.{checked, new_uuid, rand16, after_rand16}
use tempest_addon_moonlight.Nvhttp.Pairing.{
  Mode, Crypto, tagged, pair_url, query_string, aes_ecb, pair_req, hex_tag,
}

-- The reply says `<paired>1</paired>`.
abbrev pub Paired : Text → Type 0
Paired b = (t : Text) × (xml_tag b (bytes "paired") ≡ some t) × (trim t ≡ bytes "1")

-- A tag of the reply holds these bytes in hex.
abbrev pub Field : Text → Text → List ℕ → Type 0
Field b tag bs = (t : Text) × (xml_tag b tag ≡ some t) × (from_hex t ≡ ok bs)

one_of :
    (o : Option Text)
    → elim o [ none ↦ false | some t ↦ text_eq (trim t) (bytes "1") ] ≡ true
    → (t : Text) × (o ≡ some t) × (trim t ≡ bytes "1")
one_of none h = cc
one_of (some t) h = (t, refl, text_eq→eq (trim t) (bytes "1") h)

pub is_paired_reply-Paired : (b : Text) → is_paired_reply b ≡ true → Paired b
unfolding is_paired_reply
is_paired_reply-Paired b h = one_of (xml_tag b (bytes "paired")) h

pub Paired-is_paired_reply : (b : Text) → Paired b → is_paired_reply b ≡ true
unfolding is_paired_reply
Paired-is_paired_reply b (t, e, one) = rw (e, one, is_paired_reply) (text_eq_refl (bytes "1"))

pub map_err-ok :
    {A E F : Type 0} (f : E → F) (r : Result E A) (a : A) → map_err f r ≡ ok a → r ≡ ok a
map_err-ok f (ok b) a h = cc
map_err-ok f (err e) a h = cc

ok_or-ok : {A E : Type 0} (o : Option A) (e : E) (a : A) → ok_or o e ≡ ok a → o ≡ some a
ok_or-ok none e a h = cc
ok_or-ok (some b) e a h = cc

pub if-ok :
    {W A : Type 0} (t : Bool) (m : M W A) (e : Text) (w w' : W) (a : A)
    → (if t then m else fail e) w ≡ (w', ok a)
    → (t ≡ true) × (m w ≡ (w', ok a))
if-ok true m e w w' a h = (refl, h)
if-ok false m e w w' a h = cc

pub if_not-ok :
    {W A : Type 0} (t : Bool) (m : M W A) (e : Text) (w w' : W) (a : A)
    → (if t then fail e else m) w ≡ (w', ok a)
    → (t ≡ false) × (m w ≡ (w', ok a))
if_not-ok true m e w w' a h = cc
if_not-ok false m e w w' a h = (refl, h)

twice-ok :
    {W A B C : Type 0} (w : W) (r : Result Fail A) (f : A → Result Fail B) (k : B → M W C) (w' : W)
    (c : C)
    → next (next (w, r) (λ a v. (v, f a))) k ≡ (w', ok c)
    → (a : A) × (r ≡ ok a) × (b : B) × (f a ≡ ok b) × (k b w ≡ (w', ok c))
twice-ok w (ok a) f k w' c h = let (b, e, h') = lift-ok w (f a) k w' c h in (a, refl, b, e, h')
twice-ok w (err x) f k w' c h = cc

-- The text of a request as it goes over the wire.
parameters_text : List (Text × Text) → Text
parameters_text [] = []
parameters_text ((k, v) ∷ ps) = b'&' ∷ (k ++ (b'=' ∷ (v ++ parameters_text ps)))

unfoldable pub pair_text : Text → ℕ → Text → Text → List (Text × Text) → Text
unfolding parameters_text
pair_text host port id uuid ps =
    bytes "http://"
    ++ (host
        ++ (b':'
            ∷ (decimal port
                ++ (bytes "/pair?uniqueid="
                    ++ (id ++ (bytes "&uuid=" ++ (uuid ++ parameters_text ps)))))))

query_string-text :
    (k v : Text) (ps : List (Text × Text))
    → query_string ((k, v) ∷ ps) ≡ k ++ (b'=' ∷ (v ++ parameters_text ps))
unfolding query_string parameters_text
query_string-text k v [] = ap (λ t. k ++ (b'=' ∷ t)) (sym (append-nil v))
query_string-text k v ((l, x) ∷ ps) =
    ap (λ t. k ++ (b'=' ∷ (v ++ (b'&' ∷ t)))) (query_string-text l x ps)

pair_url-text :
    (host : Text) (port : ℕ) (id uuid : Text) (ps : List (Text × Text))
    → pair_url host port ((bytes "uniqueid", id) ∷ (bytes "uuid", uuid) ∷ ps)
      ≡ pair_text host port id uuid ps
unfolding pair_url pair_text query_string bytes
pair_url-text host port id uuid ps =
    ap
      (λ t.
        bytes "http://"
        ++ (host ++ (b':' ∷ (decimal port ++ (bytes "/pair?uniqueid=" ++ (id ++ (b'&' ∷ t)))))))
      (query_string-text (bytes "uuid") uuid ps)

status-ok :
    {W : Type 0} (t : Bool) (w w' : W) (x b : Text) (e : Fail)
    → ◌≡◌ {A = W × Result Fail Text} (w, if t then ok x else err e) (w', ok b)
    → (◌≡◌ {A = W × Reply} (w, body x) (w', body b)) × (t ≡ true) × (x ≡ b)
status-ok true w w' x b e h = grind arith
status-ok false w w' x b e h = cc

checked-ok :
    {W : Type 0} (name refused : Text) (p : W × Reply) (w' : W) (b : Text)
    → checked name refused p ≡ (w', ok b)
    → (p ≡ (w', body b)) × (is_status_200 b ≡ true)
unfolding checked
checked-ok name refused (w, send_failed e) w' b h = cc
checked-ok name refused (w, read_failed e) w' b h = cc
checked-ok name refused (w, body x) w' b h =
    let (same, fine, text) = status-ok (is_status_200 x) w w' x b _ h in
    (same, sym (ap is_status_200 text) ∙ fine)

ok-checked :
    {W : Type 0} (name refused : Text) (w : W) (b : Text)
    → is_status_200 b ≡ true
    → checked name refused (w, body b) ≡ (w, ok b)
unfolding checked
ok-checked name refused w b h = rw h refl

rand-ok :
    {W : Type 0} (p : W × List ℕ × Option Text) (w' : W) (bs : List ℕ)
    → after_rand16 p ≡ (w', ok bs)
    → p ≡ (w', bs, none)
unfolding after_rand16
rand-ok (w, b, none) w' bs h = grind arith
rand-ok (w, b, some e) w' bs h = cc

pub rand16-ok :
    {W : Type 0} (net : Net W) (w w' : W) (bs : List ℕ)
    → rand16 net w ≡ (w', ok bs)
    → net.rand_bytes 16 w ≡ (w', bs, none)
unfolding rand16
rand16-ok net w w' bs h = rand-ok (net.rand_bytes 16 w) w' bs h

pub ok-rand16 :
    {W : Type 0} (net : Net W) (w w' : W) (bs : List ℕ)
    → net.rand_bytes 16 w ≡ (w', bs, none)
    → rand16 net w ≡ (w', ok bs)
unfolding rand16 after_rand16
ok-rand16 net w w' bs h = ap after_rand16 h

cipher-ok :
    (bad : Option Text) (u f : Result Text (List ℕ)) (output : List ℕ)
    → ◌≡◌ {A = Result Fail (List ℕ)}
        (elim bad [
          | some e ↦ err (tagged (bytes "aes init: ") e)
          | none ↦ elim u [
            | err e ↦ err (tagged (bytes "aes update: ") e)
            | ok out ↦ elim f [
              | err e ↦ err (tagged (bytes "aes final: ") e)
              | ok rest ↦ ok (out ++ rest)
            ]
          ]
        ])
        (ok output)
    → (out : List ℕ) × (rest : List ℕ) × (bad ≡ none)
      × (u ≡ ok out)
      × (f ≡ ok rest)
      × (output ≡ out ++ rest)
cipher-ok (some e) u f output h = cc
cipher-ok none (err e) f output h = cc
cipher-ok none (ok out) (err e) output h = cc
cipher-ok none (ok out) (ok rest) output h = (out, rest, refl, refl, refl, cc)

module _ {W Cert Key : Type 0} (net : Net W) (c : Crypto Cert Key) (identity : MoonlightIdentity)
    (host : Text) (http_port : ℕ) where
  -- One request of the handshake: under a fresh uuid the parameters go to the host, which answers with `b`.
  abbrev pub Sent : List (Text × Text) → W → W → Text → Type 0
  Sent ps w w' b =
      (uuid : Text) × (w1 : W) × (new_uuid net w ≡ (w1, ok uuid))
      × (net.get none (pair_text host http_port identity.unique_id uuid ps) w1 ≡ (w', body b))
      × (contains b (bytes "status_code=\"200\"") ≡ true)

  pub pair_req-Sent :
      (ps : List (Text × Text)) (w w' : W) (b : Text)
      → pair_req net c identity host http_port ps w ≡ (w', ok b)
      → Sent ps w w' b
  unfolding pair_req is_status_200
  pair_req-Sent ps w w' b h =
      let (uuid, w1, e, h1) = next-ok (new_uuid net w) _ w' b h in
      let (got, fine) = checked-ok (bytes "pair") (bytes "pair phase") _ w' b h1 in
      (
        uuid,
        w1,
        e,
        sym (ap (λ u. net.get none u w1) (pair_url-text host http_port identity.unique_id uuid ps))
            ∙ got,
        fine,
      )

  pub Sent-pair_req :
      (ps : List (Text × Text)) (w w' : W) (b : Text)
      → Sent ps w w' b
      → pair_req net c identity host http_port ps w ≡ (w', ok b)
  unfolding pair_req is_status_200
  Sent-pair_req ps w w' b (uuid, w1, e, got, fine) = rw e (
      ap (checked (bytes "pair") (bytes "pair phase")) (
        ap (λ u. net.get none u w1) (pair_url-text host http_port identity.unique_id uuid ps) ∙ got)
      ∙ ok-checked (bytes "pair") (bytes "pair phase") w' b fine)

  pub hex_tag-next :
      {C : Type 0} (b tag missing : Text) (w : W) (k : List ℕ → M W C) (w' : W) (x : C)
      → next (hex_tag net c b tag missing w) k ≡ (w', ok x)
      → (bs : List ℕ) × Field b tag bs × (k bs w ≡ (w', ok x))
  unfolding hex_tag
  hex_tag-next b tag missing w k w' x h =
      let (t, e, bs, f, h') =
        twice-ok w (ok_or (xml_tag b tag) (error missing)) from_hex k w' x h in
      (bs, (t, ok_or-ok (xml_tag b tag) _ t e, f), h')

  pub Field-hex_tag :
      (b tag missing : Text) (bs : List ℕ) (w : W)
      → Field b tag bs
      → hex_tag net c b tag missing w ≡ (w, ok bs)
  unfolding hex_tag
  Field-hex_tag b tag missing bs w (t, e, f) = rw (e, f, hex_tag) refl

  -- The cipher without padding takes the input to the output: what its update and its end give.
  abbrev pub Ciphered : Mode → List ℕ → List ℕ → List ℕ → Type 0
  Ciphered mode key input output =
      (out : List ℕ) × (rest : List ℕ) × (c.bad_key mode key ≡ none)
      × (c.update mode key input ≡ ok out)
      × (c.finalize mode key input ≡ ok rest)
      × (output ≡ out ++ rest)

  pub aes_ecb-Ciphered :
      (mode : Mode) (key input output : List ℕ)
      → aes_ecb net c mode key input ≡ ok output
      → Ciphered mode key input output
  unfolding aes_ecb
  aes_ecb-Ciphered mode key input output h =
      cipher-ok (c.bad_key mode key) (c.update mode key input) (c.finalize mode key input) output h

  pub Ciphered-aes_ecb :
      (mode : Mode) (key input output : List ℕ)
      → Ciphered mode key input output
      → aes_ecb net c mode key input ≡ ok output
  unfolding aes_ecb
  Ciphered-aes_ecb mode key input output (out, rest, k, u, f, e) = rw (k, u, f, e, aes_ecb) refl
