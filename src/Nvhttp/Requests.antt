-- ===== src/Nvhttp/Requests.antt =====
-- The requests of crates/moonlight-core/src/nvhttp.rs but pairing: URLs, status checks and replies.
pub mod Launch
use tempest_addon_moonlight.Base.{
  ℕ, zero, suc, ◌%◌, ◌^◌, max, bit_and, bit_or, Option, none, some, List, [], ◌∷◌, ◌++◌, Text,
  bytes, decimal, replicate, get_or, be_bytes, from_be_bytes, if◌then◌else◌, Result, ok, err, Fail,
  error, Text,
}
use tempest_addon_moonlight.Identity.{MoonlightIdentity}
use tempest_addon_moonlight.Nvhttp.Hex.{to_hex, to_hex_lower}
use tempest_addon_moonlight.Nvhttp.Xml.{
  slice, ServerInfo, parse_server_info, HostApp, parse_app_list, launch_started, is_status_200,
}
use tempest_addon_moonlight.Nvhttp.Net.{
  Reply, send_failed, read_failed, body, Net, M, ◌>>=◌, pure, lift, fail,
}

abbrev set_byte : ℕ → ℕ → List ℕ → List ℕ
set_byte i v [] = []
set_byte zero v (b ∷ bs) = v ∷ bs
set_byte (suc i) v (b ∷ bs) = b ∷ set_byte i v bs

-- The text of `new_uuid` from its 16 random bytes.
unfoldable pub uuid_text : List ℕ → Text
uuid_text b0 =
    let b1 = set_byte 6 (bit_or (bit_and (get_or b0 6 0) 0x0f) 0x40) b0 in
    let b2 = set_byte 8 (bit_or (bit_and (get_or b1 8 0) 0x3f) 0x80) b1 in
    let h = to_hex_lower b2 in
    let dash : Text = b'-' ∷ [] in
    slice h 0 8
    ++ (dash
        ++ (slice h 8 12
            ++ (dash ++ (slice h 12 16 ++ (dash ++ (slice h 16 20 ++ (dash ++ slice h 20 32)))))))

pub record LaunchSession : Type 0 where
  pub aes_key : List ℕ
  pub aes_key_id : ℕ

-- The id is positive, so its bits as an `i32` are its bits as a natural number.
unfoldable pub aes_iv : LaunchSession → List ℕ
aes_iv s = be_bytes 4 s.aes_key_id ++ replicate 12 0

-- `(i32::from_be_bytes(idb) & 0x7fff_ffff).max(1)`; the mask keeps the low 31 bits.
unfoldable pub key_id : List ℕ → ℕ
key_id idb = max (from_be_bytes idb % 2 ^ 31) 1

unfoldable pub launch_url : Text → ℕ → Text → Text → ℕ → ℕ → ℕ → ℕ → LaunchSession → Text
launch_url host https_port uid uuid app_id width height fps s =
    bytes "https://"
    ++ (host
        ++ (b':'
            ∷ (decimal https_port
                ++ (bytes "/launch?uniqueid="
                    ++ (uid
                        ++ (bytes "&uuid="
                            ++ (uuid
                                ++ (bytes "&appid="
                                    ++ (decimal app_id
                                        ++ (bytes "&mode="
                                            ++ (decimal width
                                                ++ (b'x'
                                                    ∷ (decimal height
                                                        ++ (b'x'
                                                            ∷ (decimal fps
                                                            ++ (bytes
                                                            "&additionalStates=1&sops=0&rikey="
                                                            ++ (to_hex s.aes_key
                                                            ++ (bytes "&rikeyid="
                                                            ++ (decimal s.aes_key_id
                                                            ++ bytes
                                                            "&localAudioPlayMode=0&surroundAudioInfo=196610&remoteControllersBitmap=0&gcmap=0&hdrMode=0")))))))))))))))))))

-- `{scheme}://{host}:{port}/{path}?uniqueid={uid}&uuid={uuid}`
unfoldable pub plain_url : Text → Text → ℕ → Text → Text → Text → Text
plain_url scheme host port path uid uuid =
    scheme
    ++ (bytes "://"
        ++ (host
            ++ (b':'
                ∷ (decimal port
                    ++ (b'/'
                        ∷ (path ++ (bytes "?uniqueid=" ++ (uid ++ (bytes "&uuid=" ++ uuid)))))))))

-- The error texts of one request, and the check of its status.
unfoldable pub checked : {W : Type 0} → Text → Text → W × Reply → W × Result Fail Text
checked name refused (w, send_failed e) =
    (w, err (error (name ++ (bytes " request failed: " ++ e))))
checked name refused (w, read_failed e) = (w, err (error (name ++ (bytes " read failed: " ++ e))))
checked name refused (w, body b) =
    (w, if is_status_200 b then ok b else err (error (refused ++ (bytes " non-200: " ++ b))))

unfoldable pub after_rand16 : {W : Type 0} → W × List ℕ × Option Text → W × Result Fail (List ℕ)
after_rand16 (w, b, none) = (w, ok b)
after_rand16 (w, b, some e) = (w, err (error (bytes "rand: " ++ e)))

pub after_idb : {W : Type 0} → W × List ℕ × Option Text → W × Result Fail (List ℕ)
after_idb (w, b, none) = (w, ok b)
after_idb (w, b, some e) = (w, err (error e))

-- The PEM bundle of `https_client`: certificate, newline, key.
abbrev pub bundle : MoonlightIdentity → Text
bundle identity = identity.cert_pem ++ (10 ∷ identity.key_pem)

module _ {W : Type 0} (net : Net W) where
  -- The error of the generator is ignored here.
  unfoldable pub new_uuid : M W Text
  new_uuid w = let (w', b, e) = net.rand_bytes 16 w in (w', ok (uuid_text b))

  unfoldable pub random_salt : M W (List ℕ)
  random_salt w = let (w', b, e) = net.rand_bytes 16 w in (w', ok b)

  unfoldable pub rand16 : M W (List ℕ)
  unfolding after_rand16
  rand16 w = after_rand16 (net.rand_bytes 16 w)

  unfoldable pub https_client : MoonlightIdentity → Result Fail Text
  https_client identity = elim (net.bad_identity (bundle identity)) [
    | some e ↦ err (error (bytes "client identity: " ++ e))
    | none ↦ elim (net.bad_build (bundle identity)) [
      | some e ↦ err (error (bytes "https client build: " ++ e))
      | none ↦ ok (bundle identity)
    ]
  ]

  -- One GET with the client certificate.
  unfoldable pub https_get : MoonlightIdentity → Text → Text → M W Text
  https_get identity name url = do
    client ← lift (https_client identity)
    λ w. checked name name (net.get (some client) url w)

  unfoldable pub server_info : Text → ℕ → Text → M W ServerInfo
  server_info host http_port unique_id = do
    uuid ← new_uuid
    b ← λ w. checked (bytes "serverinfo") (bytes "serverinfo") (
        net.get none (plain_url (bytes "http") host http_port (bytes "serverinfo") unique_id uuid)
          w)
    pure (parse_server_info 47984 b)

  unfoldable pub server_info_https : MoonlightIdentity → Text → ℕ → M W ServerInfo
  server_info_https identity host https_port = do
    uuid ← new_uuid
    b ←
        https_get identity (bytes "serverinfo(https)")
          (plain_url (bytes "https") host https_port (bytes "serverinfo") identity.unique_id uuid)
    pure (parse_server_info https_port b)

  unfoldable pub app_list : MoonlightIdentity → Text → ℕ → M W (List HostApp)
  app_list identity host https_port = do
    uuid ← new_uuid
    b ←
        https_get identity (bytes "applist")
          (plain_url (bytes "https") host https_port (bytes "applist") identity.unique_id uuid)
    pure (parse_app_list b)

  unfoldable pub cancel : MoonlightIdentity → Text → ℕ → M W (Unit {0})
  cancel identity host https_port = do
    uuid ← new_uuid
    b ←
        https_get identity (bytes "cancel")
          (plain_url (bytes "https") host https_port (bytes "cancel") identity.unique_id uuid)
    pure tt

  unfoldable pub launch : MoonlightIdentity → Text → ℕ → ℕ → ℕ → ℕ → ℕ → M W LaunchSession
  unfolding after_idb
  launch identity host https_port app_id width height fps = do
    aes_key ← rand16
    idb ← λ w. after_idb (net.rand_bytes 4 w)
    uuid ← new_uuid
    let session : LaunchSession = record { aes_key = aes_key; aes_key_id = key_id idb }
    b ←
        https_get identity (bytes "launch")
          (launch_url host https_port identity.unique_id uuid app_id width height fps session)
    if launch_started b then pure session else fail (bytes "launch did not start a session: " ++ b)
