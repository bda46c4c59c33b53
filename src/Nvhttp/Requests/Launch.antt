-- ===== src/Nvhttp/Requests/Launch.antt =====
-- The keys of a launch in crates/moonlight-core/src/nvhttp.rs: `launch` and `aes_iv`.
use tempest_addon_moonlight.Base.{
  ℕ, ◌^◌, ◌≤◌, ◌<◌, ◌≡◌, refl, Bool, true, false, List, Text, bytes, length, take, drop, replicate,
  arith, be_bytes, from_be_bytes, le_bytes, from_le_bytes-le_bytes, ok, if◌then◌else◌,
}
use tempest_addon_moonlight.Identity.{MoonlightIdentity}
use tempest_addon_moonlight.Nvhttp.Net.{Net, next-ok, pure, fail}
use tempest_addon_moonlight.Nvhttp.Requests.{
  LaunchSession, aes_iv, key_id, rand16, new_uuid, https_get, after_idb, launch,
}
use tempest_addon_moonlight.Nvhttp.Xml.{launch_started}

-- What the C library and the host are given: a positive `i32`, and an IV that holds it.
abbrev pub IsKeyed : LaunchSession → Type 0
IsKeyed l =
    (1 ≤ l.aes_key_id)
    × (l.aes_key_id < 2 ^ 31)
    × (length (aes_iv l) ≡ 16)
    × (from_be_bytes (take 4 (aes_iv l)) ≡ l.aes_key_id)
    × (drop 4 (aes_iv l) ≡ replicate 12 0)

be_bytes_four : (v : ℕ) → v < 2 ^ 31 → from_be_bytes (be_bytes 4 v) ≡ v
unfolding be_bytes from_be_bytes le_bytes
be_bytes_four v h = from_le_bytes-le_bytes 4 v (omega arith)

made-IsKeyed : (key idb : List ℕ) → IsKeyed (record { aes_key = key; aes_key_id = key_id idb })
unfolding aes_iv be_bytes
made-IsKeyed key idb = (low, high, refl, be_bytes_four _ high, refl)
  where
    low : 1 ≤ key_id idb
    low = unfold key_id in omega arith

    high : key_id idb < 2 ^ 31
    high = unfold key_id in omega arith

made :
    {W : Type 0} (b : Bool) (s l : LaunchSession) (t : Text) (w w' : W)
    → (if b then pure s else fail t) w ≡ (w', ok l)
    → IsKeyed s
    → IsKeyed l
made true s l t w w' h k = let e : s ≡ l = cc in rw (← e) k
made false s l t w w' h k = cc

-- A launch that succeeds, whatever the random bytes were, has a key id from 1 to 2^31 - 1, and an IV of
-- sixteen bytes of which the first four are that id, big-endian, and the others zero.
pub launch-IsKeyed :
    {W : Type 0} (net : Net W) (id : MoonlightIdentity) (host : Text)
    (port app width height fps : ℕ) (w w' : W) (l : LaunchSession)
    → launch net id host port app width height fps w ≡ (w', ok l)
    → IsKeyed l
unfolding launch
launch-IsKeyed net id host port app width height fps w w' l h =
    let (key, w1, e1, h1) = next-ok (rand16 net w) _ w' l h in
    let (idb, w2, e2, h2) = next-ok (after_idb (net.rand_bytes 4 w1)) _ w' l h1 in
    let (uuid, w3, e3, h3) = next-ok (new_uuid net w2) _ w' l h2 in
    let (b, w4, e4, h4) = next-ok (https_get net id (bytes "launch") _ w3) _ w' l h3 in
    made (launch_started b) _ l _ w4 w' h4 (made-IsKeyed key idb)
