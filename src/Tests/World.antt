-- ===== src/Tests/World.antt =====
-- A host that is paired and grants everything, and one to pair with.
use tempest_addon_moonlight.Base.{
  ℕ, Bool, true, false, none, some, List, [], ◌∷◌, ◌++◌, Text, bytes, replicate, pos, ok,
}
use tempest_addon_moonlight.Identity.{MoonlightIdentity, Generator}
use tempest_addon_moonlight.Nvhttp.Hex.{to_hex}
use tempest_addon_moonlight.Nvhttp.Net.{Net, body, pure}
use tempest_addon_moonlight.Nvhttp.Pairing.{Crypto}
use tempest_addon_moonlight.Session.Doc.{MoonlightConnectDoc, new_doc}
use tempest_addon_moonlight.Session.State.{Async, stop_set, submit, State, Deps}
use tempest_addon_moonlight.Stream.{Globals, DecodeUnit}

-- One reply for every request.
abbrev pub granted : Text
granted =
    bytes
      "<root status_code=\"200\"><PairStatus>1</PairStatus><App><AppTitle>Desktop</AppTitle><ID>7</ID></App><gamesession>1</gamesession></root>"

abbrev pub pairing_reply : Text
pairing_reply =
    bytes "<root status_code=\"200\"><paired>1</paired><plaincert>AB</plaincert><challengeresponse>"
    ++ (to_hex (replicate 48 0)
        ++ (bytes "</challengeresponse><pairingsecret>"
            ++ (to_hex (replicate 272 0) ++ bytes "</pairingsecret></root>")))

abbrev pub net_of : Text → Net Bool
net_of reply = record {
  rand_bytes = λ n w. (w, replicate n 7, none);
  bad_identity = λ b. none;
  bad_build = λ b. none;
  get = λ id url w. (w, body reply);
}

-- A hash that is the same byte throughout, a cipher that changes nothing.
abbrev pub crypto_of : ℕ → Crypto Unit Unit
crypto_of b = record {
  sha256 = λ t. replicate 32 b;
  bad_key = λ m k. none;
  update = λ m k t. ok t;
  finalize = λ m k t. ok [];
  cert_from_pem = λ t. ok tt;
  signature = λ c. [];
  public_key = λ c. ok tt;
  key_from_pem = λ t. ok tt;
  verify = λ k t s. ok true;
  sign = λ k t. ok (1 ∷ []);
}

abbrev pub identity : MoonlightIdentity
identity = record { unique_id = bytes "id"; cert_pem = bytes "cert"; key_pem = bytes "key" }

abbrev pub generator : Generator Bool Unit
generator = record {
  call = λ c. pure tt;
  rsa = λ bits. pure tt;
  rand = λ bits. pure 5;
  rand_bytes = λ n. pure (replicate n 3);
  cert_to_pem = λ c. ok (1 ∷ []);
  key_to_pem = λ k. ok (2 ∷ []);
}

-- A key frame of two bytes.
abbrev pub unit : DecodeUnit
unit = record {
  frame_type = pos 1;
  buffer_list = record { bytes_at = some (8 ∷ 9 ∷ []); len = pos 2 } ∷ [];
}

-- The stop flag is set in every second turn of the other threads, a frame comes in the others.
abbrev tick : Bool → Bool × List Async
tick true = (false, stop_set ∷ [])
tick false = (true, submit (some unit) ∷ [])

abbrev pub deps : Deps Bool Unit Unit
deps = record {
  net = net_of granted;
  crypto = crypto_of 0;
  generator = generator;
  lossy = λ t. t;
  runtime = λ w. (w, none);
  li_start = λ c w. (false, pos 0);
  li_stop = λ w. w;
  tick = tick;
}

abbrev pub globals : Globals
globals = record { video_sink = none; negotiated_format = 0; terminated = false; queue = [] }

abbrev pub initial : State Bool
initial = record { world = false; stop = false; globals = globals; log = [] }

abbrev pub doc : MoonlightConnectDoc
doc = new_doc (bytes "host")
