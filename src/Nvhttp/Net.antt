-- ===== src/Nvhttp/Net.antt =====
-- What nvhttp.rs takes from reqwest and OpenSSL, and the monad of its functions: a world `W` that
-- answers, and `?` on the result.
use tempest_addon_moonlight.Base.{ℕ, List, Text, Option, ◌≡◌, refl, Result, ok, err, Fail, error}

-- How a GET ends: `send` fails, reading the text fails, or the body is there.
pub data Reply : Type 0 where
  send_failed : Text → Reply
  read_failed : Text → Reply
  body : Text → Reply

-- `rand_bytes n` fills a buffer of `n` bytes; the option is its error. `get` takes the PEM bundle
-- of a client with an identity.
pub record Net (W : Type 0) : Type 0 where
  pub rand_bytes : ℕ → W → W × List ℕ × Option Text
  pub bad_identity : Text → Option Text
  pub bad_build : Text → Option Text
  pub get : Option Text → Text → W → W × Reply

abbrev pub M : Type 0 → Type 0 → Type 0
M W A = W → W × Result Fail A

abbrev pub next {ℓ} :
    {W A : Type 0} {B : Type ℓ}
    → W × Result Fail A
    → (A → W → W × Result Fail B)
    → W × Result Fail B
next (w, ok a) k = k a w
next (w, err e) k = (w, err e)

infixl 5 ◌>>=◌ ◌>>◌
abbrev pub ◌>>=◌ : {W A B : Type 0} → M W A → (A → M W B) → M W B
◌>>=◌ m k w = next (m w) k

abbrev pub ◌>>◌ : {W B : Type 0} → M W (Unit {0}) → M W B → M W B
◌>>◌ m k w = next (m w) (λ _. k)

abbrev pub pure : {W A : Type 0} → A → M W A
pure a w = (w, ok a)

-- `e?` of a computation that leaves the world alone.
abbrev pub lift : {W A : Type 0} → Result Fail A → M W A
lift r w = (w, r)

abbrev pub fail : {W A : Type 0} → Text → M W A
fail t w = (w, err (error t))

-- A bind that succeeds: both of its parts do.
pub next-ok :
    {W A B : Type 0} (p : W × Result Fail A) (k : A → W → W × Result Fail B) (w' : W) (b : B)
    → next p k ≡ (w', ok b)
    → (a : A) × (w : W) × (p ≡ (w, ok a)) × (k a w ≡ (w', ok b))
next-ok (w, ok a) k w' b h = (a, w, refl, h)
next-ok (w, err e) k w' b h = cc

pub lift-ok :
    {W A B : Type 0} (w : W) (r : Result Fail A) (k : A → W → W × Result Fail B) (w' : W) (b : B)
    → next (w, r) k ≡ (w', ok b)
    → (a : A) × (r ≡ ok a) × (k a w ≡ (w', ok b))
lift-ok w (ok a) k w' b h = (a, refl, h)
lift-ok w (err e) k w' b h = cc
