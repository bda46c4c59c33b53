-- ===== src/Xtask/Sha256/Digest.antt =====
-- SHA-256 of a whole message, by FIPS 180-4: the message is padded and its blocks are compressed one
-- after another. What `Sha256` of crates/xtask/src/main.rs is held against.
use tempest_addon_moonlight.Base.{
  ℕ, zero, suc, ◌+◌, ◌-◌, ◌*◌, ◌/◌, ◌%◌, ◌≡◌, ap, List, [], ◌∷◌, ◌++◌, arith, length, take, drop,
  replicate, length-drop, take-append_le, drop-append_le, take_all, be_bytes,
}
use tempest_addon_moonlight.Xtask.Sha256.{Words, initial_words, compress, words_bytes, u64_mod}

-- The first `k` blocks.
unfoldable pub blocks : ℕ → Words → List ℕ → Words
blocks zero s m = s
blocks (suc k) s m = blocks k (compress s (take 64 m)) (drop 64 m)

-- How many zeros take a block with `n` bytes in it to 56 bytes.
unfoldable pub zeros : ℕ → ℕ
zeros n = (120 - n % 64) % 64

unfoldable pub pad : List ℕ → List ℕ
pad msg =
    (msg ++ (0x80 ∷ []))
    ++ (replicate (zeros (length msg + 1)) 0 ++ be_bytes 8 (length msg * 8 % u64_mod))

unfoldable pub digest : List ℕ → List ℕ
digest msg = words_bytes (blocks (length (pad msg) / 64) initial_words (pad msg))

-- A block behind `k` others.
pub blocks-append :
    (k : ℕ) (s : Words) (xs ys : List ℕ)
    → length xs ≡ 64 * k
    → length ys ≡ 64
    → blocks (suc k) s (xs ++ ys) ≡ compress (blocks k s xs) ys
unfolding blocks
blocks-append zero s [] ys h h' = ap (compress s) (take_all 64 ys (omega arith))
blocks-append zero s (x ∷ xs) ys h h' = absurd (omega arith)
blocks-append (suc k) s xs ys h h' =
    rw (take-append_le 64 xs ys (omega arith), drop-append_le 64 xs ys (omega arith))
      (blocks-append k (compress s (take 64 xs)) (drop 64 xs) ys (omega (arith, length-drop 64 xs))
        h')
