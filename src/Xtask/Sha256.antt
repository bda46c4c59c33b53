-- ===== src/Xtask/Sha256.antt =====
-- `Sha256` of crates/xtask/src/main.rs. A `u32` is a number below 2^32 with its wrap-around written
-- out; `[u32; 8]` is a record of eight words, `[u8; 64]` and `[u32; 64]` are lists of that length.
pub mod Digest
pub mod Absorb
pub mod Finish
pub mod Chunks
pub mod Shape
use tempest_addon_moonlight.Base.{
  ℕ, zero, suc, ◌+◌, ◌-◌, ◌*◌, ◌/◌, ◌%◌, ◌^◌, min, bit_and, bit_xor, Bool, true, false, Option,
  none, some, List, [], ◌∷◌, ◌++◌, u32_mod, be_bytes, from_be_bytes, length, get_or, take, drop,
  set, replicate, ◌==◌, if◌then◌else◌, Result, ok, err, Text,
}
use tempest_addon_moonlight.Base.Options.{◌>>=◌}
use tempest_addon_moonlight.Nvhttp.Hex.{to_hex_lower}

pub record Words : Type 0 where
  pub a : ℕ
  pub b : ℕ
  pub c : ℕ
  pub d : ℕ
  pub e : ℕ
  pub f : ℕ
  pub g : ℕ
  pub h : ℕ

-- `buf` keeps the bytes of the last block behind the `buffered` ones.
pub record Sha256 : Type 0 where
  pub state : Words
  pub buf : List ℕ
  pub buffered : ℕ
  pub len : ℕ

abbrev pub k_table : List ℕ
k_table =
    0x428a2f98 ∷ 0x71374491 ∷ 0xb5c0fbcf ∷ 0xe9b5dba5 ∷ 0x3956c25b ∷ 0x59f111f1 ∷ 0x923f82a4
    ∷ 0xab1c5ed5 ∷ 0xd807aa98 ∷ 0x12835b01 ∷ 0x243185be ∷ 0x550c7dc3 ∷ 0x72be5d74 ∷ 0x80deb1fe
    ∷ 0x9bdc06a7 ∷ 0xc19bf174 ∷ 0xe49b69c1 ∷ 0xefbe4786 ∷ 0x0fc19dc6 ∷ 0x240ca1cc ∷ 0x2de92c6f
    ∷ 0x4a7484aa ∷ 0x5cb0a9dc ∷ 0x76f988da ∷ 0x983e5152 ∷ 0xa831c66d ∷ 0xb00327c8 ∷ 0xbf597fc7
    ∷ 0xc6e00bf3 ∷ 0xd5a79147 ∷ 0x06ca6351 ∷ 0x14292967 ∷ 0x27b70a85 ∷ 0x2e1b2138 ∷ 0x4d2c6dfc
    ∷ 0x53380d13 ∷ 0x650a7354 ∷ 0x766a0abb ∷ 0x81c2c92e ∷ 0x92722c85 ∷ 0xa2bfe8a1 ∷ 0xa81a664b
    ∷ 0xc24b8b70 ∷ 0xc76c51a3 ∷ 0xd192e819 ∷ 0xd6990624 ∷ 0xf40e3585 ∷ 0x106aa070 ∷ 0x19a4c116
    ∷ 0x1e376c08 ∷ 0x2748774c ∷ 0x34b0bcb5 ∷ 0x391c0cb3 ∷ 0x4ed8aa4a ∷ 0x5b9cca4f ∷ 0x682e6ff3
    ∷ 0x748f82ee ∷ 0x78a5636f ∷ 0x84c87814 ∷ 0x8cc70208 ∷ 0x90befffa ∷ 0xa4506ceb ∷ 0xbef9a3f7
    ∷ 0xc67178f2 ∷ []

abbrev pub initial_words : Words
initial_words = record {
  a = 0x6a09e667;
  b = 0xbb67ae85;
  c = 0x3c6ef372;
  d = 0xa54ff53a;
  e = 0x510e527f;
  f = 0x9b05688c;
  g = 0x1f83d9ab;
  h = 0x5be0cd19;
}

-- `Sha256::new`
unfoldable pub new : Sha256
new = record { state = initial_words; buf = replicate 64 0; buffered = 0; len = 0 }

-- `wrapping_add`, `rotate_right`, `>>` and `!` of a `u32`.
unfoldable pub wrapping_add : ℕ → ℕ → ℕ
wrapping_add x y = (x + y) % u32_mod

unfoldable pub rotate_right : ℕ → ℕ → ℕ
rotate_right x n = x / 2 ^ n + x % 2 ^ n * 2 ^ (32 - n)

unfoldable pub shift_right : ℕ → ℕ → ℕ
shift_right x n = x / 2 ^ n

unfoldable pub complement : ℕ → ℕ
complement x = u32_mod - 1 - x

-- `w[i]`; the indices are all below 64.
abbrev pub at : List ℕ → ℕ → ℕ
at w i = get_or w i 0

block_word : List ℕ → ℕ → ℕ
block_word block i =
    from_be_bytes
      (at block (i * 4) ∷ at block (i * 4 + 1) ∷ at block (i * 4 + 2) ∷ at block (i * 4 + 3) ∷ [])

-- The loop over `0..16`, in so many rounds from index `i`.
load : ℕ → ℕ → List ℕ → List ℕ → List ℕ
unfolding block_word
load zero i block w = w
load (suc n) i block w = load n (suc i) block (set w i (block_word block i))

-- The two functions that mix earlier words of the schedule.
unfoldable pub small_sigma0 : ℕ → ℕ
small_sigma0 x = bit_xor (bit_xor (rotate_right x 7) (rotate_right x 18)) (shift_right x 3)

unfoldable pub small_sigma1 : ℕ → ℕ
small_sigma1 x = bit_xor (bit_xor (rotate_right x 17) (rotate_right x 19)) (shift_right x 10)

next_word : List ℕ → ℕ → ℕ
next_word w i =
    wrapping_add
      (wrapping_add (wrapping_add (at w (i - 16)) (small_sigma0 (at w (i - 15)))) (at w (i - 7)))
      (small_sigma1 (at w (i - 2)))

-- The loop over `16..64`.
extend : ℕ → ℕ → List ℕ → List ℕ
unfolding next_word
extend zero i w = w
extend (suc n) i w = extend n (suc i) (set w i (next_word w i))

-- The array `w` of `compress`.
unfoldable pub schedule : List ℕ → List ℕ
unfolding load extend
schedule block = extend 48 16 (load 16 0 block (replicate 64 0))

-- One round, with the constant and the word of its index.
unfoldable pub round : ℕ → ℕ → Words → Words
round k w s =
    let s1 = bit_xor (bit_xor (rotate_right s.e 6) (rotate_right s.e 11)) (rotate_right s.e 25) in
    let ch = bit_xor (bit_and s.e s.f) (bit_and (complement s.e) s.g) in
    let t1 = wrapping_add (wrapping_add (wrapping_add (wrapping_add s.h s1) ch) k) w in
    let s0 = bit_xor (bit_xor (rotate_right s.a 2) (rotate_right s.a 13)) (rotate_right s.a 22) in
    let maj = bit_xor (bit_xor (bit_and s.a s.b) (bit_and s.a s.c)) (bit_and s.b s.c) in
    let t2 = wrapping_add s0 maj in
    record {
      a = wrapping_add t1 t2;
      b = s.a;
      c = s.b;
      d = s.c;
      e = wrapping_add s.d t1;
      f = s.e;
      g = s.f;
      h = s.g;
    }

-- The loop over `0..64`.
rounds : ℕ → ℕ → List ℕ → Words → Words
rounds zero i w s = s
rounds (suc n) i w s = rounds n (suc i) w (round (at k_table i) (at w i) s)

add_words : Words → Words → Words
add_words s v = record {
  a = wrapping_add s.a v.a;
  b = wrapping_add s.b v.b;
  c = wrapping_add s.c v.c;
  d = wrapping_add s.d v.d;
  e = wrapping_add s.e v.e;
  f = wrapping_add s.f v.f;
  g = wrapping_add s.g v.g;
  h = wrapping_add s.h v.h;
}

unfoldable pub compress : Words → List ℕ → Words
unfolding rounds add_words
compress state block = add_words state (rounds 64 0 (schedule block) state)

-- The body of the loop of `update`, and the data that it leaves.
unfoldable pub absorb : Sha256 → List ℕ → Sha256 × List ℕ
absorb s input =
    let n = min (64 - s.buffered) (length input) in
    let buf = take s.buffered s.buf ++ (take n input ++ drop (s.buffered + n) s.buf) in
    let buffered = s.buffered + n in
    let rest = drop n input in
    if buffered == 64
    then (record s { state = compress s.state buf; buf = buf; buffered = 0 }, rest)
    else (record s { buf = buf; buffered = buffered }, rest)

-- The loop, in at most so many rounds; `none` if they are not enough.
update_loop : ℕ → Sha256 → List ℕ → Option Sha256
update_loop f s [] = some s
update_loop zero s (b ∷ input) = none
update_loop (suc f) s (b ∷ input) = let (s', rest) = absorb s (b ∷ input) in update_loop f s' rest

abbrev pub u64_mod : ℕ
u64_mod = 2 ^ 64

-- `update`: every round takes a byte at least.
unfoldable pub update : Sha256 → List ℕ → Option Sha256
unfolding update_loop
update s input =
    update_loop (length input) (record s { len = (s.len + length input) % u64_mod }) input

-- `while self.buffered != 56`, in at most so many rounds.
unfoldable pub pad_loop : ℕ → Sha256 → Option Sha256
pad_loop zero s = if s.buffered == 56 then some s else none
pad_loop (suc f) s = elim (s.buffered == 56) [
  | true ↦ some s
  | false ↦ update s (0 ∷ []) >>= pad_loop f
]

unfoldable pub words_bytes : Words → List ℕ
words_bytes s =
    be_bytes 4 s.a
    ++ (be_bytes 4 s.b
        ++ (be_bytes 4 s.c
            ++ (be_bytes 4 s.d
                ++ (be_bytes 4 s.e ++ (be_bytes 4 s.f ++ (be_bytes 4 s.g ++ be_bytes 4 s.h))))))

-- `finish`; 64 zeros are more than are ever needed.
unfoldable pub finish : Sha256 → Option (List ℕ)
finish s = do
  let bits = s.len * 8 % u64_mod
  s1 ← update s (0x80 ∷ [])
  s2 ← pad_loop 64 s1
  s3 ← update s2 (be_bytes 8 bits)
  some (words_bytes s3.state)

finish_hex : Sha256 → Option (Result Text Text)
finish_hex s = do d ← finish s; some (ok (to_hex_lower d))

-- The loop of `sha256_hex` over what the reads of the file give; a read of nothing is its end, and so
-- is the end of the list.
hash_reads : List (Result Text (List ℕ)) → Sha256 → Option (Result Text Text)
unfolding finish_hex
hash_reads [] s = finish_hex s
hash_reads (err e ∷ rs) s = some (err e)
hash_reads (ok [] ∷ rs) s = finish_hex s
hash_reads (ok (b ∷ chunk) ∷ rs) s = update s (b ∷ chunk) >>= hash_reads rs

-- `sha256_hex` of a file that was opened, or not.
unfoldable pub sha256_hex : Result Text (List (Result Text (List ℕ))) → Option (Result Text Text)
unfolding hash_reads
sha256_hex (err e) = some (err e)
sha256_hex (ok rs) = hash_reads rs new
