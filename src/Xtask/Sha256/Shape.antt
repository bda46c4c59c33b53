-- ===== src/Xtask/Sha256/Shape.antt =====
-- Bounds and the message schedule of the SHA-256 of crates/xtask/src/main.rs.
use tempest_addon_moonlight.Base.{
  ℕ, zero, suc, ◌+◌, ◌-◌, ◌*◌, ◌/◌, ◌%◌, ◌^◌, bit_xor, ◌≤◌, ◌<◌, ◌≡◌, refl, sym, ◌∙◌, List, [], ◌∷◌,
  ◌++◌, All, All-append, arith, u32_mod, IsByte, length, length-append, length-set, get_or-set_self,
  get_or-set_ne, replicate, set, be_bytes, le_bytes, from_be_bytes, inl, inr, Bool-cases, ◌==◌,
}
use tempest_addon_moonlight.Nvhttp.Hex.{to_hex_lower, length-to_hex_lower}
use tempest_addon_moonlight.Xtask.Sha256.{
  Words, initial_words, wrapping_add, words_bytes, at, load, extend, next_word, block_word,
  schedule, small_sigma0, small_sigma1, rotate_right, shift_right,
}
use tempest_addon_moonlight.Xtask.Sha256.Digest.{blocks, pad, digest}

four_bytes : (v : ℕ) → (length (be_bytes 4 v) ≡ 4) × All IsByte (be_bytes 4 v)
unfolding be_bytes le_bytes
four_bytes v = (refl, (omega arith, (omega arith, (omega arith, (omega arith, tt)))))

bytes-append :
    (n m : ℕ) (xs ys : List ℕ)
    → (length xs ≡ n) × All IsByte xs
    → (length ys ≡ m) × All IsByte ys
    → (length (xs ++ ys) ≡ n + m) × All IsByte (xs ++ ys)
bytes-append n m xs ys (h, hs) (k, ks) =
    (omega (arith, length-append xs ys, h, k), All-append IsByte xs ys hs ks)

words_bytes-IsByte : (s : Words) → (length (words_bytes s) ≡ 32) × All IsByte (words_bytes s)
unfolding words_bytes
words_bytes-IsByte s = bytes-append 4 28 _ _ (four_bytes s.a) (
    bytes-append 4 24 _ _ (four_bytes s.b) (
      bytes-append 4 20 _ _ (four_bytes s.c) (
        bytes-append 4 16 _ _ (four_bytes s.d) (
          bytes-append 4 12 _ _ (four_bytes s.e) (
            bytes-append 4 8 _ _ (four_bytes s.f)
              (bytes-append 4 4 _ _ (four_bytes s.g) (four_bytes s.h)))))))

-- A digest is thirty-two bytes, and sixty-four characters in hex.
pub digest-IsByte :
    (msg : List ℕ)
    → (length (digest msg) ≡ 32)
      × All IsByte (digest msg)
      × (length (to_hex_lower (digest msg)) ≡ 64)
unfolding digest
digest-IsByte msg =
    let (long, small) =
      words_bytes-IsByte (blocks (length (pad msg) / 64) initial_words (pad msg)) in
    (
      long,
      small,
      omega (
        arith,
        long,
        length-to_hex_lower (words_bytes (blocks (length (pad msg) / 64) initial_words (pad msg))),
      ),
    )

load_below : (n i j : ℕ) (block w : List ℕ) → j < i → at (load n i block w) j ≡ at w j
unfolding load
load_below zero i j block w h = refl
load_below (suc n) i j block w h =
    load_below n (suc i) j block (set w i (block_word block i)) (omega arith)
    ∙ get_or-set_ne w i j (block_word block i) 0 (omega arith)

at-load :
    (n i j : ℕ) (block w : List ℕ)
    → i ≤ j
    → j < i + n
    → i + n ≤ length w
    → at (load n i block w) j ≡ block_word block j
unfolding load
at-load zero i j block w lo hi fits = absurd (omega arith)
at-load (suc n) i j block w lo hi fits = elim (Bool-cases (i == j)) [
  | inl here ↦
      let same : i ≡ j = ground arith in
      rw (← same) (
        load_below n (suc i) i block (set w i (block_word block i)) (omega arith)
        ∙ get_or-set_self w i (block_word block i) 0 (omega arith))
  | inr later ↦
      at-load n (suc i) j block (set w i (block_word block i)) (ground arith) (omega arith)
        (omega (arith, length-set w i (block_word block i)))
]

length-load : (n i : ℕ) (block w : List ℕ) → length (load n i block w) ≡ length w
unfolding load
length-load zero i block w = refl
length-load (suc n) i block w =
    length-load n (suc i) block (set w i (block_word block i)) ∙ length-set w i (block_word block i)

extend_below : (n i j : ℕ) (w : List ℕ) → j < i → at (extend n i w) j ≡ at w j
unfolding extend
extend_below zero i j w h = refl
extend_below (suc n) i j w h =
    extend_below n (suc i) j (set w i (next_word w i)) (omega arith)
    ∙ get_or-set_ne w i j (next_word w i) 0 (omega arith)

-- A word depends on earlier ones only.
next_word_same :
    (v w : List ℕ) (i : ℕ)
    → 16 ≤ i
    → ((j : ℕ) → j < i → at v j ≡ at w j)
    → next_word v i ≡ next_word w i
unfolding next_word
next_word_same v w i h same =
    rw
      (
        same (i - 16) (omega arith),
        same (i - 15) (omega arith),
        same (i - 7) (omega arith),
        same (i - 2) (omega arith),
      )
      refl

at-extend :
    (n i j : ℕ) (w : List ℕ)
    → 16 ≤ i
    → i ≤ j
    → j < i + n
    → i + n ≤ length w
    → at (extend n i w) j ≡ next_word (extend n i w) j
unfolding extend
at-extend zero i j w h lo hi fits = absurd (omega arith)
at-extend (suc n) i j w h lo hi fits = elim (Bool-cases (i == j)) [
  | inl here ↦
      let same : i ≡ j = ground arith in
      let w' = set w i (next_word w i) in
      rw (← same) (
        extend_below n (suc i) i w' (omega arith)
        ∙ get_or-set_self w i (next_word w i) 0 (omega arith)
        ∙ sym (
            next_word_same (extend n (suc i) w') w i h (λ k lt.
              extend_below n (suc i) k w' (omega arith)
              ∙ get_or-set_ne w i k (next_word w i) 0 (omega arith))))
  | inr later ↦
      at-extend n (suc i) j (set w i (next_word w i)) (omega arith) (ground arith) (omega arith)
        (omega (arith, length-set w i (next_word w i)))
]

-- FIPS 180-4's ROTR by `n` bits of a word of `n + m` bits, and its two functions of the schedule.
abbrev rotr : ℕ → ℕ → ℕ → ℕ
rotr n m x = x / 2 ^ n + x % 2 ^ n * 2 ^ m

abbrev pub sigma0 : ℕ → ℕ
sigma0 x = bit_xor (bit_xor (rotr 7 25 x) (rotr 18 14 x)) (x / 2 ^ 3)

abbrev pub sigma1 : ℕ → ℕ
sigma1 x = bit_xor (bit_xor (rotr 17 15 x) (rotr 19 13 x)) (x / 2 ^ 10)

add_four :
    (a b c d : ℕ) → wrapping_add (wrapping_add (wrapping_add a b) c) d ≡ (a + b + c + d) % u32_mod
unfolding wrapping_add
add_four a b c d = omega arith

next_word_sum :
    (w : List ℕ) (i : ℕ)
    → next_word w i
      ≡ (at w (i - 16) + sigma0 (at w (i - 15)) + at w (i - 7) + sigma1 (at w (i - 2))) % u32_mod
unfolding next_word small_sigma0 small_sigma1 rotate_right shift_right
next_word_sum w i =
    add_four (at w (i - 16)) (small_sigma0 (at w (i - 15))) (at w (i - 7))
      (small_sigma1 (at w (i - 2)))

-- The array that the two loops build is the message schedule of FIPS 180-4: its first sixteen words
-- are those of the block, big-endian, and each later one is the sum modulo 2^32 of four earlier ones, two
-- of them through the standard's rotations and shifts.
pub schedule-recurrence :
    (block : List ℕ) (i j : ℕ)
    → i < 16
    → 16 ≤ j
    → j < 64
    → (at (schedule block) i
        ≡ from_be_bytes (
            at block (i * 4)
            ∷ at block (i * 4 + 1)
            ∷ at block (i * 4 + 2)
            ∷ at block (i * 4 + 3)
            ∷ []))
      × (at (schedule block) j
          ≡ (at (schedule block) (j - 16)
              + sigma0 (at (schedule block) (j - 15))
              + at (schedule block) (j - 7)
              + sigma1 (at (schedule block) (j - 2)))
            % u32_mod)
unfolding schedule block_word
schedule-recurrence block i j first lo hi = (
  extend_below 48 16 i loaded first
      ∙ at-load 16 0 i block (replicate 64 0) (omega arith) (omega arith) (omega arith),
  at-extend 48 16 j loaded (omega arith) lo (omega arith)
        (omega (arith, length-load 16 0 block (replicate 64 0)))
      ∙ next_word_sum (extend 48 16 loaded) j,
)
  where
    loaded : List ℕ
    loaded = load 16 0 block (replicate 64 0)
