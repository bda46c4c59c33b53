-- ===== src/Xtask/Sha256/Finish.antt =====
-- `finish` of crates/xtask/src/main.rs pads the message and gives the digest.
use tempest_addon_moonlight.Base.{
  ℕ, zero, suc, ◌+◌, ◌-◌, ◌*◌, ◌/◌, ◌%◌, ◌≤◌, ◌≡◌, refl, sym, ap, ◌∙◌, true, false, some, List, [],
  ◌∷◌, ◌++◌, append_assoc, append-nil, arith, ◌==◌, length, take, replicate, length-append,
  length-replicate, be_bytes, le_bytes,
}
use mathlib.Core.Path.{subst}
use tempest_addon_moonlight.Xtask.Sha256.{
  Sha256, initial_words, pad_loop, finish, words_bytes, u64_mod,
}
use tempest_addon_moonlight.Xtask.Sha256.Digest.{blocks, zeros, pad, digest}
use tempest_addon_moonlight.Xtask.Sha256.Absorb.{Holds, Absorbed, update-Absorbed, buffered_mod}

length-be_bytes_eight : (v : ℕ) → length (be_bytes 8 v) ≡ 8
unfolding be_bytes le_bytes
length-be_bytes_eight v = refl

-- `z` zeros take the buffer to 56 bytes.
pad_loop-Absorbed :
    (f z : ℕ) (msg : List ℕ) (s : Sha256)
    → z ≤ f
    → z ≡ (120 - s.buffered) % 64
    → Absorbed msg s
    → (s' : Sha256) × (pad_loop f s ≡ some s')
      × Absorbed (msg ++ replicate z 0) s'
      × (s'.buffered ≡ 56)
unfolding pad_loop
pad_loop-Absorbed zero zero msg s le e h =
    let there : (s.buffered == 56) ≡ true = ground (arith, h.holds.waiting) in
    rw (there, pad_loop) (s, refl, rw (append-nil msg) h, omega (arith, e, h.holds.waiting))
pad_loop-Absorbed (suc f) zero msg s le e h =
    let there : (s.buffered == 56) ≡ true = ground (arith, h.holds.waiting) in
    rw (there, pad_loop) (s, refl, rw (append-nil msg) h, omega (arith, e, h.holds.waiting))
pad_loop-Absorbed zero (suc z) msg s le e h = absurd (omega arith)
pad_loop-Absorbed (suc f) (suc z) msg s le e h =
    let going : (s.buffered == 56) ≡ false = ground (arith, h.holds.waiting) in
    let (s1, fed, h1) = update-Absorbed msg (0 ∷ []) s h in
    let now = buffered_mod msg s h.holds in
    let next = buffered_mod (msg ++ (0 ∷ [])) s1 h1.holds in
    let left : z ≡ (120 - s1.buffered) % 64 =
      omega (arith, e, now, next, h.holds.waiting, length-append msg (0 ∷ [])) in
    let (t, padded, h2, stops) = pad_loop-Absorbed f z (msg ++ (0 ∷ [])) s1 (omega arith) left h1 in
    rw (going, pad_loop, fed)
      (t, padded, subst (λ m. Absorbed m t) (append_assoc msg (0 ∷ []) (replicate z 0)) h2, stops)

-- A buffer that is empty: all blocks are compressed.
whole-blocks :
    (msg : List ℕ) (s : Sha256)
    → Holds msg s
    → length msg % 64 ≡ 0
    → s.state ≡ blocks (length msg / 64) initial_words msg
whole-blocks msg s h even =
    let empty : s.buffered ≡ 0 = buffered_mod msg s h ∙ even in
    let whole : msg ≡ h.whole =
      h.split ∙ ap (λ b. h.whole ++ take b s.buf) empty ∙ append-nil h.whole in
    let k : h.k ≡ length msg / 64 = omega (arith, h.blocked, ap length whole) in
    h.compressed
    ∙ ap (λ n. blocks n initial_words h.whole) k
    ∙ ap (blocks (length msg / 64) initial_words) (sym whole)

-- What `finish` feeds the hasher makes up whole blocks.
pub length-pad : (msg : List ℕ) → length (pad msg) % 64 ≡ 0
unfolding pad zeros
length-pad msg =
    rw (length-append, length-append, length-append, length-replicate, length-be_bytes_eight)
      (omega arith)

-- Whatever the hasher absorbed, `finish` returns its digest: padding and blocks are those of FIPS 180-4.
pub finish-digest : (msg : List ℕ) (s : Sha256) → Absorbed msg s → finish s ≡ some (digest msg)
unfolding finish digest
finish-digest msg s h =
    let (s1, e1, h1) = update-Absorbed msg (0x80 ∷ []) s h in
    let first = buffered_mod (msg ++ (0x80 ∷ [])) s1 h1.holds in
    let n : ℕ = zeros (length msg + 1) in
    let need : n ≡ (120 - s1.buffered) % 64 =
      unfold zeros in omega (arith, first, length-append msg (0x80 ∷ [])) in
    let (s2, e2, h2, stops) =
      pad_loop-Absorbed 64 n (msg ++ (0x80 ∷ [])) s1 (omega (arith, need)) need h1 in
    let bits : s.len * 8 % u64_mod ≡ length msg * 8 % u64_mod = omega (arith, h.counted) in
    let (s3, e3, h3) = update-Absorbed _ (be_bytes 8 (length msg * 8 % u64_mod)) s2 h2 in
    let padded : Holds (pad msg) s3 =
      unfold pad in
      subst (λ m. Holds m s3) (append_assoc (msg ++ (0x80 ∷ [])) (replicate n 0) _) h3.holds in
    rw (e1, e2, bits, e3)
      (ap (λ w. some (words_bytes w)) (whole-blocks (pad msg) s3 padded (length-pad msg)))
