-- ===== src/Xtask/Sha256/Absorb.antt =====
-- What a hasher of crates/xtask/src/main.rs has absorbed, and that `update` absorbs its input.
use tempest_addon_moonlight.Base.{
  ℕ, zero, suc, ◌+◌, ◌-◌, ◌*◌, ◌%◌, ◌≤◌, ◌<◌, ◌≡◌, refl, sym, ap, ◌∙◌, min, Bool-cases, inl, inr,
  some, List, [], ◌∷◌, ◌++◌, append_assoc, append-nil, arith, ◌==◌, length, take, drop,
  length-append, length-take, length-drop, take-append-drop, drop_all, take-append_length,
}
use mathlib.Core.Path.{subst}
use tempest_addon_moonlight.Xtask.Sha256.{
  Sha256, initial_words, new, compress, absorb, update_loop, update, u64_mod,
}
use tempest_addon_moonlight.Xtask.Sha256.Digest.{blocks, blocks-append}

-- The message so far: `k` blocks that are compressed, and the bytes that wait in the buffer.
pub record Holds (msg : List ℕ) (s : Sha256) : Type 0 where
  pub k : ℕ
  pub whole : List ℕ
  pub blocked : length whole ≡ 64 * k
  pub split : msg ≡ whole ++ take s.buffered s.buf
  pub compressed : s.state ≡ blocks k initial_words whole
  pub waiting : s.buffered < 64
  pub sized : length s.buf ≡ 64

-- The buffer with `n` more bytes, and the stale ones behind them.
abbrev filled : ℕ → ℕ → List ℕ → List ℕ → List ℕ
filled b n buf more = take b buf ++ (more ++ drop (b + n) buf)

module _ (b n : ℕ) (buf more : List ℕ) (fits : b + n ≤ 64) (sized : length buf ≡ 64)
    (exact : length more ≡ n) where
  length-filled : length (filled b n buf more) ≡ 64
  length-filled =
      rw (length-append, length-append, length-take, length-drop)
        (omega (arith, sized, exact, fits))

  take-filled : take (b + n) (filled b n buf more) ≡ take b buf ++ more
  take-filled =
      ap (take (b + n)) (sym (append_assoc (take b buf) more (drop (b + n) buf)))
      ∙ take-append_length (b + n) (take b buf ++ more) (drop (b + n) buf)
          (rw (length-append, length-take) (omega (arith, sized, exact, fits)))

  -- A buffer that is full has no stale bytes.
  filled_full : b + n ≡ 64 → filled b n buf more ≡ take b buf ++ more
  filled_full full =
      rw (drop_all (b + n) buf (omega (arith, sized, full))) (rw (append-nil more) refl)

module _ (msg : List ℕ) (s : Sha256) (n : ℕ) (more : List ℕ) (h : Holds msg s)
    (exact : length more ≡ n) where
  split_more : msg ++ more ≡ h.whole ++ (take s.buffered s.buf ++ more)
  split_more = ap (λ m. m ++ more) h.split ∙ append_assoc h.whole (take s.buffered s.buf) more

  -- A block that is completed is compressed.
  full-Holds :
      s.buffered + n ≡ 64
      → Holds (msg ++ more) (record s {
        state = compress s.state (filled s.buffered n s.buf more);
        buf = filled s.buffered n s.buf more;
        buffered = 0;
      })
  full-Holds full =
      let block = filled s.buffered n s.buf more in
      let sized : length block ≡ 64 =
        length-filled s.buffered n s.buf more (omega (arith, full)) h.sized exact in
      record {
        k = suc h.k;
        whole = h.whole ++ block;
        blocked = length-append h.whole block ∙ omega (arith, h.blocked, sized);
        split =
            split_more
            ∙ ap (◌++◌ h.whole)
                (sym (filled_full s.buffered n s.buf more (omega (arith, full)) h.sized exact full))
            ∙ sym (append-nil (h.whole ++ block));
        compressed =
            ap (λ w. compress w block) h.compressed
            ∙ sym (blocks-append h.k initial_words h.whole block h.blocked sized);
        waiting = omega arith;
        sized = sized;
      }

  -- Otherwise it goes on to wait.
  part-Holds :
      s.buffered + n < 64
      → Holds
          (msg ++ more)
          (record s { buf = filled s.buffered n s.buf more; buffered = s.buffered + n })
  part-Holds part = record {
    k = h.k;
    whole = h.whole;
    blocked = h.blocked;
    split =
        split_more
        ∙ ap (◌++◌ h.whole)
            (sym (take-filled s.buffered n s.buf more (omega (arith, part)) h.sized exact));
    compressed = h.compressed;
    waiting = part;
    sized = length-filled s.buffered n s.buf more (omega (arith, part)) h.sized exact;
  }

-- One round of the loop: some of the input is absorbed, the rest is shorter.
record Round (msg input : List ℕ) (s : Sha256) (p : Sha256 × List ℕ) : Type 0 where
  taken : List ℕ
  cut : taken ++ p.1 ≡ input
  holds : Holds (msg ++ taken) p.0
  same_len : p.0.len ≡ s.len
  shorter : length p.1 < length input

absorb-Round :
    (msg : List ℕ) (s : Sha256) (b : ℕ) (more : List ℕ)
    → Holds msg s
    → Round msg (b ∷ more) s (absorb s (b ∷ more))
unfolding absorb
absorb-Round msg s b more h =
    let n = min (64 - s.buffered) (length (b ∷ more)) in
    let exact : length (take n (b ∷ more)) ≡ n = length-take n (b ∷ more) ∙ omega arith in
    let cut : take n (b ∷ more) ++ drop n (b ∷ more) ≡ b ∷ more = take-append-drop n (b ∷ more) in
    let shorter : length (drop n (b ∷ more)) < length (b ∷ more) =
      omega (arith, length-drop n (b ∷ more), h.waiting) in
    elim (Bool-cases (s.buffered + n == 64)) [
      | inl full ↦ rw full (record {
        taken = take n (b ∷ more);
        cut = cut;
        same_len = refl;
        shorter = shorter;
        holds = full-Holds msg s n (take n (b ∷ more)) h exact (ground arith);
      })
      | inr part ↦ rw part (record {
        taken = take n (b ∷ more);
        cut = cut;
        same_len = refl;
        shorter = shorter;
        holds = part-Holds msg s n (take n (b ∷ more)) h exact (ground (arith, h.waiting));
      })
    ]

update_loop-Holds :
    (f : ℕ) (msg input : List ℕ) (s : Sha256)
    → length input ≤ f
    → Holds msg s
    → (s' : Sha256) × (update_loop f s input ≡ some s') × Holds (msg ++ input) s' × (s'.len ≡ s.len)
unfolding update_loop
update_loop-Holds zero msg [] s le h = (s, refl, rw (append-nil msg) h, refl)
update_loop-Holds (suc f) msg [] s le h = (s, refl, rw (append-nil msg) h, refl)
update_loop-Holds zero msg (b ∷ input) s le h = absurd (omega arith)
update_loop-Holds (suc f) msg (b ∷ input) s le h =
    let r = absorb-Round msg s b input h in
    let (s', rest) = absorb s (b ∷ input) in
    let (t, e, holds, same) =
      update_loop-Holds f (msg ++ r.taken) rest s' (omega (arith, r.shorter)) r.holds in
    (
      t,
      e,
      subst (λ m. Holds m t) (append_assoc msg r.taken rest ∙ ap (◌++◌ msg) r.cut) holds,
      same ∙ r.same_len,
    )

-- The hasher has absorbed `msg`, and nothing else.
pub record Absorbed (msg : List ℕ) (s : Sha256) : Type 0 where
  pub holds : Holds msg s
  pub counted : s.len ≡ length msg % u64_mod

pub new-Absorbed : Absorbed [] new
unfolding new blocks
new-Absorbed = record {
  holds = record {
    k = 0;
    whole = [];
    blocked = refl;
    split = refl;
    compressed = refl;
    waiting = omega arith;
    sized = refl;
  };
  counted = refl;
}

pub update-Absorbed :
    (msg input : List ℕ) (s : Sha256)
    → Absorbed msg s
    → (s' : Sha256) × (update s input ≡ some s') × Absorbed (msg ++ input) s'
unfolding update
update-Absorbed msg input s h =
    let counted : Sha256 = record s { len = (s.len + length input) % u64_mod } in
    let held : Holds msg counted = record {
      k = h.holds.k;
      whole = h.holds.whole;
      blocked = h.holds.blocked;
      split = h.holds.split;
      compressed = h.holds.compressed;
      waiting = h.holds.waiting;
      sized = h.holds.sized;
    } in
    let (t, e, holds, same) =
      update_loop-Holds (length input) msg input counted (omega arith) held in
    (
      t,
      e,
      record { holds = holds; counted = same ∙ omega (arith, h.counted, length-append msg input) },
    )

-- Where the buffer stands.
pub buffered_mod : (msg : List ℕ) (s : Sha256) → Holds msg s → s.buffered ≡ length msg % 64
buffered_mod msg s h =
    let e : length msg ≡ length h.whole + length (take s.buffered s.buf) =
      ap length h.split ∙ length-append h.whole (take s.buffered s.buf) in
    omega (arith, e, h.blocked, h.waiting, h.sized, length-take s.buffered s.buf)
