-- ===== src/Session/Doc/Pin.antt =====
-- The PIN of crates/moonlight-core/src/session.rs: `random_pin`.
use tempest_addon_moonlight.Base.{
  ℕ, zero, suc, ◌+◌, ◌-◌, ◌*◌, ◌/◌, ◌%◌, ◌^◌, ◌≤◌, ◌<◌, ◌≡◌, refl, ◌∙◌, true, inl, inr, Bool-cases,
  some, List, [], ◌∷◌, ◌++◌, length, length-append, length-replicate, replicate, arith, Text,
  decimal, decimal_loop, from_be_bytes, ltb,
}
use native.Mathlib.Nat.{pow-suc}
use tempest_addon_moonlight.Session.Doc.{pin_text}
use tempest_addon_moonlight.Str.Number.{
  parse_uint, parse_digits, parse_digits-decimal_loop, parse_digits-nil, parse_uint-cons,
  parse_uint-decimal,
}

-- A number below 10^(k+1) has at most k+1 digits.
length-decimal_loop :
    (k f n : ℕ) (t : Text) → n ≤ f → n < 10 ^ suc k → length (decimal_loop f n t) ≤ suc k + length t
unfolding decimal_loop
length-decimal_loop k zero n t h b = ground arith
length-decimal_loop zero (suc f) n t h b =
    let small : ltb n 10 ≡ true = ground arith in rw small (omega arith)
length-decimal_loop (suc k) (suc f) n t h b = elim (Bool-cases (ltb n 10)) [
  | inl small ↦ rw small (omega arith)
  | inr large ↦
      let p : 10 ^ suc (suc k) ≡ 10 ^ suc k * 10 = pow-suc 10 (suc k) in
      let shorter =
        length-decimal_loop k f (n / 10) ((b'0' + n % 10) ∷ t) (ground arith) (omega (arith, p)) in
      rw large (omega (arith, shorter))
]

-- Leading zeros add nothing.
parse_digits-zeros :
    (top j : ℕ) (s : Text) → parse_digits top 0 (replicate j b'0' ++ s) ≡ parse_digits top 0 s
unfolding parse_digits
parse_digits-zeros top zero s = refl
parse_digits-zeros top (suc j) s = ground (arith, parse_digits-zeros top j s)

parse_digits-decimal : (top n : ℕ) → n ≤ top → parse_digits top 0 (decimal n) ≡ some n
unfolding decimal
parse_digits-decimal top n h =
    parse_digits-decimal_loop top n n [] (omega arith) h ∙ parse_digits-nil top n

padded : (top j n : ℕ) → n ≤ top → parse_uint top (replicate j b'0' ++ decimal n) ≡ some n
padded top zero n h = parse_uint-decimal top n h
padded top (suc j) n h =
    parse_uint-cons top b'0' (replicate j b'0' ++ decimal n) (omega arith)
    ∙ parse_digits-zeros top (suc j) (decimal n)
    ∙ parse_digits-decimal top n h

-- Whatever the random bytes are, the PIN that the user is shown has exactly four characters, and it
-- reads as the number that they stand for modulo 10000.
pub pin_text_lem :
    (b : List ℕ)
    → (length (pin_text b) ≡ 4) × (parse_uint 9999 (pin_text b) ≡ some (from_be_bytes b % 10000))
unfolding pin_text
pin_text_lem b = (four, padded 9999 (4 - length d) n (omega arith))
  where
    n : ℕ
    n = from_be_bytes b % 10000

    d : Text
    d = decimal n

    short : length d ≤ 4
    short = unfold decimal in length-decimal_loop 3 n n [] (omega arith) (omega arith)

    four : length (replicate (4 - length d) b'0' ++ d) ≡ 4
    four =
        length-append {A = ℕ} (replicate (4 - length d) b'0') d
        ∙ rw (length-replicate {A = ℕ} (4 - length d) b'0') (omega (arith, short))
