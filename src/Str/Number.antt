-- ===== src/Str/Number.antt =====
-- Decimal numbers: `str::parse` of an unsigned integer against the printing of `format!`.
use tempest_addon_moonlight.Base.{
  ℕ, zero, suc, ◌+◌, ◌-◌, ◌*◌, ◌/◌, ◌%◌, ◌≤◌, ◌≡◌, ◌≢◌, refl, ◌∙◌, inl, inr, Bool-cases, Bool, ◌&&◌,
  Option, none, some, [], ◌∷◌, arith, Text, ◌==◌, ltb, leb, if◌then◌else◌, decimal, decimal_loop,
  All,
}

is_digit : ℕ → Bool
is_digit c = leb b'0' c && leb c b'9'

-- `checked_mul` and `checked_add` against the largest value of the type.
unfoldable pub parse_digits : ℕ → ℕ → Text → Option ℕ
unfolding is_digit
parse_digits top acc [] = some acc
parse_digits top acc (c ∷ cs) =
    let acc' = acc * 10 + (c - b'0') in
    let rest = parse_digits top acc' cs in
    if is_digit c then (if leb acc' top then rest else none) else none

-- A leading `+` is taken, and the empty text and a sign alone are refused.
unfoldable pub parse_uint : ℕ → Text → Option ℕ
unfolding parse_digits
parse_uint top [] = none
parse_uint top (c ∷ []) = parse_digits top 0 (c ∷ [])
parse_uint top (c ∷ (d ∷ ds)) =
    if c == b'+' then parse_digits top 0 (d ∷ ds) else parse_digits top 0 (c ∷ (d ∷ ds))

pub parse_digits-decimal_loop :
    (top f n : ℕ) (t : Text)
    → n ≤ f
    → n ≤ top
    → parse_digits top 0 (decimal_loop f n t) ≡ parse_digits top n t
unfolding parse_digits decimal_loop
parse_digits-decimal_loop top zero n t hf ht = ground arith
parse_digits-decimal_loop top (suc f) n t hf ht =
    ground (arith, parse_digits-decimal_loop top f (n / 10) ((b'0' + n % 10) ∷ t))

decimal_loop-head :
    (f n : ℕ) (t : Text) → n ≤ f → (d : ℕ) × (r : Text) × (decimal_loop f n t ≡ d ∷ r) × (d ≢ b'+')
unfolding decimal_loop
decimal_loop-head zero n t h = (b'0' + n, t, refl, omega arith)
decimal_loop-head (suc f) n t h = elim (Bool-cases (ltb n 10)) [
  | inl small ↦ (b'0' + n, t, rw small, omega arith)
  | inr large ↦
      let (d, r, e, ne) = decimal_loop-head f (n / 10) ((b'0' + n % 10) ∷ t) (ground arith) in
      (d, r, rw large e, ne)
]

pub parse_uint-cons :
    (top d : ℕ) (r : Text) → d ≢ b'+' → parse_uint top (d ∷ r) ≡ parse_digits top 0 (d ∷ r)
unfolding parse_uint
parse_uint-cons top d [] h = refl
parse_uint-cons top d (c ∷ r) h = ground arith

pub parse_digits-nil : (top n : ℕ) → parse_digits top n [] ≡ some n
unfolding parse_digits
parse_digits-nil top n = refl

-- A number that the type holds is read back from its decimal text.
pub parse_uint-decimal : (top n : ℕ) → n ≤ top → parse_uint top (decimal n) ≡ some n
unfolding decimal
parse_uint-decimal top n h =
    let (d, r, e, ne) = decimal_loop-head n n [] (omega arith) in
    rw e (
      parse_uint-cons top d r ne
      ∙ rw (← e) (parse_digits-decimal_loop top n n [] (omega arith) h ∙ parse_digits-nil top n))

parse_digits-le :
    (top acc : ℕ) (s : Text) (n : ℕ) → acc ≤ top → parse_digits top acc s ≡ some n → n ≤ top
unfolding parse_digits
parse_digits-le top acc [] n h e = ground arith
parse_digits-le top acc (c ∷ cs) n h e =
    ground (arith, parse_digits-le top (acc * 10 + (c - b'0')) cs n)

-- What is read is a value of the type.
pub parse_uint-le : (top : ℕ) (s : Text) (n : ℕ) → parse_uint top s ≡ some n → n ≤ top
unfolding parse_uint
parse_uint-le top [] n e = ground arith
parse_uint-le top (c ∷ []) n e = parse_digits-le top 0 (c ∷ []) n (omega arith) e
parse_uint-le top (c ∷ (d ∷ ds)) n e =
    ground (arith, parse_digits-le top 0 (d ∷ ds) n, parse_digits-le top 0 (c ∷ (d ∷ ds)) n)

abbrev pub IsDigit : ℕ → Type 0
IsDigit c = (b'0' ≤ c) × (c ≤ b'9')

decimal_loop-IsDigit :
    (f n : ℕ) (t : Text) → n ≤ f → All IsDigit t → All IsDigit (decimal_loop f n t)
unfolding decimal_loop
decimal_loop-IsDigit zero n t le h = ((omega arith, omega arith), h)
decimal_loop-IsDigit (suc f) n t le h =
    let more : All IsDigit (decimal_loop f (n / 10) ((b'0' + n % 10) ∷ t)) =
      decimal_loop-IsDigit f (n / 10) _ (omega arith) ((omega arith, omega arith), h) in
    elim (Bool-cases (ltb n 10)) [
      | inl e ↦ rw e ((ground arith, ground arith), h)
      | inr e ↦ rw e more
    ]

pub decimal-IsDigit : (n : ℕ) → All IsDigit (decimal n)
unfolding decimal
decimal-IsDigit n = decimal_loop-IsDigit n n [] (omega arith) tt
