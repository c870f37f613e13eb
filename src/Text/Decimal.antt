-- ===== src/Text/Decimal.antt =====
-- `std::to_string` and `std::stoi` for an `int` of 32 bits.
use csf_hw.Prelude.{
  ap, ℕ, zero, suc, ◌+◌, ◌-◌, ◌*◌, ◌/◌, ◌%◌, ◌^◌, ◌<◌, ◌≡◌, refl, ◌∙◌, Bool, true, ◌&&◌, ◌||◌, [],
  ◌∷◌, Option, none, some, ℤ, pos, negsuc, ltb, leb, ◌==◌, if◌then◌else◌, arith, Bool-cases, inl,
  inr,
}
use csf_hw.Text.{Str}

-- The digits of a number in front of `acc`; each round divides by ten, so `n + 1` rounds are
-- enough.
unfoldable pub digits_loop : ℕ → ℕ → Str → Str
digits_loop zero n acc = acc
digits_loop (suc rounds) n acc =
    let acc' = (n % 10 + b'0') ∷ acc in
    let rest = digits_loop rounds (n / 10) acc' in if n / 10 == 0 then acc' else rest

unfoldable pub to_string : ℤ → Str
unfolding digits_loop
to_string (pos n) = digits_loop (suc n) n []
to_string (negsuc n) = b'-' ∷ digits_loop (suc (suc n)) (suc n) []

unfoldable pub is_digit : ℕ → Bool
is_digit c = leb b'0' c && leb c b'9'

unfoldable pub is_space : ℕ → Bool
is_space c = c == b' ' || leb 9 c && leb c 13

-- The value of the digits in front, on top of those read before.
unfoldable pub read_digits : ℕ → Str → ℕ
unfolding is_digit
read_digits n [] = n
read_digits n (c ∷ s) =
    let rest = read_digits (n * 10 + (c - b'0')) s in if is_digit c then rest else n

-- Digits are wanted; `none` is the exception `std::invalid_argument` or `std::out_of_range`.
unfoldable pub read_nat : Str → Option ℕ
read_nat [] = none
read_nat (c ∷ s) = if is_digit c then some (read_digits 0 (c ∷ s)) else none

abbrev pub in_range : ℤ → Option ℤ
in_range (pos n) = if ltb n (2 ^ 31) then some (pos n) else none
in_range (negsuc n) = if ltb n (2 ^ 31) then some (negsuc n) else none

abbrev pub negate : ℕ → ℤ
negate zero = pos 0
negate (suc n) = negsuc n

abbrev pub check_range : Option ℕ → (ℕ → ℤ) → Option ℤ
check_range none sign = none
check_range (some n) sign = in_range (sign n)

unfoldable pub stoi : Str → Option ℤ
unfolding is_space
stoi [] = none
stoi (c ∷ s) =
    let rest = stoi s in
    if is_space c
    then rest
    else if c == b'-'
    then check_range (read_nat s) negate
    else if c == b'+'
    then check_range (read_nat s) pos
    else check_range (read_nat (c ∷ s)) pos

read_digits-cons :
    (d n : ℕ) (s : Str) → d < 10 → read_digits n ((d + b'0') ∷ s) ≡ read_digits (n * 10 + d) s
unfolding read_digits
read_digits-cons d n s h = ground arith

-- Reading what was written gives the number, with any text behind it.
read_digits-digits_loop :
    (f n : ℕ) (s : Str) → n < f → read_digits 0 (digits_loop f n s) ≡ read_digits n s
unfolding digits_loop
read_digits-digits_loop zero n s h = absurd (omega arith)
read_digits-digits_loop (suc f) n s h = elim (Bool-cases (n / 10 == 0)) [
  | inl last ↦
      rw (last, read_digits-cons (n % 10) 0 s (omega arith))
        (ap (λ k. read_digits k s) (ground arith))
  | inr more ↦ rw more (
      read_digits-digits_loop f (n / 10) ((n % 10 + b'0') ∷ s) (ground arith)
      ∙ read_digits-cons (n % 10) (n / 10) s (omega arith)
      ∙ ap (λ k. read_digits k s) (omega arith))
]

-- A number begins with a digit.
digits_loop-digit :
    (f n : ℕ) (s : Str)
    → n < f
    → (c : ℕ) × (rest : Str) × (digits_loop f n s ≡ c ∷ rest) × (is_digit c ≡ true)
unfolding digits_loop is_digit
digits_loop-digit zero n s h = absurd (omega arith)
digits_loop-digit (suc f) n s h = elim (Bool-cases (n / 10 == 0)) [
  | inl last ↦ (n % 10 + b'0', s, rw last, ground arith)
  | inr more ↦ rw more (digits_loop-digit f (n / 10) ((n % 10 + b'0') ∷ s) (ground arith))
]

read_nat_digit :
    (s : Str) (c : ℕ) (rest : Str)
    → s ≡ c ∷ rest
    → is_digit c ≡ true
    → read_nat s ≡ some (read_digits 0 s)
unfolding read_nat
read_nat_digit s c rest e digit = rw e (rw digit refl)

read_nat-digits_loop : (f n : ℕ) → n < f → read_nat (digits_loop f n []) ≡ some n
unfolding read_digits
read_nat-digits_loop f n h =
    let (c, rest, e, digit) = digits_loop-digit f n [] h in
    read_nat_digit (digits_loop f n []) c rest e digit ∙ ap some (read_digits-digits_loop f n [] h)

stoi_digit :
    (s : Str) (c : ℕ) (rest : Str)
    → s ≡ c ∷ rest
    → is_digit c ≡ true
    → stoi s ≡ check_range (read_nat s) pos
unfolding stoi is_space is_digit
stoi_digit s c rest e digit = rw e (ground arith)

-- An `int` survives being printed and read.
pub stoi-to_string : (z : ℤ) → in_range z ≡ some z → stoi (to_string z) ≡ some z
unfolding to_string stoi
stoi-to_string (pos n) h =
    let (c, rest, e, digit) = digits_loop-digit (suc n) n [] (omega arith) in
    stoi_digit (digits_loop (suc n) n []) c rest e digit
    ∙ rw (read_nat-digits_loop (suc n) n (omega arith)) h
stoi-to_string (negsuc n) h = rw (read_nat-digits_loop (suc (suc n)) (suc n) (omega arith)) h

stoi_run : stoi (to_string (negsuc 41)) ≡ some (negsuc 41)
unfolding stoi to_string read_nat read_digits is_digit
stoi_run = refl
