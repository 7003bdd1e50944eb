-- ===== src/Libc/Digits.antt =====
-- What `%ld` writes is a run of digits.
use frostlake_pdo.Libc.{
  decimal, decimal_digits, decimal_nat, digits_value, isdigit, isspace, long_max, saturate, strtol,
}
use frostlake_pdo.Prelude.{
  All, Bool-cases, Bytes, [], ap, arith, false, inl, inr, ltb, negsuc, pos, refl, subst, suc, sym,
  true, zero, ℕ, ℤ, ◌%◌, ◌*◌, ◌++◌, ◌+◌, ◌-◌, ◌/◌, ◌<◌, ◌==◌, ◌∙◌, ◌∷◌, ◌≡◌, ◌≤◌,
}

pub data DigitRun : Bytes → Type 0 where
  digit_run :
      {c : ℕ} {s : Bytes} → isdigit c ≡ true → All (λ b. isdigit b ≡ true) s → DigitRun (c ∷ s)

digit_cons :
    (n : ℕ) (out : Bytes) → n < 10 → All (λ b. isdigit b ≡ true) out → DigitRun ((b'0' + n) ∷ out)
digit_cons n out h all = digit_run (ground arith) all

digit_byte : (n : ℕ) → isdigit (b'0' + n % 10) ≡ true
digit_byte n = ground arith

decimal_digits-DigitRun :
    (f n c : ℕ) (out : Bytes)
    → isdigit c ≡ true
    → All (λ b. isdigit b ≡ true) out
    → DigitRun (decimal_digits f n (c ∷ out))
unfolding decimal_digits
decimal_digits-DigitRun zero n c out hc all = digit_run hc all
decimal_digits-DigitRun (suc f) n c out hc all = elim (Bool-cases (ltb n 10)) [
  | inl small ↦ rw small (digit_cons n (c ∷ out) (ground arith) (hc, all))
  | inr large ↦ rw large (decimal_digits-DigitRun f (n / 10) _ (c ∷ out) (digit_byte n) (hc, all))
]

pub decimal_nat-DigitRun : (n : ℕ) → DigitRun (decimal_nat n)
unfolding decimal_nat decimal_digits
decimal_nat-DigitRun n = elim (Bool-cases (ltb n 10)) [
  | inl small ↦ rw small (digit_cons n [] (ground arith) tt)
  | inr large ↦ rw large (decimal_digits-DigitRun n (n / 10) _ [] (digit_byte n) tt)
]

digits_value-cons :
    (n d : ℕ) (out : Bytes)
    → d < 10
    → digits_value n ((b'0' + d) ∷ out) ≡ digits_value (n * 10 + d) out
unfolding digits_value
digits_value-cons n d out h = ground arith

digits_value-decimal_digits :
    (f n : ℕ) (out : Bytes) → n < f → digits_value 0 (decimal_digits f n out) ≡ digits_value n out
unfolding decimal_digits
digits_value-decimal_digits zero n out h = absurd (omega arith)
digits_value-decimal_digits (suc f) n out h = elim (Bool-cases (ltb n 10)) [
  | inl small ↦
      rw small
        (digits_value-cons 0 n out (ground arith) ∙ ap (λ m. digits_value m out) (omega arith))
  | inr large ↦ rw large (
      digits_value-decimal_digits f (n / 10) ((b'0' + n % 10) ∷ out) (ground arith)
      ∙ digits_value-cons (n / 10) (n % 10) out (omega arith)
      ∙ ap (λ m. digits_value m out) (omega arith))
]

pub digits_value-decimal_nat : (n : ℕ) → digits_value 0 (decimal_nat n) ≡ n
unfolding decimal_nat digits_value
digits_value-decimal_nat n = digits_value-decimal_digits (suc n) n [] (omega arith)

digit-not_space : (c : ℕ) → isdigit c ≡ true → isspace c ≡ false
digit-not_space c h = ground arith

digit-not_minus : (c : ℕ) → isdigit c ≡ true → (c == b'-') ≡ false
digit-not_minus c h = ground arith

digit-not_plus : (c : ℕ) → isdigit c ≡ true → (c == b'+') ≡ false
digit-not_plus c h = ground arith

ltb_ge : (a b : ℕ) → b ≤ a → ltb a b ≡ false
ltb_ge a b h = ground arith

saturate_pos : (n : ℕ) → n ≤ long_max → saturate false n ≡ pos n
saturate_pos n h = rw (ltb_ge long_max n h)

suc_not_zero : (n : ℕ) → (suc n == 0) ≡ false
suc_not_zero n = ground arith

saturate_neg : (n : ℕ) → n ≤ long_max → saturate true (suc n) ≡ negsuc n
saturate_neg n h = elim (Bool-cases (ltb long_max (suc n))) [
  | inl above ↦ rw (suc_not_zero n, above) (ap negsuc (ground arith))
  | inr fits ↦ rw (suc_not_zero n, fits) (ap negsuc (omega arith))
]

strtol-DigitRun :
    {s : Bytes} → DigitRun s → digits_value 0 s ≤ long_max → strtol s ≡ pos (digits_value 0 s)
unfolding strtol
strtol-DigitRun (digit_run {c} {s} hc all) h =
    rw (digit-not_space c hc, strtol)
      (rw (digit-not_minus c hc) (rw (digit-not_plus c hc) (saturate_pos _ h)))

strtol-minus :
    (n : ℕ) (s : Bytes) → digits_value 0 s ≡ suc n → n ≤ long_max → strtol (b'-' ∷ s) ≡ negsuc n
unfolding strtol
strtol-minus n s e h = rw e (saturate_neg n h)

-- The integers of a `long`.
abbrev pub InLong : ℤ → Type 0
InLong (pos n) = n ≤ long_max
InLong (negsuc n) = n ≤ long_max

pub strtol-decimal : (n : ℤ) → InLong n → strtol (decimal n) ≡ n
unfolding decimal
strtol-decimal (pos n) h =
    strtol-DigitRun (decimal_nat-DigitRun n)
      (subst (λ m. m ≤ long_max) (sym (digits_value-decimal_nat n)) h)
    ∙ ap pos (digits_value-decimal_nat n)
strtol-decimal (negsuc n) h =
    strtol-minus n (decimal_nat (suc n)) (digits_value-decimal_nat (suc n)) h

-- Where a run of digits ends.
pub data DigitStop : Bytes → Type 0 where
  stops_at_end : DigitStop []
  stops_at : {c : ℕ} {s : Bytes} → isdigit c ≡ false → DigitStop (c ∷ s)

digits_value-append :
    (n : ℕ) (s rest : Bytes)
    → All (λ c. isdigit c ≡ true) s
    → DigitStop rest
    → digits_value n (s ++ rest) ≡ digits_value n s
unfolding digits_value
digits_value-append n [] _ h stops_at_end = refl
digits_value-append n [] _ h (stops_at e) = rw e refl
digits_value-append n (c ∷ s) rest h stop =
    rw h.0 (digits_value-append (n * 10 + (c - b'0')) s rest h.1 stop)

strtol-run :
    {s : Bytes} (rest : Bytes)
    → DigitRun s
    → DigitStop rest
    → digits_value 0 s ≤ long_max
    → strtol (s ++ rest) ≡ pos (digits_value 0 s)
unfolding strtol
strtol-run rest (digit_run {c} {s} hc all) stop h =
    rw (digit-not_space c hc, strtol)
      (rw (digit-not_minus c hc) (
        rw (digit-not_plus c hc) (
          ap (saturate false) (digits_value-append 0 (c ∷ s) rest (hc, all) stop)
          ∙ saturate_pos _ h)))

-- A number in decimal is read up to what follows it.
pub strtol-decimal_nat :
    (n : ℕ) (rest : Bytes) → n ≤ long_max → DigitStop rest → strtol (decimal_nat n ++ rest) ≡ pos n
strtol-decimal_nat n rest h stop =
    strtol-run rest (decimal_nat-DigitRun n) stop
      (subst (λ m. m ≤ long_max) (sym (digits_value-decimal_nat n)) h)
    ∙ ap pos (digits_value-decimal_nat n)
