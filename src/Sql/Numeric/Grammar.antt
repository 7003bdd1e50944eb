-- ===== src/Sql/Numeric/Grammar.antt =====
-- The grammar of a SQL numeric literal, against the scan of `is_numeric_literal`.

use mathlib.Core.List.{reverse-append, reverse-reverse, reverse_aux}
use frostlake_pdo.Libc.{isdigit}
use frostlake_pdo.Prelude.{
  ==_iff, All, Bool, Bool-cases, Bytes, [], ap, append-nil, ap₂, arith, false≢true, inl, inr,
  length, not, refl, reverse, subst, sym, true, ℕ, ◌++◌, ◌+◌, ◌<◌, ◌==◌, ◌||◌, ◌∙◌, ◌∷◌, ◌≡◌,
}
use frostlake_pdo.Sql.Numeric.{
  after_sign, exponent_ok, fraction, is_blank, is_empty, is_numeric_literal, is_sign, mantissa_ok,
  number_ok, span, trim_end,
}

abbrev pub Digits : Bytes → Type 0
Digits s = All (λ c. isdigit c ≡ true) s

abbrev pub Blanks : Bytes → Type 0
Blanks s = All (λ c. is_blank c ≡ true) s

pub data Sign : Bytes → Type 0 where
  no_sign : Sign []
  signed : {c : ℕ} → is_sign c ≡ true → Sign (c ∷ [])

-- A point and digits, or neither.
pub data Fraction : Bytes → Bytes → Type 0 where
  no_fraction : Fraction [] []
  fraction_of : {digits : Bytes} → Digits digits → Fraction digits (b'.' ∷ digits)

pub data Exponent : Bytes → Type 0 where
  no_exponent : Exponent []
  exponent_of :
      (c : ℕ) (sign digits : Bytes)
      → (c == b'e' || c == b'E') ≡ true
      → Sign sign
      → Digits digits
      → 0 < length digits
      → Exponent (c ∷ (sign ++ digits))

-- Digits with at most one point, at least one digit, and an exponent if there is one.
pub data Mantissa : Bytes → Type 0 where
  mantissa_of :
      (whole part fraction_text exponent : Bytes)
      → Digits whole
      → Fraction part fraction_text
      → 0 < length whole + length part
      → Exponent exponent
      → Mantissa (whole ++ (fraction_text ++ exponent))

pub data IsNumber : Bytes → Type 0 where
  number_of :
      (lead sign mantissa trail : Bytes)
      → Blanks lead
      → Sign sign
      → Mantissa mantissa
      → Blanks trail
      → IsNumber (lead ++ ((sign ++ mantissa) ++ trail))

span_parts :
    (test : ℕ → Bool) (s : Bytes)
    → ((span test s).0 ++ (span test s).1 ≡ s) × All (λ c. test c ≡ true) (span test s).0
unfolding span
span_parts test [] = (refl, tt)
span_parts test (c ∷ s) = elim (Bool-cases (test c)) [
  | inl e ↦ rw e (ap (◌∷◌ c) (span_parts test s).0, (e, (span_parts test s).1))
  | inr e ↦ rw e (refl, tt)
]

after_sign_parts : (s : Bytes) → (sign : Bytes) × Sign sign × (sign ++ after_sign s ≡ s)
unfolding after_sign
after_sign_parts [] = ([], no_sign, refl)
after_sign_parts (c ∷ s) = elim (Bool-cases (is_sign c)) [
  | inl e ↦ (c ∷ [], signed e, rw e)
  | inr e ↦ ([], no_sign, rw e)
]

is_empty-nil : (s : Bytes) → is_empty s ≡ true → s ≡ []
is_empty-nil [] e = refl
is_empty-nil (c ∷ s) e = absurd (false≢true e)

not-is_empty-pos : (s : Bytes) → not (is_empty s) ≡ true → 0 < length s
not-is_empty-pos [] e = absurd (false≢true e)
not-is_empty-pos (c ∷ s) e = omega arith

-- Where nothing is left, everything was passed over.
span-all : (test : ℕ → Bool) (s : Bytes) → is_empty (span test s).1 ≡ true → (span test s).0 ≡ s
span-all test s e =
    sym (append-nil (span test s).0)
    ∙ ap (◌++◌ (span test s).0) (sym (is_empty-nil (span test s).1 e))
    ∙ (span_parts test s).0

Exponent-of_parts :
    (c : ℕ) (s : Bytes)
    → (c == b'e' || c == b'E') ≡ true
    → not (is_empty (span isdigit (after_sign s)).0) ≡ true
    → is_empty (span isdigit (after_sign s)).1 ≡ true
    → Exponent (c ∷ s)
Exponent-of_parts c s letter some_digit no_more =
    let (sign, has_sign, whole) = after_sign_parts s in
    let digits = (span isdigit (after_sign s)).0 in
    subst (λ t. Exponent (c ∷ t)) (ap (◌++◌ sign) (span-all isdigit (after_sign s) no_more) ∙ whole)
      (exponent_of c sign digits letter has_sign (span_parts isdigit (after_sign s)).1
        (not-is_empty-pos digits some_digit))

exponent_ok-Exponent : (s : Bytes) → exponent_ok s ≡ true → Exponent s
unfolding exponent_ok
exponent_ok-Exponent [] e = no_exponent
exponent_ok-Exponent (c ∷ s) e = Exponent-of_parts c s (ground arith) (ground arith) (ground arith)

fraction_parts :
    (s : Bytes) → (text : Bytes) × Fraction (fraction s).0 text × (text ++ (fraction s).1 ≡ s)
unfolding fraction
fraction_parts [] = ([], no_fraction, refl)
fraction_parts (c ∷ s) = elim (Bool-cases (c == b'.')) [
  | inl e ↦ rw e (
    b'.' ∷ (span isdigit s).0,
    fraction_of (span_parts isdigit s).1,
    ap₂ ◌∷◌ (sym ((==_iff c b'.').0 e)) (span_parts isdigit s).0,
  )
  | inr e ↦ rw e ([], no_fraction, refl)
]

mantissa_ok-Mantissa : (s : Bytes) → mantissa_ok s ≡ true → Mantissa s
unfolding mantissa_ok
mantissa_ok-Mantissa s e =
    let (whole, behind) = span isdigit s in
    let (text, has_fraction, made) = fraction_parts behind in
    subst Mantissa (ap (◌++◌ whole) made ∙ (span_parts isdigit s).0) (
      mantissa_of whole (fraction behind).0 text (fraction behind).1 (span_parts isdigit s).1
        has_fraction (ground arith) (exponent_ok-Exponent (fraction behind).1 (ground arith)))

pub All-reverse_aux : (P : ℕ → Type 0) (s r : Bytes) → All P s → All P r → All P (reverse_aux s r)
All-reverse_aux P [] r hs hr = hr
All-reverse_aux P (c ∷ s) r (hc, hs) hr = All-reverse_aux P s (c ∷ r) hs (hc, hr)

trim_end_parts : (s : Bytes) → (trail : Bytes) × Blanks trail × (trim_end s ++ trail ≡ s)
unfolding trim_end
trim_end_parts s =
    let (passed, left) = span is_blank (reverse s) in
    (
      reverse passed,
      All-reverse_aux _ passed [] (span_parts is_blank (reverse s)).1 tt,
      sym (reverse-append passed left)
          ∙ ap reverse (span_parts is_blank (reverse s)).0
          ∙ reverse-reverse s,
    )

number_ok-parts :
    (t : Bytes)
    → number_ok t ≡ true
    → (sign : Bytes) × (mantissa : Bytes) × Sign sign × Mantissa mantissa × (sign ++ mantissa ≡ t)
unfolding number_ok
number_ok-parts [] e = absurd (false≢true e)
number_ok-parts (c ∷ s) e =
    let (sign, has_sign, whole) = after_sign_parts (c ∷ s) in
    (sign, after_sign (c ∷ s), has_sign, mantissa_ok-Mantissa _ e, whole)

-- A text that lands in the statement unquoted is a number of the grammar: what `is_numeric_literal`
-- accepts is an optional sign, digits with at most one point and at least one digit, and an optional
-- exponent, with blanks around it.
pub is_numeric_literal-IsNumber : (s : Bytes) → is_numeric_literal s ≡ true → IsNumber s
unfolding is_numeric_literal
is_numeric_literal-IsNumber s e =
    let (lead, rest) = span is_blank s in
    let (trail, has_trail, trimmed) = trim_end_parts rest in
    let (sign, mantissa, has_sign, has_mantissa, made) = number_ok-parts (trim_end rest) e in
    subst IsNumber
      (ap (λ t. lead ++ (t ++ trail)) made ∙ ap (◌++◌ lead) trimmed ∙ (span_parts is_blank s).0)
      (number_of lead sign mantissa trail (span_parts is_blank s).1 has_sign has_mantissa has_trail)
