-- ===== src/Sql/Numeric/Accepts.antt =====
-- `is_numeric_literal` accepts every number of the grammar.

use mathlib.Core.List.{reverse-append, reverse-reverse}
use frostlake_pdo.Libc.{isdigit}
use frostlake_pdo.Prelude.{
  All, All-append, Bool, Bytes, [], ap, append-nil, arith, false, length, lengths, refl, reverse,
  sym, true, ℕ, ◌++◌, ◌<◌, ◌==◌, ◌||◌, ◌↔◌, ◌∙◌, ◌∷◌, ◌≡◌,
}
use frostlake_pdo.Sql.Numeric.{
  after_sign, exponent_ok, fraction, is_blank, is_empty, is_numeric_literal, is_sign, mantissa_ok,
  number_ok, span, trim_end,
}
use frostlake_pdo.Sql.Numeric.Grammar.{
  All-reverse_aux, Blanks, Digits, Exponent, Fraction, IsNumber, Mantissa, Sign, exponent_of,
  fraction_of, is_numeric_literal-IsNumber, mantissa_of, no_exponent, no_fraction, no_sign,
  number_of, signed,
}

-- Nothing that `test` takes stands here.
abbrev Halts : (ℕ → Bool) → Bytes → Type 0
Halts test [] = Unit
Halts test (c ∷ _) = test c ≡ false

span-append :
    (test : ℕ → Bool) (s rest : Bytes)
    → All (λ c. test c ≡ true) s
    → Halts test rest
    → span test (s ++ rest) ≡ (s, rest)
unfolding span
span-append test [] [] all h = refl
span-append test [] (c ∷ rest) all h = rw h
span-append test (c ∷ s) rest (hc, all) h = rw (hc, span-append test s rest all h)

span-nil : (test : ℕ → Bool) (s : Bytes) → All (λ c. test c ≡ true) s → span test s ≡ (s, [])
span-nil test s all = ap (span test) (sym (append-nil s)) ∙ span-append test s [] all tt

-- The bytes of a number.
abbrev is_number_part : ℕ → Bool
is_number_part c = isdigit c || is_sign c || c == b'.' || c == b'e' || c == b'E'

abbrev Parts : Bytes → Type 0
Parts s = All (λ c. is_number_part c ≡ true) s

Digits-Parts : (s : Bytes) → Digits s → Parts s
Digits-Parts [] all = tt
Digits-Parts (c ∷ s) (hc, all) = (ground arith, Digits-Parts s all)

Sign-Parts : {s : Bytes} → Sign s → Parts s
Sign-Parts no_sign = tt
Sign-Parts (signed h) = ground arith

Exponent-Parts : {s : Bytes} → Exponent s → Parts s
Exponent-Parts no_exponent = tt
Exponent-Parts (exponent_of c sign digits hc hs hd pos_digits) =
    (ground arith, All-append _ sign digits (Sign-Parts hs) (Digits-Parts digits hd))

Fraction-Parts : {part s : Bytes} → Fraction part s → Parts s
Fraction-Parts no_fraction = tt
Fraction-Parts (fraction_of {digits} hd) = (refl, Digits-Parts digits hd)

Mantissa-Parts : {s : Bytes} → Mantissa s → Parts s
Mantissa-Parts (mantissa_of whole part text exponent hw hf some_digit he) =
    All-append _ whole (text ++ exponent) (Digits-Parts whole hw)
      (All-append _ text exponent (Fraction-Parts hf) (Exponent-Parts he))

after_sign-append :
    {sign : Bytes} (s : Bytes) → Sign sign → Halts is_sign s → after_sign (sign ++ s) ≡ s
unfolding after_sign
after_sign-append [] no_sign h = refl
after_sign-append (c ∷ s) no_sign h = rw h
after_sign-append s (signed e) h = rw e

Digits-Halts : (s : Bytes) → Digits s → Halts is_sign s
Digits-Halts [] all = tt
Digits-Halts (c ∷ s) (hc, all) = ground arith

is_empty-pos : (s : Bytes) → 0 < length s → is_empty s ≡ false
is_empty-pos [] h = absurd (omega arith)
is_empty-pos (c ∷ s) h = refl

exponent_ok-of : {s : Bytes} → Exponent s → exponent_ok s ≡ true
unfolding exponent_ok
exponent_ok-of no_exponent = refl
exponent_ok-of (exponent_of c sign digits hc hs hd some_digit) = rw (
  hc,
  after_sign-append digits hs (Digits-Halts digits hd),
  span-nil isdigit digits hd,
  is_empty-pos digits some_digit,
)

Exponent-Halts : {s : Bytes} → Exponent s → Halts isdigit s
Exponent-Halts no_exponent = tt
Exponent-Halts (exponent_of c sign digits hc hs hd some_digit) = ground arith

fraction-Exponent : {s : Bytes} → Exponent s → fraction s ≡ ([], s)
unfolding fraction
fraction-Exponent no_exponent = refl
fraction-Exponent (exponent_of c sign digits hc hs hd some_digit) = ground arith

fraction-append :
    {part text : Bytes} (exponent : Bytes)
    → Fraction part text
    → Exponent exponent
    → fraction (text ++ exponent) ≡ (part, exponent)
fraction-append exponent no_fraction he = fraction-Exponent he
fraction-append exponent (fraction_of {digits} hd) he =
    unfold fraction in span-append isdigit digits exponent hd (Exponent-Halts he)

Fraction-Halts :
    {part text : Bytes} (exponent : Bytes)
    → Fraction part text
    → Exponent exponent
    → Halts isdigit (text ++ exponent)
Fraction-Halts exponent no_fraction he = Exponent-Halts he
Fraction-Halts exponent (fraction_of hd) he = refl

mantissa_ok-of : {s : Bytes} → Mantissa s → mantissa_ok s ≡ true
unfolding mantissa_ok
mantissa_ok-of (mantissa_of whole part text exponent hw hf some_digit he) =
    rw
      (
        span-append isdigit whole (text ++ exponent) hw (Fraction-Halts exponent hf he),
        fraction-append exponent hf he,
        exponent_ok-of he,
      )
      (ground arith)

Mantissa-pos : {s : Bytes} → Mantissa s → 0 < length s
Mantissa-pos (mantissa_of whole part text exponent hw no_fraction some_digit he) = omega lengths
Mantissa-pos (mantissa_of whole part text exponent hw (fraction_of hd) some_digit he) =
    omega lengths

Mantissa-Halts : {s : Bytes} → Mantissa s → Halts is_sign s
Mantissa-Halts (mantissa_of [] part text exponent hw no_fraction some_digit he) =
    absurd (omega arith)
Mantissa-Halts (mantissa_of [] part text exponent hw (fraction_of hd) some_digit he) = refl
Mantissa-Halts (mantissa_of (c ∷ whole) part text exponent hw hf some_digit he) = ground arith

Parts-Halts : (s : Bytes) → Parts s → Halts is_blank s
Parts-Halts [] all = tt
Parts-Halts (c ∷ s) all = ground arith

Parts-append-Halts : (s rest : Bytes) → Parts s → 0 < length s → Halts is_blank (s ++ rest)
Parts-append-Halts [] rest all h = absurd (omega arith)
Parts-append-Halts (c ∷ s) rest all h = ground arith

trim_end-append : (s trail : Bytes) → Parts s → Blanks trail → trim_end (s ++ trail) ≡ s
unfolding trim_end
trim_end-append s trail parts blanks = rw (
  reverse-append s trail,
  span-append is_blank (reverse trail) (reverse s) (All-reverse_aux _ trail [] blanks tt)
      (Parts-Halts (reverse s) (All-reverse_aux _ s [] parts tt)),
  reverse-reverse,
)

number_ok-of : (s : Bytes) → 0 < length s → mantissa_ok (after_sign s) ≡ true → number_ok s ≡ true
unfolding number_ok
number_ok-of [] h e = absurd (omega arith)
number_ok-of (c ∷ s) h e = e

is_numeric_literal-of : {s : Bytes} → IsNumber s → is_numeric_literal s ≡ true
unfolding is_numeric_literal
is_numeric_literal-of (number_of lead sign mantissa trail hl hs hm ht) =
    let parts = All-append _ sign mantissa (Sign-Parts hs) (Mantissa-Parts hm) in
    let size = Mantissa-pos hm in
    rw
      (
        span-append is_blank lead ((sign ++ mantissa) ++ trail) hl
            (Parts-append-Halts (sign ++ mantissa) trail parts (omega (lengths, size))),
        trim_end-append (sign ++ mantissa) trail parts ht,
      )
      (number_ok-of (sign ++ mantissa) (omega (lengths, size))
        (ap mantissa_ok (after_sign-append mantissa hs (Mantissa-Halts hm)) ∙ mantissa_ok-of hm))

-- A text may land in the statement unquoted exactly when it is a number of the grammar: an optional
-- sign, digits with at most one point and at least one digit, and an optional exponent, with blanks
-- around it.
pub is_numeric_literal_iff : (s : Bytes) → (is_numeric_literal s ≡ true) ↔ IsNumber s
is_numeric_literal_iff s = (is_numeric_literal-IsNumber s, is_numeric_literal-of)
