-- ===== src/Sql/Value/Safe.antt =====
-- What a bound value may put into a statement.
use frostlake_pdo.Libc.{decimal}
use frostlake_pdo.Libc.Digits.{DigitRun, decimal_nat-DigitRun, digit_run}
use frostlake_pdo.Prelude.{
  Bool-cases, Bytes, Option-cases, [], ap, append-nil, arith, codes, false, if◌then◌else◌, inl, inr,
  negsuc, none, pos, refl, subst, suc, ℤ, ◌&&◌, ◌++◌, ◌∙◌, ◌∷◌, ◌≡◌,
}
use frostlake_pdo.Sql.Literal.{binary_literal, string_literal}
use frostlake_pdo.Sql.Numeric.{is_numeric_literal}
use frostlake_pdo.Sql.Numeric.Grammar.{
  IsNumber, Sign, is_numeric_literal-IsNumber, mantissa_of, no_exponent, no_fraction, no_sign,
  number_of, signed,
}
use frostlake_pdo.Sql.Scan.{last_byte}
use frostlake_pdo.Sql.Value.{
  Appended, Param, ParamType, Php, Zval, append_as_string, append_double, append_int, append_lob,
  append_typed, append_value, append_zval, appended, double_value, ends_in_minus, false_value,
  is_negative, long_value, null_value, number_literal, other_value, param_bool, param_int,
  param_lob, param_null, param_other, refuses, resource_value, string_value, true_value,
}

-- The forms of a bound value.
pub data SqlLiteral : Bytes → Type 0 where
  null_literal : SqlLiteral (codes "NULL")
  true_literal : SqlLiteral (codes "TRUE")
  false_literal : SqlLiteral (codes "FALSE")
  nan_literal : SqlLiteral (codes "'NaN'::FLOAT")
  inf_literal : SqlLiteral (codes "'inf'::FLOAT")
  minus_inf_literal : SqlLiteral (codes "'-inf'::FLOAT")
  numeric_literal : {text : Bytes} → IsNumber text → SqlLiteral text
  quoted_literal : (text : Bytes) → SqlLiteral (string_literal text)
  hex_literal : (bytes : Bytes) → SqlLiteral (binary_literal bytes)

-- A number with a blank in front is one.
IsNumber-blank : {text : Bytes} → IsNumber text → IsNumber (b' ' ∷ text)
IsNumber-blank (number_of lead sign mantissa trail hl hs hm ht) =
    number_of (b' ' ∷ lead) sign mantissa trail (refl, hl) hs hm ht

Digits-IsNumber : {sign digits : Bytes} → Sign sign → DigitRun digits → IsNumber (sign ++ digits)
Digits-IsNumber {sign} hs (digit_run {c} {s} hc all) =
    subst IsNumber (append-nil _ ∙ ap (◌++◌ sign) (append-nil (c ∷ s))) (
      number_of [] sign _ [] tt hs
        (mantissa_of (c ∷ s) [] [] [] (hc, all) no_fraction (omega arith) no_exponent) tt)

decimal-IsNumber : (n : ℤ) → IsNumber (decimal n)
unfolding decimal
decimal-IsNumber (pos n) = Digits-IsNumber no_sign (decimal_nat-DigitRun n)
decimal-IsNumber (negsuc n) = Digits-IsNumber (signed refl) (decimal_nat-DigitRun (suc n))

number_literal-SqlLiteral :
    (out : Bytes) {text : Bytes} → IsNumber text → SqlLiteral (number_literal out text)
unfolding number_literal
number_literal-SqlLiteral out {text} h =
    elim (Bool-cases (is_negative text && ends_in_minus (last_byte none out))) [
      | inl e ↦ rw e (numeric_literal (IsNumber-blank h))
      | inr e ↦ rw e (numeric_literal h)
    ]

-- A literal behind the buffer, or a refusal.
pub data Adds (out : Bytes) : Appended → Type 0 where
  adds : {lit : Bytes} → SqlLiteral lit → Adds out (appended (out ++ lit))
  refuses_it : {state message : Bytes} → Adds out (refuses state message)

Adds-appended :
    {out : Bytes} {r : Appended} {out' : Bytes}
    → Adds out r
    → r ≡ appended out'
    → (lit : Bytes) × SqlLiteral lit × (out' ≡ out ++ lit)
Adds-appended (adds {lit} h) e = (lit, h, cc)
Adds-appended refuses_it e = cc

-- `doubles`: PHP writes a finite double as a number.
module _ {D O : Type 0} (php : Php D O)
    (doubles : (d : D)
      → php.is_nan d ≡ false
      → php.is_inf d ≡ false
      → IsNumber (php.double_text d)) where
  append_double-SqlLiteral : (out : Bytes) (d : D) → SqlLiteral (append_double php out d)
  unfolding append_double
  append_double-SqlLiteral out d = elim (Bool-cases (php.is_nan d)) [
    | inl nan ↦ rw nan nan_literal
    | inr is_number ↦ elim (Bool-cases (php.is_inf d)) [
      | inr finite ↦
          rw (is_number, finite) (number_literal-SqlLiteral out (doubles d is_number finite))
      | inl inf ↦ elim (Bool-cases (php.is_positive d)) [
        | inl above ↦ rw (is_number, inf, above) inf_literal
        | inr below ↦ rw (is_number, inf, below) minus_inf_literal
      ]
    ]
  ]

  append_as_string-Adds : (v : Zval D O) (out : Bytes) → Adds out (append_as_string php v out)
  unfolding append_as_string
  append_as_string-Adds v out = elim (Option-cases (php.to_string v)) [
    | inl e ↦ rw (e, append_as_string) refuses_it
    | inr (text, e) ↦ rw (e, append_as_string) (adds (quoted_literal text))
  ]

  numeric-Adds :
      (s out : Bytes)
      → Adds out (
          if is_numeric_literal s
          then appended (out ++ number_literal out s)
          else appended (out ++ string_literal s))
  numeric-Adds s out = elim (Bool-cases (is_numeric_literal s)) [
    | inl e ↦ rw e (adds (number_literal-SqlLiteral out (is_numeric_literal-IsNumber s e)))
    | inr e ↦ rw e (adds (quoted_literal s))
  ]

  append_int-Adds : (v : Zval D O) (out : Bytes) → Adds out (append_int php v out)
  unfolding append_int
  append_int-Adds (long_value n) out = adds (number_literal-SqlLiteral out (decimal-IsNumber n))
  append_int-Adds true_value out =
      adds (numeric_literal (Digits-IsNumber no_sign (digit_run refl tt)))
  append_int-Adds false_value out =
      adds (numeric_literal (Digits-IsNumber no_sign (digit_run refl tt)))
  append_int-Adds (double_value d) out = adds (append_double-SqlLiteral out d)
  append_int-Adds (string_value s) out = numeric-Adds s out
  append_int-Adds null_value out = append_as_string-Adds null_value out
  append_int-Adds (resource_value r) out = append_as_string-Adds (resource_value r) out
  append_int-Adds (other_value r) out = append_as_string-Adds (other_value r) out

  stream-Adds : (r : O) (out : Bytes) → Adds out (append_lob php (resource_value r) out)
  unfolding append_lob
  stream-Adds r out = elim (Option-cases (php.stream r)) [
    | inl e ↦ rw (e, append_lob) refuses_it
    | inr (content, e) ↦ elim (Option-cases content) [
      | inl empty ↦ rw (e, append_lob) (rw (empty, append_lob) (adds (hex_literal [])))
      | inr (bytes, full) ↦ rw (e, append_lob) (rw (full, append_lob) (adds (hex_literal bytes)))
    ]
  ]

  append_lob-Adds : (v : Zval D O) (out : Bytes) → Adds out (append_lob php v out)
  unfolding append_lob
  append_lob-Adds (resource_value r) out = stream-Adds r out
  append_lob-Adds v out = elim (Option-cases (php.to_string v)) [
    | inl e ↦ rw (e, append_lob) refuses_it
    | inr (bytes, e) ↦ rw (e, append_lob) (adds (hex_literal bytes))
  ]

  append_typed-Adds :
      (type : ParamType) (v : Zval D O) (out : Bytes) → Adds out (append_typed php type v out)
  unfolding append_typed
  append_typed-Adds param_null v out = adds null_literal
  append_typed-Adds param_bool v out = elim (Bool-cases (php.is_true v)) [
    | inl e ↦ rw e (adds true_literal)
    | inr e ↦ rw e (adds false_literal)
  ]
  append_typed-Adds param_int v out = append_int-Adds v out
  append_typed-Adds param_lob v out = append_lob-Adds v out
  append_typed-Adds param_other v out = append_as_string-Adds v out

  append_value-Adds : (p : Param D O) (out : Bytes) → Adds out (append_value php p out)
  unfolding append_value append_zval
  append_value-Adds p out = go p.value
    where
      go : (v : Zval D O) → Adds out (append_zval php v p.type out)
      go null_value = adds null_literal
      go true_value = append_typed-Adds p.type true_value out
      go false_value = append_typed-Adds p.type false_value out
      go (long_value n) = append_typed-Adds p.type (long_value n) out
      go (double_value d) = append_typed-Adds p.type (double_value d) out
      go (string_value s) = append_typed-Adds p.type (string_value s) out
      go (resource_value r) = append_typed-Adds p.type (resource_value r) out
      go (other_value r) = append_typed-Adds p.type (other_value r) out

  -- Whatever is bound, and as whatever type, what goes into the statement is the text before and one
  -- literal: NULL, a truth value, a number of the grammar, a special double, a quoted string or
  -- a binary literal. PHP is taken to write a finite double as a number.
  pub append_value-SqlLiteral :
      (p : Param D O) (out : Bytes) {out' : Bytes}
      → append_value php p out ≡ appended out'
      → (lit : Bytes) × SqlLiteral lit × (out' ≡ out ++ lit)
  append_value-SqlLiteral p out e = Adds-appended (append_value-Adds p out) e
