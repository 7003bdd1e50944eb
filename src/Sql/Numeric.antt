-- ===== src/Sql/Numeric.antt =====
-- `is_numeric_literal` of frostlake_sql.c.
pub mod Grammar
pub mod Accepts
use frostlake_pdo.Libc.{isdigit}
use frostlake_pdo.Prelude.{
  Bool, Bytes, [], false, if◌then◌else◌, length, not, reverse, true, ℕ, ◌&&◌, ◌+◌, ◌==◌, ◌||◌, ◌∷◌,
}

abbrev pub is_blank : ℕ → Bool
is_blank c = c == b' ' || c == b'\t'

abbrev pub is_sign : ℕ → Bool
is_sign c = c == b'+' || c == b'-'

-- `while (i < end && test(text[i])) i++`: what is passed over, and what is left.
unfoldable pub span : (ℕ → Bool) → Bytes → Bytes × Bytes
span test [] = ([], [])
span test (c ∷ s) = let more = span test s in if test c then (c ∷ more.0, more.1) else ([], c ∷ s)

-- `while (end > i && blank(text[end - 1])) end--`
unfoldable pub trim_end : Bytes → Bytes
unfolding span
trim_end s = reverse (span is_blank (reverse s)).1

-- `if (text[i] == '+' || text[i] == '-') i++`
unfoldable pub after_sign : Bytes → Bytes
after_sign [] = []
after_sign (c ∷ s) = if is_sign c then s else c ∷ s

abbrev pub is_empty : Bytes → Bool
is_empty [] = true
is_empty (_ ∷ _) = false

-- Behind the mantissa: nothing, or an exponent that has a digit, and then nothing.
unfoldable pub exponent_ok : Bytes → Bool
unfolding span after_sign
exponent_ok [] = true
exponent_ok (c ∷ s) =
    if c == b'e' || c == b'E'
    then not (is_empty (span isdigit (after_sign s)).0) && is_empty (span isdigit (after_sign s)).1
    else false

-- The digits behind a point, if one stands here, and what is left.
unfoldable pub fraction : Bytes → Bytes × Bytes
unfolding span
fraction [] = ([], [])
fraction (c ∷ s) = if c == b'.' then span isdigit s else ([], c ∷ s)

-- Behind the sign.
unfoldable pub mantissa_ok : Bytes → Bool
unfolding span fraction exponent_ok
mantissa_ok s =
    let (whole, behind) = span isdigit s in
    let (part, rest) = fraction behind in not (length whole + length part == 0) && exponent_ok rest

-- Between the blanks; an empty text is no number.
unfoldable pub number_ok : Bytes → Bool
unfolding mantissa_ok after_sign
number_ok [] = false
number_ok (c ∷ s) = mantissa_ok (after_sign (c ∷ s))

unfoldable pub is_numeric_literal : Bytes → Bool
unfolding number_ok trim_end span
is_numeric_literal text = number_ok (trim_end (span is_blank text).1)
