-- ===== src/Sql/Identifier.antt =====
-- `pdo_frostlake_is_identifier` of frostlake_sql.c.
pub mod Whole
use frostlake_pdo.Libc.{isalnum, isalpha}
use frostlake_pdo.Prelude.{
  Bool, Bytes, [], false, if◌then◌else◌, length, ltb, not, true, ℕ, ◌&&◌, ◌==◌, ◌||◌, ◌∷◌,
}

-- The loop over a quoted name, from behind the opening quote: the bytes up to the last of the text,
-- which must be the closing quote. A quote inside comes in pairs.
unfoldable pub quoted_ok : Bytes → Bool
quoted_ok [] = false
quoted_ok (c ∷ []) = c == b'"'
quoted_ok (c ∷ d ∷ []) = not (c == b'"') && d == b'"'
quoted_ok (c ∷ d ∷ e ∷ s) =
    let pair = quoted_ok (e ∷ s) in
    let one = quoted_ok (d ∷ e ∷ s) in
    if c == b'"' then (if d == b'"' then pair else false) else one

abbrev pub name_byte : ℕ → Bool
name_byte c = isalnum c || c == b'_' || c == b'$'

unfoldable pub bare_ok : Bytes → Bool
bare_ok [] = true
bare_ok (c ∷ s) = name_byte c && bare_ok s

unfoldable pub is_identifier : Bytes → Bool
unfolding quoted_ok bare_ok
is_identifier [] = false
is_identifier (c ∷ s) =
    if c == b'"' then ltb 1 (length s) && quoted_ok s else (isalpha c || c == b'_') && bare_ok s
