-- ===== src/Sql/Literal.antt =====
-- The literals of frostlake_sql.c for strings and bytes.
pub mod Closed
use frostlake_pdo.Prelude.{
  Bytes, [], if◌then◌else◌, ltb, ℕ, ◌%◌, ◌++◌, ◌+◌, ◌-◌, ◌/◌, ◌==◌, ◌||◌, ◌∷◌,
}

-- The loop of `append_string_literal`: a quote or a backslash goes out twice.
unfoldable pub doubled : Bytes → Bytes
doubled [] = []
doubled (c ∷ s) = if c == b'\'' || c == b'\\' then c ∷ c ∷ doubled s else c ∷ doubled s

-- `append_string_literal`
unfoldable pub string_literal : Bytes → Bytes
string_literal text = b'\'' ∷ (doubled text ++ b'\'' ∷ [])

abbrev pub hex_upper : ℕ → ℕ
hex_upper d = if ltb d 10 then b'0' + d else b'A' + (d - 10)

-- The loop of `append_binary_literal`.
unfoldable pub hex_pairs : Bytes → Bytes
hex_pairs [] = []
hex_pairs (c ∷ s) = hex_upper (c / 16) ∷ hex_upper (c % 16) ∷ hex_pairs s

-- `append_binary_literal`
unfoldable pub binary_literal : Bytes → Bytes
binary_literal bytes = b'X' ∷ b'\'' ∷ (hex_pairs bytes ++ b'\'' ∷ [])
