-- ===== src/Sql/Literal/Closed.antt =====
-- A literal is one stretch of the scanner, whatever it holds, and holds what it was made of.
use frostlake_pdo.Prelude.{
  Bool-cases, Bytes, Option, [], append_assoc, arith, if◌then◌else◌, inl, inr, ltb, refl, some,
  true, ℕ, ◌*◌, ◌++◌, ◌+◌, ◌-◌, ◌==◌, ◌||◌, ◌∷◌, ◌≡◌, ◌≢◌,
}
use frostlake_pdo.Sql.Literal.{doubled, string_literal}
use frostlake_pdo.Sql.Scan.{before, single_quoted, skip}

-- What may follow a literal: a quote straight behind it would continue it.
abbrev pub NoQuote : Bytes → Type 0
NoQuote [] = Unit
NoQuote (c ∷ _) = c ≢ b'\''

single_quoted-plain :
    (c : ℕ) (s : Bytes)
    → c ≢ b'\''
    → c ≢ b'\\'
    → single_quoted (c ∷ s) ≡ before (c ∷ []) (single_quoted s)
unfolding single_quoted
single_quoted-plain c [] q b = refl
single_quoted-plain c (d ∷ s) q b = ground arith

single_quoted-pair :
    (c : ℕ) (s : Bytes)
    → (c == b'\'' || c == b'\\') ≡ true
    → single_quoted (c ∷ c ∷ s) ≡ before (c ∷ c ∷ []) (single_quoted s)
unfolding single_quoted
single_quoted-pair c s h = ground arith

single_quoted-quote :
    (rest : Bytes) → NoQuote rest → single_quoted (b'\'' ∷ rest) ≡ (b'\'' ∷ [], rest)
unfolding single_quoted
single_quoted-quote [] h = refl
single_quoted-quote (d ∷ s) h = ground arith

single_quoted-doubled :
    (text rest : Bytes)
    → NoQuote rest
    → single_quoted (doubled text ++ b'\'' ∷ rest) ≡ (doubled text ++ b'\'' ∷ [], rest)
unfolding doubled
single_quoted-doubled [] rest h = single_quoted-quote rest h
single_quoted-doubled (c ∷ s) rest h = elim (Bool-cases (c == b'\'' || c == b'\\')) [
  | inl e ↦ rw (e, single_quoted-pair c _ e, single_quoted-doubled s rest h)
  | inr e ↦
      rw (e, single_quoted-plain c _ (ground arith) (ground arith), single_quoted-doubled s rest h)
]

skip-quote :
    (prev : Option ℕ) (s : Bytes)
    → skip prev (b'\'' ∷ s) ≡ some (before (b'\'' ∷ []) (single_quoted s))
unfolding skip
skip-quote prev [] = refl
skip-quote prev (d ∷ s) = refl

-- The scanner takes the literal of any text, from its first quote to its last and no further, as one
-- stretch, wherever it stands, so long as no quote follows it.
pub skip-string_literal :
    (prev : Option ℕ) (text rest : Bytes)
    → NoQuote rest
    → skip prev (string_literal text ++ rest) ≡ some (string_literal text, rest)
unfolding string_literal
skip-string_literal prev text rest h =
    rw (append_assoc, skip-quote prev, single_quoted-doubled text rest h)

-- A reading of a literal's body: a doubled quote or backslash stands for one.
unfoldable pub undoubled : Bytes → Bytes
undoubled [] = []
undoubled (c ∷ []) = c ∷ []
undoubled (c ∷ d ∷ s) =
    let two = c ∷ undoubled s in
    let one = c ∷ undoubled (d ∷ s) in if c == b'\'' || c == b'\\' then two else one

-- The value of a hexadecimal digit, and the bytes that pairs of digits spell.
abbrev pub unhex : ℕ → ℕ
unhex c = if ltb c b'A' then c - b'0' else c - b'A' + 10

unfoldable pub unpaired : Bytes → Bytes
unpaired [] = []
unpaired (c ∷ []) = []
unpaired (c ∷ d ∷ s) = (unhex c * 16 + unhex d) ∷ unpaired s
