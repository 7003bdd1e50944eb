-- ===== src/Sql/Scan/Stretch.antt =====
-- What the scanner passes over and what it leaves make up the text.
use frostlake_pdo.Prelude.{Bytes, Option, [], arith, length, refl, some, ℕ, ◌++◌, ◌∷◌, ◌≡◌, ◌≤◌}
use frostlake_pdo.Sql.Scan.{
  Split, double_quoted, single_quoted, skip, skip_pair, through_newline, through_pair,
}

-- The two parts make up `s`, and what is left is no longer than `bound`.
abbrev Takes : Bytes → ℕ → Split → Type 0
Takes s bound p = (p.0 ++ p.1 ≡ s) × (length p.1 ≤ bound)

single_quoted-Takes : (s : Bytes) → Takes s (length s) (single_quoted s)
unfolding single_quoted
single_quoted-Takes [] = (refl, omega arith)
single_quoted-Takes (c ∷ []) = (refl, omega arith)
single_quoted-Takes (c ∷ d ∷ s) = ground (arith, single_quoted-Takes s, single_quoted-Takes (d ∷ s))

double_quoted-Takes : (s : Bytes) → Takes s (length s) (double_quoted s)
unfolding double_quoted
double_quoted-Takes [] = (refl, omega arith)
double_quoted-Takes (c ∷ []) = (refl, omega arith)
double_quoted-Takes (c ∷ d ∷ s) = ground (arith, double_quoted-Takes s, double_quoted-Takes (d ∷ s))

through_newline-Takes : (s : Bytes) → Takes s (length s) (through_newline s)
unfolding through_newline
through_newline-Takes [] = (refl, omega arith)
through_newline-Takes (c ∷ s) = ground (arith, through_newline-Takes s)

through_pair-Takes : (a b : ℕ) (s : Bytes) → Takes s (length s) (through_pair a b s)
unfolding through_pair
through_pair-Takes a b [] = (refl, omega arith)
through_pair-Takes a b (c ∷ []) = (refl, omega arith)
through_pair-Takes a b (c ∷ d ∷ s) = ground (arith, through_pair-Takes a b (d ∷ s))

skip_pair-Takes :
    (prev : Option ℕ) (c d : ℕ) (s : Bytes) {p : Split}
    → skip_pair prev c d s ≡ some p
    → Takes (c ∷ d ∷ s) (length s) p
unfolding skip_pair
skip_pair-Takes prev c d s h =
    ground (
      arith,
      through_newline-Takes s,
      through_pair-Takes b'*' b'/' s,
      through_pair-Takes b'$' b'$' s,
    )

-- A stretch and what stands behind it are the text, and the stretch is not empty.
pub skip-Takes :
    (prev : Option ℕ) (c : ℕ) (s : Bytes) {p : Split}
    → skip prev (c ∷ s) ≡ some p
    → (p.0 ++ p.1 ≡ c ∷ s) × (length p.1 ≤ length s)
unfolding skip
skip-Takes prev c [] h = ground (arith, single_quoted-Takes [], double_quoted-Takes [])
skip-Takes prev c (d ∷ s) {p} h = ground (
  arith,
  single_quoted-Takes (d ∷ s),
  double_quoted-Takes (d ∷ s),
  skip_pair-Takes prev c d s {p = p},
)
