-- ===== src/Sql/Identifier/Whole.antt =====
-- An accepted name is one token of SQL: a quoted stretch, or a word.
use frostlake_pdo.Prelude.{All, Bool-cases, Bytes, [], arith, false, inl, inr, refl, true, ◌∷◌, ◌≡◌}
use frostlake_pdo.Sql.Identifier.{bare_ok, name_byte, quoted_ok}
use frostlake_pdo.Sql.Scan.{double_quoted}

-- The scanner takes an accepted quoted name, behind its opening quote, up to its last byte.
pub double_quoted-quoted_ok : (s : Bytes) → quoted_ok s ≡ true → double_quoted s ≡ (s, [])
unfolding quoted_ok double_quoted
double_quoted-quoted_ok [] h = cc
double_quoted-quoted_ok (c ∷ []) h = refl
double_quoted-quoted_ok (c ∷ d ∷ []) h = ground arith
double_quoted-quoted_ok (c ∷ d ∷ e ∷ s) h =
    ground (arith, double_quoted-quoted_ok (e ∷ s), double_quoted-quoted_ok (d ∷ e ∷ s))

-- A name that is not quoted holds only the bytes of a word.
pub bare_ok-All : (s : Bytes) → bare_ok s ≡ true → All (λ c. name_byte c ≡ true) s
unfolding bare_ok
bare_ok-All [] h = tt
bare_ok-All (c ∷ s) h = elim (Bool-cases (name_byte c)) [
  | inl e ↦ (e, bare_ok-All s (rw e at h))
  | inr e ↦ absurd (not-true (rw e at h))
]
  where
    not-true : false ≡ true → ⊥
    not-true e = cc
