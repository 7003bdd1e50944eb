-- ===== src/Sql/Session/Use.antt =====
-- The USE statements that the driver builds from the names of the data source.
use frostlake_pdo.Libc.{bytes_eq, isalpha}
use frostlake_pdo.Prelude.{
  ==_iff, All, Bool, Bool-cases, Bytes, Option, [], ap, append-nil, append_assoc, ap₂, arith, codes,
  false, false≢true, inl, inr, length, lengths, none, refl, some, subst, suc, sym, true, zero, ℕ,
  ◌++◌, ◌-◌, ◌==◌, ◌||◌, ◌∙◌, ◌∷◌, ◌≡◌, ◌≤◌,
}
use frostlake_pdo.Sql.Identifier.{is_identifier, name_byte, quoted_ok}
use frostlake_pdo.Sql.Identifier.Whole.{bare_ok-All, double_quoted-quoted_ok}
use frostlake_pdo.Sql.Numeric.{span}
use frostlake_pdo.Sql.Scan.{double_quoted, last_byte, skip, skip_pair, word_before}
use frostlake_pdo.Sql.Session.{leading_words, touches_session, word, words_loop}
use frostlake_pdo.Sql.Session.Statements.{split_loop, statements}

abbrev pub keyword_byte : ℕ → Bool
keyword_byte c = isalpha c || c == b' '

skip-keyword :
    (prev : Option ℕ) (c : ℕ) (s : Bytes) → keyword_byte c ≡ true → skip prev (c ∷ s) ≡ none
unfolding skip skip_pair
skip-keyword prev c [] h = ground arith
skip-keyword prev c (d ∷ s) h = ground arith

skip-first :
    (prev : Option ℕ) (c : ℕ) (s : Bytes)
    → (isalpha c || c == b'_') ≡ true
    → skip prev (c ∷ s) ≡ none
unfolding skip skip_pair
skip-first prev c [] h = ground arith
skip-first prev c (d ∷ s) h = ground arith

skip-name :
    (prev : Option ℕ) (c : ℕ) (s : Bytes)
    → word_before prev ≡ true
    → name_byte c ≡ true
    → skip prev (c ∷ s) ≡ none
unfolding skip skip_pair
skip-name prev c [] w h = ground arith
skip-name prev c (d ∷ s) w h = ground arith

split_loop-plain :
    (fuel : ℕ) (prev : Option ℕ) (statement : Bytes) (c : ℕ) (s : Bytes)
    → skip prev (c ∷ s) ≡ none
    → (c == b';') ≡ false
    → split_loop (suc fuel) prev statement (c ∷ s)
      ≡ split_loop fuel (some c) (statement ++ c ∷ []) s
unfolding split_loop
split_loop-plain fuel prev statement c s e n = rw (e, split_loop) (rw (n, split_loop))

split_loop-nil :
    (fuel : ℕ) (prev : Option ℕ) (statement : Bytes)
    → split_loop fuel prev statement [] ≡ (statement ++ []) ∷ []
unfolding split_loop
split_loop-nil zero prev statement = rw append-nil
split_loop-nil (suc fuel) prev statement = rw append-nil

split_loop-keywords :
    (kw : Bytes) (fuel : ℕ) (prev : Option ℕ) (statement s : Bytes)
    → All (λ c. keyword_byte c ≡ true) kw
    → length (kw ++ s) ≤ fuel
    → split_loop fuel prev statement (kw ++ s)
      ≡ split_loop (fuel - length kw) (last_byte prev kw) (statement ++ kw) s
split_loop-keywords [] fuel prev statement s k h =
    ap₂ (λ f t. split_loop f prev t s) (omega arith) (sym (append-nil statement))
split_loop-keywords (c ∷ kw) zero prev statement s k h = absurd (omega arith)
split_loop-keywords (c ∷ kw) (suc fuel) prev statement s (kc, k) h =
    split_loop-plain fuel prev statement c (kw ++ s) (skip-keyword prev c _ kc) (ground arith)
    ∙ split_loop-keywords kw fuel (some c) (statement ++ c ∷ []) s k (omega arith)
    ∙ ap₂ (λ f t. split_loop f (last_byte (some c) kw) t s) (omega arith)
        (append_assoc statement (c ∷ []) kw)

split_loop-bare :
    (s : Bytes) (fuel : ℕ) (prev : Option ℕ) (statement : Bytes)
    → word_before prev ≡ true
    → All (λ c. name_byte c ≡ true) s
    → length s ≤ fuel
    → split_loop fuel prev statement s ≡ (statement ++ s) ∷ []
split_loop-bare [] fuel prev statement w n h = split_loop-nil fuel prev statement
split_loop-bare (c ∷ s) zero prev statement w n h = absurd (omega arith)
split_loop-bare (c ∷ s) (suc fuel) prev statement w (nc, n) h =
    split_loop-plain fuel prev statement c s (skip-name prev c s w nc) (ground arith)
    ∙ split_loop-bare s fuel (some c) (statement ++ c ∷ []) nc n (omega arith)
    ∙ ap (λ t. t ∷ []) (append_assoc statement (c ∷ []) s)

skip-quoted :
    (prev : Option ℕ) (s : Bytes) → quoted_ok s ≡ true → skip prev (b'"' ∷ s) ≡ some (b'"' ∷ s, [])
unfolding skip double_quoted
skip-quoted prev [] q = refl
skip-quoted prev (d ∷ s) q = rw (double_quoted-quoted_ok (d ∷ s) q)

split_loop-quoted :
    (s : Bytes) (fuel : ℕ) (prev : Option ℕ) (statement : Bytes)
    → quoted_ok s ≡ true
    → split_loop (suc fuel) prev statement (b'"' ∷ s) ≡ (statement ++ b'"' ∷ s) ∷ []
unfolding split_loop
split_loop-quoted s fuel prev statement q =
    rw (skip-quoted prev s q, split_loop)
      (split_loop-nil fuel (last_byte prev (b'"' ∷ s)) (statement ++ b'"' ∷ s)
        ∙ ap (λ t. t ∷ []) (append-nil _))

-- Behind keywords, an accepted name runs to the end of the statement.
split_loop-identifier :
    (name : Bytes) (fuel : ℕ) (prev : Option ℕ) (statement : Bytes)
    → is_identifier name ≡ true
    → length name ≤ fuel
    → split_loop fuel prev statement name ≡ (statement ++ name) ∷ []
unfolding is_identifier
split_loop-identifier [] fuel prev statement ok h = absurd (false≢true ok)
split_loop-identifier (c ∷ s) zero prev statement ok h = absurd (omega arith)
split_loop-identifier (c ∷ s) (suc fuel) prev statement ok h = elim (Bool-cases (c == b'"')) [
  | inl e ↦
      let is_quote = (==_iff c b'"').0 e in
      rw is_quote (split_loop-quoted s fuel prev statement (ground arith))
  | inr n ↦
      split_loop-plain fuel prev statement c s (skip-first prev c s (ground arith)) (ground arith)
      ∙ split_loop-bare s fuel (some c) (statement ++ c ∷ []) (ground arith)
          (bare_ok-All s (ground arith)) (omega arith)
      ∙ ap (λ t. t ∷ []) (append_assoc statement (c ∷ []) s)
]

-- The words of the driver's four USE statements.
pub data Kind : Type 0 where
  role warehouse database schema : Kind

abbrev pub kind_text : Kind → Bytes
kind_text role = codes "ROLE"
kind_text warehouse = codes "WAREHOUSE"
kind_text database = codes "DATABASE"
kind_text schema = codes "SCHEMA"

-- `"USE %s %s"` of `use_object`.
abbrev pub use_statement : Kind → Bytes → Bytes
use_statement kind name = codes "USE " ++ (kind_text kind ++ (b' ' ∷ name))

use_keywords : Kind → Bytes
use_keywords kind = codes "USE " ++ (kind_text kind ++ b' ' ∷ [])

use_keywords-All : (kind : Kind) → All (λ c. keyword_byte c ≡ true) (use_keywords kind)
unfolding use_keywords
use_keywords-All role = ground arith
use_keywords-All _ = ground arith

use_keywords_lem :
    (kind : Kind) (name : Bytes) → use_statement kind name ≡ use_keywords kind ++ name
unfolding use_keywords
use_keywords_lem role name = refl
use_keywords_lem _ name = refl

statements-keywords :
    (kw name : Bytes)
    → All (λ c. keyword_byte c ≡ true) kw
    → is_identifier name ≡ true
    → statements (kw ++ name) ≡ (kw ++ name) ∷ []
unfolding statements
statements-keywords kw name k ok =
    split_loop-keywords kw (length (kw ++ name)) none [] name k (omega arith)
    ∙ split_loop-identifier name _ (last_byte none kw) kw ok (omega lengths)

-- The USE statement of an accepted name is one statement to the scanner, whatever the name holds.
pub statements-use_statement :
    (kind : Kind) (name : Bytes)
    → is_identifier name ≡ true
    → statements (use_statement kind name) ≡ use_statement kind name ∷ []
statements-use_statement kind name ok =
    subst (λ t. statements t ≡ t ∷ []) (sym (use_keywords_lem kind name))
      (statements-keywords (use_keywords kind) name (use_keywords-All kind) ok)

use_touches : (rest : Bytes) → touches_session (leading_words (codes "USE " ++ rest)) ≡ true
unfolding touches_session leading_words words_loop word span bytes_eq
use_touches rest = refl
