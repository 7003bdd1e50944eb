-- ===== src/Sql/Render/Tokens.antt =====
-- A specification of the substitution in two passes: the text falls into tokens, whose sources
-- make up the text; then each marker is replaced by its value, in order.
use frostlake_pdo.Prelude.{
  ==_iff, Bool, Bool-cases, Bytes, List, Option, Option-cases, [], ap, arith, if◌then◌else◌, inl,
  inr, length, none, refl, some, suc, zero, ℕ, ◌&&◌, ◌++◌, ◌==◌, ◌∙◌, ◌∷◌, ◌≡◌, ◌≤◌,
}
use frostlake_pdo.Sql.Numeric.{span}
use frostlake_pdo.Sql.Render.{
  Params, Progress, Rendering, bind_index, bind_name, done, fails, finish, is_name_byte,
  render_loop, render_statement, round, start, starved, ◌>>=◌,
}
use frostlake_pdo.Sql.Scan.{last_byte, opens_named_parameter, skip}
use frostlake_pdo.Sql.Scan.Stretch.{skip-Takes}
use frostlake_pdo.Sql.Value.{Php}

pub data Token : Type 0 where
  plain : Bytes → Token
  question : Token
  parameter : Bytes → Token

abbrev pub source : Token → Bytes
source (plain s) = s
source question = b'?' ∷ []
source (parameter n) = n

abbrev pub sources : List Token → Bytes
sources [] = []
sources (t ∷ ts) = source t ++ sources ts

-- The token at a byte, and what stands behind it.
unfoldable pub token : Option ℕ → ℕ → Bytes → Token × Bytes
token prev c s = elim (skip prev (c ∷ s)) [
  | some (stretch, rest) ↦ (plain stretch, rest)
  | none ↦
      if c == b'?'
      then (question, s)
      else if c == b':' && opens_named_parameter prev s
      then (parameter (c ∷ (span is_name_byte s).0), (span is_name_byte s).1)
      else (plain (c ∷ []), s)
]

unfoldable pub tokens : ℕ → Option ℕ → Bytes → List Token
tokens fuel prev [] = []
tokens zero prev (c ∷ s) = []
tokens (suc fuel) prev (c ∷ s) =
    let (t, rest) = token prev c s in t ∷ tokens fuel (last_byte prev (source t)) rest

module _ {D O : Type 0} (php : Php D O) (params : Params D O) where
  -- The second pass, on one token and on all.
  abbrev pub replace : Token → Progress → Rendering Progress
  replace (plain s) r = done (record r { out = r.out ++ s })
  replace question r = bind_index php params r
  replace (parameter n) r = bind_name php params n r

  unfoldable pub substitute : List Token → Progress → Rendering Progress
  substitute [] r = done r
  substitute (t ∷ ts) r = replace t r >>= substitute ts

span-Takes :
    (test : ℕ → Bool) (s : Bytes)
    → ((span test s).0 ++ (span test s).1 ≡ s) × (length (span test s).1 ≤ length s)
unfolding span
span-Takes test [] = (refl, omega arith)
span-Takes test (c ∷ s) = ground (arith, span-Takes test s)

-- Each token takes a byte or more off the text.
token-Takes :
    (prev : Option ℕ) (c : ℕ) (s : Bytes)
    → (source (token prev c s).0 ++ (token prev c s).1 ≡ c ∷ s)
      × (length (token prev c s).1 ≤ length s)
unfolding token
token-Takes prev c s = elim (Option-cases (skip prev (c ∷ s))) [
  | inr ((stretch, rest), e) ↦ rw (e, token) (skip-Takes prev c s e)
  | inl e ↦ rw (e, token) (ground (arith, span-Takes is_name_byte s))
]

-- The sources of the tokens, in order, are the whole text.
pub sources-tokens :
    (fuel : ℕ) (prev : Option ℕ) (s : Bytes) → length s ≤ fuel → sources (tokens fuel prev s) ≡ s
unfolding tokens
sources-tokens zero prev [] h = refl
sources-tokens (suc fuel) prev [] h = refl
sources-tokens zero prev (c ∷ s) h = absurd (omega arith)
sources-tokens (suc fuel) prev (c ∷ s) h =
    let (whole, shorter) = token-Takes prev c s in
    ap (◌++◌ (source (token prev c s).0)) (sources-tokens fuel _ (token prev c s).1 (omega arith))
    ∙ whole

module _ {D O : Type 0} (php : Php D O) (params : Params D O) where
  round-unskipped :
      (prev : Option ℕ) (c : ℕ) (s : Bytes) (r : Progress)
      → skip prev (c ∷ s) ≡ none
      → round php params prev c s r ≡ (
          replace php params (token prev c s).0 r >>= λ r'.
          done (r', (last_byte prev (source (token prev c s).0), (token prev c s).1)))
  unfolding round token
  round-unskipped prev c s r e = elim (Bool-cases (c == b'?')) [
    | inl q ↦ rw (e, round, token) (rw (q, (==_iff c b'?').0 q))
    | inr q ↦ elim (Bool-cases (c == b':' && opens_named_parameter prev s)) [
      | inl n ↦ rw (e, round, token) (rw (q, n))
      | inr n ↦ rw (e, round, token) (rw (q, n))
    ]
  ]

  -- A round does what the second pass does to the round's token.
  round-replace :
      (prev : Option ℕ) (c : ℕ) (s : Bytes) (r : Progress)
      → round php params prev c s r ≡ (
          replace php params (token prev c s).0 r >>= λ r'.
          done (r', (last_byte prev (source (token prev c s).0), (token prev c s).1)))
  unfolding round token
  round-replace prev c s r = elim (Option-cases (skip prev (c ∷ s))) [
    | inr ((stretch, rest), e) ↦ rw (e, round, token)
    | inl e ↦ round-unskipped prev c s r e
  ]

  after-round :
      {A : Type 0} (m : Rendering Progress) (x : A) (f : Progress × A → Rendering Progress)
      (g : Progress → Rendering Progress)
      → ((r' : Progress) → f (r', x) ≡ g r')
      → ((m >>= λ r'. done (r', x)) >>= f) ≡ (m >>= g)
  after-round (done r) x f g h = h r
  after-round (fails st msg) x f g h = refl
  after-round starved x f g h = refl

  -- The loop, in one pass, gives what the two passes give.
  pub render_loop-substitute :
      (fuel : ℕ) (prev : Option ℕ) (s : Bytes) (r : Progress)
      → length s ≤ fuel
      → render_loop php params fuel prev s r ≡ substitute php params (tokens fuel prev s) r
  unfolding render_loop substitute tokens
  render_loop-substitute zero prev [] r h = refl
  render_loop-substitute (suc fuel) prev [] r h = refl
  render_loop-substitute zero prev (c ∷ s) r h = absurd (omega arith)
  render_loop-substitute (suc fuel) prev (c ∷ s) r h = rw (round-replace prev c s r) (
      after-round _ _ _ _ λ r'.
        render_loop-substitute fuel _ (token prev c s).1 r'
          (omega (arith, (token-Takes prev c s).1)))

-- The substitution in two passes. The text goes out as it is where nothing is bound.
abbrev pub two_passes : {D O : Type 0} → Php D O → Params D O → Bytes → Rendering Bytes
two_passes php params query =
    if length params == 0
    then done query
    else substitute php params (tokens (length query) none query) (start php params)
      >>= finish php params

-- Rendering a statement, in one loop over the text, gives for every text and bindings what the two
-- passes give, refusals and their messages included.
pub render_statement-substitute :
    {D O : Type 0} (php : Php D O) (params : Params D O) (query : Bytes)
    → render_statement php params query ≡ two_passes php params query
unfolding render_statement
render_statement-substitute php params query =
    rw
      (render_loop-substitute php params (length query) none query (start php params) (omega arith))

-- The markers of a token list.
abbrev pub questions : List Token → ℕ
questions [] = 0
questions (question ∷ ts) = suc (questions ts)
questions (plain s ∷ ts) = questions ts
questions (parameter n ∷ ts) = questions ts

abbrev pub parameters : List Token → ℕ
parameters [] = 0
parameters (question ∷ ts) = parameters ts
parameters (plain s ∷ ts) = parameters ts
parameters (parameter n ∷ ts) = suc (parameters ts)

-- The tokens of a statement's text.
abbrev pub statement_tokens : Bytes → List Token
statement_tokens query = tokens (length query) none query
