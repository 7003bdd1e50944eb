-- ===== src/Sql/Render/Counts.antt =====
-- What a successful substitution says of the statement's markers.
use frostlake_pdo.Prelude.{
  Bytes, List, [], arith, false, if◌then◌else◌, length, ltb, refl, true, ◌&&◌, ◌+◌, ◌<◌, ◌||◌, ◌∷◌,
  ◌≡◌, ◌≢◌,
}
use frostlake_pdo.Sql.Render.{
  Params, Progress, Rendering, bind_index, bind_name, done, fails, finish, render_statement, start,
  starved, ◌>>=◌,
}
use frostlake_pdo.Sql.Render.Tokens.{
  Token, parameter, parameters, plain, question, questions, render_statement-substitute, replace,
  statement_tokens, substitute,
}
use frostlake_pdo.Sql.Value.{Php}

module _ {D O : Type 0} (php : Php D O) (params : Params D O) where
  -- The counters of the loop against the tokens that it met.
  record Counted (ts : List Token) (r r' : Progress) : Type 0 where
    position_is : r'.position ≡ r.position + questions ts
    positional_is : r'.positional ≡ (r.positional || ltb 0 (questions ts))
    named_is : r'.named ≡ (r.named || ltb 0 (parameters ts))

  bind_index-fields :
      (r : Progress) {r' : Progress}
      → bind_index php params r ≡ done r'
      → (r'.position ≡ r.position + 1) × (r'.positional ≡ true) × (r'.named ≡ r.named)
  unfolding bind_index
  bind_index-fields r {r'} e = ground arith

  bind_name-fields :
      (n : Bytes) (r : Progress) {r' : Progress}
      → bind_name php params n r ≡ done r'
      → (r'.position ≡ r.position) × (r'.positional ≡ r.positional) × (r'.named ≡ true)
  unfolding bind_name
  bind_name-fields n r {r'} e = ground arith

  replace-Counted :
      (t : Token) (r : Progress) {r' : Progress}
      → replace php params t r ≡ done r'
      → Counted (t ∷ []) r r'
  replace-Counted (plain s) r e = ground arith
  replace-Counted question r e = ground (arith, bind_index-fields r e)
  replace-Counted (parameter n) r e = ground (arith, bind_name-fields n r e)

  >>=-eq-done :
      {A B : Type 0} (m : Rendering A) (f : A → Rendering B) {b : B}
      → (m >>= f) ≡ done b
      → (a : A) × (m ≡ done a) × (f a ≡ done b)
  >>=-eq-done (done a) f e = (a, refl, e)
  >>=-eq-done (fails st msg) f e = cc
  >>=-eq-done starved f e = cc

  Counted-cons :
      (t : Token) (ts : List Token) (r r' r'' : Progress)
      → Counted (t ∷ []) r r'
      → Counted ts r' r''
      → Counted (t ∷ ts) r r''
  Counted-cons (plain s) ts r r' r'' c cs = ground arith
  Counted-cons question ts r r' r'' c cs = ground arith
  Counted-cons (parameter n) ts r r' r'' c cs = ground arith

  substitute-Counted :
      (ts : List Token) (r : Progress) {r'' : Progress}
      → substitute php params ts r ≡ done r''
      → Counted ts r r''
  unfolding substitute
  substitute-Counted [] r e = ground arith
  substitute-Counted (t ∷ ts) r {r''} e =
      let (r', first, following) =
        >>=-eq-done (replace php params t r) (substitute php params ts) e in
      Counted-cons t ts r r' r'' (replace-Counted t r first) (substitute-Counted ts r' following)

  finish-counts :
      (r : Progress) {sql : Bytes}
      → finish php params r ≡ done sql
      → (r.out ≡ sql)
        × ((r.positional && r.named) ≡ false)
        × ((if r.positional then r.position else length r.used_names) ≡ length params)
  unfolding finish
  finish-counts r e = ground arith

  bound-steps :
      (query : Bytes) {sql : Bytes}
      → 0 < length params
      → render_statement php params query ≡ done sql
      → (r : Progress) × (Counted (statement_tokens query) (start php params) r)
        × (finish php params r ≡ done sql)
  bound-steps query {sql} bound e =
      let (r, looped, finished) =
        >>=-eq-done (substitute php params (statement_tokens query) (start php params))
          (finish php params) rendered in
      (r, substitute-Counted (statement_tokens query) (start php params) looped, finished)
    where
      rendered :
          (substitute php params (statement_tokens query) (start php params) >>= finish php params)
          ≡ done sql
      rendered = ground (arith, render_statement-substitute php params query)

  -- A statement with bound parameters that goes out with a `?` replaced has no named marker, and as
  -- many `?` as there are bound parameters.
  pub render-questions :
      (query : Bytes) {sql : Bytes}
      → 0 < length params
      → 0 < questions (statement_tokens query)
      → render_statement php params query ≡ done sql
      → (questions (statement_tokens query) ≡ length params)
        × (parameters (statement_tokens query) ≡ 0)
  render-questions query bound some_question e =
      let (r, counted, finished) = bound-steps query bound e in
      ground (
        arith,
        counted.position_is,
        counted.positional_is,
        counted.named_is,
        finish-counts r finished,
      )

  replace-ne-starved : (t : Token) (r : Progress) → replace php params t r ≢ starved
  unfolding bind_index bind_name
  replace-ne-starved (plain s) r = cc
  replace-ne-starved question r = λ e. ground arith
  replace-ne-starved (parameter n) r = λ e. ground arith

  substitute-ne-starved : (ts : List Token) (r : Progress) → substitute php params ts r ≢ starved
  unfolding substitute
  substitute-ne-starved [] r = cc
  substitute-ne-starved (t ∷ ts) r = go (substitute-ne-starved ts) (replace php params t r) refl
    where
      go :
          ((r' : Progress) → substitute php params ts r' ≢ starved)
          → (m : Rendering Progress) → replace php params t r ≡ m
          → (m >>= substitute php params ts) ≢ starved
      go ih (done r') e = ih r'
      go ih (fails st msg) e = cc
      go ih starved e = λ _. replace-ne-starved t r e

  finish-ne-starved : (r : Progress) → finish php params r ≢ starved
  unfolding finish
  finish-ne-starved r e = ground arith

  bind-ne-starved : (m : Rendering Progress) → m ≢ starved → (m >>= finish php params) ≢ starved
  bind-ne-starved (done r) h = finish-ne-starved r
  bind-ne-starved (fails st msg) h = cc
  bind-ne-starved starved h = absurd (h refl)

  -- Rendering ends on every statement: it gives the text or refuses, and the fuel never decides.
  pub render_statement-ne-starved : (query : Bytes) → render_statement php params query ≢ starved
  render_statement-ne-starved query e =
      bind-ne-starved _ (substitute-ne-starved (statement_tokens query) (start php params))
        (ground (arith, render_statement-substitute php params query))
