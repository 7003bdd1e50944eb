-- ===== src/Sql/Render.antt =====
-- `pdo_frostlake_render_statement` of frostlake_sql.c. PDO's table of bound parameters is a list of
-- its entries, each under an index or under a name with its colon.
pub mod Tokens
pub mod Counts
use frostlake_pdo.Libc.{bytes_eq, isalnum}
use frostlake_pdo.Prelude.{
  Bool, Bytes, List, Option, [], codes, false, if◌then◌else◌, length, none, some, suc, true, zero,
  ℕ, ◌&&◌, ◌++◌, ◌+◌, ◌==◌, ◌||◌, ◌∷◌,
}
use frostlake_pdo.Sql.Numeric.{span}
use frostlake_pdo.Sql.Scan.{last_byte, opens_named_parameter, skip}
use frostlake_pdo.Sql.Value.{Appended, Param, Php, append_value, appended, refuses}

pub data Key : Type 0 where
  at_index : ℕ → Key
  at_name : Bytes → Key

abbrev pub Params : Type 0 → Type 0 → Type 0
Params D O = List (Key × Param D O)

-- zend_hash_index_find_ptr
unfoldable pub find_index : {D O : Type 0} → ℕ → Params D O → Option (Param D O)
find_index i [] = none
find_index i ((at_index j, p) ∷ rest) = if i == j then some p else find_index i rest
find_index i ((at_name n, p) ∷ rest) = find_index i rest

-- zend_hash_str_find_ptr
unfoldable pub find_name : {D O : Type 0} → Bytes → Params D O → Option (Param D O)
find_name n [] = none
find_name n ((at_index j, p) ∷ rest) = find_name n rest
find_name n ((at_name m, p) ∷ rest) = if bytes_eq n m then some p else find_name n rest

-- zend_hash_str_add_empty_element, which leaves a name that is there
unfoldable pub contains : Bytes → List Bytes → Bool
contains n [] = false
contains n (m ∷ rest) = bytes_eq n m || contains n rest

abbrev pub add_name : Bytes → List Bytes → List Bytes
add_name n names = if contains n names then names else n ∷ names

-- The variables of the loop.
pub record Progress : Type 0 where
  pub out : Bytes
  pub position : ℕ
  pub positional : Bool
  pub named : Bool
  pub used_names : List Bytes

-- A value, a refusal with its SQLSTATE and message, or fuel that did not suffice.
pub data Rendering (A : Type 0) : Type 0 where
  done : A → Rendering A
  fails : Bytes → Bytes → Rendering A
  starved : Rendering A

infixl 5 ◌>>=◌
abbrev pub ◌>>=◌ : {A B : Type 0} → Rendering A → (A → Rendering B) → Rendering B
done a >>= f = f a
fails state message >>= f = fails state message
starved >>= f = starved

abbrev pub count_mismatch : Bytes
count_mismatch = codes "number of bound variables does not match number of tokens"

-- A round's result: the variables, and the position that it moves to.
abbrev pub Round : Type 0
Round = Rendering (Progress × (Option ℕ × Bytes))

abbrev pub is_name_byte : ℕ → Bool
is_name_byte c = isalnum c || c == b'_'

-- The result of `append_value`, taken into the buffer.
abbrev pub taken : Appended → (Bytes → Progress) → Rendering Progress
taken (appended out) next = done (next out)
taken (refuses state message) next = fails state message

module _ {D O : Type 0} (php : Php D O) (params : Params D O) where
  -- A `?`.
  unfoldable pub bind_index : Progress → Rendering Progress
  bind_index r = elim (find_index r.position params) [
    | none ↦ fails (codes "HY093") count_mismatch
    | some p ↦
        taken (append_value php p r.out)
          (λ out. record r { out = out; position = r.position + 1; positional = true })
  ]

  -- A `:name`, with its colon.
  unfoldable pub bind_name : Bytes → Progress → Rendering Progress
  bind_name n r = elim (find_name n params) [
    | none ↦ fails (codes "HY093") (codes "parameter was not defined: " ++ n)
    | some p ↦
        taken (append_value php p r.out)
          (λ out. record r { out = out; named = true; used_names = add_name n r.used_names })
  ]

  -- One round of the loop, at the byte `c` with `s` behind it.
  unfoldable pub round : Option ℕ → ℕ → Bytes → Progress → Round
  round prev c s r = elim (skip prev (c ∷ s)) [
    | some (stretch, rest) ↦
        done (record r { out = r.out ++ stretch }, (last_byte prev stretch, rest))
    | none ↦
        if c == b'?'
        then bind_index r >>= (λ r'. done (r', (some c, s)))
        else if c == b':' && opens_named_parameter prev s
        then (let (n, rest) = span is_name_byte s in
            bind_name (c ∷ n) r >>= (λ r'. done (r', (last_byte (some c) n, rest))))
        else done (record r { out = r.out ++ c ∷ [] }, (some c, s))
  ]

  -- `while (c < end)`: each round moves on by a byte or more.
  unfoldable pub render_loop : ℕ → Option ℕ → Bytes → Progress → Rendering Progress
  render_loop fuel prev [] r = done r
  render_loop zero prev (c ∷ s) r = starved
  render_loop (suc fuel) prev (c ∷ s) r =
      round prev c s r >>= λ (r', next). render_loop fuel next.0 next.1 r'

  -- The checks behind the loop.
  unfoldable pub finish : Progress → Rendering Bytes
  finish r =
      let consumed = if r.positional then r.position else length r.used_names in
      if r.positional && r.named
      then fails (codes "HY093") (codes "mixed named and positional parameters")
      else if consumed == length params
      then done r.out
      else fails (codes "HY093") count_mismatch

  abbrev pub start : Progress
  start = record { out = []; position = 0; positional = false; named = false; used_names = [] }

  -- The text goes out as it is where nothing is bound.
  unfoldable pub render_statement : Bytes → Rendering Bytes
  render_statement query =
      let bound = render_loop (length query) none query start >>= finish in
      if length params == 0 then done query else bound
