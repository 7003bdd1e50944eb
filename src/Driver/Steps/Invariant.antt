-- ===== src/Driver/Steps/Invariant.antt =====
-- What every connection keeps from its opening on.
use frostlake_pdo.Driver.Calls.{handle_begin, handle_commit, handle_rollback}
use frostlake_pdo.Driver.Dbh.{Dbh}
use frostlake_pdo.Driver.Login.{DataSource, port_before, port_in_range, port_key, port_of, use_text}
use frostlake_pdo.Driver.Login.Opens.{Login, handle_factory-Login}
use frostlake_pdo.Driver.Login.Scope.{login_scope, profile, scope_entry}
use frostlake_pdo.Driver.Steps.{
  Reached, Step, attribute_call, begin_call, called, close_call, commit_call, exec_call,
  liveness_call, opened_on, prepare_call, rollback_call, statement_call,
}
use frostlake_pdo.Driver.Steps.Kept.{
  Same, attribute-Same, closer-Same, doer-Same, liveness-Same, opened_part, preparer-Same, run-Same,
  statement-Same,
}
use frostlake_pdo.Libc.{strtol, strtol_end}
use frostlake_pdo.Prelude.{
  All, All-append, Bool, Bool-cases, Bytes, List, Option, [], ap, arith, codes, false, inl, inr,
  length, length-append, negsuc, none, pos, some, subst, sym, true, ℕ, ℤ, ◌++◌, ◌+◌, ◌∙◌, ◌∷◌, ◌≡◌,
  ◌≤◌,
}
use frostlake_pdo.Sql.Identifier.{is_identifier}
use frostlake_pdo.Sql.Value.{Php}
use frostlake_pdo.Wire.Execute.Within.{Fixed, branch}
use frostlake_pdo.Wire.Session.{count_unset}
use frostlake_pdo.Wire.State.{Handle, Transport}

-- "USE <kind> <name>" for an identifier; the engine must take the role's.
pub data IsUse : Bytes × Bool → Type 0 where
  use_role : (name : Bytes) → is_identifier name ≡ true → IsUse (use_text (codes "ROLE") name, true)
  use_warehouse :
      (name : Bytes) → is_identifier name ≡ true → IsUse (use_text (codes "WAREHOUSE") name, false)
  use_database :
      (name : Bytes) → is_identifier name ≡ true → IsUse (use_text (codes "DATABASE") name, false)
  use_schema :
      (name : Bytes) → is_identifier name ≡ true → IsUse (use_text (codes "SCHEMA") name, false)

-- `PDO_FROSTLAKE_SCOPE_MAX`
abbrev pub scope_max : ℕ
scope_max = 4

-- A connection opened on the data source: its port is one, its scope is the data source's, fits the
-- handle and is made of USE statements, and host, timeout and autocommit mode are those it was
-- opened with.
pub record OnSource (source : DataSource) (timeout : Option ℤ) (auto_commit : Bool) (h : Handle)
    : Type 0 where
  pub valid_port : port_of (port_key source) ≡ some h.port
  pub port_low : 1 ≤ h.port
  pub port_high : h.port ≤ 65535
  pub opened_with : opened_part h ≡ profile source timeout auto_commit h.port
  pub few : length h.scope ≤ scope_max
  pub uses : All IsUse h.scope

in_range : (z : ℤ) (n : ℕ) → port_in_range z ≡ some n → (1 ≤ n) × (n ≤ 65535)
in_range (pos m) n e = ground arith
in_range (negsuc m) n e = cc

before_end :
    (end : Option Bytes) (z : ℤ) (n : ℕ) → port_before end z ≡ some n → (1 ≤ n) × (n ≤ 65535)
before_end none z n e = cc
before_end (some []) z n e = in_range z n e
before_end (some (c ∷ rest)) z n e = cc

port_bounds : (digits : Bytes) (n : ℕ) → port_of digits ≡ some n → (1 ≤ n) × (n ≤ 65535)
unfolding port_of
port_bounds digits n e = before_end (strtol_end digits) (strtol digits) n e

module _ (kind : Bytes) (required : Bool)
    (is_use : (name : Bytes)
      → is_identifier name ≡ true
      → IsUse (use_text kind name, required)) where
  entry-uses : (name : Option Bytes) → All IsUse (scope_entry kind name required)
  entry-uses none = tt
  entry-uses (some []) = tt
  entry-uses (some (c ∷ rest)) = elim (Bool-cases (is_identifier (c ∷ rest))) [
    | inl named ↦ rw named (is_use (c ∷ rest) named, tt)
    | inr other ↦ rw other tt
  ]

entry-few :
    (kind : Bytes) (name : Option Bytes) (required : Bool)
    → length (scope_entry kind name required) ≤ 1
entry-few kind none required = omega arith
entry-few kind (some []) required = omega arith
entry-few kind (some (c ∷ rest)) required =
    branch (λ (xs : List (Bytes × Bool)). length xs ≤ 1) (is_identifier (c ∷ rest)) (omega arith)
      (omega arith)

scope-uses : (source : DataSource) → All IsUse (login_scope source)
scope-uses source =
    All-append IsUse _ _ (entry-uses (codes "ROLE") true use_role source.login_role) (
      All-append IsUse _ _ (entry-uses (codes "WAREHOUSE") false use_warehouse source.warehouse) (
        All-append IsUse _ _ (entry-uses (codes "DATABASE") false use_database source.database)
          (entry-uses (codes "SCHEMA") false use_schema source.schema)))

few-append :
    (a b : ℕ) (xs ys : List (Bytes × Bool))
    → length xs ≤ a
    → length ys ≤ b
    → length (xs ++ ys) ≤ a + b
few-append a b xs ys hx hy = omega (arith, length-append xs ys)

scope-few : (source : DataSource) → length (login_scope source) ≤ scope_max
scope-few source = few-append 1 3 _ _ (entry-few (codes "ROLE") source.login_role true) (
    few-append 1 2 _ _ (entry-few (codes "WAREHOUSE") source.warehouse false) (
      few-append 1 1 _ _ (entry-few (codes "DATABASE") source.database false)
        (entry-few (codes "SCHEMA") source.schema false)))

on_source :
    (source : DataSource) (timeout : Option ℤ) (auto_commit : Bool) (port : ℕ) (h : Handle)
    → port_of (port_key source) ≡ some port
    → opened_part h ≡ profile source timeout auto_commit port
    → OnSource source timeout auto_commit h
on_source source timeout auto_commit port h valid e =
    let bounds = port_bounds (port_key source) port valid in
    let same_port : h.port ≡ port = ap (λ (f : Fixed). f.port) e in
    let same_scope : h.scope ≡ login_scope source = ap (λ (f : Fixed). f.scope) e in
    record {
      valid_port = valid ∙ ap some (sym same_port);
      port_low = omega (arith, bounds.0, same_port);
      port_high = omega (arith, bounds.1, same_port);
      opened_with = e ∙ ap (profile source timeout auto_commit) (sym same_port);
      few = subst (λ xs. length xs ≤ scope_max) (sym same_scope) (scope-few source);
      uses = subst (All IsUse) (sym same_scope) (scope-uses source);
    }

module _ {S D O : Type 0} (t : Transport S) (php : Php D O) where
  Step-Same : {d d' : Dbh S} → Step t php d d' → Same d d'
  unfolding handle_begin handle_commit handle_rollback
  Step-Same (exec_call {d} sql) = doer-Same t sql d
  Step-Same (begin_call {d}) = run-Same t (codes "BEGIN") d
  Step-Same (commit_call {d}) = run-Same t (codes "COMMIT") d
  Step-Same (rollback_call {d}) = run-Same t (codes "ROLLBACK") d
  Step-Same (prepare_call {d} query) = preparer-Same t query d
  Step-Same (attribute_call {d} a n) = attribute-Same t a n d
  Step-Same (statement_call {d} params s) = statement-Same t php params s d
  Step-Same (liveness_call {d} refcount) = liveness-Same t refcount d
  Step-Same (close_call {d}) = closer-Same t d

  kept :
      (source : DataSource) (timeout : Option ℤ) (auto_commit : Bool) (d d' : Dbh S)
      → OnSource source timeout auto_commit d.world.handle
      → Same d d'
      → OnSource source timeout auto_commit d'.world.handle
  kept source timeout auto_commit d d' before same =
      on_source source timeout auto_commit d.world.handle.port d'.world.handle before.valid_port
        (same ∙ before.opened_with)

  -- Whatever PDO calls on a connection that `pdo_frostlake_handle_factory` has opened, and whatever
  -- the server answers, the connection keeps the data source's host and port, which is one, the
  -- timeout and the autocommit mode it was opened with, and its scope, at most four USE statements of
  -- identifiers.
  pub Reached-OnSource :
      (source : DataSource) (timeout : Option ℤ) (before d : Dbh S)
      → before.world.connected ≡ false
      → Reached t php source timeout before d
      → OnSource source timeout before.auto_commit d.world.handle
  Reached-OnSource source timeout before d connecting (opened_on e) =
      let login =
        subst (Login t source timeout before.auto_commit) e
          (handle_factory-Login t source timeout before connecting) in
      on_source source timeout before.auto_commit login.port d.world.handle login.valid_port (
        ap (λ (f : Fixed). let g : Fixed = record f { multi_statement_count = count_unset } in g)
          login.opened_with)
  Reached-OnSource source timeout before d connecting (called {d = d₁} reached step) =
      kept source timeout before.auto_commit d₁ d
        (Reached-OnSource source timeout before d₁ connecting reached) (Step-Same step)
