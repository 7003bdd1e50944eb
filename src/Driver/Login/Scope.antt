-- ===== src/Driver/Login/Scope.antt =====
-- The scope of a data source, and how the steps of a login put it on.
use frostlake_pdo.Driver.Dbh.{Dbh, clear_error, execute_on}
use frostlake_pdo.Driver.Login.{
  DataSource, after_use, and_then, forgive, healthy_on, host_key, keep_scope, run_use,
  set_connected, timeout_of, use_object, use_scope, use_text,
}
use frostlake_pdo.Libc.{bytes_eq}
use frostlake_pdo.Prelude.{
  Bool, Bool-cases, Bytes, List, Option, [], ap, append-nil, append_assoc, codes, false,
  if◌then◌else◌, inl, inr, is_int, none, not, refl, some, subst, sym, true, ℕ, ℤ, ◌&&◌, ◌++◌, ◌∙◌,
  ◌∷◌, ◌≡◌,
}
use frostlake_pdo.Sql.Identifier.{is_identifier}
use frostlake_pdo.Wire.Execute.{Answer, execute, health_of, healthy, short_timeout}
use frostlake_pdo.Wire.Execute.Requests.{execute-Within}
use frostlake_pdo.Wire.Execute.Within.{Fixed, branch, fixed}
use frostlake_pdo.Wire.Session.{count_unset}
use frostlake_pdo.Wire.State.{
  Reply, Target, Transport, World, answered, error, get_from, on_connection, send, unreachable,
}

abbrev pub entry_of : Bytes → Bytes → Bool → List (Bytes × Bool)
entry_of kind name required = if is_identifier name then (use_text kind name, required) ∷ [] else []

-- The scope entry that a key of the data source stands for.
abbrev pub scope_entry : Bytes → Option Bytes → Bool → List (Bytes × Bool)
scope_entry kind none required = []
scope_entry kind (some []) required = []
scope_entry kind (some (c ∷ rest)) required = entry_of kind (c ∷ rest) required

-- The scope of a data source.
abbrev pub login_scope : DataSource → List (Bytes × Bool)
login_scope source =
    scope_entry (codes "ROLE") source.login_role true
    ++ (scope_entry (codes "WAREHOUSE") source.warehouse false
        ++ (scope_entry (codes "DATABASE") source.database false
            ++ scope_entry (codes "SCHEMA") source.schema false))

-- What a connection to the data source is opened with.
abbrev pub profile : DataSource → Option ℤ → Bool → ℕ → Fixed
profile source timeout auto_commit port = record {
  host = (host_key source);
  port = port;
  timeout = timeout_of timeout;
  scope = login_scope source;
  opened_auto_commit = auto_commit;
  multi_statement_count = count_unset;
}

abbrev extend : Fixed → List (Bytes × Bool) → Fixed
extend f entries = record f { scope = f.scope ++ entries }

abbrev pub Thrown : {S : Type 0} → Dbh S → Type 0
Thrown d = (message : Bytes) × (d.world.thrown ≡ some message)

module _ {S : Type 0} where
  -- A connection that is being opened.
  pub record Ready (f : Fixed) (d : Dbh S) : Type 0 where
    pub held : d.freed ≡ false
    pub connecting : d.world.connected ≡ false
    pub opened_with : fixed d.world.handle ≡ f

  abbrev pub LoginStep : Fixed → Bool × Dbh S → Type 0
  LoginStep f (true, d) = Ready f d
  LoginStep f (false, d) = Thrown d

  pub and_then-LoginStep :
      {f : Fixed} (g : Fixed) (r : Bool × Dbh S) (next : Dbh S → Bool × Dbh S)
      → LoginStep f r
      → ((d : Dbh S) → Ready f d → LoginStep g (next d))
      → LoginStep g (and_then r next)
  and_then-LoginStep g (true, d) next h k = k d h
  and_then-LoginStep g (false, d) next h k = h

  -- A step that adds to the scope, and what adds the rest of it.
  add-LoginStep :
      (f : Fixed) (one rest : List (Bytes × Bool)) (r : Bool × Dbh S) (next : Dbh S → Bool × Dbh S)
      → LoginStep (extend f one) r
      → ((d : Dbh S) → Ready (extend f one) d → LoginStep (extend (extend f one) rest) (next d))
      → LoginStep (extend f (one ++ rest)) (and_then r next)
  add-LoginStep f one rest r next h k =
      subst (λ g. LoginStep g (and_then r next))
        (ap (λ entries. let g : Fixed = record f { scope = entries } in g)
          (append_assoc f.scope one rest))
        (and_then-LoginStep _ r next h k)

  pub thrown-error :
      (code message : Bytes) (w : World S)
      → w.connected ≡ false
      → (m : Bytes) × ((error on_connection code message w).thrown ≡ some m)
  unfolding error
  thrown-error code message w h = (message, rw h refl)

  forgive-Ready : {f : Fixed} (d : Dbh S) → Ready f d → Ready f (forgive d)
  unfolding clear_error
  forgive-Ready d r =
      branch (Ready _) d.freed
        (record { held = r.held; connecting = r.connecting; opened_with = r.opened_with })
        (record { held = r.held; connecting = r.connecting; opened_with = r.opened_with })

  after_use-LoginStep :
      {f : Fixed} (required : Bool) (answer : Answer) (d : Dbh S)
      → Ready f d
      → LoginStep f (after_use required (answer, d))
  after_use-LoginStep required (some answer) d r = r
  after_use-LoginStep required none d r =
      branch (LoginStep _) (bytes_eq d.world.connection_code (codes "HY000") && not required)
        (forgive-Ready d r) (_, refl)

module _ {S : Type 0} (t : Transport S) where
  pub execute_on-open :
      (target : Target) (sql : Bytes) (count : ℤ) (d : Dbh S)
      → d.freed ≡ false
      → execute_on t target sql count d ≡ (
        (execute t target sql count d.world).0,
        record d { world = (execute t target sql count d.world).1 },
      )
  unfolding execute_on
  execute_on-open target sql count d h = rw h refl

  run_use-LoginStep :
      {f : Fixed} (kind name : Bytes) (required : Bool) (d : Dbh S)
      → Ready f d
      → LoginStep (extend f ((use_text kind name, required) ∷ [])) (run_use t kind name required d)
  unfolding run_use
  run_use-LoginStep kind name required d r =
      let scoped = set_connected true (keep_scope (use_text kind name) required d) in
      let kept = execute-Within t on_connection (use_text kind name) count_unset scoped.world in
      rw (execute_on-open on_connection (use_text kind name) count_unset scoped r.held) (
        after_use-LoginStep required _ _ (record {
          held = r.held;
          connecting = r.connecting;
          opened_with =
              kept.same_fixed
              ∙ ap (λ g. extend g ((use_text kind name, required) ∷ [])) r.opened_with;
        }))

  extend-nil : (f : Fixed) → f ≡ extend f []
  extend-nil f =
      ap (λ entries. let g : Fixed = record f { scope = entries } in g) (sym (append-nil f.scope))

  skipped-Ready : {f : Fixed} {d : Dbh S} → Ready f d → Ready (extend f []) d
  skipped-Ready {f} {d} r = subst (λ g. Ready g d) (extend-nil f) r

  use_object-LoginStep :
      {f : Fixed} (kind : Bytes) (name : Option Bytes) (required : Bool) (d : Dbh S)
      → Ready f d
      → LoginStep (extend f (scope_entry kind name required)) (use_object t kind name required d)
  unfolding use_object
  use_object-LoginStep kind none required d r = skipped-Ready r
  use_object-LoginStep kind (some []) required d r = skipped-Ready r
  use_object-LoginStep kind (some (c ∷ rest)) required d r =
      elim (Bool-cases (is_identifier (c ∷ rest))) [
        | inl named ↦ rw named (run_use-LoginStep kind (c ∷ rest) required d r)
        | inr other ↦ rw other (elim (Bool-cases required) [
          | inl needed ↦ rw needed (thrown-error _ _ d.world r.connecting)
          | inr free ↦ rw free (skipped-Ready r)
        ])
      ]

  health_of-LoginStep :
      {f : Fixed} (reply : Reply) (d : Dbh S)
      → Ready f d
      → LoginStep f ((health_of reply d.world).0, record d { world = (health_of reply d.world).1 })
  unfolding health_of
  health_of-LoginStep (unreachable e) d r = thrown-error _ _ d.world r.connecting
  health_of-LoginStep (answered status body) d r = elim (Bool-cases (is_int status 200)) [
    | inl healthy_answer ↦
        rw healthy_answer
          (record { held = r.held; connecting = r.connecting; opened_with = r.opened_with })
    | inr other ↦ rw other (thrown-error _ _ d.world r.connecting)
  ]

  pub healthy_on-LoginStep : {f : Fixed} (d : Dbh S) → Ready f d → LoginStep f (healthy_on t d)
  unfolding healthy
  healthy_on-LoginStep d r =
      health_of-LoginStep _
        (record d {
          world =
              (send t (get_from (codes "/api/health") (short_timeout d.world.handle)) d.world).1;
        })
        (record { held = r.held; connecting = r.connecting; opened_with = r.opened_with })

  -- One USE of the login, and what applies the rest of the scope.
  use-LoginStep :
      (f : Fixed) (kind : Bytes) (name : Option Bytes) (required : Bool)
      (rest : List (Bytes × Bool)) (next : Dbh S → Bool × Dbh S) (d : Dbh S)
      → Ready f d
      → ((f' : Fixed) (d' : Dbh S) → Ready f' d' → LoginStep (extend f' rest) (next d'))
      → LoginStep
          (extend f (scope_entry kind name required ++ rest))
          (and_then (use_object t kind name required d) next)
  use-LoginStep f kind name required rest next d r k =
      add-LoginStep f (scope_entry kind name required) rest (use_object t kind name required d) next
        (use_object-LoginStep kind name required d r)
        (k (extend f (scope_entry kind name required)))

  pub use_scope-LoginStep :
      (f : Fixed) (source : DataSource) (d : Dbh S)
      → Ready f d
      → LoginStep (extend f (login_scope source)) (use_scope t source d)
  unfolding use_scope
  use_scope-LoginStep f source d r =
      use-LoginStep f (codes "ROLE") source.login_role true _ _ d r λ f₁ d₁ r₁.
        use-LoginStep f₁ (codes "WAREHOUSE") source.warehouse false _ _ d₁ r₁ λ f₂ d₂ r₂.
          use-LoginStep f₂ (codes "DATABASE") source.database false _ _ d₂ r₂
            λ f₃ d₃ r₃. use_object-LoginStep (codes "SCHEMA") source.schema false d₃ r₃
