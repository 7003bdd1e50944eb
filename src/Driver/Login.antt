-- ===== src/Driver/Login.antt =====
-- Opening a connection: `use_object` and `pdo_frostlake_handle_factory` of frostlake_driver.c.
pub mod Scope
pub mod Opens
use frostlake_pdo.Driver.Dbh.{Dbh, clear_error, execute_on, free_handle}
use frostlake_pdo.Libc.{bytes_eq, int_of_long, strtol, strtol_end}
use frostlake_pdo.Prelude.{
  Bool, Bytes, Option, [], codes, false, if◌then◌else◌, ltb, negsuc, none, not, pos, some, true, ℕ,
  ℤ, ◌&&◌, ◌++◌, ◌||◌, ◌∷◌,
}
use frostlake_pdo.Sql.Identifier.{is_identifier}
use frostlake_pdo.Sql.Session.Use.{database, schema, warehouse}
use frostlake_pdo.Wire.Execute.{Answer, healthy, release_session}
use frostlake_pdo.Wire.Session.{count_unset, or_text}
use frostlake_pdo.Wire.State.{
  Handle, Transport, World, err_none, error, on_connection, on_handle, unsettled,
}

-- The values that `php_pdo_parse_data_source` finds for the keys it is given.
pub record DataSource : Type 0 where
  pub host : Option Bytes
  pub port : Option Bytes
  pub database : Option Bytes
  pub schema : Option Bytes
  pub warehouse : Option Bytes
  pub login_role : Option Bytes

-- The two keys that have a default.
abbrev pub host_key : DataSource → Bytes
host_key source = or_text source.host (codes "localhost")

abbrev pub port_key : DataSource → Bytes
port_key source = or_text source.port (codes "18082")

-- `PDO_FROSTLAKE_DEFAULT_TIMEOUT`
abbrev pub default_timeout : ℕ
default_timeout = 300

-- `H->timeout`, from PDO::ATTR_TIMEOUT.
unfoldable pub timeout_of : Option ℤ → ℕ
unfolding int_of_long
timeout_of none = default_timeout
timeout_of (some n) = elim (int_of_long n) [ pos s ↦ s | negsuc s ↦ default_timeout ]

abbrev pub port_in_range : ℤ → Option ℕ
port_in_range (pos n) = if ltb n 1 || ltb 65535 n then none else some n
port_in_range (negsuc n) = none

abbrev pub port_before : Option Bytes → ℤ → Option ℕ
port_before (some []) n = port_in_range n
port_before (some (c ∷ rest)) n = none
port_before none n = none

-- The port of the data source, or none where it is refused.
unfoldable pub port_of : Bytes → Option ℕ
unfolding strtol strtol_end
port_of text = port_before (strtol_end text) (strtol text)

-- The handle as `pecalloc` and the lines before the port's check leave it.
unfoldable pub opened_handle : DataSource → Option ℤ → Bool → Handle
unfolding timeout_of
opened_handle source timeout auto_commit = record {
  host = (host_key source);
  port = 0;
  timeout = timeout_of timeout;
  session_id = none;
  tracks_sessions = unsettled;
  dirty = false;
  in_transaction = false;
  scope = [];
  scope_pending = false;
  multi_statement_count = count_unset;
  opened_auto_commit = auto_commit;
  errmsg = none;
}

-- "USE <kind> <name>"
abbrev pub use_text : Bytes → Bytes → Bytes
use_text kind name = codes "USE " ++ (kind ++ (b' ' ∷ name))

abbrev pub invalid_port : Bytes → Bytes
invalid_port text = codes "Invalid port in the data source: " ++ text

abbrev pub not_identifier : Bytes → Bytes → Bytes
not_identifier kind name =
    codes "The " ++ (kind ++ (codes " in the data source is not an identifier: " ++ name))

module _ {S : Type 0} where
  abbrev pub on_world : (World S → World S) → Dbh S → Dbh S
  on_world f d = record d { world = f d.world }

  abbrev pub connection_error : Bytes → Dbh S → Dbh S
  connection_error message d = on_world (error on_connection (codes "08001") message) d

  -- `dbh->methods = ...`
  abbrev pub set_connected : Bool → Dbh S → Dbh S
  set_connected connected d = on_world (λ w. record w { connected = connected }) d

  -- A USE statement is kept, to go onto a fresh session.
  abbrev pub keep_scope : Bytes → Bool → Dbh S → Dbh S
  keep_scope sql required d =
      on_world (on_handle (λ h. record h { scope = h.scope ++ ((sql, required) ∷ []) })) d

  -- `strcpy(dbh->error_code, PDO_ERR_NONE); clear_error(dbh);`
  abbrev pub forgive : Dbh S → Dbh S
  forgive d = clear_error (on_world (λ w. record w { connection_code = err_none }) d)

  -- The exception that a refused USE throws.
  abbrev pub throw_failure : Dbh S → Dbh S
  throw_failure d =
      on_world
        (λ w. record w {
          thrown = some (or_text w.handle.errmsg (codes "The connection was refused"));
        })
        d

  -- What `use_object` makes of the answer.
  abbrev pub after_use : Bool → Answer × Dbh S → Bool × Dbh S
  after_use required (some answer, d) = (true, d)
  after_use required (none, d) =
      if bytes_eq d.world.connection_code (codes "HY000") && not required
      then (true, forgive d)
      else (false, throw_failure d)

  abbrev pub back_to : Bool → Answer × Dbh S → Answer × Dbh S
  back_to connecting (answer, d) = (answer, set_connected connecting d)

  -- The steps of a login, one after the other while they succeed.
  abbrev pub and_then : Bool × Dbh S → (Dbh S → Bool × Dbh S) → Bool × Dbh S
  and_then (true, d) next = next d
  and_then (false, d) next = (false, d)

  -- The connection is open.
  abbrev pub opened : Dbh S → Dbh S
  opened d =
      on_world
        (λ w. record w {
          connected = true;
          handle = record (w.handle) { dirty = false; in_transaction = false };
        })
        d

module _ {S : Type 0} (t : Transport S) where
  -- `use_object`, for a name that is an identifier.
  unfoldable pub run_use : Bytes → Bytes → Bool → Dbh S → Bool × Dbh S
  unfolding execute_on clear_error
  run_use kind name required d =
      let sql = use_text kind name in
      after_use required (
        back_to d.world.connected (
          execute_on t on_connection sql count_unset
            (set_connected true (keep_scope sql required d))))

  -- `use_object`
  unfoldable pub use_object : Bytes → Option Bytes → Bool → Dbh S → Bool × Dbh S
  unfolding run_use
  use_object kind none required d = (true, d)
  use_object kind (some []) required d = (true, d)
  use_object kind (some (c ∷ rest)) required d =
      if is_identifier (c ∷ rest)
      then run_use kind (c ∷ rest) required d
      else if required
      then (false, connection_error (not_identifier kind (c ∷ rest)) d)
      else (true, d)

  abbrev pub healthy_on : Dbh S → Bool × Dbh S
  healthy_on d = let (ok, w) = healthy t d.world in (ok, record d { world = w })

  -- The order a login applies them in.
  unfoldable pub use_scope : DataSource → Dbh S → Bool × Dbh S
  unfolding use_object
  use_scope source d = and_then (use_object (codes "ROLE") source.login_role true d) λ d₁.
      and_then (use_object (codes "WAREHOUSE") source.warehouse false d₁) λ d₂.
        and_then (use_object (codes "DATABASE") source.database false d₂)
          λ d₃. use_object (codes "SCHEMA") source.schema false d₃

  -- From the port's check to the last USE.
  unfoldable pub log_in : DataSource → Dbh S → Bool × Dbh S
  unfolding use_scope
  log_in source d = elim (port_of (port_key source)) [
    | none ↦ (false, connection_error (invalid_port (port_key source)) d)
    | some port ↦
        and_then (healthy_on (on_world (on_handle (λ h. record h { port = port })) d))
          (use_scope source)
  ]

  abbrev pub finish_login : Bool × Dbh S → Bool × Dbh S
  finish_login (true, d) = (true, opened d)
  finish_login (false, d) = (false, free_handle (on_world (release_session t) d))

  -- `pdo_frostlake_handle_factory`
  unfoldable pub handle_factory : DataSource → Option ℤ → Dbh S → Bool × Dbh S
  unfolding opened_handle log_in free_handle
  handle_factory source timeout d = finish_login (
      log_in source (record d {
        freed = false;
        world = record (d.world) { handle = opened_handle source timeout d.auto_commit };
      }))
