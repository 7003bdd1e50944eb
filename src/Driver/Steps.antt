-- ===== src/Driver/Steps.antt =====
-- An open connection from call to call.
pub mod Kept
pub mod Invariant
pub mod Freed
use frostlake_pdo.Driver.Calls.{
  Attribute, check_liveness, handle_begin, handle_commit, handle_doer, handle_preparer,
  handle_rollback, set_attribute,
}
use frostlake_pdo.Driver.Dbh.{Dbh, handle_closer}
use frostlake_pdo.Driver.Login.{DataSource, handle_factory}
use frostlake_pdo.Prelude.{Bytes, Option, true, ℕ, ℤ, ◌≡◌}
use frostlake_pdo.Sql.Render.{Params}
use frostlake_pdo.Sql.Value.{Php}
use frostlake_pdo.Statement.Cursor.{Statement, stmt_execute}
use frostlake_pdo.Wire.State.{Transport}

-- What PDO calls on a connection, one call after the other.
module _ {S D O : Type 0} (t : Transport S) (php : Php D O) where
  pub data Step : Dbh S → Dbh S → Type 0 where
    exec_call : {d : Dbh S} (sql : Bytes) → Step d (handle_doer t sql d).1
    begin_call : {d : Dbh S} → Step d (handle_begin t d).1
    commit_call : {d : Dbh S} → Step d (handle_commit t d).1
    rollback_call : {d : Dbh S} → Step d (handle_rollback t d).1
    prepare_call : {d : Dbh S} (query : Bytes) → Step d (handle_preparer query d).1
    attribute_call :
        {d : Dbh S} (attribute : Attribute) (n : ℤ) → Step d (set_attribute attribute n d).1
    statement_call :
        {d : Dbh S} (params : Params D O) (s : Statement) → Step d (stmt_execute t php params s d).2
    liveness_call : {d : Dbh S} (refcount : ℕ) → Step d (check_liveness t refcount d).1
    close_call : {d : Dbh S} → Step d (handle_closer t d)

  -- The connections that come of the one that opening `before` on the data source has given.
  pub data Reached (source : DataSource) (timeout : Option ℤ) (before : Dbh S)
      : Dbh S → Type 0 where
    opened_on :
        {d : Dbh S}
        → handle_factory t source timeout before ≡ (true, d)
        → Reached source timeout before d
    called :
        {d d' : Dbh S}
        → Reached source timeout before d
        → Step d d'
        → Reached source timeout before d'
