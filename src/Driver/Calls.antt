-- ===== src/Driver/Calls.antt =====
-- What PDO calls on an open connection: its methods in frostlake_driver.c.
use frostlake_pdo.Driver.Dbh.{
  Dbh, clear_error, closed_message, error_without_handle, execute_on, free_handle,
}
use frostlake_pdo.Json.Value.{Json}
use frostlake_pdo.Prelude.{
  Bool, Bytes, Option, codes, false, if◌then◌else◌, leb, negsuc, none, not, pos, some, true, ℕ, ℤ,
  ◌&&◌, ◌==◌,
}
use frostlake_pdo.Statement.Column.{result_row_count}
use frostlake_pdo.Statement.Cursor.{Statement, first_result_set}
use frostlake_pdo.Wire.Execute.{Answer, is_answer, session_alive}
use frostlake_pdo.Wire.Session.{count_unset}
use frostlake_pdo.Wire.State.{Target, Transport, on_connection, on_handle, on_statement}

-- The attributes that the driver knows, and any other.
pub data Attribute : Type 0 where
  autocommit client_version statement_count other_attribute : Attribute

pub data AttributeValue : Type 0 where
  long_value : ℤ → AttributeValue
  version_text : Bytes → AttributeValue

-- `ZVAL_LONG` of a flag.
abbrev pub flag_value : Bool → ℤ
flag_value true = pos 1
flag_value false = pos 0

abbrev pub is_zero : ℤ → Bool
is_zero (pos n) = n == 0
is_zero (negsuc n) = false

-- `PHP_PDO_FROSTLAKE_VERSION`
abbrev pub version : Bytes
version = codes "0.2.0"

-- A statement as `ecalloc` leaves it, with the connection's count.
unfoldable pub prepared : Bytes → ℤ → Statement
prepared query count = record {
  query = query;
  active_query = none;
  response = none;
  result_set = 0;
  columns = none;
  rows = none;
  row = none;
  multi_statement_count = count;
  column_count = 0;
  row_count = pos 0;
}

-- What `pdo_frostlake_handle_doer` answers for a response.
abbrev pub exec_count : Json → ℤ
exec_count answer = elim (first_result_set (some answer)) [
  | some first ↦ result_row_count (some first)
  | none ↦ pos 0
]

module _ {S : Type 0} where
  -- `pdo_frostlake_handle_preparer`
  unfoldable pub handle_preparer : Bytes → Dbh S → Option Statement × Dbh S
  unfolding prepared
  handle_preparer query d =
      if d.freed
      then (
        none,
        record d {
          world = error_without_handle on_connection (codes "08003") closed_message d.world;
        },
      )
      else (some (prepared query d.world.handle.multi_statement_count), d)

  abbrev pub with_count : ℤ → Dbh S → Dbh S
  with_count n d = record d {
    world = on_handle (λ h. record h { multi_statement_count = n }) d.world;
  }

  -- `pdo_frostlake_set_attribute`, for the long that the value converts to.
  unfoldable pub set_attribute : Attribute → ℤ → Dbh S → Bool × Dbh S
  set_attribute autocommit n d = (true, record d { auto_commit = not (is_zero n) })
  set_attribute statement_count n d = if d.freed then (false, d) else (true, with_count n d)
  set_attribute client_version n d = (false, d)
  set_attribute other_attribute n d = (false, d)

  -- `pdo_frostlake_last_insert_id`
  unfoldable pub last_insert_id : Option Bytes → Dbh S → Option Bytes
  last_insert_id name d = none

  -- `pdo_frostlake_fetch_error`: the message, if there is one, that follows a null.
  unfoldable pub fetch_error : Target → Dbh S → Option Bytes
  fetch_error on_statement d = d.world.statement_message
  fetch_error on_connection d = if d.freed then none else d.world.handle.errmsg

  -- `pdo_frostlake_get_attribute`
  unfoldable pub get_attribute : Attribute → Dbh S → Option AttributeValue
  get_attribute autocommit d = some (long_value (flag_value d.auto_commit))
  get_attribute client_version d = some (version_text version)
  get_attribute statement_count d =
      if d.freed then none else some (long_value d.world.handle.multi_statement_count)
  get_attribute other_attribute d = none

module _ {S : Type 0} (t : Transport S) where
  abbrev pub counted : Answer × Dbh S → ℤ × Dbh S
  counted (none, d) = (negsuc 0, d)
  counted (some answer, d) = (exec_count answer, d)

  -- `pdo_frostlake_handle_doer`
  unfoldable pub handle_doer : Bytes → Dbh S → ℤ × Dbh S
  unfolding clear_error execute_on
  handle_doer sql d = counted (execute_on t on_connection sql count_unset (clear_error d))

  -- `run_transaction_statement`
  unfoldable pub run_transaction_statement : Bytes → Dbh S → Bool × Dbh S
  unfolding clear_error execute_on
  run_transaction_statement sql d =
      let (answer, d') = execute_on t on_connection sql count_unset (clear_error d) in
      (is_answer answer, d')

  -- `pdo_frostlake_handle_begin`
  unfoldable pub handle_begin : Dbh S → Bool × Dbh S
  unfolding run_transaction_statement
  handle_begin d = run_transaction_statement (codes "BEGIN") d

  -- `pdo_frostlake_handle_commit`
  unfoldable pub handle_commit : Dbh S → Bool × Dbh S
  unfolding run_transaction_statement
  handle_commit d = run_transaction_statement (codes "COMMIT") d

  -- `pdo_frostlake_handle_rollback`
  unfoldable pub handle_rollback : Dbh S → Bool × Dbh S
  unfolding run_transaction_statement
  handle_rollback d = run_transaction_statement (codes "ROLLBACK") d

  -- `pdo_frostlake_check_liveness`, where `refcount` PDO objects hold the handle.
  unfoldable pub check_liveness : ℕ → Dbh S → Bool × Dbh S
  unfolding free_handle
  check_liveness refcount d =
      let (alive, w) = session_alive t d.world in
      let checked = record d { world = w } in
      if d.freed
      then (false, d)
      else (alive, if not alive && leb refcount 1 then free_handle checked else checked)
