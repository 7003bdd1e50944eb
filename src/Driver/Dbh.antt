-- ===== src/Driver/Dbh.antt =====
-- The connection object as PDO keeps it, and what it needs of its handle.
use frostlake_pdo.Prelude.{Bool, Bytes, codes, if◌then◌else◌, none, some, take, true, ℤ}
use frostlake_pdo.Wire.Execute.{Answer, execute, release_session}
use frostlake_pdo.Wire.State.{Target, Transport, World, on_connection, on_handle, on_statement}

-- pdo_dbh_t. Once the handle is freed (`driver_data == NULL`), the handle in `world` is that of the
-- past, and nothing reads it.
pub record Dbh (S : Type 0) : Type 0 where
  pub world : World S
  pub freed : Bool
  pub auto_commit : Bool

abbrev pub closed_message : Bytes
closed_message = codes "The connection is closed"

module _ {S : Type 0} where
  -- `pdo_frostlake_error` where no handle can keep the message.
  unfoldable pub error_without_handle : Target → Bytes → Bytes → World S → World S
  error_without_handle on_statement state message w = record w {
    statement_code = take 5 state;
    statement_message = some message;
  }
  error_without_handle on_connection state message w = record w {
    connection_code = take 5 state;
    thrown = if w.connected then w.thrown else some message;
  }

  -- `clear_error`
  unfoldable pub clear_error : Dbh S → Dbh S
  clear_error d =
      if d.freed
      then d
      else record d { world = on_handle (λ h. record h { errmsg = none }) d.world }

  -- `free_handle`
  unfoldable pub free_handle : Dbh S → Dbh S
  free_handle d = record d { freed = true }

module _ {S : Type 0} (t : Transport S) where
  -- `pdo_frostlake_handle_closer`
  unfoldable pub handle_closer : Dbh S → Dbh S
  unfolding free_handle
  handle_closer d =
      if d.freed then d else free_handle (record d { world = release_session t d.world })

  -- `pdo_frostlake_execute`, with the check of its handle.
  unfoldable pub execute_on : Target → Bytes → ℤ → Dbh S → Answer × Dbh S
  execute_on target sql count d =
      let (answer, w) = execute t target sql count d.world in
      if d.freed
      then (
        none,
        record d { world = error_without_handle target (codes "08003") closed_message d.world },
      )
      else (answer, record d { world = w })
