-- ===== src/Wire/State.antt =====
-- The state that frostlake_wire.c works on, and the functions that record errors in it.
use frostlake_pdo.Prelude.{
  Bool, Bytes, List, Option, codes, if◌then◌else◌, none, some, take, ℕ, ℤ, ◌∷◌,
}

-- `tracks_sessions`: -1, 0 and 1.
pub data Tracks : Type 0 where
  unsettled untracked tracked : Tracks

-- pdo_frostlake_db_handle. A scope entry is its USE statement and whether the engine must take it.
pub record Handle : Type 0 where
  pub host : Bytes
  pub port : ℕ
  pub timeout : ℕ
  pub session_id : Option Bytes
  pub tracks_sessions : Tracks
  pub dirty : Bool
  pub in_transaction : Bool
  pub scope : List (Bytes × Bool)
  pub scope_pending : Bool
  pub multi_statement_count : ℤ
  pub opened_auto_commit : Bool
  pub errmsg : Option Bytes

-- What the driver hands to fl_http_post, fl_http_get and fl_http_delete.
pub data Request : Type 0 where
  post_to : Bytes → Bytes → ℕ → Request
  get_from : Bytes → ℕ → Request
  delete_at : Bytes → ℕ → Request

-- What it has back: a transport error, if it says one, or a status and a body.
pub data Reply : Type 0 where
  unreachable : Option Bytes → Reply
  answered : ℤ → Bytes → Reply

-- The HTTP client and the server behind it, whose state is `S`, and the C library's texts for
-- EAGAIN and ETIMEDOUT.
pub record Transport (S : Type 0) : Type 0 where
  pub exchange : S → Request → Reply × S
  pub eagain_text : Bytes
  pub etimedout_text : Bytes

-- Where an error is recorded: `stmt == NULL` or not.
pub data Target : Type 0 where
  on_connection on_statement : Target

-- The connection, the error fields of the PDO objects, what a connecting constructor has thrown,
-- the server, and the requests so far, the latest first. `connected` is `dbh->methods != NULL`.
pub record World (S : Type 0) : Type 0 where
  pub handle : Handle
  pub connected : Bool
  pub connection_code : Bytes
  pub statement_code : Bytes
  pub statement_message : Option Bytes
  pub thrown : Option Bytes
  pub server : S
  pub sent : List Request

-- PDO_ERR_NONE
abbrev pub err_none : Bytes
err_none = codes "00000"

module _ {S : Type 0} where
  -- `pdo_frostlake_error`. A SQLSTATE has five characters.
  unfoldable pub error : Target → Bytes → Bytes → World S → World S
  error on_statement state message w = record w {
    statement_code = take 5 state;
    statement_message = some message;
  }
  error on_connection state message w = record w {
    connection_code = take 5 state;
    handle = record (w.handle) { errmsg = some message };
    thrown = if w.connected then w.thrown else some message;
  }

  -- `clear_failure`
  unfoldable pub clear_failure : Target → World S → World S
  clear_failure on_statement w = record w { statement_code = err_none; statement_message = none }
  clear_failure on_connection w = record w {
    connection_code = err_none;
    handle = record (w.handle) { errmsg = none };
  }

  -- `failure_sqlstate`
  abbrev pub failure_sqlstate : Target → World S → Bytes
  failure_sqlstate on_statement w = w.statement_code
  failure_sqlstate on_connection w = w.connection_code

  -- The message of the target's last failure.
  abbrev pub failure_message : Target → World S → Option Bytes
  failure_message on_statement w = w.statement_message
  failure_message on_connection w = w.handle.errmsg

  -- One exchange with the server.
  abbrev pub send : Transport S → Request → World S → Reply × World S
  send t r w =
      let (reply, server) = t.exchange w.server r in
      (reply, record w { server = server; sent = r ∷ w.sent })

  abbrev pub on_handle : (Handle → Handle) → World S → World S
  on_handle f w = record w { handle = f w.handle }
