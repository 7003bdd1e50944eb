-- ===== src/Driver/Steps/Freed.antt =====
-- A connection whose handle is freed: every call on it is answered without the server.
-- It is freed still, and nothing was asked of the server, nor its past handle touched.
use frostlake_pdo.Driver.Calls.{
  Attribute, autocommit, check_liveness, client_version, counted, handle_begin, handle_commit,
  handle_doer, handle_preparer, handle_rollback, other_attribute, run_transaction_statement,
  set_attribute, statement_count,
}
use frostlake_pdo.Driver.Dbh.{
  Dbh, clear_error, closed_message, error_without_handle, execute_on, handle_closer,
}
use frostlake_pdo.Driver.Steps.{
  Step, attribute_call, begin_call, close_call, commit_call, exec_call, liveness_call, prepare_call,
  rollback_call, statement_call,
}
use frostlake_pdo.Prelude.{
  Bool, Bytes, Option, codes, false, false≢true, if◌then◌else◌, none, refl, some, true, ℕ, ℤ, ◌∙◌,
  ◌≡◌,
}
use frostlake_pdo.Sql.Render.{Params, Rendering, done, fails, starved}
use frostlake_pdo.Sql.Value.{Php}
use frostlake_pdo.Statement.Cursor.{
  Statement, answered_with, clear_result, clear_statement_message, send_rendered, stmt_execute,
}
use frostlake_pdo.Wire.Execute.{Answer}
use frostlake_pdo.Wire.Session.{count_unset}
use frostlake_pdo.Wire.State.{Target, Transport, error, on_connection, on_statement}

pub record Quiet {S : Type 0} (d d' : Dbh S) : Type 0 where
  pub still_freed : d'.freed ≡ true
  pub unasked : d'.world.sent ≡ d.world.sent
  pub same_server : d'.world.server ≡ d.world.server
  pub same_handle : d'.world.handle ≡ d.world.handle

-- The calls on a connection, any number of them.
pub data Later {S D O : Type 0} (t : Transport S) (php : Php D O) (d : Dbh S) : Dbh S → Type 0 where
  not_called : Later t php d d
  called_again : {d' d'' : Dbh S} → Later t php d d' → Step t php d' d'' → Later t php d d''

first_branch :
    {R : Type 0} (P : R → Type 0) (b : Bool) (x y : R) → b ≡ true → P x → P (if b then x else y)
first_branch P true x y e px = px
first_branch P false x y e px = absurd (false≢true e)

module _ {S : Type 0} where
  Quiet-refl : (d : Dbh S) → d.freed ≡ true → Quiet d d
  Quiet-refl d e = record {
    still_freed = e;
    unasked = refl;
    same_server = refl;
    same_handle = refl;
  }

  Quiet-trans : {d d' d'' : Dbh S} → Quiet d d' → Quiet d' d'' → Quiet d d''
  Quiet-trans p q = record {
    still_freed = q.still_freed;
    unasked = q.unasked ∙ p.unasked;
    same_server = q.same_server ∙ p.same_server;
    same_handle = q.same_handle ∙ p.same_handle;
  }

  refused-Quiet :
      (target : Target) (state message : Bytes) (d : Dbh S)
      → d.freed ≡ true
      → Quiet d (record d { world = error_without_handle target state message d.world })
  unfolding error_without_handle
  refused-Quiet on_connection state message d e = record {
    still_freed = e;
    unasked = refl;
    same_server = refl;
    same_handle = refl;
  }
  refused-Quiet on_statement state message d e = record {
    still_freed = e;
    unasked = refl;
    same_server = refl;
    same_handle = refl;
  }

  clear_error-Quiet : (d : Dbh S) → d.freed ≡ true → Quiet d (clear_error d)
  unfolding clear_error
  clear_error-Quiet d e = first_branch (Quiet d) d.freed d _ e (Quiet-refl d e)

  preparer-Quiet :
      (query : Bytes) (d : Dbh S) → d.freed ≡ true → Quiet d (handle_preparer query d).1
  unfolding handle_preparer
  preparer-Quiet query d e =
      first_branch (λ (r : Option Statement × Dbh S). Quiet d r.1) d.freed _ _ e
        (refused-Quiet on_connection _ _ d e)

  attribute-Quiet :
      (a : Attribute) (n : ℤ) (d : Dbh S) → d.freed ≡ true → Quiet d (set_attribute a n d).1
  unfolding set_attribute
  attribute-Quiet autocommit n d e = record {
    still_freed = e;
    unasked = refl;
    same_server = refl;
    same_handle = refl;
  }
  attribute-Quiet client_version n d e = Quiet-refl d e
  attribute-Quiet statement_count n d e =
      first_branch (λ (r : Bool × Dbh S). Quiet d r.1) d.freed _ _ e (Quiet-refl d e)
  attribute-Quiet other_attribute n d e = Quiet-refl d e

module _ {S : Type 0} (t : Transport S) where
  execute_on-Quiet :
      (target : Target) (sql : Bytes) (count : ℤ) (d : Dbh S)
      → d.freed ≡ true
      → Quiet d (execute_on t target sql count d).1
  unfolding execute_on
  execute_on-Quiet target sql count d e =
      first_branch (λ (r : Answer × Dbh S). Quiet d r.1) d.freed _ _ e
        (refused-Quiet target (codes "08003") closed_message d e)

  cleared-Quiet :
      (sql : Bytes) (d : Dbh S)
      → d.freed ≡ true
      → Quiet d (execute_on t on_connection sql count_unset (clear_error d)).1
  cleared-Quiet sql d e =
      let cleared = clear_error-Quiet d e in
      Quiet-trans cleared
        (execute_on-Quiet on_connection sql count_unset (clear_error d) cleared.still_freed)

  run-Quiet :
      (sql : Bytes) (d : Dbh S) → d.freed ≡ true → Quiet d (run_transaction_statement t sql d).1
  unfolding run_transaction_statement
  run-Quiet sql d e = cleared-Quiet sql d e

  counted-Quiet : (d : Dbh S) (r : Answer × Dbh S) → Quiet d r.1 → Quiet d (counted t r).1
  counted-Quiet d (none, d') h = h
  counted-Quiet d (some answer, d') h = h

  doer-Quiet : (sql : Bytes) (d : Dbh S) → d.freed ≡ true → Quiet d (handle_doer t sql d).1
  unfolding handle_doer
  doer-Quiet sql d e = counted-Quiet d _ (cleared-Quiet sql d e)

  liveness-Quiet :
      (refcount : ℕ) (d : Dbh S) → d.freed ≡ true → Quiet d (check_liveness t refcount d).1
  unfolding check_liveness
  liveness-Quiet refcount d e =
      first_branch (λ (r : Bool × Dbh S). Quiet d r.1) d.freed _ _ e (Quiet-refl d e)

  closer-Quiet : (d : Dbh S) → d.freed ≡ true → Quiet d (handle_closer t d)
  unfolding handle_closer
  closer-Quiet d e = first_branch (Quiet d) d.freed d _ e (Quiet-refl d e)

  answered_with-Quiet :
      (d : Dbh S) (s : Statement) (r : Answer × Dbh S) → Quiet d r.1 → Quiet d (answered_with s r).2
  answered_with-Quiet d s (none, d') h = h
  answered_with-Quiet d s (some answer, d') h = h

  rendered-Quiet :
      (s : Statement) (d : Dbh S) (r : Rendering Bytes)
      → d.freed ≡ true
      → Quiet d (send_rendered t s d r).2
  unfolding error
  rendered-Quiet s d (done sql) e =
      answered_with-Quiet d _ _ (execute_on-Quiet on_statement sql s.multi_statement_count d e)
  rendered-Quiet s d (fails state message) e = record {
    still_freed = e;
    unasked = refl;
    same_server = refl;
    same_handle = refl;
  }
  rendered-Quiet s d starved e = Quiet-refl d e

module _ {S D O : Type 0} (t : Transport S) (php : Php D O) where
  statement-Quiet :
      (params : Params D O) (s : Statement) (d : Dbh S)
      → d.freed ≡ true
      → Quiet d (stmt_execute t php params s d).2
  unfolding stmt_execute
  statement-Quiet params s d e =
      let cleared : Quiet d (clear_statement_message d) = record {
        still_freed = e;
        unasked = refl;
        same_server = refl;
        same_handle = refl;
      } in
      Quiet-trans cleared (rendered-Quiet t (clear_result s) (clear_statement_message d) _ e)

  Step-Quiet : {d d' : Dbh S} → d.freed ≡ true → Step t php d d' → Quiet d d'
  unfolding handle_begin handle_commit handle_rollback
  Step-Quiet e (exec_call {d} sql) = doer-Quiet t sql d e
  Step-Quiet e (begin_call {d}) = run-Quiet t (codes "BEGIN") d e
  Step-Quiet e (commit_call {d}) = run-Quiet t (codes "COMMIT") d e
  Step-Quiet e (rollback_call {d}) = run-Quiet t (codes "ROLLBACK") d e
  Step-Quiet e (prepare_call {d} query) = preparer-Quiet query d e
  Step-Quiet e (attribute_call {d} a n) = attribute-Quiet a n d e
  Step-Quiet e (statement_call {d} params s) = statement-Quiet params s d e
  Step-Quiet e (liveness_call {d} refcount) = liveness-Quiet t refcount d e
  Step-Quiet e (close_call {d}) = closer-Quiet t d e

  -- Once the handle of a connection is freed, whatever PDO calls on it, a second close among the calls,
  -- it stays freed, asks nothing of the server, and leaves the past handle as it was.
  pub Later-Quiet : {d d' : Dbh S} → d.freed ≡ true → Later t php d d' → Quiet d d'
  Later-Quiet {d} e not_called = Quiet-refl d e
  Later-Quiet e (called_again earlier step) =
      let quiet = Later-Quiet e earlier in Quiet-trans quiet (Step-Quiet quiet.still_freed step)
