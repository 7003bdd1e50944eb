-- ===== src/Driver/Transaction.antt =====
-- `beginTransaction`, `commit` and `rollBack` on an open connection.
use frostlake_pdo.Driver.Calls.{
  handle_begin, handle_commit, handle_rollback, run_transaction_statement,
}
use frostlake_pdo.Driver.Dbh.{Dbh, clear_error}
use frostlake_pdo.Driver.Login.Scope.{execute_on-open}
use frostlake_pdo.Libc.{bytes_eq}
use frostlake_pdo.Prelude.{
  Bool, Bytes, ap, codes, false, none, refl, some, subst, sym, true, ◌∙◌, ◌≡◌,
}
use frostlake_pdo.Sql.Numeric.{span}
use frostlake_pdo.Sql.Scan.{skip, skip_pair}
use frostlake_pdo.Sql.Session.{
  Tracked, is_one_of, leading_words, note_words, track_loop, track_session, transaction_effect,
  word, words_loop,
}
use frostlake_pdo.Wire.Execute.{Answer, is_answer}
use frostlake_pdo.Wire.Execute.Told.{Told, ToldAnswer, execute-Told}
use frostlake_pdo.Wire.Execute.Within.{branch}
use frostlake_pdo.Wire.Session.{count_unset}
use frostlake_pdo.Wire.State.{Transport, World, on_connection}

module _ (auto_commit : Bool) (h : Tracked) where
  track_begin : (track_session auto_commit (codes "BEGIN") h).in_transaction ≡ true
  unfolding track_session track_loop skip skip_pair note_words leading_words words_loop word span
      is_one_of bytes_eq transaction_effect
  track_begin = refl

  track_commit : (track_session auto_commit (codes "COMMIT") h).in_transaction ≡ false
  unfolding track_session track_loop skip skip_pair note_words leading_words words_loop word span
      is_one_of bytes_eq transaction_effect
  track_commit = refl

  track_rollback : (track_session auto_commit (codes "ROLLBACK") h).in_transaction ≡ false
  unfolding track_session track_loop skip skip_pair note_words leading_words words_loop word span
      is_one_of bytes_eq transaction_effect
  track_rollback = refl

-- The outcome of a call that begins or ends a transaction.
abbrev pub Transacts : {S : Type 0} → Bool → Bool × Dbh S → Type 0
Transacts wanted (true, d) = (d.freed ≡ false) × (d.world.handle.in_transaction ≡ wanted)
Transacts wanted (false, d) = Told on_connection d.world

module _ {S : Type 0} (t : Transport S) (sql : Bytes) (wanted : Bool)
    (tracks : (auto_commit : Bool) (h : Tracked)
      → (track_session auto_commit sql h).in_transaction ≡ wanted) where
  answer-Transacts :
      (d : Dbh S) (r : Answer × World S)
      → d.freed ≡ false
      → ToldAnswer t on_connection sql r
      → Transacts wanted (is_answer r.0, record d { world = r.1 })
  answer-Transacts d (some answer, w) open_handle (v, e) =
      (open_handle, ap (λ (u : World S). u.handle.in_transaction) e ∙ tracks _ _)
  answer-Transacts d (none, w) open_handle told = told

  cleared_freed : (d : Dbh S) → d.freed ≡ false → (clear_error d).freed ≡ false
  unfolding clear_error
  cleared_freed d h = branch (λ (d' : Dbh S). d'.freed ≡ false) d.freed h h

  run-Transacts :
      (d : Dbh S) → d.freed ≡ false → Transacts wanted (run_transaction_statement t sql d)
  unfolding run_transaction_statement
  run-Transacts d open_handle =
      let opened_error = cleared_freed d open_handle in
      subst (λ (r : Answer × Dbh S). Transacts wanted (is_answer r.0, r.1))
        (sym (execute_on-open t on_connection sql count_unset (clear_error d) opened_error))
        (answer-Transacts (clear_error d) _ opened_error
          (execute-Told t on_connection sql count_unset (clear_error d).world))

-- On an open connection, `beginTransaction` that answers true leaves a transaction, and `commit` and
-- `rollBack` that answer true leave none; each that answers false has recorded its message and its
-- SQLSTATE on the connection.
pub transaction-calls :
    {S : Type 0} (t : Transport S) (d : Dbh S)
    → d.freed ≡ false
    → Transacts true (handle_begin t d)
      × Transacts false (handle_commit t d)
      × Transacts false (handle_rollback t d)
unfolding handle_begin handle_commit handle_rollback
transaction-calls t d open_handle = (
  run-Transacts t (codes "BEGIN") true track_begin d open_handle,
  run-Transacts t (codes "COMMIT") false track_commit d open_handle,
  run-Transacts t (codes "ROLLBACK") false track_rollback d open_handle,
)
