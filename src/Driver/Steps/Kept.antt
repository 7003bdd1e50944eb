-- ===== src/Driver/Steps/Kept.antt =====
-- What the calls on a connection keep of what it was opened with.
use frostlake_pdo.Driver.Calls.{
  Attribute, autocommit, check_liveness, client_version, counted, handle_doer, handle_preparer,
  other_attribute, run_transaction_statement, set_attribute, statement_count,
}
use frostlake_pdo.Driver.Dbh.{
  Dbh, clear_error, error_without_handle, execute_on, free_handle, handle_closer,
}
use frostlake_pdo.Prelude.{
  Bool, Bytes, Option, Option-cases, ap, inl, inr, is_int, leb, none, not, refl, some, ℕ, ℤ, ◌&&◌,
  ◌∙◌, ◌≡◌,
}
use frostlake_pdo.Sql.Render.{Params, Rendering, done, fails, starved}
use frostlake_pdo.Sql.Value.{Php}
use frostlake_pdo.Statement.Cursor.{
  Statement, answered_with, clear_result, clear_statement_message, send_rendered, stmt_execute,
}
use frostlake_pdo.Wire.Execute.{
  Answer, health_of, healthy, probe, release_session, session_alive, token_ok,
}
use frostlake_pdo.Wire.Execute.Requests.{execute-Within}
use frostlake_pdo.Wire.Execute.Within.{Fixed, branch, error-Within, fixed, post-Within}
use frostlake_pdo.Wire.Session.{count_unset, has_session, is_tracked}
use frostlake_pdo.Wire.State.{
  Handle, Reply, Target, Transport, World, answered, error, on_connection, on_statement,
  unreachable,
}

-- What a connection was opened with, but for the statement count, which an attribute sets.
abbrev pub opened_part : Handle → Fixed
opened_part h = record (fixed h) { multi_statement_count = count_unset }

abbrev pub Same : {S : Type 0} → Dbh S → Dbh S → Type 0
Same d d' = opened_part d'.world.handle ≡ opened_part d.world.handle

abbrev unset_count : Fixed → Fixed
unset_count f = record f { multi_statement_count = count_unset }

module _ {S : Type 0} (t : Transport S) where
  execute_on-Same :
      (target : Target) (sql : Bytes) (count : ℤ) (d : Dbh S)
      → Same d (execute_on t target sql count d).1
  unfolding execute_on error_without_handle
  execute_on-Same on_connection sql count d =
      branch (λ (r : Answer × Dbh S). Same d r.1) d.freed refl
        (ap unset_count (execute-Within t on_connection sql count d.world).same_fixed)
  execute_on-Same on_statement sql count d =
      branch (λ (r : Answer × Dbh S). Same d r.1) d.freed refl
        (ap unset_count (execute-Within t on_statement sql count d.world).same_fixed)

  clear_error-Same : (d : Dbh S) → Same d (clear_error d)
  unfolding clear_error
  clear_error-Same d = branch (λ (d' : Dbh S). Same d d') d.freed refl refl

  pub run-Same : (sql : Bytes) (d : Dbh S) → Same d (run_transaction_statement t sql d).1
  unfolding run_transaction_statement
  run-Same sql d =
      execute_on-Same on_connection sql count_unset (clear_error d) ∙ clear_error-Same d

  counted-Same : (d : Dbh S) (r : Answer × Dbh S) → Same d r.1 → Same d (counted t r).1
  counted-Same d (none, d') h = h
  counted-Same d (some answer, d') h = h

  pub doer-Same : (sql : Bytes) (d : Dbh S) → Same d (handle_doer t sql d).1
  unfolding handle_doer
  doer-Same sql d =
      counted-Same d (execute_on t on_connection sql count_unset (clear_error d))
        (execute_on-Same on_connection sql count_unset (clear_error d) ∙ clear_error-Same d)

  pub preparer-Same : (query : Bytes) (d : Dbh S) → Same d (handle_preparer query d).1
  unfolding handle_preparer error_without_handle
  preparer-Same query d = branch (λ (r : Option Statement × Dbh S). Same d r.1) d.freed refl refl

  pub attribute-Same : (a : Attribute) (n : ℤ) (d : Dbh S) → Same d (set_attribute a n d).1
  unfolding set_attribute
  attribute-Same autocommit n d = refl
  attribute-Same client_version n d = refl
  attribute-Same statement_count n d = branch (λ (r : Bool × Dbh S). Same d r.1) d.freed refl refl
  attribute-Same other_attribute n d = refl

  health_of-fixed :
      (reply : Reply) (w : World S) → fixed (health_of reply w).1.handle ≡ fixed w.handle
  unfolding health_of
  health_of-fixed (unreachable e) w = (error-Within on_connection _ _ w).same_fixed
  health_of-fixed (answered status body) w =
      branch (λ (r : Bool × World S). fixed r.1.handle ≡ fixed w.handle) (is_int status 200) refl
        (error-Within on_connection _ _ w).same_fixed

  healthy-fixed : (w : World S) → fixed (healthy t w).1.handle ≡ fixed w.handle
  unfolding healthy
  healthy-fixed w = health_of-fixed _ _

  session_alive-fixed : (w : World S) → fixed (session_alive t w).1.handle ≡ fixed w.handle
  unfolding session_alive
  session_alive-fixed w =
      let Kept = λ (r : Bool × World S). fixed r.1.handle ≡ fixed w.handle in
      branch Kept (not (has_session w.handle) && not w.handle.scope_pending) (healthy-fixed w) (
        branch Kept (not w.handle.dirty && not w.handle.in_transaction)
          (execute-Within t on_connection probe count_unset w).same_fixed
          (post-Within t on_connection probe count_unset w).same_fixed)

  pub liveness-Same : (refcount : ℕ) (d : Dbh S) → Same d (check_liveness t refcount d).1
  unfolding check_liveness free_handle
  liveness-Same refcount d =
      let checked : Dbh S = record d { world = (session_alive t d.world).1 } in
      let kept = ap unset_count (session_alive-fixed d.world) in
      branch (λ (r : Bool × Dbh S). Same d r.1) d.freed refl
        (branch (λ (d' : Dbh S). Same d d') (not (session_alive t d.world).0 && leb refcount 1) kept
          kept)

  release_session-fixed : (w : World S) → fixed (release_session t w).handle ≡ fixed w.handle
  unfolding release_session
  release_session-fixed w = elim (Option-cases w.handle.session_id) [
    | inl no_id ↦ rw no_id refl
    | inr (id, has_id) ↦ rw has_id (
        branch (λ (v : World S). fixed v.handle ≡ fixed w.handle)
          (is_tracked w.handle.tracks_sessions && token_ok id) refl refl)
  ]

  pub closer-Same : (d : Dbh S) → Same d (handle_closer t d)
  unfolding handle_closer free_handle
  closer-Same d =
      branch (λ (d' : Dbh S). Same d d') d.freed refl
        (ap unset_count (release_session-fixed d.world))

  answered_with-Same :
      (d : Dbh S) (s : Statement) (r : Answer × Dbh S) → Same d r.1 → Same d (answered_with s r).2
  answered_with-Same d s (none, d') h = h
  answered_with-Same d s (some answer, d') h = h

  rendered-Same :
      (s : Statement) (d : Dbh S) (r : Rendering Bytes) → Same d (send_rendered t s d r).2
  unfolding error
  rendered-Same s d (done sql) =
      answered_with-Same d _ (execute_on t on_statement sql s.multi_statement_count d)
        (execute_on-Same on_statement sql s.multi_statement_count d)
  rendered-Same s d (fails state message) = refl
  rendered-Same s d starved = refl

module _ {S D O : Type 0} (t : Transport S) (php : Php D O) where
  pub statement-Same :
      (params : Params D O) (s : Statement) (d : Dbh S) → Same d (stmt_execute t php params s d).2
  unfolding stmt_execute
  statement-Same params s d = rendered-Same t (clear_result s) (clear_statement_message d) _
