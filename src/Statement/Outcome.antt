-- ===== src/Statement/Outcome.antt =====
-- What an execution of a statement leaves.
use frostlake_pdo.Driver.Dbh.{Dbh, closed_message, error_without_handle, execute_on}
use frostlake_pdo.Json.Lookup.{get}
use frostlake_pdo.Json.Value.{Json}
use frostlake_pdo.Prelude.{
  Bool, Bytes, List, Option, [], ap, drop, false, none, pos, refl, some, sym, true, ℤ, ◌≡◌, ◌≢◌,
}
use frostlake_pdo.Sql.Render.{Params, Rendering, done, fails, render_statement, starved}
use frostlake_pdo.Sql.Render.Counts.{render_statement-ne-starved}
use frostlake_pdo.Sql.Value.{Php}
use frostlake_pdo.Statement.Column.{child_count, count_children, result_row_count}
use frostlake_pdo.Statement.Cursor.{
  Statement, answered_with, clear_result, clear_statement_message, enter_first, enter_result_set,
  first_result_set, keep_response, send_rendered, stmt_execute,
}
use frostlake_pdo.Statement.View.{Reading, opened_set, result_sets, view}
use frostlake_pdo.Wire.Execute.{Answer, execute}
use frostlake_pdo.Wire.Execute.Told.{ToldAnswer, execute-Told}
use frostlake_pdo.Wire.Execute.Within.{branch}
use frostlake_pdo.Wire.State.{Transport, World, error, on_statement}

abbrev pub nothing_to_read : List (Option Json) → Reading
nothing_to_read sets = record { columns = none; current = none; rows_left = []; sets_left = sets }

abbrev pub reading_from : Option Json → List (Option Json) → Reading
reading_from none sets = nothing_to_read sets
reading_from (some first) sets = opened_set (some first) sets

-- The reader that an answer opens: before the first row of its first result set, if it has one.
abbrev pub opened_reading : Json → Reading
opened_reading answer =
    reading_from (first_result_set (some answer)) (drop 1 (result_sets (some answer)))

-- The row count that PDO is given for the first result set; without one it is 0.
abbrev pub first_row_count : Option Json → ℤ
first_row_count none = pos 0
first_row_count (some first) = result_row_count (some first)

-- A statement that holds an answer and stands before what it has to read.
pub record Holds (answer : Json) (s : Statement) : Type 0 where
  pub response : s.response ≡ some answer
  pub before_first : view s ≡ opened_reading answer
  pub columns_counted : s.column_count ≡ count_children s.columns
  pub rows_counted : s.row_count ≡ first_row_count (first_result_set (some answer))

-- A statement that holds no result, and the message of its failure.
pub record Failed {S : Type 0} (s : Statement) (d : Dbh S) : Type 0 where
  pub no_response : s.response ≡ none
  pub no_rows : view s ≡ nothing_to_read []
  pub message : Bytes
  pub recorded : d.world.statement_message ≡ some message

-- The answer that a rendered statement is given, and the connection after it; a statement that could
-- not be rendered is not sent, and the error is recorded.
abbrev pub answer_to : {S : Type 0} → Transport S → Rendering Bytes → ℤ → Dbh S → Answer × Dbh S
answer_to t (done sql) count d = execute_on t on_statement sql count d
answer_to t (fails state message) count d =
    (none, record d { world = error on_statement state message d.world })
answer_to t starved count d = (none, d)

-- What an execution leaves, by the answer that was given and the connection after it.
abbrev pub Executed : {S : Type 0} → Answer × Dbh S → Bool × Statement × Dbh S → Type 0
Executed (some answer, after_it) (true, s, d) = Holds answer s × (d ≡ after_it)
Executed (some answer, after_it) (false, s, d) = ⊥
Executed (none, after_it) (true, s, d) = ⊥
Executed (none, after_it) (false, s, d) = Failed s d × (d ≡ after_it)

-- A statement that `clear_result` has cleared.
abbrev cleared : Option Bytes → Statement → Statement
cleared query old = record (clear_result old) { active_query = query }

enter_first-Holds :
    (answer : Json) (query : Option Bytes) (old : Statement) (first : Option Json)
    → first ≡ first_result_set (some answer)
    → Holds answer (enter_first first (record (cleared query old) { response = some answer }))
unfolding clear_result enter_result_set child_count
enter_first-Holds answer query old none e = record {
  response = refl;
  before_first = rw (sym e) refl;
  columns_counted = refl;
  rows_counted = ap first_row_count e;
}
enter_first-Holds answer query old (some first) e = record {
  response = refl;
  before_first = rw (sym e) refl;
  columns_counted = refl;
  rows_counted = ap first_row_count e;
}

keep_response-Holds :
    (answer : Json) (query : Option Bytes) (old : Statement)
    → Holds answer (keep_response answer (cleared query old))
unfolding keep_response
keep_response-Holds answer query old =
    enter_first-Holds answer query old (first_result_set (some answer)) refl

cleared-Failed :
    {S : Type 0} (query : Option Bytes) (old : Statement) (message : Bytes) (d : Dbh S)
    → d.world.statement_message ≡ some message
    → Failed (cleared query old) d
unfolding clear_result get
cleared-Failed query old message d e = record {
  no_response = refl;
  no_rows = refl;
  message = message;
  recorded = e;
}

module _ {S : Type 0} (t : Transport S) (old : Statement) where
  -- An answer of the connection, with the statement that was cleared for it.
  abbrev Kept : Option Bytes → Answer × Dbh S → Type 0
  Kept query r = Executed r (answered_with (cleared query old) r)

  answered_with-Executed :
      (sql : Bytes) (query : Option Bytes) (d : Dbh S) (r : Answer × World S)
      → ToldAnswer t on_statement sql r
      → Kept query (r.0, record d { world = r.1 })
  answered_with-Executed sql query d (some answer, w) noted =
      (keep_response-Holds answer query old, refl)
  answered_with-Executed sql query d (none, w) told =
      (cleared-Failed query old told.message _ told.recorded, refl)

  execute_on-Executed :
      (sql : Bytes) (count : ℤ) (query : Option Bytes) (d : Dbh S)
      → Kept query (execute_on t on_statement sql count d)
  unfolding execute_on error_without_handle
  execute_on-Executed sql count query d =
      branch (Kept query) d.freed (cleared-Failed query old closed_message _ refl, refl)
        (answered_with-Executed sql query d (execute t on_statement sql count d.world)
          (execute-Told t on_statement sql count d.world))

  rendered-Executed :
      (d : Dbh S) (r : Rendering Bytes)
      → r ≢ starved
      → Executed
          (answer_to t r old.multi_statement_count d)
          (send_rendered t (clear_result old) d r)
  unfolding error clear_result
  rendered-Executed d (done sql) h = execute_on-Executed sql old.multi_statement_count (some sql) d
  rendered-Executed d (fails state message) h =
      (cleared-Failed old.active_query old message _ refl, refl)
  rendered-Executed d starved h = absurd (h refl)

-- `pdo_frostlake_stmt_execute` answers true exactly where the execution of the rendered statement
-- gives an answer. The statement then holds that answer, reads it from before the first row of its
-- first result set, and gives PDO the counts of columns and rows of that result set. Otherwise the
-- statement holds nothing of an earlier result, and the message of the failure is recorded. The
-- connection is left as that one execution left it, or, where nothing could be sent, as it was but
-- for the error.
pub stmt_execute-Executed :
    {S D O : Type 0} (t : Transport S) (php : Php D O) (params : Params D O) (s : Statement)
    (d : Dbh S)
    → Executed
        (answer_to t
          (render_statement php params s.query)
          s.multi_statement_count
          (clear_statement_message d))
        (stmt_execute t php params s d)
unfolding stmt_execute
stmt_execute-Executed t php params s d =
    rendered-Executed t s (clear_statement_message d) (render_statement php params s.query)
      (render_statement-ne-starved php params s.query)
