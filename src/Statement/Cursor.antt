-- ===== src/Statement/Cursor.antt =====
-- The statement object: its execution, its cursor over rows and result sets, and its columns.
use frostlake_pdo.Driver.Dbh.{Dbh, execute_on}
use frostlake_pdo.Json.Lookup.{at, get, get_bool, get_long, get_string}
use frostlake_pdo.Json.Value.{Json, array, bool, bool_text, null, number, object, string}
use frostlake_pdo.Json.Writer.{json_text}
use frostlake_pdo.Libc.{bytes_eq}
use frostlake_pdo.Prelude.{
  Bool, Bytes, Option, [], codes, false, if◌then◌else◌, leb, negsuc, none, not, pos, some, suc,
  true, ℕ, ℤ,
}
use frostlake_pdo.Sql.Render.{Params, Rendering, done, fails, render_statement, starved}
use frostlake_pdo.Sql.Value.{Php}
use frostlake_pdo.Statement.Column.{
  column_byte_size, count_children, result_row_count, snowflake_type_name,
}
use frostlake_pdo.Wire.Execute.{Answer}
use frostlake_pdo.Wire.Session.{or_text}
use frostlake_pdo.Wire.State.{Transport, World, error, on_statement}

-- The fields of pdo_stmt_t and pdo_frostlake_stmt. `row` counts from 0; before the first fetch, where
-- the source has -1, it is none. `columns` and `rows` point into the response.
pub record Statement : Type 0 where
  pub query : Bytes
  pub active_query : Option Bytes
  pub response : Option Json
  pub result_set : ℕ
  pub columns : Option Json
  pub rows : Option Json
  pub row : Option ℕ
  pub multi_statement_count : ℤ
  pub column_count : ℕ
  pub row_count : ℤ

-- `clear_result`
unfoldable pub clear_result : Statement → Statement
clear_result s = record s {
  response = none;
  result_set = 0;
  columns = none;
  rows = none;
  row = none;
}

-- `enter_result_set`
unfoldable pub enter_result_set : Option Json → Statement → Statement
enter_result_set result_set s = record s {
  columns = get result_set (codes "columns");
  rows = get result_set (codes "rows");
  row = none;
  column_count = count_children (get result_set (codes "columns"));
  row_count = result_row_count result_set;
}

abbrev pub first_result_set : Option Json → Option Json
first_result_set answer = at (get answer (codes "resultSets")) 0

abbrev pub enter_first : Option Json → Statement → Statement
enter_first none s = record s { column_count = 0; row_count = pos 0 }
enter_first (some first) s = enter_result_set (some first) s

-- What `pdo_frostlake_stmt_execute` does with the answer.
unfoldable pub keep_response : Json → Statement → Statement
unfolding enter_result_set
keep_response answer s =
    enter_first (first_result_set (some answer)) (record s { response = some answer })

-- The row that the next fetch would stand on: `S->row + 1`.
abbrev pub next_row : Option ℕ → ℕ
next_row none = 0
next_row (some i) = suc i

-- `pdo_frostlake_stmt_fetch`
unfoldable pub fetch : Statement → Bool × Statement
fetch s =
    if leb (count_children s.rows) (next_row s.row)
    then (false, s)
    else (true, record s { row = some (next_row s.row) })

-- `pdo_frostlake_stmt_next_rowset`
unfoldable pub next_rowset : Statement → Bool × Statement
unfolding enter_result_set
next_rowset s =
    let sets = get s.response (codes "resultSets") in
    if leb (count_children sets) (suc s.result_set) then (false, s) else (
      true,
      enter_result_set (at sets (suc s.result_set)) (record s { result_set = suc s.result_set }),
    )

-- `pdo_frostlake_stmt_cursor_closer`
unfoldable pub cursor_closer : Statement → Statement
unfolding clear_result
cursor_closer s = clear_result s

-- What `pdo_frostlake_stmt_describe` fills in of a column.
pub record Described : Type 0 where
  pub name : Bytes
  pub precision : ℕ
  pub maxlen : ℕ

abbrev pub positive_part : ℤ → ℕ
positive_part (pos n) = n
positive_part (negsuc n) = 0

-- `pdo_frostlake_stmt_describe`
unfoldable pub describe : Statement → ℕ → Option Described
describe s colno = elim (at s.columns colno) [
  | none ↦ none
  | some column ↦ some (record {
    name = or_text (get_string (some column) (codes "name")) [];
    precision = positive_part (get_long (some column) (codes "precision") (pos 0));
    maxlen = column_byte_size (some column);
  })
]

-- A value for PHP: null, or a string.
pub data Fetched : Type 0 where
  null_value : Fetched
  text_value : Bytes → Fetched

-- The `switch` of `pdo_frostlake_stmt_get_col` on the cell, given the type of its column.
unfoldable pub cell_value : Option Bytes → Json → Fetched
cell_value data_type null = null_value
cell_value data_type (bool b) =
    if bytes_eq (snowflake_type_name data_type) (codes "BOOLEAN")
    then (if b then text_value (codes "1") else text_value [])
    else text_value (bool_text b)
cell_value data_type (number l) = text_value l
cell_value data_type (string s) = text_value s
cell_value data_type (array xs) = text_value (json_text (array xs))
cell_value data_type (object ms) = text_value (json_text (object ms))

-- The cell that the cursor stands on; with no row there is none.
abbrev pub current_row : Statement → Option Json
current_row s = elim s.row [ none ↦ none | some i ↦ at s.rows i ]

abbrev pub value_of : Option Bytes → Option Json → Fetched
value_of data_type none = null_value
value_of data_type (some cell) = cell_value data_type cell

-- `pdo_frostlake_stmt_get_col`
unfoldable pub get_col : Statement → ℕ → Fetched
unfolding cell_value
get_col s colno =
    value_of (get_string (at s.columns colno) (codes "dataType")) (at (current_row s) colno)

-- What `pdo_frostlake_stmt_column_meta` puts into the array.
pub record Meta : Type 0 where
  pub not_null : Bool
  pub scale : ℤ
  pub native_type : Bytes

abbrev pub column_at : Statement → ℤ → Option Json
column_at s (pos n) = at s.columns n
column_at s (negsuc n) = none

module _ {S : Type 0} where
  -- `pdo_frostlake_stmt_column_meta`
  unfoldable pub column_meta : Statement → ℤ → World S → Option Meta × World S
  column_meta s colno w = elim (column_at s colno) [
    | none ↦ (none, error on_statement (codes "07009") (codes "Invalid column index") w)
    | some column ↦ (
      some (record {
        not_null = not (get_bool (some column) (codes "nullable") true);
        scale = get_long (some column) (codes "scale") (pos 0);
        native_type = snowflake_type_name (get_string (some column) (codes "dataType"));
      }),
      w,
    )
  ]

  -- `efree(S->errmsg)` of `pdo_frostlake_stmt_execute`
  abbrev pub clear_statement_message : Dbh S → Dbh S
  clear_statement_message d = record d { world = record (d.world) { statement_message = none } }

  -- `pdo_frostlake_stmt_dtor`: no statement is left, and no message of it.
  unfoldable pub stmt_dtor : Option Statement → Dbh S → Option Statement × Dbh S
  stmt_dtor none d = (none, d)
  stmt_dtor (some s) d = (none, clear_statement_message d)

  -- What `pdo_frostlake_stmt_execute` does once the statement's text has gone out.
  abbrev pub answered_with : Statement → Answer × Dbh S → Bool × Statement × Dbh S
  answered_with s (none, d) = (false, s, d)
  answered_with s (some answer, d) = (true, keep_response answer s, d)

module _ {S : Type 0} (t : Transport S) where
  -- What `pdo_frostlake_stmt_execute` does with the rendered text: the statement without its last
  -- result, and the connection. Rendering always says one of the first two.
  abbrev pub send_rendered : Statement → Dbh S → Rendering Bytes → Bool × Statement × Dbh S
  send_rendered s d (done sql) =
      answered_with (record s { active_query = some sql })
        (execute_on t on_statement sql s.multi_statement_count d)
  send_rendered s d (fails state message) =
      (false, s, record d { world = error on_statement state message d.world })
  send_rendered s d starved = (false, s, d)

module _ {S D O : Type 0} (t : Transport S) (php : Php D O) (params : Params D O) where
  -- `pdo_frostlake_stmt_execute`
  unfoldable pub stmt_execute : Statement → Dbh S → Bool × Statement × Dbh S
  unfolding clear_result keep_response execute_on
  stmt_execute s d =
      send_rendered t (clear_result s) (clear_statement_message d)
        (render_statement php params s.query)
