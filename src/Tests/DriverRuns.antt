-- ===== src/Tests/DriverRuns.antt =====
-- Runs of the connection handle of src/frostlake_driver.c.
use frostlake_pdo.Driver.Calls.{handle_begin, handle_commit, handle_doer, handle_rollback, prepared}
use frostlake_pdo.Driver.Dbh.{Dbh, execute_on, free_handle, handle_closer}
use frostlake_pdo.Driver.Login.{
  DataSource, handle_factory, log_in, opened_handle, port_of, run_use, timeout_of, use_object,
  use_scope,
}
use frostlake_pdo.Driver.Login.Opens.{Login, handle_factory-Login}
use frostlake_pdo.Driver.Steps.{Reached, begin_call, called, close_call, exec_call, opened_on}
use frostlake_pdo.Driver.Steps.Freed.{Later-Quiet, Quiet, called_again, not_called}
use frostlake_pdo.Driver.Steps.Invariant.{OnSource, Reached-OnSource}
use frostlake_pdo.Driver.Transaction.{Transacts, transaction-calls}
use frostlake_pdo.Json.Lookup.{at, get, get_bool, get_string, item_at, member_named}
use frostlake_pdo.Json.Reader.{
  array_body, end_of_input, expect, is_number_byte, is_space, lexeme, next_element, next_member,
  number_bytes, object_body, parse, parse_elements, parse_key, parse_literal, parse_members,
  parse_number, parse_value, skip_ws, strip, switch,
}
use frostlake_pdo.Json.Text.{string_body, string_loop}
use frostlake_pdo.Json.Value.{Json, array, item, member, no_items, no_members, null, number, object}
use frostlake_pdo.Libc.{bytes_eq, digits_value, skip_digits, skip_spaces, strtol, strtol_end}
use frostlake_pdo.Prelude.{Bytes, [], ap, codes, false, none, parsed, pos, refl, some, true, ◌≡◌}
use frostlake_pdo.Sql.Identifier.{bare_ok, is_identifier}
use frostlake_pdo.Sql.Render.{render_statement}
use frostlake_pdo.Sql.Value.{Php}
use frostlake_pdo.Statement.Cells.{Shows, get_col-Shows, reads_first, reads_row}
use frostlake_pdo.Statement.Column.{child_count, snowflake_type_name}
use frostlake_pdo.Statement.Column.Names.{snowflake_type_name-entry_named}
use frostlake_pdo.Statement.Column.Table.{bare_name, entry_named, snowflake_names}
use frostlake_pdo.Statement.Cursor.{
  Statement, cell_value, clear_result, clear_statement_message, current_row, enter_result_set,
  fetch, get_col, keep_response, next_rowset, stmt_execute, text_value,
}
use frostlake_pdo.Statement.Outcome.{Executed, answer_to, stmt_execute-Executed}
use frostlake_pdo.Statement.View.{
  RowTaken, SetTaken, cursor_refines, take_row, take_set, view, view_of,
}
use frostlake_pdo.Wire.Execute.{attempt, execute, health_of, healthy, release_session}
use frostlake_pdo.Wire.Session.{absorb, count_unset, or_text, post, read_answer, settle}
use frostlake_pdo.Wire.State.{Handle, Transport, answered, err_none, error, unsettled}

-- A server that answers every request with an empty result.
abbrev serving : Transport (Unit {0})
serving = record {
  exchange = λ s _. (answered (pos 200) (codes "{\"success\":true}"), s);
  eagain_text = codes "Resource temporarily unavailable";
  etimedout_text = codes "Connection timed out";
}

abbrev local_source : DataSource
local_source = record {
  host = none;
  port = none;
  database = some (codes "shop");
  schema = none;
  warehouse = some (codes "no good");
  login_role = some (codes "reader");
}

-- What PDO hands to the driver: a connection with no handle yet.
abbrev blank_handle : Handle
blank_handle = record {
  host = [];
  port = 0;
  timeout = 0;
  session_id = none;
  tracks_sessions = unsettled;
  dirty = false;
  in_transaction = false;
  scope = [];
  scope_pending = false;
  multi_statement_count = count_unset;
  opened_auto_commit = true;
  errmsg = none;
}

abbrev connecting_dbh : Dbh (Unit {0})
connecting_dbh = record {
  world = record {
    handle = blank_handle;
    connected = false;
    connection_code = err_none;
    statement_code = err_none;
    statement_message = none;
    thrown = none;
    server = tt;
    sent = [];
  };
  freed = true;
  auto_commit = true;
}

handle_factory-Login_example :
    Login serving local_source none true (handle_factory serving local_source none connecting_dbh)
handle_factory-Login_example = handle_factory-Login serving local_source none connecting_dbh refl

opened_connection : (handle_factory serving local_source none connecting_dbh).0 ≡ true
unfolding handle_factory opened_handle timeout_of log_in port_of strtol strtol_end skip_spaces
    skip_digits digits_value healthy health_of use_scope use_object run_use is_identifier bare_ok
    execute_on execute attempt post read_answer parse parse_value parse_key parse_literal
    parse_members switch skip_ws is_space strip next_member object_body end_of_input expect
    string_body string_loop get get_bool get_string member_named bytes_eq absorb settle
opened_connection = refl

refused_port :
    (handle_factory serving
      (record local_source { port = some (codes "18082x") })
      none
      connecting_dbh).1.world.thrown
    ≡ some (codes "Invalid port in the data source: 18082x")
unfolding handle_factory opened_handle timeout_of log_in port_of strtol strtol_end skip_spaces
    skip_digits digits_value error free_handle release_session
refused_port = refl

transaction-calls_example :
    Transacts true (handle_begin serving (record connecting_dbh { freed = false }))
    × Transacts false (handle_commit serving (record connecting_dbh { freed = false }))
    × Transacts false (handle_rollback serving (record connecting_dbh { freed = false }))
transaction-calls_example = transaction-calls serving (record connecting_dbh { freed = false }) refl

-- A PHP whose values all print as nothing.
abbrev plain_php : Php (Unit {0}) (Unit {0})
plain_php = record {
  to_string = λ _. none;
  is_true = λ _. false;
  is_nan = λ _. false;
  is_inf = λ _. false;
  is_positive = λ _. true;
  double_text = λ _. [];
  stream = λ _. none;
}

abbrev opened_dbh : Dbh (Unit {0})
opened_dbh = (handle_factory serving local_source none connecting_dbh).1

-- The connection, and a transaction begun on it.
begun-Reached :
    Reached serving plain_php local_source none connecting_dbh (handle_begin serving opened_dbh).1
begun-Reached = called (opened_on (ap (λ b. (b, opened_dbh)) opened_connection)) begin_call

Reached-OnSource_example :
    OnSource local_source none true (handle_begin serving opened_dbh).1.world.handle
Reached-OnSource_example =
    Reached-OnSource serving plain_php local_source none connecting_dbh
      (handle_begin serving opened_dbh).1 refl begun-Reached

abbrev one_query : Statement
one_query = prepared (codes "SELECT 1") count_unset

stmt_execute-Executed_example :
    Executed
      (answer_to serving
        (render_statement plain_php [] one_query.query)
        one_query.multi_statement_count
        (clear_statement_message (record connecting_dbh { freed = false })))
      (stmt_execute serving plain_php [] one_query (record connecting_dbh { freed = false }))
stmt_execute-Executed_example =
    stmt_execute-Executed serving plain_php [] one_query (record connecting_dbh { freed = false })

-- A statement on the first of two result sets, before its first row.
abbrev two_results : Json
two_results = object (
    member (codes "resultSets")
      (array (
        item
          (object (
            member (codes "rows")
              (array (item (array (item (number (codes "1")) no_items)) no_items)) no_members))
          (item (object no_members) no_items)))
      no_members)

abbrev on_results : Statement
on_results = keep_response two_results one_query

cursor_refines_example :
    (view_of (fetch on_results) ≡ take_row (view on_results))
    × (view_of (next_rowset on_results) ≡ take_set (view on_results))
    × RowTaken on_results (fetch on_results)
    × SetTaken on_results (next_rowset on_results)
cursor_refines_example = cursor_refines on_results

one_row :
    ((fetch on_results).0 ≡ true)
    × ((fetch (fetch on_results).1).0 ≡ false)
    × (get_col (fetch on_results).1 0 ≡ text_value (codes "1"))
unfolding keep_response enter_result_set fetch get member_named bytes_eq child_count at item_at
    get_col cell_value get_string prepared
one_row = (refl, refl, refl)

-- An answer of one row with an array in it.
abbrev nested_body : Bytes
nested_body = codes "{\"resultSets\":[{\"rows\":[[[1, null]]]}]}"

abbrev nested_cell : Json
nested_cell = array (item (number (codes "1")) (item null no_items))

abbrev nested_answer : Json
nested_answer = object (
    member (codes "resultSets")
      (array (
        item
          (object (
            member (codes "rows") (array (item (array (item nested_cell no_items)) no_items))
              no_members))
          no_items))
      no_members)

nested_body-read : parse nested_body ≡ parsed nested_answer
unfolding parse parse_value parse_elements next_element array_body parse_key parse_literal
    parse_members switch skip_ws is_space strip next_member object_body end_of_input expect
    string_body string_loop parse_number is_number_byte lexeme number_bytes
nested_body-read = refl

abbrev on_nested : Statement
on_nested = (fetch (keep_response nested_answer (clear_result one_query))).1

nested_cell-current : at (current_row on_nested) 0 ≡ some nested_cell
unfolding keep_response clear_result enter_result_set fetch get member_named bytes_eq child_count at
    item_at prepared
nested_cell-current = refl

get_col-Shows_example :
    Shows (get_string (at on_nested.columns 0) (codes "dataType")) nested_cell (get_col on_nested 0)
get_col-Shows_example =
    get_col-Shows nested_body nested_answer on_nested 0 nested_cell nested_body-read
      (reads_row (reads_first one_query)) nested_cell-current

snowflake_type_name-entry_named_example :
    snowflake_type_name (some (codes "Number(38,0)"))
    ≡ or_text (entry_named (bare_name (codes "Number(38,0)")) snowflake_names) (codes "TEXT")
snowflake_type_name-entry_named_example = snowflake_type_name-entry_named (codes "Number(38,0)")

fixed_name : entry_named (bare_name (codes "Number(38,0)")) snowflake_names ≡ some (codes "FIXED")
unfolding bytes_eq
fixed_name = refl

abbrev freed_dbh : Dbh (Unit {0})
freed_dbh = record connecting_dbh { freed = true }

Later-Quiet_example :
    Quiet freed_dbh (handle_closer serving (handle_doer serving (codes "SELECT 1") freed_dbh).1)
Later-Quiet_example =
    Later-Quiet serving plain_php refl
      (called_again (called_again not_called (exec_call (codes "SELECT 1"))) close_call)
