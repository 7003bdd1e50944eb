-- ===== src/Tests/WireRuns.antt =====
-- Runs of the session protocol of src/frostlake_wire.c.
use frostlake_pdo.Json.Lookup.{get, get_bool, get_string, member_named}
use frostlake_pdo.Json.Reader.{
  end_of_input, expect, is_space, next_member, object_body, parse, parse_elements, parse_key,
  parse_literal, parse_members, parse_value, skip_ws, strip, switch,
}
use frostlake_pdo.Json.Text.{c_string, string_body, string_loop}
use frostlake_pdo.Json.Value.{Json, member, no_members, object, string}
use frostlake_pdo.Libc.{bytes_eq}
use frostlake_pdo.Prelude.{
  All, Bool, Bytes, [], arith, codes, false, false≢true, length, none, parsed, pos, refl, some, suc,
  sym, true, ◌*◌, ◌++◌, ◌+◌, ◌∷◌, ◌≡◌, ◌⊎◌,
}
use frostlake_pdo.Wire.Execute.{
  apply_scope, execute, is_token_byte, probe, release_session, session_alive, short_timeout,
}
use frostlake_pdo.Wire.Execute.Alive.{release_session-sent, session_alive-lost}
use frostlake_pdo.Wire.Execute.Once.{Forgotten, execute-lost}
use frostlake_pdo.Wire.Execute.Pending.{Settled, apply_scope-Settled}
use frostlake_pdo.Wire.Execute.Recovers.{execute-recovers}
use frostlake_pdo.Wire.Execute.Requests.{execute-Within}
use frostlake_pdo.Wire.Execute.Serves.{Asked, Succeeds, scope_statements}
use frostlake_pdo.Wire.Execute.Within.{Within}
use frostlake_pdo.Wire.Request.{build_request}
use frostlake_pdo.Wire.Request.Valid.{parse-build_request, request_members}
use frostlake_pdo.Wire.Session.{count_unset, gone, is_tracked, post, read_answer}
use frostlake_pdo.Wire.State.{
  Handle, Reply, Request, Transport, World, answered, delete_at, err_none, failure_sqlstate,
  on_connection, on_statement, tracked,
}

-- A server that holds no session.
abbrev refusing : Transport (Unit {0})
refusing = record {
  exchange = λ s _. (answered (pos 404) (codes "{\"success\":false}"), s);
  eagain_text = codes "Resource temporarily unavailable";
  etimedout_text = codes "Connection timed out";
}

abbrev dirty_handle : Handle
dirty_handle = record {
  host = codes "localhost";
  port = 18082;
  timeout = 300;
  session_id = some (codes "s-1");
  tracks_sessions = tracked;
  dirty = true;
  in_transaction = false;
  scope = [];
  scope_pending = false;
  multi_statement_count = count_unset;
  opened_auto_commit = true;
  errmsg = none;
}

abbrev dirty_world : World (Unit {0})
dirty_world = record {
  handle = dirty_handle;
  connected = true;
  connection_code = err_none;
  statement_code = err_none;
  statement_message = none;
  thrown = none;
  server = tt;
  sent = [];
}

abbrev asked : World (Unit {0})
asked = (post refusing on_connection probe count_unset dirty_world).1

probe-gone : post refusing on_connection probe count_unset dirty_world ≡ (gone, asked)
unfolding post read_answer parse skip_ws parse_value parse_elements parse_members switch object_body
    next_member parse_key expect string_body string_loop parse_literal strip end_of_input get_bool
    get member_named bytes_eq get_string is_space
probe-gone = refl

execute-lost_example :
    ((execute refusing on_connection probe count_unset dirty_world).0 ≡ none)
    × Forgotten (execute refusing on_connection probe count_unset dirty_world).1.handle
    × (failure_sqlstate on_connection
          (execute refusing on_connection probe count_unset dirty_world).1
        ≡ codes "08003")
    × (length (execute refusing on_connection probe count_unset dirty_world).1.sent
        ≡ suc (length dirty_world.sent))
execute-lost_example =
    execute-lost refusing on_connection probe count_unset dirty_world asked refl refl probe-gone

parse-build_request_example :
    parse (build_request dirty_handle (codes "SELECT \"a\"") (pos 2) true)
    ≡ parsed (
        object (
          member
            (codes "sql")
            (string (c_string (codes "SELECT \"a\"")))
            (request_members dirty_handle (pos 2) true)))
parse-build_request_example =
    parse-build_request dirty_handle (codes "SELECT \"a\"") (pos 2) true (ground arith)

execute-Within_example :
    Within
      (4 * length dirty_handle.scope + 2)
      dirty_world
      (execute refusing on_statement probe count_unset dirty_world).1
execute-Within_example = execute-Within refusing on_statement probe count_unset dirty_world

session_alive-lost_example :
    ((session_alive refusing dirty_world).0 ≡ false)
    × ((session_alive refusing dirty_world).1.handle ≡ dirty_handle)
session_alive-lost_example = session_alive-lost refusing dirty_world asked refl refl probe-gone

release_session-sent_example :
    ((release_session refusing dirty_world).sent ≡ dirty_world.sent)
    ⊎ ((id : Bytes) × (dirty_handle.session_id ≡ some id)
        × (is_tracked dirty_handle.tracks_sessions ≡ true)
        × All (λ c. is_token_byte c ≡ true) id
        × ((release_session refusing dirty_world).sent
            ≡ delete_at (codes "/api/sessions/" ++ id) (short_timeout dirty_handle)
              ∷ dirty_world.sent))
release_session-sent_example = release_session-sent refusing dirty_world

-- A connection that has lost its session, with a scope.
abbrev pending_world : World (Unit {0})
pending_world = record dirty_world {
  handle = record dirty_handle { scope_pending = true; scope = (codes "USE ROLE a", true) ∷ [] };
}

apply_scope-Settled_example : Settled (apply_scope refusing on_connection pending_world)
apply_scope-Settled_example =
    apply_scope-Settled refusing on_connection pending_world (record { is_pending = refl })

-- A server that has lost its session, and answers with success from then on.
abbrev losing_exchange : Bool → Request → Reply × Bool
losing_exchange true r = (answered (pos 404) (codes "{\"success\":false}"), false)
losing_exchange false r = (answered (pos 200) (codes "{\"success\":true}"), false)

abbrev losing : Transport Bool
losing = record {
  exchange = losing_exchange;
  eagain_text = codes "Resource temporarily unavailable";
  etimedout_text = codes "Connection timed out";
}

abbrev Restarted : Bool → Type 0
Restarted lost_already = lost_already ≡ false

success-Succeeds : Succeeds (answered (pos 200) (codes "{\"success\":true}"))
unfolding parse skip_ws parse_value parse_elements parse_members switch object_body next_member
    parse_key expect string_body string_loop parse_literal strip end_of_input get_bool get
    member_named bytes_eq is_space
success-Succeeds = (member (codes "success") (Json.bool true) no_members, refl, refl)

losing-serves :
    (s : Bool) (r : Request)
    → Restarted s
    → Succeeds (losing.exchange s r).0 × Restarted (losing.exchange s r).1
losing-serves true r h = absurd (false≢true (sym h))
losing-serves false r h = (success-Succeeds, refl)

-- A connection on a scope of two entries that holds nothing else.
abbrev clean_handle : Handle
clean_handle = record dirty_handle {
  dirty = false;
  scope = (codes "USE DATABASE d", true) ∷ (codes "USE SCHEMA s", false) ∷ [];
}

abbrev clean_world : World Bool
clean_world = record {
  handle = clean_handle;
  connected = true;
  connection_code = err_none;
  statement_code = err_none;
  statement_message = none;
  thrown = none;
  server = true;
  sent = [];
}

abbrev noticed : World Bool
noticed = (post losing on_statement probe count_unset clean_world).1

clean-gone : post losing on_statement probe count_unset clean_world ≡ (gone, noticed)
unfolding post read_answer parse skip_ws parse_value parse_elements parse_members switch object_body
    next_member parse_key expect string_body string_loop parse_literal strip end_of_input get_bool
    get member_named bytes_eq get_string is_space
clean-gone = refl

noticed-Restarted : Restarted noticed.server
unfolding post read_answer parse skip_ws parse_value parse_elements parse_members switch object_body
    next_member parse_key expect string_body string_loop parse_literal strip end_of_input get_bool
    get member_named bytes_eq get_string is_space
noticed-Restarted = refl

execute-recovers_example :
    (answer : Json) × ((execute losing on_statement probe count_unset clean_world).0 ≡ some answer)
    × Asked
        (((probe, count_unset) ∷ scope_statements clean_handle.scope) ++ (probe, count_unset) ∷ [])
        []
        (execute losing on_statement probe count_unset clean_world).1.sent
execute-recovers_example =
    execute-recovers losing on_statement Restarted losing-serves probe count_unset clean_world
      noticed refl refl refl clean-gone noticed-Restarted
