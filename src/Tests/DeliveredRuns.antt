-- ===== src/Tests/DeliveredRuns.antt =====
-- A request of src/frostlake_wire.c over a small network.
-- A peer that takes one byte at a time. Its state is what it has heard; it answers in two segments, and
-- what it keeps from the first on only says what is left of the answer.
use frostlake_pdo.Http.Client.Exchange.{Delivers, delivers_end, delivers_segment}
use frostlake_pdo.Http.Network.{
  Network, Received, Sockets, connect_to, end_of_stream, received, try_addresses,
}
use frostlake_pdo.Http.Response.{Outcome, corrupted, replied, still_reading}
use frostlake_pdo.Http.Response.Head.{IsHead, by_end, response_text}
use frostlake_pdo.Json.Lookup.{get, get_bool, member_named}
use frostlake_pdo.Json.Reader.{
  end_of_input, expect, is_space, next_member, object_body, parse, parse_elements, parse_key,
  parse_literal, parse_members, parse_value, skip_ws, strip, switch,
}
use frostlake_pdo.Json.Text.{c_string, string_body, string_loop}
use frostlake_pdo.Json.Value.{Json, Members, member, no_members, object}
use frostlake_pdo.Libc.{bytes_eq, decimal_digits, decimal_nat}
use frostlake_pdo.Prelude.{
  Bytes, Option, [], ap, arith, codes, false, inr, length, none, parsed, refl, some, subst, suc,
  sym, take, true, ℕ, ◌++◌, ◌<◌, ◌^◌, ◌∷◌, ◌≡◌,
}
use frostlake_pdo.Wire.Delivered.{call, post-delivered, posted_body, posted_text}
use frostlake_pdo.Wire.Execute.{probe}
use frostlake_pdo.Wire.Request.{build_request, wire_escape, wire_escape_byte, wire_string}
use frostlake_pdo.Wire.Session.{count_unset, post, response}
use frostlake_pdo.Wire.State.{
  Reply, Transport, World, err_none, on_statement, unreachable, unsettled,
}

abbrev answer_begin : Bytes
answer_begin = codes "TTP/1.1 200 OK\r\n\r\n{\"succ"

abbrev answer_end : Bytes
answer_end = codes "ss\":true}"

abbrev answer_left : Bytes → Received × Bytes
answer_left [] = (end_of_stream, [])
answer_left (x ∷ []) = (received b'e' answer_end, [])
answer_left (x ∷ y ∷ s) = (received b'H' answer_begin, 0 ∷ [])

abbrev first_byte : Bytes → Bytes → Option ℕ × Bytes
first_byte s [] = (some 0, s)
first_byte s (c ∷ rest) = (some 1, s ++ (c ∷ []))

abbrev bytewise : Network Bytes (Unit {0})
bytewise = record {
  resolve = λ s _ _. (inr (tt ∷ []), s);
  open_socket = λ s _. (some 7, s);
  set_timeout = λ s _ _. s;
  connect_socket = λ s _ _. (true, s);
  send_bytes = λ s _ data_bytes. first_byte s data_bytes;
  recv_bytes = λ s _. answer_left s;
  close_socket = λ s _. s;
  error_text = λ _. codes "Connection refused";
}

bytewise-listens :
    (s : Bytes) (c : ℕ) (rest : Bytes)
    → (n : ℕ) × ((bytewise.send_bytes s 7 (c ∷ rest)).0 ≡ some (suc n))
      × ((bytewise.send_bytes s 7 (c ∷ rest)).1 ≡ s ++ (c ∷ take n rest))
bytewise-listens s c rest = (0, refl, refl)

abbrev exchange_of : Outcome × Sockets Bytes → Reply × Sockets Bytes
exchange_of (replied reply, s) = (reply, s)
exchange_of (corrupted, s) = (unreachable none, s)
exchange_of (still_reading, s) = (unreachable none, s)

abbrev over_bytewise : Transport (Sockets Bytes)
over_bytewise = record {
  exchange = λ s r. exchange_of (call bytewise 3 (codes "localhost") 18082 r s);
  eagain_text = codes "Resource temporarily unavailable";
  etimedout_text = codes "Connection timed out";
}

abbrev plain_world : World (Sockets Bytes)
plain_world = record {
  handle = record {
    host = codes "localhost";
    port = 18082;
    timeout = 300;
    session_id = none;
    tracks_sessions = unsettled;
    dirty = false;
    in_transaction = false;
    scope = [];
    scope_pending = false;
    multi_statement_count = count_unset;
    opened_auto_commit = true;
    errmsg = none;
  };
  connected = true;
  connection_code = err_none;
  statement_code = err_none;
  statement_message = none;
  thrown = none;
  server = record { system = []; open_fds = [] };
  sent = [];
}

abbrev success_text : Bytes
success_text = codes "{\"success\":true}"

abbrev success_members : Members
success_members = member (codes "success") (Json.bool true) no_members

plain-small : length (posted_body plain_world.handle probe count_unset) < 2 ^ 64
unfolding build_request wire_string wire_escape wire_escape_byte
plain-small = omega arith

plain-connects :
    connect_to bytewise (codes "localhost") 18082 300 plain_world.server
    ≡ (inr 7, record { system = []; open_fds = 7 ∷ [] })
unfolding connect_to try_addresses
plain-connects = refl

success-read : parse (c_string success_text) ≡ parsed (object success_members)
unfolding parse skip_ws parse_value parse_elements parse_members switch object_body next_member
    parse_key expect string_body string_loop parse_literal strip end_of_input is_space
success-read = refl

success-said : get_bool (some (object success_members)) (codes "success") false ≡ true
unfolding get_bool get member_named bytes_eq
success-said = refl

plain-IsHead : IsHead 200 (codes "OK") []
plain-IsHead = record { status_fits = omega arith; reason_bytes = (refl, (refl, tt)); every = tt }

plain-answers :
    (system : Bytes)
    → system ≡ posted_text plain_world.handle probe count_unset
    → Delivers bytewise 7 3 system (response_text 200 (codes "OK") [] success_text)
unfolding decimal_nat decimal_digits
plain-answers system e =
    subst (λ s. Delivers bytewise 7 3 s (response_text 200 (codes "OK") [] success_text)) (sym e)
      (delivers_segment {segment = answer_begin} refl
        (delivers_segment {segment = answer_end} refl (delivers_end refl)))

post-delivered_example :
    (post over_bytewise on_statement probe count_unset plain_world).0
    ≡ response (object success_members)
post-delivered_example =
    post-delivered bytewise 7 (λ s. s) bytewise-listens 3 over_bytewise on_statement probe
      count_unset plain_world (record { system = []; open_fds = 7 ∷ [] }) 200 (codes "OK") []
      success_text success_text success_members (λ request reply s s' e. ap exchange_of e)
      (omega arith) plain-small plain-connects refl plain-IsHead (by_end success_text refl refl)
      success-read success-said plain-answers
