-- ===== src/Wire/Request/Valid.antt =====
-- The request as a JSON document.
use frostlake_pdo.Json.Fits.{
  FitsMembers, IsLexeme, bool_fits, member_fits, no_members_fit, number_fits, number_text,
  string_fits,
}
use frostlake_pdo.Json.Reader.{is_number_byte, parse}
use frostlake_pdo.Json.RoundTrip.{parse-first_pair}
use frostlake_pdo.Json.Text.{NoNul, c_string, escape, escape_byte, json_string}
use frostlake_pdo.Json.Value.{Members, bool, member, no_members, number, object, string}
use frostlake_pdo.Json.Writer.{json_text, members_text}
use frostlake_pdo.Libc.{decimal, isdigit}
use frostlake_pdo.Libc.Digits.{DigitRun, decimal_nat-DigitRun, digit_run}
use frostlake_pdo.Prelude.{
  All, Bool, Bytes, Option, [], ap, append_assoc, arith, codes, false, negsuc, none, parsed, pos,
  refl, some, sym, true, ℕ, ℤ, ◌++◌, ◌∷◌, ◌≡◌,
}
use frostlake_pdo.Wire.Request.{
  auto_commit_field, build_request, count_field, require_field, session_field, wire_string,
}
use frostlake_pdo.Wire.Request.Strings.{wire_string_value}
use frostlake_pdo.Wire.State.{Handle}

-- The members behind the first one.
abbrev pub session_member : Option Bytes → Members → Members
session_member none ms = ms
session_member (some id) ms = member (codes "sessionId") (string id) ms

abbrev pub require_member : Bool → Members → Members
require_member true ms = member (codes "requireSession") (bool true) ms
require_member false ms = ms

abbrev pub count_member : ℤ → Members → Members
count_member (pos n) ms = member (codes "multiStatementCount") (number (decimal (pos n))) ms
count_member (negsuc n) ms = ms

abbrev pub request_members : Handle → ℤ → Bool → Members
request_members h count require_session = session_member h.session_id (
    require_member require_session
      (count_member count (member (codes "autoCommit") (bool h.opened_auto_commit) no_members)))

abbrev SessionNoNul : Option Bytes → Type 0
SessionNoNul none = Unit
SessionNoNul (some id) = NoNul id

session_field-text :
    (o : Option Bytes) (ms : Members)
    → members_text false (session_member o ms) ≡ session_field o ++ members_text false ms
unfolding json_text json_string escape escape_byte
session_field-text none ms = refl
session_field-text (some id) ms = simp append_assoc

require_field-text :
    (b : Bool) (ms : Members)
    → members_text false (require_member b ms) ≡ require_field b ++ members_text false ms
unfolding json_text json_string escape escape_byte
require_field-text true ms = refl
require_field-text false ms = refl

count_field-text :
    (n : ℤ) (ms : Members)
    → members_text false (count_member n ms) ≡ count_field n ++ members_text false ms
unfolding json_text json_string escape escape_byte
count_field-text (pos n) ms = refl
count_field-text (negsuc n) ms = refl

auto_commit_field-text :
    (b : Bool)
    → members_text false (member (codes "autoCommit") (bool b) no_members) ++ b'}' ∷ []
      ≡ auto_commit_field b
unfolding json_text json_string escape escape_byte
auto_commit_field-text true = refl
auto_commit_field-text false = refl

digits-number_bytes :
    (s : Bytes) → All (λ b. isdigit b ≡ true) s → All (λ b. is_number_byte b ≡ true) s
unfolding is_number_byte
digits-number_bytes [] all = tt
digits-number_bytes (c ∷ s) (hc, all) = (ground arith, digits-number_bytes s all)

DigitRun-IsLexeme : {s : Bytes} → DigitRun s → IsLexeme s
unfolding is_number_byte
DigitRun-IsLexeme (digit_run {s} hc all) = number_text (ground arith) (digits-number_bytes s all)

decimal-IsLexeme : (n : ℕ) → IsLexeme (decimal (pos n))
unfolding decimal
decimal-IsLexeme n = DigitRun-IsLexeme (decimal_nat-DigitRun n)

session_member-Fits :
    (o : Option Bytes) {ms : Members}
    → SessionNoNul o
    → FitsMembers 1 ms
    → FitsMembers 1 (session_member o ms)
session_member-Fits none n h = h
session_member-Fits (some id) n h = member_fits (ground arith) (string_fits n) h

require_member-Fits :
    (b : Bool) {ms : Members} → FitsMembers 1 ms → FitsMembers 1 (require_member b ms)
require_member-Fits true h = member_fits (ground arith) bool_fits h
require_member-Fits false h = h

count_member-Fits : (n : ℤ) {ms : Members} → FitsMembers 1 ms → FitsMembers 1 (count_member n ms)
count_member-Fits (pos n) h = member_fits (ground arith) (number_fits (decimal-IsLexeme n)) h
count_member-Fits (negsuc n) h = h

request_members-Fits :
    (h : Handle) (count : ℤ) (require_session : Bool)
    → SessionNoNul h.session_id
    → FitsMembers 1 (request_members h count require_session)
request_members-Fits h count require_session n = session_member-Fits h.session_id n (
    require_member-Fits require_session
      (count_member-Fits count (member_fits (ground arith) bool_fits no_members_fit)))

request_members-text :
    (h : Handle) (count : ℤ) (require_session : Bool)
    → members_text false (request_members h count require_session) ++ b'}' ∷ []
      ≡ session_field h.session_id
        ++ (require_field require_session
            ++ (count_field count ++ auto_commit_field h.opened_auto_commit))
request_members-text h count require_session = rw (
  session_field-text h.session_id,
  require_field-text require_session,
  count_field-text count,
  append_assoc (session_field h.session_id),
  append_assoc (require_field require_session),
  append_assoc (count_field count),
  auto_commit_field-text h.opened_auto_commit,
)

build_request-text :
    (h : Handle) (sql : Bytes) (count : ℤ) (require_session : Bool)
    → build_request h sql count require_session
      ≡ b'{'
        ∷ (json_string (codes "sql")
            ++ (b':'
                ∷ (wire_string sql
                    ++ (members_text false (request_members h count require_session)
                        ++ b'}' ∷ []))))
unfolding build_request json_string escape escape_byte
build_request-text h sql count require_session =
    ap (λ fields. codes "{\"sql\":" ++ (wire_string sql ++ fields))
      (sym (request_members-text h count require_session))

-- The request is a JSON document to the reader of json.c: an object of the statement's text up to
-- its first NUL, the session's id if there is one, `requireSession` if asked for, the declared count
-- if it is not negative, and the autocommit mode. The session's id holds no NUL.
pub parse-build_request :
    (h : Handle) (sql : Bytes) (count : ℤ) (require_session : Bool)
    → SessionNoNul h.session_id
    → parse (build_request h sql count require_session)
      ≡ parsed (
          object (
            member (codes "sql") (string (c_string sql)) (request_members h count require_session)))
parse-build_request h sql count require_session n =
    rw (build_request-text h sql count require_session) (
      parse-first_pair (codes "sql") (string (c_string sql)) (wire_string sql) (ground arith)
        (request_members-Fits h count require_session n) (wire_string_value sql))
