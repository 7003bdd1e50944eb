-- ===== src/Wire/Request.antt =====
-- The request that frostlake_wire.c builds.
pub mod Strings
pub mod Valid
use frostlake_pdo.Json.Text.{json_string, unicode_escape}
use frostlake_pdo.Libc.{decimal}
use frostlake_pdo.Prelude.{
  Bool, Bytes, Option, [], codes, false, if◌then◌else◌, ltb, negsuc, none, pos, some, true, ℕ, ℤ,
  ◌++◌, ◌==◌, ◌∷◌,
}
use frostlake_pdo.Wire.State.{Handle}

-- One round of `append_json_string`, which knows no short escape for \b and \f.
unfoldable pub wire_escape_byte : ℕ → Bytes
wire_escape_byte c =
    if c == b'"'
    then b'\\' ∷ b'"' ∷ []
    else if c == b'\\'
    then b'\\' ∷ b'\\' ∷ []
    else if c == b'\n'
    then b'\\' ∷ b'n' ∷ []
    else if c == b'\r'
    then b'\\' ∷ b'r' ∷ []
    else if c == b'\t'
    then b'\\' ∷ b't' ∷ []
    else if ltb c 32
    then unicode_escape c
    else c ∷ []

-- The loop goes over all the bytes: a NUL is escaped like any control character.
unfoldable pub wire_escape : Bytes → Bytes
wire_escape [] = []
wire_escape (c ∷ s) = wire_escape_byte c ++ wire_escape s

-- What `append_json_string` appends.
unfoldable pub wire_string : Bytes → Bytes
wire_string text = b'"' ∷ (wire_escape text ++ b'"' ∷ [])

-- The optional fields.
abbrev pub session_field : Option Bytes → Bytes
session_field none = []
session_field (some id) = codes ",\"sessionId\":" ++ json_string id

abbrev pub require_field : Bool → Bytes
require_field true = codes ",\"requireSession\":true"
require_field false = []

-- `multi_statement_count >= 0`
abbrev pub count_field : ℤ → Bytes
count_field (pos n) = codes ",\"multiStatementCount\":" ++ decimal (pos n)
count_field (negsuc n) = []

abbrev pub auto_commit_field : Bool → Bytes
auto_commit_field true = codes ",\"autoCommit\":true}"
auto_commit_field false = codes ",\"autoCommit\":false}"

-- `build_request`
unfoldable pub build_request : Handle → Bytes → ℤ → Bool → Bytes
unfolding wire_string
build_request h sql count require_session =
    codes "{\"sql\":"
    ++ (wire_string sql
        ++ (session_field h.session_id
            ++ (require_field require_session
                ++ (count_field count ++ auto_commit_field h.opened_auto_commit))))
