-- ===== src/Http/Response.antt =====
-- What `http_request` of http.c makes of the bytes it has read.
pub mod Lines
pub mod Fields
pub mod Head
pub mod RoundTrip
use frostlake_pdo.Http.Chunked.{
  Decoded, decode_chunked, decode_starved, decoded, malformed, overrun,
}
use frostlake_pdo.Json.Text.{c_string}
use frostlake_pdo.Libc.{atoi, starts_with_caseless, strtol}
use frostlake_pdo.Prelude.{
  Bool, Bytes, Option, [], codes, drop, false, if◌then◌else◌, leb, length, ltb, negsuc, none, not,
  pos, some, suc, take, true, zero, ℕ, ℤ, ◌&&◌, ◌++◌, ◌+◌, ◌==◌, ◌||◌, ◌∷◌,
}
use frostlake_pdo.Wire.Session.{starts_with}
use frostlake_pdo.Wire.State.{Reply, answered, unreachable}

-- The bytes before the first blank line and those behind it.
unfoldable pub split_head : Bytes → Option (Bytes × Bytes)
split_head [] = none
split_head (c ∷ s) = elim (starts_with (codes "\r\n\r\n") (c ∷ s)) [
  | true ↦ some ([], drop 4 (c ∷ s))
  | false ↦ elim (split_head s) [ none ↦ none | some (head, rest) ↦ some (c ∷ head, rest) ]
]

-- A line and what follows its "\r\n", if it has one.
unfoldable pub split_line : Bytes → Bytes × Option Bytes
split_line [] = ([], none)
split_line (c ∷ []) = (c ∷ [], none)
split_line (c ∷ d ∷ s) =
    let (line, next) = split_line (d ∷ s) in
    if c == 13 && d == 10 then ([], some s) else (c ∷ line, next)

abbrev pub is_field_blank : ℕ → Bool
is_field_blank c = c == b' ' || c == 9

unfoldable pub skip_blanks : Bytes → Bytes
skip_blanks [] = []
skip_blanks (c ∷ s) = let rest = skip_blanks s in if is_field_blank c then rest else c ∷ s

abbrev pub starts_colon : Bytes → Bool
starts_colon [] = false
starts_colon (c ∷ s) = c == b':'

-- Whether the line is the header's: its length, its name and the colon.
abbrev pub is_header_line : Bytes → Bytes → ℕ → Bool
is_header_line name headers line_length =
    ltb (length name + 1) line_length
    && starts_with_caseless name headers
    && starts_colon (drop (length name) headers)

abbrev pub on_next : Option Bytes → (Bytes → Option Bytes) → Option Bytes
on_next none again = none
on_next (some s) again = again s

-- The loop of `find_header`, on C strings.
unfoldable pub header_loop : ℕ → Bytes → Bytes → Option Bytes
unfolding split_line starts_with_caseless skip_blanks
header_loop fuel name [] = none
header_loop zero name (c ∷ s) = none
header_loop (suc fuel) name (c ∷ s) =
    let (line, next) = split_line (c ∷ s) in
    let later = on_next next (header_loop fuel name) in
    if is_header_line name (c ∷ s) (length line)
    then some (skip_blanks (drop (length name + 1) (c ∷ s)))
    else later

-- `find_header`. Every round takes a line off, so its fuel is enough.
unfoldable pub find_header : Bytes → Bytes → Option Bytes
unfolding header_loop
find_header headers name = header_loop (length headers) name headers

-- `Transfer-Encoding: chunked`
abbrev pub is_chunked : Option Bytes → Bool
is_chunked none = false
is_chunked (some encoding) = starts_with_caseless (codes "chunked") encoding

-- The declared length, where it is within what has come.
abbrev pub declared_length : ℤ → ℕ → ℕ
declared_length (pos n) payload_length = if leb n payload_length then n else payload_length
declared_length (negsuc n) payload_length = payload_length

abbrev pub payload_within : Option Bytes → Bytes → Bytes
payload_within none payload = payload
payload_within (some content_length) payload =
    take (declared_length (strtol content_length) (length payload)) payload

-- The outcome of a call: `*error_out`, or a status and a body.
pub data Outcome : Type 0 where
  replied : Reply → Outcome
  corrupted still_reading : Outcome

-- `http_error`
abbrev pub http_error : Bytes → Option Bytes → Bytes
http_error what none = what
http_error what (some detail) = what ++ (codes ": " ++ detail)

abbrev pub refuse : Bytes → Option Bytes → Outcome
refuse what detail = replied (unreachable (some (http_error what detail)))

abbrev pub decoded_body : ℤ → Decoded → Outcome
decoded_body status (decoded body) = replied (answered status body)
decoded_body status malformed = refuse (codes "malformed chunked response") none
decoded_body status overrun = corrupted
decoded_body status decode_starved = still_reading

-- The body of the response, by its headers.
unfoldable pub read_payload : ℤ → Bytes → Bytes → Outcome
unfolding decode_chunked find_header strtol starts_with_caseless
read_payload status headers payload =
    if is_chunked (find_header headers (codes "Transfer-Encoding"))
    then decoded_body status (decode_chunked payload)
    else replied
        (answered status (payload_within (find_header headers (codes "Content-Length")) payload))

-- From the search for the blank line on.
abbrev pub parse_head : Bytes → Option (Bytes × Bytes) → Outcome
parse_head raw none = refuse (codes "malformed HTTP response") (some (codes "no header terminator"))
parse_head raw (some (head, payload)) = read_payload (atoi (drop 9 raw)) (c_string head) payload

-- From the status line on.
unfoldable pub parse_response : Bytes → Outcome
unfolding split_head read_payload atoi starts_with
parse_response raw =
    if not (starts_with (codes "HTTP/1.") raw) || ltb (length raw) 12
    then refuse (codes "malformed HTTP response") none
    else parse_head raw (split_head raw)
