-- ===== src/Http/Response/RoundTrip.antt =====
-- A response as a server writes it, and what the driver has of it.
use frostlake_pdo.Http.Chunked.RoundTrip.{decode_chunked-chunked_text}
use frostlake_pdo.Http.Response.{
  decoded_body, find_header, parse_head, parse_response, payload_within, read_payload, replied,
  split_head,
}
use frostlake_pdo.Http.Response.Fields.{find_header-fields}
use frostlake_pdo.Http.Response.Head.{
  Framing, IsHead, blank_line, by_chunks, by_end, by_length, c_string-fields, c_string-line,
  response_text, split_head-fields, split_head-line, status_line, status_line-LineBytes,
}
use frostlake_pdo.Http.Response.Lines.{
  Field, FieldBytes, field_named, fields_text, same_name, value_from,
}
use frostlake_pdo.Json.Text.{c_string}
use frostlake_pdo.Libc.{atoi, decimal_nat, int_of_long, long_max, starts_with_caseless}
use frostlake_pdo.Libc.Digits.{DigitStop, stops_at, stops_at_end, strtol-decimal_nat}
use frostlake_pdo.Prelude.{
  Bool, Bytes, List, Option, [], ap, append_assoc, arith, codes, drop, false, if◌then◌else◌, leb,
  length, length-append_bytes, ltb, none, pos, refl, some, take-length, true, ℕ, ℤ, ◌++◌, ◌<◌, ◌^◌,
  ◌∙◌, ◌∷◌, ◌≡◌, ◌≤◌,
}
use frostlake_pdo.Wire.Session.{starts_with}
use frostlake_pdo.Wire.State.{answered}

none_branch :
    (b : Bool) (v w : Bytes) (p q : Option Bytes)
    → (if b then some v else p) ≡ none
    → (p ≡ none → q ≡ none)
    → (if b then some w else q) ≡ none
none_branch true v w p q e k = cc
none_branch false v w p q e k = k e

value_from-none :
    (name : Bytes) (fs : List Field) → field_named name fs ≡ none → value_from name fs ≡ none
value_from-none name [] e = refl
value_from-none name (f ∷ fs) e =
    none_branch (same_name name f.name) f.value (f.value ++ fields_text fs) (field_named name fs)
      (value_from name fs) e (value_from-none name fs)

some_branch :
    (b : Bool) (u v : Bytes) (fs : List Field) (p q : Option Bytes)
    → (if b then some u else p) ≡ some v
    → (p ≡ some v → (rest : List Field) × (q ≡ some (v ++ fields_text rest)))
    → (rest : List Field) × ((if b then some (u ++ fields_text fs) else q)
        ≡ some (v ++ fields_text rest))
some_branch true u v fs p q e k = (fs, cc)
some_branch false u v fs p q e k = k e

value_from-some :
    (name : Bytes) (fs : List Field) (v : Bytes)
    → field_named name fs ≡ some v
    → (rest : List Field) × (value_from name fs ≡ some (v ++ fields_text rest))
value_from-some name [] v e = cc
value_from-some name (f ∷ fs) v e =
    some_branch (same_name name f.name) f.value v fs (field_named name fs) (value_from name fs) e
      (value_from-some name fs v)

fields_text-DigitStop : (fs : List Field) → DigitStop (fields_text fs)
fields_text-DigitStop [] = stops_at_end
fields_text-DigitStop (f ∷ fs) = stops_at refl

leb_append : (s rest : Bytes) → leb (length s) (length (s ++ rest)) ≡ true
leb_append s rest = ground (arith, length-append_bytes s rest)

payload_within-length :
    (body rest : Bytes) (fs : List Field)
    → length body ≤ long_max
    → payload_within (some (decimal_nat (length body) ++ fields_text fs)) (body ++ rest) ≡ body
payload_within-length body rest fs h =
    rw
      (
        strtol-decimal_nat (length body) (fields_text fs) h (fields_text-DigitStop fs),
        leb_append body rest,
      )
      (take-length body rest)

small_int : (n : ℕ) → n < 2 ^ 31 → int_of_long (pos n) ≡ pos n
unfolding int_of_long
small_int n h = ground arith

atoi-status :
    (status : ℕ) (rest : Bytes)
    → status < 2 ^ 31
    → atoi (decimal_nat status ++ (b' ' ∷ rest)) ≡ pos status
unfolding atoi
atoi-status status rest h =
    ap int_of_long (strtol-decimal_nat status (b' ' ∷ rest) (omega arith) (stops_at refl))
    ∙ small_int status h

abbrev te_name : Bytes
te_name = codes "Transfer-Encoding"

abbrev cl_name : Bytes
cl_name = codes "Content-Length"

te_name-FieldBytes : FieldBytes te_name
te_name-FieldBytes = (
  refl,
  (
    refl,
    (
      refl,
      (
        refl,
        (
          refl,
          (
            refl,
            (
              refl,
              (refl, (refl, (refl, (refl, (refl, (refl, (refl, (refl, (refl, (refl, tt)))))))))),
            ),
          ),
        ),
      ),
    ),
  ),
)

cl_name-FieldBytes : FieldBytes cl_name
cl_name-FieldBytes = (
  refl,
  (
    refl,
    (
      refl,
      (refl, (refl, (refl, (refl, (refl, (refl, (refl, (refl, (refl, (refl, (refl, tt))))))))))),
    ),
  ),
)

-- Where the two headers stand in a head, the body is what its framing says.
read_payload-Framing :
    (status : ℤ) (head payload body : Bytes) (fs : List Field)
    → find_header head te_name ≡ value_from te_name fs
    → find_header head cl_name ≡ value_from cl_name fs
    → Framing fs payload body
    → read_payload status head payload ≡ replied (answered status body)
unfolding read_payload starts_with_caseless
read_payload-Framing status head _ _ fs te cl (by_length body rest no_te declared h) =
    let (fs', value) = value_from-some cl_name fs (decimal_nat (length body)) declared in
    rw (te ∙ value_from-none te_name fs no_te, cl ∙ value)
      (ap (λ b. replied (answered status b)) (payload_within-length body rest fs' h))
read_payload-Framing status head _ _ fs te cl (by_chunks chunks ending chunked h) =
    let (fs', value) = value_from-some te_name fs (codes "chunked") chunked in
    rw (te ∙ value) (ap (decoded_body status) (decode_chunked-chunked_text chunks ending h))
read_payload-Framing status head _ _ fs te cl (by_end body no_te no_cl) =
    rw (te ∙ value_from-none te_name fs no_te, cl ∙ value_from-none cl_name fs no_cl) refl

abbrev head_bytes : ℕ → Bytes → List Field → Bytes
head_bytes status reason fields = status_line status reason ++ fields_text fields

head-c_string :
    (status : ℕ) (reason : Bytes) (fs : List Field)
    → IsHead status reason fs
    → c_string (head_bytes status reason fs) ≡ head_bytes status reason fs
head-c_string status reason fs h =
    c_string-line (status_line status reason) (fields_text fs)
      (status_line-LineBytes status reason h.reason_bytes)
    ∙ ap (λ s. status_line status reason ++ s) (c_string-fields fs h.every)

split_head-response :
    (status : ℕ) (reason : Bytes) (fs : List Field) (payload : Bytes)
    → IsHead status reason fs
    → split_head (response_text status reason fs payload)
      ≡ some (head_bytes status reason fs, payload)
split_head-response status reason fs payload h =
    ap split_head (append_assoc (status_line status reason) (fields_text fs) (blank_line payload))
    ∙ split_head-line (status_line status reason) _ (fields_text fs) payload
        (status_line-LineBytes status reason h.reason_bytes) (split_head-fields fs payload h.every)

ltb_long : (n : ℕ) → 12 ≤ n → ltb n 12 ≡ false
ltb_long n h = ground arith

response-long :
    (status : ℕ) (reason : Bytes) (fs : List Field) (payload : Bytes)
    → ltb (length (response_text status reason fs payload)) 12 ≡ false
response-long status reason fs payload =
    ltb_long (length (response_text status reason fs payload)) (
      omega (
        arith,
        length-append_bytes (head_bytes status reason fs) (blank_line payload),
        length-append_bytes (status_line status reason) (fields_text fs),
        length-append_bytes (decimal_nat status) (b' ' ∷ reason),
      ))

status-response :
    (status : ℕ) (reason : Bytes) (fs : List Field) (payload : Bytes)
    → status < 2 ^ 31
    → atoi (drop 9 (response_text status reason fs payload)) ≡ pos status
status-response status reason fs payload h =
    ap atoi (
      append_assoc (decimal_nat status ++ (b' ' ∷ reason)) (fields_text fs) (blank_line payload)
      ∙ append_assoc (decimal_nat status) (b' ' ∷ reason) (fields_text fs ++ blank_line payload))
    ∙ atoi-status status (reason ++ (fields_text fs ++ blank_line payload)) h

parse_response-long :
    (raw : Bytes)
    → starts_with (codes "HTTP/1.") raw ≡ true
    → ltb (length raw) 12 ≡ false
    → parse_response raw ≡ parse_head raw (split_head raw)
unfolding parse_response
parse_response-long raw starts long = rw (starts, long) refl

headers-response :
    (status : ℕ) (reason : Bytes) (fs : List Field) (name : Bytes)
    → starts_with_caseless name (head_bytes status reason fs) ≡ false
    → FieldBytes name
    → IsHead status reason fs
    → find_header (head_bytes status reason fs) name ≡ value_from name fs
headers-response status reason fs name other hn h =
    find_header-fields (status_line status reason) name fs (omega arith)
      (status_line-LineBytes status reason h.reason_bytes) other hn h.every

-- A response with a status line, header fields and a blank line, whose body is framed by its length,
-- in chunks or by the end of the stream, gives the driver its status and its body: for a status of an
-- int, fields with a name without colon or line end and a value that is not empty, and a
-- Transfer-Encoding that is `chunked` where the body is in chunks and absent elsewhere.
pub parse_response-response_text :
    (status : ℕ) (reason : Bytes) (fields : List Field) (payload body : Bytes)
    → IsHead status reason fields
    → Framing fields payload body
    → parse_response (response_text status reason fields payload)
      ≡ replied (answered (pos status) body)
unfolding starts_with_caseless starts_with
parse_response-response_text status reason fields payload body h framing =
    let raw = response_text status reason fields payload in
    let head = head_bytes status reason fields in
    parse_response-long raw refl (response-long status reason fields payload)
    ∙ ap (parse_head raw) (split_head-response status reason fields payload h)
    ∙ ap (λ z. read_payload z (c_string head) payload)
        (status-response status reason fields payload h.status_fits)
    ∙ ap (λ s. read_payload (pos status) s payload) (head-c_string status reason fields h)
    ∙ read_payload-Framing (pos status) head payload body fields
        (headers-response status reason fields te_name refl te_name-FieldBytes h)
        (headers-response status reason fields cl_name refl cl_name-FieldBytes h) framing
