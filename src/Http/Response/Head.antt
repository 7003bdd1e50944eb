-- ===== src/Http/Response/Head.antt =====
-- The head of a response as a server writes it, and how the driver finds its end.
use frostlake_pdo.Http.Chunked.RoundTrip.{Chunk, IsChunked, chunked_text, payloads}
use frostlake_pdo.Http.Response.{split_head}
use frostlake_pdo.Http.Response.Lines.{
  Field, IsField, LineBytes, field_line, field_line-LineBytes, field_named, fields_text,
  is_line_byte,
}
use frostlake_pdo.Json.Text.{c_string}
use frostlake_pdo.Libc.{decimal_nat, isdigit, long_max}
use frostlake_pdo.Libc.Digits.{DigitRun, decimal_nat-DigitRun, digit_run}
use frostlake_pdo.Prelude.{
  All, All-append, Bytes, List, [], ap, append_assoc, arith, codes, false, length,
  length-append_bytes, none, refl, some, true, ℕ, ◌++◌, ◌<◌, ◌==◌, ◌^◌, ◌∙◌, ◌∷◌, ◌≡◌, ◌≤◌,
}
use frostlake_pdo.Wire.Session.{starts_with}

abbrev pub blank_line : Bytes → Bytes
blank_line payload = 13 ∷ 10 ∷ 13 ∷ 10 ∷ payload

abbrev pub status_line : ℕ → Bytes → Bytes
status_line status reason = codes "HTTP/1.1 " ++ (decimal_nat status ++ (b' ' ∷ reason))

abbrev pub response_text : ℕ → Bytes → List Field → Bytes → Bytes
response_text status reason fields payload =
    (status_line status reason ++ fields_text fields) ++ blank_line payload

-- How the body is framed in what comes behind the blank line: by its length, with anything behind it,
-- in chunks, or by the end of the stream.
pub data Framing (fields : List Field) : Bytes → Bytes → Type 0 where
  by_length :
      (body rest : Bytes)
      → field_named (codes "Transfer-Encoding") fields ≡ none
      → field_named (codes "Content-Length") fields ≡ some (decimal_nat (length body))
      → length body ≤ long_max
      → Framing fields (body ++ rest) body
  by_chunks :
      (chunks : List Chunk) (ending : Bytes)
      → field_named (codes "Transfer-Encoding") fields ≡ some (codes "chunked")
      → IsChunked chunks ending
      → Framing fields (chunked_text chunks ending) (payloads chunks)
  by_end :
      (body : Bytes)
      → field_named (codes "Transfer-Encoding") fields ≡ none
      → field_named (codes "Content-Length") fields ≡ none
      → Framing fields body body

not_blank_line :
    (c : ℕ) (rest : Bytes)
    → is_line_byte c ≡ true
    → starts_with (codes "\r\n\r\n") (c ∷ rest) ≡ false
unfolding starts_with
not_blank_line c rest h = ground arith

not_blank_line_behind :
    (c : ℕ) (rest : Bytes)
    → is_line_byte c ≡ true
    → starts_with (codes "\r\n\r\n") (13 ∷ 10 ∷ c ∷ rest) ≡ false
unfolding starts_with
not_blank_line_behind c rest h = ground arith

-- `split_head` passes over a byte that starts no blank line.
split_head-cons :
    (c : ℕ) (s head rest : Bytes)
    → starts_with (codes "\r\n\r\n") (c ∷ s) ≡ false
    → split_head s ≡ some (head, rest)
    → split_head (c ∷ s) ≡ some (c ∷ head, rest)
unfolding split_head
split_head-cons c s head rest e h = rw (e, split_head) (rw h refl)

pub split_head-line :
    (line s head rest : Bytes)
    → LineBytes line
    → split_head s ≡ some (head, rest)
    → split_head (line ++ s) ≡ some (line ++ head, rest)
split_head-line [] s head rest hl h = h
split_head-line (c ∷ line) s head rest hl h =
    split_head-cons c (line ++ s) (line ++ head) rest (not_blank_line c (line ++ s) hl.0)
      (split_head-line line s head rest hl.1 h)

behind_line_end :
    (line rest : Bytes)
    → 1 ≤ length line
    → LineBytes line
    → starts_with (codes "\r\n\r\n") (13 ∷ 10 ∷ (line ++ rest)) ≡ false
behind_line_end [] rest h hl = absurd (omega arith)
behind_line_end (c ∷ line) rest h hl = not_blank_line_behind c (line ++ rest) hl.0

field_line-long : (f : Field) → 1 ≤ length (field_line f)
field_line-long f = omega (arith, length-append_bytes f.name (b':' ∷ b' ' ∷ f.value))

pub split_head-fields :
    (fs : List Field) (payload : Bytes)
    → All IsField fs
    → split_head (fields_text fs ++ blank_line payload) ≡ some (fields_text fs, payload)
unfolding split_head starts_with
split_head-fields [] payload h = refl
split_head-fields (f ∷ fs) payload h =
    let behind = fields_text fs ++ blank_line payload in
    let line = field_line-LineBytes f h.0 in
    ap split_head
      (ap (λ s. 13 ∷ 10 ∷ s) (append_assoc (field_line f) (fields_text fs) (blank_line payload)))
    ∙ split_head-cons 13 (10 ∷ (field_line f ++ behind)) (10 ∷ (field_line f ++ fields_text fs))
        payload (behind_line_end (field_line f) behind (field_line-long f) line)
        (split_head-cons 10 (field_line f ++ behind) (field_line f ++ fields_text fs) payload
          (not_blank_line 10 (field_line f ++ behind) refl)
          (split_head-line (field_line f) behind (fields_text fs) payload line
            (split_head-fields fs payload h.1)))

line_byte-not_zero : (c : ℕ) → is_line_byte c ≡ true → (c == 0) ≡ false
line_byte-not_zero c h = ground arith

-- A head is the C string that it is.
pub c_string-line :
    (line rest : Bytes) → LineBytes line → c_string (line ++ rest) ≡ line ++ c_string rest
c_string-line [] rest h = refl
c_string-line (c ∷ line) rest h =
    rw (line_byte-not_zero c h.0) (ap (λ s. c ∷ s) (c_string-line line rest h.1))

pub c_string-fields :
    (fs : List Field) → All IsField fs → c_string (fields_text fs) ≡ fields_text fs
c_string-fields [] h = refl
c_string-fields (f ∷ fs) h =
    ap (λ s. 13 ∷ 10 ∷ s)
      (c_string-line (field_line f) (fields_text fs) (field_line-LineBytes f h.0)
        ∙ ap (λ s. field_line f ++ s) (c_string-fields fs h.1))

pub record IsHead (status : ℕ) (reason : Bytes) (fields : List Field) : Type 0 where
  pub status_fits : status < 2 ^ 31
  pub reason_bytes : LineBytes reason
  pub every : All IsField fields

digit-line : (c : ℕ) → isdigit c ≡ true → is_line_byte c ≡ true
digit-line c h = ground arith

digits-LineBytes : (s : Bytes) → All (λ c. isdigit c ≡ true) s → LineBytes s
digits-LineBytes [] h = tt
digits-LineBytes (c ∷ s) h = (digit-line c h.0, digits-LineBytes s h.1)

DigitRun-LineBytes : {s : Bytes} → DigitRun s → LineBytes s
DigitRun-LineBytes (digit_run {c} {s} hc all) = (digit-line c hc, digits-LineBytes s all)

pub status_line-LineBytes :
    (status : ℕ) (reason : Bytes) → LineBytes reason → LineBytes (status_line status reason)
status_line-LineBytes status reason h =
    All-append _ (codes "HTTP/1.1 ") (decimal_nat status ++ (b' ' ∷ reason))
      (refl, (refl, (refl, (refl, (refl, (refl, (refl, (refl, (refl, tt)))))))))
      (All-append _ (decimal_nat status) (b' ' ∷ reason)
        (DigitRun-LineBytes (decimal_nat-DigitRun status)) (refl, h))
