-- ===== src/Json/Buffer/Spelled.antt =====
-- `fl_strbuf_append_json_string` on a buffer that grows, where an allocation may be refused.
-- The next append, unless one failed.
use frostlake_pdo.Json.Buffer.{Buffer, Extended, strbuf_append, strbuf_append-Extended}
use frostlake_pdo.Json.Text.{escape, escape_byte, json_string}
use frostlake_pdo.Prelude.{
  Bool, Bool-cases, Bytes, [], ap, append-nil, append_assoc, arith, false, if◌then◌else◌, inl, inr,
  length, length-append_bytes, refl, sym, true, ℕ, ◌*◌, ◌++◌, ◌+◌, ◌<◌, ◌==◌, ◌^◌, ◌∙◌, ◌∷◌, ◌≡◌,
  ◌≤◌,
}

abbrev pub unless_failed : Bool × Buffer → (Buffer → Bool × Buffer) → Bool × Buffer
unless_failed (true, b) k = k b
unless_failed (false, b) k = (false, b)

-- The loop over the text, and the closing quote.
unfoldable pub append_escaped : (ℕ → Bool) → Bytes → Buffer → Bool × Buffer
unfolding strbuf_append escape_byte
append_escaped grants [] b = strbuf_append grants (b'"' ∷ []) b
append_escaped grants (c ∷ s) b =
    let more = unless_failed (strbuf_append grants (escape_byte c) b) (append_escaped grants s) in
    if c == 0 then strbuf_append grants (b'"' ∷ []) b else more

-- `fl_strbuf_append_json_string`
unfoldable pub append_json_string : (ℕ → Bool) → Bytes → Buffer → Bool × Buffer
unfolding append_escaped
append_json_string grants text b =
    unless_failed (strbuf_append grants (b'"' ∷ []) b) (append_escaped grants text)

-- The bytes behind those that were there, with room for the NUL; or some of the bytes, where an
-- allocation was refused.
abbrev pub Spelled : (ℕ → Bool) → Bytes → Buffer → Bool × Buffer → Type 0
Spelled grants out before (true, b) =
    (b.contents ≡ before.contents ++ out) × (length b.contents < b.capacity)
Spelled grants out before (false, b) =
    (kept : Bytes) × (rest : Bytes) × (kept ++ rest ≡ out)
    × (b.contents ≡ before.contents ++ kept)
    × (n : ℕ) × (grants n ≡ false)

length-escape_byte : (c : ℕ) → length (escape_byte c) ≤ 6
unfolding escape_byte
length-escape_byte c = ground arith

module _ (grants : ℕ → Bool) where
  Extended-Spelled :
      (out : Bytes) (b : Buffer) (r : Bool × Buffer)
      → Extended grants out b r
      → Spelled grants out b r
  Extended-Spelled out b (true, b') h = (h.0, h.1)
  Extended-Spelled out b (false, b') h =
      ([], out, refl, ap (λ x. x.contents) h.0 ∙ sym (append-nil _), h.1, h.2)

  Spelled-then :
      (out more : Bytes) (before b : Buffer) (r : Bool × Buffer)
      → b.contents ≡ before.contents ++ out
      → Spelled grants more b r
      → Spelled grants (out ++ more) before r
  Spelled-then out more was b (true, b') e h =
      (h.0 ∙ ap (λ s. s ++ more) e ∙ append_assoc was.contents out more, h.1)
  Spelled-then out more was b (false, b') e (kept, rest, whole, is, n, denied) = (
    out ++ kept,
    rest,
    append_assoc out kept rest ∙ ap (λ s. out ++ s) whole,
    is ∙ ap (λ s. s ++ kept) e ∙ append_assoc was.contents out kept,
    n,
    denied,
  )

  unless_failed-Spelled :
      (out more : Bytes) (b : Buffer) (r : Bool × Buffer) (k : Buffer → Bool × Buffer)
      → Extended grants out b r
      → ((b' : Buffer) → b'.contents ≡ b.contents ++ out → Spelled grants more b' (k b'))
      → Spelled grants (out ++ more) b (unless_failed r k)
  unless_failed-Spelled out more b (true, b') k h go =
      Spelled-then out more b b' (k b') h.0 (go b' h.0)
  unless_failed-Spelled out more b (false, b') k h go =
      ([], out ++ more, refl, ap (λ x. x.contents) h.0 ∙ sym (append-nil _), h.1, h.2)

  append_escaped-Spelled :
      (text : Bytes) (b : Buffer)
      → length b.contents + 6 * length text + 2 ≤ 2 ^ 63
      → Spelled grants (escape text ++ b'"' ∷ []) b (append_escaped grants text b)
  unfolding append_escaped escape
  append_escaped-Spelled [] b small =
      Extended-Spelled (b'"' ∷ []) b _ (strbuf_append-Extended grants (b'"' ∷ []) b (omega arith))
  append_escaped-Spelled (c ∷ s) b small = elim (Bool-cases (c == 0)) [
    | inl nul ↦ rw nul (
        Extended-Spelled (b'"' ∷ []) b _
          (strbuf_append-Extended grants (b'"' ∷ []) b (omega arith)))
    | inr more ↦
        rw (more, append_assoc)
          (unless_failed-Spelled (escape_byte c) (escape s ++ b'"' ∷ []) b _ _
            (strbuf_append-Extended grants (escape_byte c) b (omega (arith, length-escape_byte c)))
            λ b' e. append_escaped-Spelled s b' (
              omega (
                arith,
                length-escape_byte c,
                ap length e,
                length-append_bytes b.contents (escape_byte c),
              )))
  ]

  -- Writing a text as a JSON string puts the whole literal behind the bytes that are there, with room
  -- for the NUL; or, only where an allocation was refused, it fails with a part of the literal there
  -- from its start. What the literal may need is at most 2^63 bytes.
  pub append_json_string-Spelled :
      (text : Bytes) (b : Buffer)
      → length b.contents + 6 * length text + 3 ≤ 2 ^ 63
      → Spelled grants (json_string text) b (append_json_string grants text b)
  unfolding append_json_string json_string
  append_json_string-Spelled text b small =
      unless_failed-Spelled (b'"' ∷ []) (escape text ++ b'"' ∷ []) b _ _
        (strbuf_append-Extended grants (b'"' ∷ []) b (omega arith))
        λ b' e.
          append_escaped-Spelled text b'
            (omega (arith, ap length e, length-append_bytes b.contents (b'"' ∷ [])))
