-- ===== src/Json/Text/RoundTrip.antt =====
-- What `fl_strbuf_append_json_string` writes, `parse_string_body` reads.
use frostlake_pdo.Json.Text.{
  NoNul, c_string, escape, escape_byte, escape_sequence, hex4, hex_digit, hex_value, low_half,
  string_body, string_loop, unicode, unicode_escape, utf8,
}
use frostlake_pdo.Prelude.{
  Bytes, [], append_assoc, arith, dec_lt, false, length, lengths, parsed, refl, some, subst, suc,
  sym, zero, ℕ, ℕ_discrete, ◌%◌, ◌*◌, ◌++◌, ◌+◌, ◌/◌, ◌<◌, ◌==◌, ◌∷◌, ◌≡◌, ◌≢◌, ◌≤◌,
}

hex_value-hex_digit : (d : ℕ) → d < 16 → hex_value (hex_digit d) ≡ some d
unfolding hex_value
hex_value-hex_digit d h = ground arith

pub hex4-hex_digit :
    (a b c d : ℕ) (rest : Bytes)
    → a < 16
    → b < 16
    → c < 16
    → d < 16
    → hex4 (hex_digit a ∷ hex_digit b ∷ hex_digit c ∷ hex_digit d ∷ rest)
      ≡ parsed (((a * 16 + b) * 16 + c) * 16 + d, rest)
unfolding hex4
hex4-hex_digit a b c d rest ha hb hc hd =
    rw (hex_value-hex_digit a ha, hex4)
      (rw (hex_value-hex_digit b hb, hex4)
        (rw (hex_value-hex_digit c hc, hex4) (rw (hex_value-hex_digit d hd, hex4))))

low_half_bmp : (cp : ℕ) (rest : Bytes) → cp < 0xD800 → low_half cp rest ≡ parsed (cp, rest)
unfolding low_half
low_half_bmp cp [] h = refl
low_half_bmp cp (b ∷ []) h = refl
low_half_bmp cp (b ∷ u ∷ rest) h = ground arith

utf8_ascii : (c : ℕ) → c < 0x80 → utf8 c ≡ c ∷ []
unfolding utf8
utf8_ascii c h = ground arith

escape_sequence-unicode_escape :
    (c : ℕ) (rest : Bytes)
    → c < 0x80
    → escape_sequence (
        b'u'
        ∷ hex_digit (c / 4096 % 16)
        ∷ hex_digit (c / 256 % 16)
        ∷ hex_digit (c / 16 % 16)
        ∷ hex_digit (c % 16)
        ∷ rest)
      ≡ parsed (c ∷ [], rest)
unfolding escape_sequence unicode
escape_sequence-unicode_escape c rest h =
    rw
      (
        hex4-hex_digit (c / 4096 % 16) (c / 256 % 16) (c / 16 % 16) (c % 16) rest (omega arith)
            (omega arith) (omega arith) (omega arith),
        unicode,
      )
      (rw (value_is, low_half_bmp c rest (omega arith)) (rw (utf8_ascii c h)))
  where
    value_is : ((c / 4096 % 16 * 16 + c / 256 % 16) * 16 + c / 16 % 16) * 16 + c % 16 ≡ c
    value_is = omega arith

-- How `write` writes a byte: plainly, or as a sequence that reads as the byte.
pub data Written (write : ℕ → Bytes) (c : ℕ) : Type 0 where
  plainly : write c ≡ c ∷ [] → (c == b'"') ≡ false → (c == b'\\') ≡ false → Written write c
  sequence :
      (out : Bytes)
      → write c ≡ b'\\' ∷ out
      → ((rest : Bytes) → escape_sequence (out ++ rest) ≡ parsed (c ∷ [], rest))
      → Written write c

pub short_sequence :
    {write : ℕ → Bytes} (c e : ℕ)
    → write c ≡ b'\\' ∷ e ∷ []
    → ((rest : Bytes) → escape_sequence (e ∷ rest) ≡ parsed (c ∷ [], rest))
    → Written write c
short_sequence c e w r = sequence (e ∷ []) w r

pub control_sequence :
    {write : ℕ → Bytes} (c : ℕ) → c < 32 → write c ≡ unicode_escape c → Written write c
control_sequence c h w =
    sequence
      (b'u'
        ∷ hex_digit (c / 4096 % 16)
        ∷ hex_digit (c / 256 % 16)
        ∷ hex_digit (c / 16 % 16)
        ∷ hex_digit (c % 16)
        ∷ [])
      w (λ rest. escape_sequence-unicode_escape c rest (omega arith))

-- To handle one byte apart from the others.
pub Written-at :
    {write : ℕ → Bytes} {c : ℕ} (k : ℕ)
    → Written write k
    → (c ≢ k → Written write c)
    → Written write c
Written-at {write} {c} k same else = elim (ℕ_discrete c k) [
  | yes e ↦ subst (Written write) (sym e) same
  | no n ↦ else n
]

Written-escape_byte_control :
    (c : ℕ) → c < 32 → c ≢ 8 → c ≢ 9 → c ≢ 10 → c ≢ 12 → c ≢ 13 → Written escape_byte c
unfolding escape_byte
Written-escape_byte_control c h h8 h9 h10 h12 h13 = control_sequence c h (ground arith)

Written-escape_byte_plain : (c : ℕ) → 32 ≤ c → c ≢ b'"' → c ≢ b'\\' → Written escape_byte c
unfolding escape_byte
Written-escape_byte_plain c h q b = plainly (ground arith) (ground arith) (ground arith)

Written-escape_byte : (c : ℕ) → Written escape_byte c
unfolding escape_byte escape_sequence
Written-escape_byte c = Written-at b'"' (short_sequence _ b'"' refl λ rest. refl) λ h1.
    Written-at b'\\' (short_sequence _ b'\\' refl λ rest. refl) λ h2.
      Written-at 8 (short_sequence _ b'b' refl λ rest. refl) λ h3.
        Written-at 12 (short_sequence _ b'f' refl λ rest. refl) λ h4.
          Written-at 10 (short_sequence _ b'n' refl λ rest. refl) λ h5.
            Written-at 13 (short_sequence _ b'r' refl λ rest. refl) λ h6.
              Written-at 9 (short_sequence _ b't' refl λ rest. refl) λ h7. elim (dec_lt c 32) [
                | yes l ↦ Written-escape_byte_control c l h3 h7 h5 h4 h6
                | no g ↦ Written-escape_byte_plain c (omega arith) h1 h2
              ]

pub string_loop-Written :
    {write : ℕ → Bytes} (fuel c : ℕ) (rest : Bytes) {text after : Bytes}
    → Written write c
    → string_loop fuel rest ≡ parsed (text, after)
    → string_loop (suc fuel) (write c ++ rest) ≡ parsed (c ∷ text, after)
unfolding string_loop
string_loop-Written fuel c rest (plainly w q b) h = rw (w, q, b, h)
string_loop-Written fuel c rest (sequence out w r) h = rw (w, r rest, h)

pub length-Written : {write : ℕ → Bytes} (c : ℕ) → Written write c → 0 < length (write c)
length-Written c (plainly w q b) = rw w (omega arith)
length-Written c (sequence out w r) = rw w (omega arith)

escape-cons : (c : ℕ) (s : Bytes) → c ≢ 0 → escape (c ∷ s) ≡ escape_byte c ++ escape s
unfolding escape
escape-cons c s n = ground arith

-- The loop reads an escaped text up to the quote behind it.
string_loop-escape :
    (fuel : ℕ) (text rest : Bytes)
    → NoNul text
    → length text < fuel
    → string_loop fuel (escape text ++ b'"' ∷ rest) ≡ parsed (text, rest)
string_loop-escape zero text rest n h = absurd (omega arith)
string_loop-escape (suc fuel) [] rest n h = unfold string_loop escape in refl
string_loop-escape (suc fuel) (c ∷ text) rest (nc, n) h =
    rw (escape-cons c text nc, append_assoc)
      (string_loop-Written fuel c _ (Written-escape_byte c)
        (string_loop-escape fuel text rest n (omega arith)))

length-escape : (text : Bytes) → NoNul text → length text ≤ length (escape text)
length-escape [] n = omega arith
length-escape (c ∷ text) (nc, n) =
    rw (escape-cons c text nc)
      (omega (lengths, length-Written c (Written-escape_byte c), length-escape text n))

pub c_string_id : (text : Bytes) → NoNul text → c_string text ≡ text
c_string_id [] n = refl
c_string_id (c ∷ text) (nc, n) = ground (arith, c_string_id text n)

-- A text with no NUL, written as a JSON string, is read back with any input behind it.
pub string_body-escape :
    (text rest : Bytes)
    → NoNul text
    → string_body (escape text ++ b'"' ∷ rest) ≡ parsed (text, rest)
unfolding string_body
string_body-escape text rest n =
    rw
      (
        string_loop-escape (length (escape text ++ b'"' ∷ rest)) text rest n
            (omega (lengths, length-escape text n)),
        string_body,
      )
      (rw (c_string_id text n))
