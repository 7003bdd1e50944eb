-- ===== src/Wire/Request/Strings.antt =====
-- The strings of a request, read back.
use frostlake_pdo.Json.Reader.{is_space, parse_string, parse_value, skip_ws, switch}
use frostlake_pdo.Json.Text.{c_string, escape_sequence, string_body, string_loop}
use frostlake_pdo.Json.Text.RoundTrip.{
  Written, control_sequence, length-Written, plainly, short_sequence, string_loop-Written,
  Written-at,
}
use frostlake_pdo.Json.Value.{string}
use frostlake_pdo.Prelude.{
  Bytes, [], append_assoc, arith, dec_lt, length, lengths, parsed, refl, suc, zero, ℕ, ◌++◌, ◌<◌,
  ◌∷◌, ◌≡◌, ◌≢◌, ◌≤◌,
}
use frostlake_pdo.Wire.Request.{wire_escape, wire_escape_byte, wire_string}

Written-wire_control : (c : ℕ) → c < 32 → c ≢ 9 → c ≢ 10 → c ≢ 13 → Written wire_escape_byte c
unfolding wire_escape_byte
Written-wire_control c h h9 h10 h13 = control_sequence c h (ground arith)

Written-wire_plain : (c : ℕ) → 32 ≤ c → c ≢ b'"' → c ≢ b'\\' → Written wire_escape_byte c
unfolding wire_escape_byte
Written-wire_plain c h q b = plainly (ground arith) (ground arith) (ground arith)

Written-wire : (c : ℕ) → Written wire_escape_byte c
unfolding wire_escape_byte escape_sequence
Written-wire c = Written-at b'"' (short_sequence _ b'"' refl λ rest. refl) λ h1.
    Written-at b'\\' (short_sequence _ b'\\' refl λ rest. refl) λ h2.
      Written-at 10 (short_sequence _ b'n' refl λ rest. refl) λ h3.
        Written-at 13 (short_sequence _ b'r' refl λ rest. refl) λ h4.
          Written-at 9 (short_sequence _ b't' refl λ rest. refl) λ h5. elim (dec_lt c 32) [
            | yes l ↦ Written-wire_control c l h5 h3 h4
            | no g ↦ Written-wire_plain c (omega arith) h1 h2
          ]

string_loop-wire_escape :
    (fuel : ℕ) (text rest : Bytes)
    → length text < fuel
    → string_loop fuel (wire_escape text ++ b'"' ∷ rest) ≡ parsed (text, rest)
unfolding wire_escape
string_loop-wire_escape zero text rest h = absurd (omega arith)
string_loop-wire_escape (suc fuel) [] rest h = unfold string_loop in refl
string_loop-wire_escape (suc fuel) (c ∷ text) rest h = rw append_assoc (
    string_loop-Written fuel c _ (Written-wire c)
      (string_loop-wire_escape fuel text rest (omega arith)))

length-wire_escape : (text : Bytes) → length text ≤ length (wire_escape text)
unfolding wire_escape
length-wire_escape [] = omega arith
length-wire_escape (c ∷ text) =
    omega (lengths, length-Written c (Written-wire c), length-wire_escape text)

-- The reader takes a text that `append_json_string` has written up to its first NUL.
string_body-wire_escape :
    (text rest : Bytes)
    → string_body (wire_escape text ++ b'"' ∷ rest) ≡ parsed (c_string text, rest)
unfolding string_body
string_body-wire_escape text rest = rw (
  string_loop-wire_escape (length (wire_escape text ++ b'"' ∷ rest)) text rest
      (omega (lengths, length-wire_escape text)),
  string_body,
)

pub wire_string_value :
    (sql : Bytes) (f : ℕ) (rest : Bytes)
    → 0 < f
    → parse_value f 1 (wire_string sql ++ rest) ≡ parsed (string (c_string sql), rest)
unfolding parse_value switch skip_ws is_space parse_string wire_string
wire_string_value sql zero rest h = absurd (omega arith)
wire_string_value sql (suc f) rest h = rw (append_assoc, string_body-wire_escape sql rest)
