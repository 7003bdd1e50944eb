-- ===== src/Json/Text.antt =====
-- String literals of json.c: `fl_strbuf_append_json_string` writes one, `parse_string_body` reads
-- one. A `char *` is the bytes before its NUL.
pub mod RoundTrip
pub mod Utf8
use frostlake_pdo.Prelude.{
  All, Bytes, Option, Parsed, [], if◌then◌else◌, leb, length, ltb, none, out_of_fuel, parsed,
  refused, some, suc, within, zero, ℕ, ◌%◌, ◌&&◌, ◌*◌, ◌++◌, ◌+◌, ◌-◌, ◌/◌, ◌==◌, ◌>>=◌, ◌^◌, ◌∷◌,
  ◌≢◌,
}

-- A text that a C string holds whole.
abbrev pub NoNul : Bytes → Type 0
NoNul = All (λ c. c ≢ 0)

-- A digit of `%04x`.
abbrev pub hex_digit : ℕ → ℕ
hex_digit d = if ltb d 10 then b'0' + d else b'a' + (d - 10)

-- What `snprintf("\\u%04x", c)` writes for a byte.
abbrev pub unicode_escape : ℕ → Bytes
unicode_escape c =
    b'\\'
    ∷ b'u'
    ∷ hex_digit (c / 4096 % 16)
    ∷ hex_digit (c / 256 % 16)
    ∷ hex_digit (c / 16 % 16)
    ∷ hex_digit (c % 16)
    ∷ []

-- One round of the loop of `fl_strbuf_append_json_string`.
unfoldable pub escape_byte : ℕ → Bytes
escape_byte c =
    if c == b'"'
    then b'\\' ∷ b'"' ∷ []
    else if c == b'\\'
    then b'\\' ∷ b'\\' ∷ []
    else if c == 8
    then b'\\' ∷ b'b' ∷ []
    else if c == 12
    then b'\\' ∷ b'f' ∷ []
    else if c == b'\n'
    then b'\\' ∷ b'n' ∷ []
    else if c == b'\r'
    then b'\\' ∷ b'r' ∷ []
    else if c == b'\t'
    then b'\\' ∷ b't' ∷ []
    else if ltb c 32
    then unicode_escape c
    else c ∷ []

-- The loop stops at the text's NUL.
unfoldable pub escape : Bytes → Bytes
escape [] = []
escape (c ∷ s) = if c == 0 then [] else escape_byte c ++ escape s

-- What `fl_strbuf_append_json_string` appends.
unfoldable pub json_string : Bytes → Bytes
json_string text = b'"' ∷ (escape text ++ b'"' ∷ [])

-- `append_utf8`: the bytes of a code point. The operands of each `|` share no bit, since every code
-- point that is read stays below 2 ^ 21: it is a sum.
unfoldable pub utf8 : ℕ → Bytes
utf8 cp =
    if ltb cp 0x80
    then cp ∷ []
    else if ltb cp 0x800
    then (0xC0 + cp / 2 ^ 6) ∷ (0x80 + cp % 2 ^ 6) ∷ []
    else if ltb cp 0x10000
    then (0xE0 + cp / 2 ^ 12) ∷ (0x80 + cp / 2 ^ 6 % 2 ^ 6) ∷ (0x80 + cp % 2 ^ 6) ∷ []
    else (0xF0 + cp / 2 ^ 18)
      ∷ (0x80 + cp / 2 ^ 12 % 2 ^ 6)
      ∷ (0x80 + cp / 2 ^ 6 % 2 ^ 6)
      ∷ (0x80 + cp % 2 ^ 6)
      ∷ []

-- A digit of `parse_hex4`.
unfoldable pub hex_value : ℕ → Option ℕ
hex_value c =
    if within b'0' b'9' c
    then some (c - b'0')
    else if within b'a' b'f' c
    then some (c - b'a' + 10)
    else if within b'A' b'F' c
    then some (c - b'A' + 10)
    else none

infixl 5 ◌>>=?◌
abbrev pub ◌>>=?◌ : {A B : Type 0} → Option A → (A → Parsed B) → Parsed B
none >>=? f = refused
some a >>=? f = f a

-- `parse_hex4`: the value of four digits, and the input behind them. `value |= digit` adds, as the
-- shift left the low four bits clear.
unfoldable pub hex4 : Bytes → Parsed (ℕ × Bytes)
hex4 (a ∷ b ∷ c ∷ d ∷ rest) = hex_value a >>=? λ w. hex_value b >>=? λ x.
    hex_value c >>=? λ y. hex_value d >>=? λ z. parsed (((w * 16 + x) * 16 + y) * 16 + z, rest)
hex4 _ = refused

-- `cp = 0x10000 + ((cp - 0xD800) << 10) + (low - 0xDC00)` in `unsigned long`, of 64 bits.
abbrev pub join_surrogates : ℕ → ℕ → ℕ
join_surrogates cp low = (0x10000 + (cp - 0xD800) * 2 ^ 10 + (low + 2 ^ 64 - 0xDC00)) % 2 ^ 64

-- The code point of `\u`, whose first four digits said `cp`: a high surrogate takes a second
-- escape, if one follows, with it. Six bytes hold at least the `\u` and its digits.
unfoldable pub low_half : ℕ → Bytes → Parsed (ℕ × Bytes)
low_half cp (b ∷ u ∷ rest) =
    if within 0xD800 0xDBFF cp && (leb 4 (length rest) && (b == b'\\' && u == b'u'))
    then hex4 rest >>= (λ (low, after). parsed (join_surrogates cp low, after))
    else parsed (cp, b ∷ u ∷ rest)
low_half cp s = parsed (cp, s)

-- The `case 'u'` of `parse_string_body`.
unfoldable pub unicode : Bytes → Parsed (Bytes × Bytes)
unicode s =
    hex4 s >>= λ (cp, rest). low_half cp rest >>= λ (point, after). parsed (utf8 point, after)

-- One round on a backslash: the bytes that the escape stands for, and the input behind it.
unfoldable pub escape_sequence : Bytes → Parsed (Bytes × Bytes)
escape_sequence [] = refused
escape_sequence (e ∷ s) =
    if e == b'"'
    then parsed (b'"' ∷ [], s)
    else if e == b'\\'
    then parsed (b'\\' ∷ [], s)
    else if e == b'/'
    then parsed (b'/' ∷ [], s)
    else if e == b'b'
    then parsed (8 ∷ [], s)
    else if e == b'f'
    then parsed (12 ∷ [], s)
    else if e == b'n'
    then parsed (b'\n' ∷ [], s)
    else if e == b'r'
    then parsed (b'\r' ∷ [], s)
    else if e == b't'
    then parsed (b'\t' ∷ [], s)
    else if e == b'u'
    then unicode s
    else refused

-- The loop of `parse_string_body`: what goes into the buffer, and the input behind the closing
-- quote. Each round takes at least one byte.
unfoldable pub string_loop : ℕ → Bytes → Parsed (Bytes × Bytes)
string_loop fuel [] = refused
string_loop zero (c ∷ s) = out_of_fuel
string_loop (suc fuel) (c ∷ s) =
    let escaped = escape_sequence s >>= λ (out, rest).
    string_loop fuel rest >>= λ (text, after). parsed (out ++ text, after) in
    let plain = string_loop fuel s >>= λ (text, after). parsed (c ∷ text, after) in
    if c == b'"' then parsed ([], s) else if c == b'\\' then escaped else plain

-- The text that a `char *` shows of a buffer: the bytes before the first NUL.
abbrev pub c_string : Bytes → Bytes
c_string [] = []
c_string (c ∷ s) = if c == 0 then [] else c ∷ c_string s

-- `parse_string_body`, whose result is read as a C string by all that use it.
unfoldable pub string_body : Bytes → Parsed (Bytes × Bytes)
string_body s = string_loop (length s) s >>= λ (text, rest). parsed (c_string text, rest)
