-- ===== src/Json/Reader/Strings.antt =====
-- Reading a string keeps within its fuel, takes a byte or more, and gives a C string.
use frostlake_pdo.Json.Reader.{skip_ws}
use frostlake_pdo.Json.Text.{
  NoNul, c_string, escape_sequence, hex4, hex_value, low_half, string_body, string_loop, unicode,
  utf8, ◌>>=?◌,
}
use frostlake_pdo.Prelude.{
  Bytes, Ensures, Ensures-bind, Ensures-if, Ensures-map, Option, Parsed, [], arith, false, holds,
  if◌then◌else◌, leb, length, none, parsed, rejected, some, suc, within, zero, ℕ, ◌&&◌, ◌<◌, ◌==◌,
  ◌∷◌, ◌≡◌, ◌≤◌,
}

-- What a run leaves is shorter than its input.
abbrev pub Shorter : Bytes → Bytes → Type 0
Shorter rest s = length rest < length s

pub length-skip_ws : (s : Bytes) → length (skip_ws s) ≤ length s
unfolding skip_ws
length-skip_ws [] = omega arith
length-skip_ws (c ∷ s) = ground (arith, length-skip_ws s)

hex4-Ensures : (s : Bytes) → Ensures (λ (cp, rest). Shorter rest s) (hex4 s)
unfolding hex4
hex4-Ensures (a ∷ b ∷ c ∷ d ∷ rest) = digit (hex_value a) λ w.
    digit (hex_value b) λ x. digit (hex_value c) λ y. digit (hex_value d) λ z. holds (omega arith)
  where
    digit :
        (o : Option ℕ) {f : ℕ → Parsed (ℕ × Bytes)}
        → ((n : ℕ) → Ensures (λ (cp, r). Shorter r (a ∷ b ∷ c ∷ d ∷ rest)) (f n))
        → Ensures (λ (cp, r). Shorter r (a ∷ b ∷ c ∷ d ∷ rest)) (o >>=? f)
    digit none k = rejected
    digit (some n) k = k n
hex4-Ensures [] = rejected
hex4-Ensures (a ∷ []) = rejected
hex4-Ensures (a ∷ b ∷ []) = rejected
hex4-Ensures (a ∷ b ∷ c ∷ []) = rejected

low_half-Ensures :
    (cp : ℕ) (s : Bytes) → Ensures (λ (point, rest). length rest ≤ length s) (low_half cp s)
unfolding low_half
low_half-Ensures cp [] = holds (omega arith)
low_half-Ensures cp (b ∷ []) = holds (omega arith)
low_half-Ensures cp (b ∷ u ∷ s) =
    Ensures-if (within 0xD800 0xDBFF cp && (leb 4 (length s) && (b == b'\\' && u == b'u')))
      (λ _. Ensures-bind (hex4-Ensures s) λ (low, after) h. holds (omega arith))
      (λ _. holds (omega arith))

length-utf8 : (cp : ℕ) → length (utf8 cp) ≤ 4
unfolding utf8
length-utf8 cp = ground arith

-- What an escape gives: at most four bytes, and less input.
abbrev pub Escaped : Bytes → Bytes × Bytes → Type 0
Escaped s (out, rest) = (length out ≤ 4) × Shorter rest s

unicode-Ensures : (s : Bytes) → Ensures (Escaped s) (unicode s)
unfolding unicode
unicode-Ensures s = Ensures-bind (hex4-Ensures s) λ (cp, rest) h.
    Ensures-bind (low_half-Ensures cp rest)
      λ (point, after) k. holds (length-utf8 point, omega arith)

pub escape_sequence-Ensures : (s : Bytes) → Ensures (Escaped s) (escape_sequence s)
unfolding escape_sequence
escape_sequence-Ensures [] = rejected
escape_sequence-Ensures (e ∷ s) = plain b'"' _ λ _. plain b'\\' _ λ _. plain b'/' _ λ _.
    plain b'b' _ λ _. plain b'f' _ λ _. plain b'n' _ λ _. plain b'r' _ λ _. plain b't' _ λ _.
      Ensures-if (e == b'u')
        (λ _. Ensures-map (unicode-Ensures s) λ (out, rest) (few, h). (few, omega arith))
        (λ _. rejected)
  where
    plain :
        (k c : ℕ) {r : Parsed (Bytes × Bytes)}
        → (e == k ≡ false → Ensures (Escaped (e ∷ s)) r)
        → Ensures (Escaped (e ∷ s)) (if e == k then parsed (c ∷ [], s) else r)
    plain k c r = Ensures-if (e == k) (λ _. holds (omega arith, omega arith)) r

string_loop-Ensures :
    (f : ℕ) (s : Bytes) → length s ≤ f → Ensures (λ (text, rest). Shorter rest s) (string_loop f s)
unfolding string_loop
string_loop-Ensures zero [] h = rejected
string_loop-Ensures (suc f) [] h = rejected
string_loop-Ensures zero (c ∷ s) h = absurd (omega arith)
string_loop-Ensures (suc f) (c ∷ s) h =
    Ensures-if (c == b'"') (λ _. holds (omega arith))
      λ _.
        Ensures-if (c == b'\\')
          (λ _. Ensures-bind (escape_sequence-Ensures s) λ (out, rest) (few, k).
            Ensures-bind (string_loop-Ensures f rest (omega arith))
              λ (text, after) j. holds (omega arith))
          (λ _.
            Ensures-bind (string_loop-Ensures f s (omega arith))
              λ (text, after) j. holds (omega arith))

c_string-NoNul : (s : Bytes) → NoNul (c_string s)
c_string-NoNul [] = tt
c_string-NoNul (c ∷ s) = ground (arith, c_string-NoNul s)

pub string_body-Ensures :
    (s : Bytes) → Ensures (λ (text, rest). NoNul text × Shorter rest s) (string_body s)
unfolding string_body
string_body-Ensures s =
    Ensures-bind (string_loop-Ensures (length s) s (omega arith))
      λ (text, rest) h. holds (c_string-NoNul text, h)
