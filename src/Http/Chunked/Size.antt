-- ===== src/Http/Chunked/Size.antt =====
-- The line of a chunk, and what `decode_chunked` reads of it.
use frostlake_pdo.Http.Chunked.{after_crlf}
use frostlake_pdo.Libc.{
  hex_digit_value, hex_magnitude, hex_number, is_hex_digit, isspace, long_max, saturate,
  skip_spaces, strtol_hex, tolower,
}
use frostlake_pdo.Prelude.{
  All, All-append, Bool, Bytes, [], ap, append_assoc, arith, false, pos, refl, some, sym, true, ℕ,
  ◌&&◌, ◌*◌, ◌++◌, ◌+◌, ◌==◌, ◌∙◌, ◌∷◌, ◌≡◌, ◌≤◌,
}

abbrev pub size_line : Bytes → Bytes → Bytes → Bytes
size_line size extension rest = size ++ (extension ++ (13 ∷ 10 ∷ rest))

-- Hexadecimal digits, one at least.
abbrev pub IsSize : Bytes → Type 0
IsSize [] = ⊥
IsSize (c ∷ s) = (is_hex_digit c ≡ true) × All (λ d. is_hex_digit d ≡ true) s

-- Nothing, or what a semicolon starts and no line end ends.
abbrev pub IsExtension : Bytes → Type 0
IsExtension [] = Unit
IsExtension (c ∷ s) = (c ≡ b';') × All (λ d. (d == 13) ≡ false) s

-- Where a run of hexadecimal digits ends.
pub data HexStop : Bytes → Type 0 where
  hex_stop :
      {c : ℕ} {s : Bytes} → is_hex_digit c ≡ false → (tolower c == b'x') ≡ false → HexStop (c ∷ s)

pub extension-HexStop :
    (extension rest : Bytes) → IsExtension extension → HexStop (extension ++ (13 ∷ 10 ∷ rest))
extension-HexStop [] rest h = hex_stop refl refl
extension-HexStop (c ∷ s) rest h = hex_stop (ap is_hex_digit h.0) (ap (λ b. tolower b == b'x') h.0)

hex_number-append :
    (n : ℕ) (s tail_bytes : Bytes)
    → All (λ c. is_hex_digit c ≡ true) s
    → HexStop tail_bytes
    → hex_number n (s ++ tail_bytes) ≡ hex_number n s
unfolding hex_number
hex_number-append n [] _ h (hex_stop e _) = rw e refl
hex_number-append n (c ∷ s) tail_bytes h stop =
    rw h.0 (hex_number-append (n * 16 + hex_digit_value c) s tail_bytes h.1 stop)

hex-not_x : (c : ℕ) → is_hex_digit c ≡ true → (tolower c == b'x') ≡ false
hex-not_x c h = ground arith

hex-not_space : (c : ℕ) → is_hex_digit c ≡ true → isspace c ≡ false
hex-not_space c h = ground arith

hex-not_minus : (c : ℕ) → is_hex_digit c ≡ true → (c == b'-') ≡ false
hex-not_minus c h = ground arith

hex-not_plus : (c : ℕ) → is_hex_digit c ≡ true → (c == b'+') ≡ false
hex-not_plus c h = ground arith

and_no : (b : Bool) → (b && false) ≡ false
and_no b = ground arith

hex-not_cr : (c : ℕ) → is_hex_digit c ≡ true → (c == 13) ≡ false
hex-not_cr c h = ground arith

hex_magnitude-size :
    (s tail_bytes : Bytes)
    → IsSize s
    → HexStop tail_bytes
    → hex_magnitude (s ++ tail_bytes) ≡ hex_number 0 s
hex_magnitude-size [] tail_bytes h stop = absurd h
hex_magnitude-size (c ∷ []) _ h (hex_stop {c = d} {s} e no_x) =
    rw (no_x, and_no (c == b'0')) (hex_number-append 0 (c ∷ []) (d ∷ s) h (hex_stop e no_x))
hex_magnitude-size (c ∷ d ∷ s) tail_bytes h stop =
    rw (hex-not_x d h.1.0, and_no (c == b'0')) (hex_number-append 0 (c ∷ d ∷ s) tail_bytes h stop)

saturate_small : (n : ℕ) → n ≤ long_max → saturate false n ≡ pos n
saturate_small n h = ground arith

pub strtol_hex-size :
    (s tail_bytes : Bytes)
    → IsSize s
    → HexStop tail_bytes
    → hex_number 0 s ≤ long_max
    → strtol_hex (s ++ tail_bytes) ≡ pos (hex_number 0 s)
unfolding strtol_hex skip_spaces
strtol_hex-size [] tail_bytes h stop le = absurd h
strtol_hex-size (c ∷ s) tail_bytes h stop le =
    rw (hex-not_space c h.0, strtol_hex)
      (rw (hex-not_minus c h.0) (
        rw (hex-not_plus c h.0) (
          ap (saturate false) (hex_magnitude-size (c ∷ s) tail_bytes h stop)
          ∙ saturate_small _ le)))

after_crlf-line :
    (line rest : Bytes)
    → All (λ c. (c == 13) ≡ false) line
    → after_crlf (line ++ (13 ∷ 10 ∷ rest)) ≡ some rest
unfolding after_crlf
after_crlf-line [] rest h = refl
after_crlf-line (c ∷ []) rest h = rw h.0 refl
after_crlf-line (c ∷ d ∷ s) rest h = rw h.0 (after_crlf-line (d ∷ s) rest h.1)

size-no_cr : (s : Bytes) → All (λ c. is_hex_digit c ≡ true) s → All (λ c. (c == 13) ≡ false) s
size-no_cr [] h = tt
size-no_cr (c ∷ s) h = (hex-not_cr c h.0, size-no_cr s h.1)

line-no_cr :
    (s extension : Bytes)
    → IsSize s
    → IsExtension extension
    → All (λ c. (c == 13) ≡ false) (s ++ extension)
line-no_cr [] extension h he = absurd h
line-no_cr (c ∷ s) [] h he = All-append _ (c ∷ s) [] (hex-not_cr c h.0, size-no_cr s h.1) tt
line-no_cr (c ∷ s) (d ∷ e) h he =
    All-append _ (c ∷ s) (d ∷ e) (hex-not_cr c h.0, size-no_cr s h.1) (ap (λ b. b == 13) he.0, he.1)

pub after_crlf-size_line :
    (s extension rest : Bytes)
    → IsSize s
    → IsExtension extension
    → after_crlf (size_line s extension rest) ≡ some rest
after_crlf-size_line s extension rest h he =
    ap after_crlf (sym (append_assoc s extension (13 ∷ 10 ∷ rest)))
    ∙ after_crlf-line (s ++ extension) rest (line-no_cr s extension h he)
