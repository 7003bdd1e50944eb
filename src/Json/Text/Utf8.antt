-- ===== src/Json/Text/Utf8.antt =====
-- The UTF-8 of `append_utf8`, against the table of RFC 3629, and surrogate pairs.
use frostlake_pdo.Json.Text.{hex4, hex_digit, join_surrogates, low_half, unicode, utf8}
use frostlake_pdo.Json.Text.RoundTrip.{hex4-hex_digit}
use frostlake_pdo.Prelude.{
  Bool-cases, Bytes, [], ap, arith, inl, inr, leb, length, ltb, parsed, suc, true, within, ℕ, ◌%◌,
  ◌*◌, ◌+◌, ◌-◌, ◌/◌, ◌<◌, ◌↔◌, ◌∙◌, ◌∷◌, ◌≡◌, ◌≤◌, ◌⊎◌,
}

abbrev pub Continuation : ℕ → Type 0
Continuation c = (0x80 ≤ c) × (c < 0xC0)

-- What RFC 3629 lets a code point be: at most 0x10FFFF, and no surrogate.
abbrev pub IsScalar : ℕ → Type 0
IsScalar cp = (cp < 0x110000) × ((cp < 0xD800) ⊎ (0xE000 ≤ cp))

-- `IsUtf8 cp s`: `s` is the UTF-8 of `cp`, its shortest form of one to four bytes; a surrogate has none.
pub data IsUtf8 (cp : ℕ) : Bytes → Type 0 where
  one_byte : cp < 0x80 → IsUtf8 cp (cp ∷ [])
  two_bytes :
      {a b : ℕ}
      → 0x80 ≤ cp
      → cp < 0x800
      → (0xC2 ≤ a) × (a < 0xE0)
      → Continuation b
      → (a - 0xC0) * 64 + (b - 0x80) ≡ cp
      → IsUtf8 cp (a ∷ b ∷ [])
  three_bytes :
      {a b c : ℕ}
      → 0x800 ≤ cp
      → cp < 0x10000
      → (cp < 0xD800) ⊎ (0xE000 ≤ cp)
      → (0xE0 ≤ a) × (a < 0xF0)
      → Continuation b
      → Continuation c
      → ((a - 0xE0) * 64 + (b - 0x80)) * 64 + (c - 0x80) ≡ cp
      → IsUtf8 cp (a ∷ b ∷ c ∷ [])
  four_bytes :
      {a b c d : ℕ}
      → 0x10000 ≤ cp
      → cp < 0x110000
      → (0xF0 ≤ a) × (a < 0xF5)
      → Continuation b
      → Continuation c
      → Continuation d
      → (((a - 0xF0) * 64 + (b - 0x80)) * 64 + (c - 0x80)) * 64 + (d - 0x80) ≡ cp
      → IsUtf8 cp (a ∷ b ∷ c ∷ d ∷ [])

utf8-IsUtf8 : (cp : ℕ) → IsScalar cp → IsUtf8 cp (utf8 cp)
unfolding utf8
utf8-IsUtf8 cp (h, no_surrogate) = elim (Bool-cases (ltb cp 0x80)) [
  | inl e1 ↦ rw e1 (one_byte (ground arith))
  | inr n1 ↦ elim (Bool-cases (ltb cp 0x800)) [
    | inl e2 ↦
        rw (n1, e2)
          (two_bytes (ground arith) (ground arith) (ground arith) (omega arith) (omega arith))
    | inr n2 ↦ elim (Bool-cases (ltb cp 0x10000)) [
      | inl e3 ↦
          rw (n1, n2, e3)
            (three_bytes (ground arith) (ground arith) no_surrogate (ground arith) (omega arith)
              (omega arith) (omega arith))
      | inr n3 ↦
          rw (n1, n2, n3)
            (four_bytes (ground arith) h (omega arith) (omega arith) (omega arith) (omega arith)
              (omega arith))
    ]
  ]
]

IsUtf8-IsScalar : {cp : ℕ} {s : Bytes} → IsUtf8 cp s → IsScalar cp
IsUtf8-IsScalar (one_byte h) = (omega arith, inl (omega arith))
IsUtf8-IsScalar (two_bytes lo hi a b e) = (omega arith, inl (omega arith))
IsUtf8-IsScalar (three_bytes lo hi no_surrogate a b c e) = (omega arith, no_surrogate)
IsUtf8-IsScalar (four_bytes lo hi a b c d e) = (omega arith, inr (omega arith))

-- What `append_utf8` writes for a code point is its UTF-8 exactly where the code point is at most
-- 0x10FFFF and no surrogate: what it writes for a surrogate is not UTF-8.
pub utf8-IsUtf8_iff : (cp : ℕ) → IsUtf8 cp (utf8 cp) ↔ IsScalar cp
utf8-IsUtf8_iff cp = (IsUtf8-IsScalar, utf8-IsUtf8 cp)

abbrev pub four_digits : ℕ → Bytes → Bytes
four_digits n rest =
    hex_digit (n / 4096 % 16)
    ∷ hex_digit (n / 256 % 16)
    ∷ hex_digit (n / 16 % 16)
    ∷ hex_digit (n % 16)
    ∷ rest

hex4-four_digits :
    (n : ℕ) (rest : Bytes) → n < 0x10000 → hex4 (four_digits n rest) ≡ parsed (n, rest)
hex4-four_digits n rest h =
    hex4-hex_digit (n / 4096 % 16) (n / 256 % 16) (n / 16 % 16) (n % 16) rest (omega arith)
      (omega arith) (omega arith) (omega arith)
    ∙ ap (λ m. parsed (m, rest)) (omega arith)

abbrev pub high_surrogate : ℕ → ℕ
high_surrogate cp = 0xD800 + (cp - 0x10000) / 1024

abbrev pub low_surrogate : ℕ → ℕ
low_surrogate cp = 0xDC00 + (cp - 0x10000) % 1024

join_surrogates-pair :
    (cp : ℕ)
    → 0x10000 ≤ cp
    → cp < 0x110000
    → join_surrogates (high_surrogate cp) (low_surrogate cp) ≡ cp
join_surrogates-pair cp low_bound high_bound = omega arith

within_of : (lo hi c : ℕ) → lo ≤ c → c ≤ hi → within lo hi c ≡ true
within_of lo hi c above below = ground arith

high_surrogate-within :
    (cp : ℕ) → 0x10000 ≤ cp → cp < 0x110000 → within 0xD800 0xDBFF (high_surrogate cp) ≡ true
high_surrogate-within cp low_bound high_bound =
    within_of 0xD800 0xDBFF (high_surrogate cp) (omega arith) (omega arith)

leb_four : (n : ℕ) → leb 4 (suc (suc (suc (suc n)))) ≡ true
leb_four n = ground arith

low_half-pair :
    (cp : ℕ) (rest : Bytes)
    → 0x10000 ≤ cp
    → cp < 0x110000
    → low_half (high_surrogate cp) (b'\\' ∷ b'u' ∷ four_digits (low_surrogate cp) rest)
      ≡ parsed (cp, rest)
unfolding low_half
low_half-pair cp rest low_bound high_bound = rw (
  high_surrogate-within cp low_bound high_bound,
  leb_four (length rest),
  hex4-four_digits (low_surrogate cp) rest (omega arith),
  join_surrogates-pair cp low_bound high_bound,
)

-- A code point above 0xFFFF that is escaped as a surrogate pair is read as its UTF-8.
pub unicode-surrogates :
    (cp : ℕ) (rest : Bytes)
    → 0x10000 ≤ cp
    → cp < 0x110000
    → unicode (four_digits (high_surrogate cp) (b'\\' ∷ b'u' ∷ four_digits (low_surrogate cp) rest))
      ≡ parsed (utf8 cp, rest)
unfolding unicode
unicode-surrogates cp rest low_bound high_bound = rw (
  hex4-four_digits (high_surrogate cp) _ (omega arith),
  low_half-pair cp rest low_bound high_bound,
)
