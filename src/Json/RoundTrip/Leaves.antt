-- ===== src/Json/RoundTrip/Leaves.antt =====
-- The reader on the written forms of strings, numbers and keys, and the first byte of a value.
use frostlake_pdo.Json.Fits.{
  Fits, IsLexeme, array_fits, bool_fits, null_fits, number_fits, number_text, object_fits,
  string_fits,
}
use frostlake_pdo.Json.Reader.{
  array_body, expect, is_number_byte, is_space, lexeme, number_bytes, parse_key, parse_number,
  parse_string, skip_ws, switch,
}
use frostlake_pdo.Json.Text.{NoNul, escape, json_string}
use frostlake_pdo.Json.Text.RoundTrip.{string_body-escape}
use frostlake_pdo.Json.Value.{Items, Json, Members, array, bool, number, string}
use frostlake_pdo.Json.Writer.{json_text}
use frostlake_pdo.Prelude.{
  All, Bool-cases, Bytes, Parsed, [], append_assoc, arith, false, inl, inr, parsed, refl, suc, true,
  zero, ℕ, ◌++◌, ◌<◌, ◌==◌, ◌>>=◌, ◌∷◌, ◌≡◌, ◌≤◌,
}

-- What may follow a value: the bytes of a number end there.
abbrev pub Stops : Bytes → Type 0
Stops [] = Unit
Stops (c ∷ _) = is_number_byte c ≡ false

pub number_bytes-append :
    (l rest : Bytes)
    → All (λ b. is_number_byte b ≡ true) l
    → Stops rest
    → number_bytes (l ++ rest) ≡ (l, rest)
unfolding number_bytes
number_bytes-append [] [] n h = refl
number_bytes-append [] (c ∷ rest) n h = rw h
number_bytes-append (c ∷ l) rest (nc, n) h = rw (nc, number_bytes-append l rest n h)

pub parse_number-append :
    (l rest : Bytes) → IsLexeme l → Stops rest → parse_number (l ++ rest) ≡ parsed (number l, rest)
unfolding parse_number lexeme
parse_number-append l rest (number_text {c} {l = t} nc n) h = elim (Bool-cases (c == b'-')) [
  | inl e ↦ rw (e, number_bytes-append t rest n h)
  | inr e ↦ rw (e, number_bytes-append (c ∷ t) rest (nc, n) h)
]

pub switch-number :
    (elements : Bytes → Parsed (Items × Bytes)) (members : Bytes → Parsed (Members × Bytes))
    (d c : ℕ) (s : Bytes)
    → is_number_byte c ≡ true
    → switch elements members d (c ∷ s) ≡ parse_number (c ∷ s)
unfolding switch is_number_byte
switch-number elements members d c s h = ground arith

-- A written value begins with a byte that is neither a space nor a closing bracket.
pub data Opens (s : Bytes) : Type 0 where
  opens : {c : ℕ} {t : Bytes} → s ≡ c ∷ t → is_space c ≡ false → (c == b']') ≡ false → Opens s

pub json_text-Opens : {d : ℕ} {v : Json} → Fits d v → Opens (json_text v)
unfolding json_text is_space is_number_byte json_string
json_text-Opens null_fits = opens refl refl refl
json_text-Opens (bool_fits {b}) = elim b as (λ x. Opens (json_text (bool x))) [
  | true ↦ opens refl refl refl
  | false ↦ opens refl refl refl
]
json_text-Opens (number_fits (number_text {c} {l = t} nc n)) =
    opens {t = t} refl (ground arith) (ground arith)
json_text-Opens (string_fits t) = opens refl refl refl
json_text-Opens (array_fits lt xs) = opens refl refl refl
json_text-Opens (object_fits lt ms) = opens refl refl refl

pub skip_ws-Opens : (s rest : Bytes) → Opens s → skip_ws (s ++ rest) ≡ s ++ rest
unfolding skip_ws
skip_ws-Opens s rest (opens e sp cl) = rw (e, sp)

pub array_body-Opens :
    (loop : Bytes → Parsed (Items × Bytes)) (s rest : Bytes)
    → Opens s
    → array_body loop (skip_ws (s ++ rest))
      ≡ (loop (s ++ rest) >>= λ (xs, after). parsed (array xs, after))
unfolding array_body skip_ws
array_body-Opens loop s rest (opens e sp cl) = rw (e, sp, cl)

pub key_read :
    (k rest : Bytes) → NoNul k → parse_key (json_string k ++ b':' ∷ rest) ≡ parsed (k, rest)
unfolding parse_key expect json_string skip_ws is_space
key_read k rest n = rw (append_assoc, string_body-escape k (b':' ∷ rest) n, parse_key)

pub parse_string-json_string :
    (t rest : Bytes) → NoNul t → parse_string (escape t ++ b'"' ∷ rest) ≡ parsed (string t, rest)
unfolding parse_string
parse_string-json_string t rest n = rw (string_body-escape t rest n)

-- Where the fuel exceeds a bound, one unit can be paid, and what is left is no less than the bound.
pub pay {ℓ} :
    {bound : ℕ} (Goal : ℕ → Type ℓ)
    → ((left : ℕ) → bound ≤ left → Goal (suc left))
    → (fuel : ℕ) → bound < fuel
    → Goal fuel
pay Goal step zero enough = absurd (omega arith)
pay Goal step (suc left) enough = step left (omega arith)
