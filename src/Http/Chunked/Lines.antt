-- ===== src/Http/Chunked/Lines.antt =====
-- What `decode_chunked` reads of a line and of what follows a chunk.
use frostlake_pdo.Http.Chunked.{after_crlf, skip_crlf}
use frostlake_pdo.Libc.{hex_magnitude, long_max, saturate, skip_spaces, strtol_hex}
use frostlake_pdo.Libc.Digits.{InLong}
use frostlake_pdo.Prelude.{
  Bool, Bool-cases, Bytes, Option, [], arith, false, if◌then◌else◌, inl, inr, ltb, none, pos, refl,
  some, subst, sym, true, ℕ, ℤ, ◌&&◌, ◌==◌, ◌∷◌, ◌≡◌,
}
use frostlake_pdo.Wire.Execute.Within.{branch}

abbrev pub StartsCrlf : Bytes → Type 0
StartsCrlf (c ∷ d ∷ _) = (c ≡ 13) × (d ≡ 10)
StartsCrlf _ = ⊥

-- What stands behind the first "\r\n", if there is one.
pub data FirstLineEnd : Bytes → Option Bytes → Type 0 where
  no_more_bytes : FirstLineEnd [] none
  line_ends : {s : Bytes} → FirstLineEnd (13 ∷ 10 ∷ s) (some s)
  line_goes_on :
      {c : ℕ} {s : Bytes} {behind : Option Bytes}
      → ¬ (StartsCrlf (c ∷ s))
      → FirstLineEnd s behind
      → FirstLineEnd (c ∷ s) behind

-- What stands behind a "\r\n", or else all of it.
pub data PastCrlf : Bytes → Bytes → Type 0 where
  past_crlf : {s : Bytes} → PastCrlf (13 ∷ 10 ∷ s) s
  no_crlf : {s : Bytes} → ¬ (StartsCrlf s) → PastCrlf s s

is_crlf-ends :
    (c d : ℕ) (s : Bytes) → (c == 13 && d == 10) ≡ true → FirstLineEnd (c ∷ d ∷ s) (some s)
is_crlf-ends c d s e =
    let c_is : c ≡ 13 = ground arith in
    let d_is : d ≡ 10 = ground arith in rw (c_is, d_is) line_ends

is_crlf-past : (c d : ℕ) (s : Bytes) → (c == 13 && d == 10) ≡ true → PastCrlf (c ∷ d ∷ s) s
is_crlf-past c d s e =
    let c_is : c ≡ 13 = ground arith in
    let d_is : d ≡ 10 = ground arith in rw (c_is, d_is) past_crlf

not_crlf : (c d : ℕ) (s : Bytes) → (c == 13 && d == 10) ≡ false → ¬ (StartsCrlf (c ∷ d ∷ s))
not_crlf c d s e (c_is, d_is) = ground arith

pub after_crlf-FirstLineEnd : (s : Bytes) → FirstLineEnd s (after_crlf s)
unfolding after_crlf
after_crlf-FirstLineEnd [] = no_more_bytes
after_crlf-FirstLineEnd (c ∷ []) = line_goes_on (λ h. h) no_more_bytes
after_crlf-FirstLineEnd (c ∷ d ∷ s) = elim (Bool-cases (c == 13 && d == 10)) [
  | inl e ↦ rw e (is_crlf-ends c d s e)
  | inr e ↦ rw e (line_goes_on (not_crlf c d s e) (after_crlf-FirstLineEnd (d ∷ s)))
]

pub skip_crlf-PastCrlf : (s : Bytes) → PastCrlf s (skip_crlf s)
skip_crlf-PastCrlf [] = no_crlf (λ h. h)
skip_crlf-PastCrlf (c ∷ []) = no_crlf (λ h. h)
skip_crlf-PastCrlf (c ∷ d ∷ s) = elim (Bool-cases (c == 13 && d == 10)) [
  | inl e ↦ rw e (is_crlf-past c d s e)
  | inr e ↦ rw e (no_crlf (not_crlf c d s e))
]

saturate-InLong : (negative : Bool) (n : ℕ) → InLong (saturate negative n)
saturate-InLong true n = elim (Bool-cases (ltb long_max n)) [
  | inl e ↦ ground arith
  | inr e ↦ ground arith
]
saturate-InLong false n = elim (Bool-cases (ltb long_max n)) [
  | inl e ↦ ground arith
  | inr e ↦ ground arith
]

-- The number that `c`, a sign or a digit, starts in front of `t`.
abbrev signed_hex : ℕ → Bytes → ℤ
signed_hex c t =
    if c == b'-'
    then saturate true (hex_magnitude t)
    else if c == b'+'
    then saturate false (hex_magnitude t)
    else saturate false (hex_magnitude (c ∷ t))

strtol_hex-nil : (s : Bytes) → skip_spaces s ≡ [] → strtol_hex s ≡ pos 0
unfolding strtol_hex
strtol_hex-nil s e = rw (strtol_hex, e) refl

strtol_hex-cons :
    (s : Bytes) (c : ℕ) (t : Bytes) → skip_spaces s ≡ c ∷ t → strtol_hex s ≡ signed_hex c t
unfolding strtol_hex
strtol_hex-cons s c t e = rw (strtol_hex, e) refl

signed_hex-InLong : (c : ℕ) (t : Bytes) → InLong (signed_hex c t)
signed_hex-InLong c t = branch InLong (c == b'-') (saturate-InLong true (hex_magnitude t)) (
    branch InLong (c == b'+') (saturate-InLong false (hex_magnitude t))
      (saturate-InLong false (hex_magnitude (c ∷ t))))

skipped-InLong : (s t : Bytes) → skip_spaces s ≡ t → InLong (strtol_hex s)
skipped-InLong s [] e = subst InLong (sym (strtol_hex-nil s e)) (omega arith)
skipped-InLong s (c ∷ t) e = subst InLong (sym (strtol_hex-cons s c t e)) (signed_hex-InLong c t)

pub strtol_hex-InLong : (s : Bytes) → InLong (strtol_hex s)
strtol_hex-InLong s = skipped-InLong s (skip_spaces s) refl
