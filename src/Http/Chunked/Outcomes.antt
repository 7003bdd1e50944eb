-- ===== src/Http/Chunked/Outcomes.antt =====
-- What `decode_chunked` makes of any body, chunk by chunk, in exact arithmetic.
use frostlake_pdo.Http.Chunked.{
  Decoded, after_crlf, chunk_loop, decode_chunked, decode_starved, decoded, malformed, on_line,
  overrun, size_of_long, skip_crlf, step_chunk,
}
use frostlake_pdo.Http.Chunked.Bounds.{after_crlf-shorter, length-drop, skip_crlf-shorter}
use frostlake_pdo.Http.Chunked.Lines.{
  FirstLineEnd, PastCrlf, after_crlf-FirstLineEnd, skip_crlf-PastCrlf, strtol_hex-InLong,
}
use frostlake_pdo.Libc.{strtol_hex}
use frostlake_pdo.Libc.Digits.{InLong}
use frostlake_pdo.Prelude.{
  Bool-cases, Bytes, Option, [], ap, append-nil, append_assoc, arith, drop, inl, inr, length, ltb,
  negsuc, none, pos, refl, some, subst, suc, sym, take, zero, ℕ, ℤ, ◌%◌, ◌++◌, ◌+◌, ◌-◌, ◌<◌, ◌^◌,
  ◌∙◌, ◌∷◌, ◌≡◌, ◌≤◌,
}

-- What stands behind bytes that were decoded: more of them, or a failure.
abbrev pub behind_data : Bytes → Decoded → Decoded
behind_data out (decoded more) = decoded (out ++ more)
behind_data out r = r

-- `ChunkOutcome body_length s r`: what the last bytes `s` of a body decode to. A chunk is copied
-- where all of it is there, and a longer one is refused; a negative size is refused where it reaches
-- in front of the body, and is an overrun elsewhere.
pub data ChunkOutcome (body_length : ℕ) : Bytes → Decoded → Type 0 where
  at_end : ChunkOutcome body_length [] (decoded [])
  no_line_end :
      {c : ℕ} {s : Bytes} → FirstLineEnd (c ∷ s) none → ChunkOutcome body_length (c ∷ s) malformed
  last_chunk :
      {s behind : Bytes}
      → FirstLineEnd s (some behind)
      → strtol_hex s ≡ pos 0
      → ChunkOutcome body_length s (decoded [])
  whole_chunk :
      {s behind left : Bytes} {n : ℕ} {r : Decoded}
      → FirstLineEnd s (some behind)
      → strtol_hex s ≡ pos (suc n)
      → suc n ≤ length behind
      → PastCrlf (drop (suc n) behind) left
      → ChunkOutcome body_length left r
      → ChunkOutcome body_length s (behind_data (take (suc n) behind) r)
  cut_chunk :
      {s behind : Bytes} {n : ℕ}
      → FirstLineEnd s (some behind)
      → strtol_hex s ≡ pos (suc n)
      → length behind < suc n
      → ChunkOutcome body_length s malformed
  far_back :
      {s behind : Bytes} {n : ℕ}
      → FirstLineEnd s (some behind)
      → strtol_hex s ≡ negsuc n
      → body_length - length behind < suc n
      → ChunkOutcome body_length s malformed
  wraps_around :
      {s behind : Bytes} {n : ℕ}
      → FirstLineEnd s (some behind)
      → strtol_hex s ≡ negsuc n
      → suc n ≤ body_length - length behind
      → ChunkOutcome body_length s overrun

-- The outcome of the loop, behind what is decoded.
abbrev Told : ℕ → Bytes → Bytes → Decoded → Type 0
Told body_length s out got =
    (r : Decoded) × ChunkOutcome body_length s r × (got ≡ behind_data out r)

behind_data-nil : (r : Decoded) → behind_data [] r ≡ r
behind_data-nil (decoded more) = refl
behind_data-nil malformed = refl
behind_data-nil overrun = refl
behind_data-nil decode_starved = refl

behind_data-twice :
    (a b : Bytes) (r : Decoded) → behind_data (a ++ b) r ≡ behind_data a (behind_data b r)
behind_data-twice a b (decoded more) = ap decoded (append_assoc a b more)
behind_data-twice a b malformed = refl
behind_data-twice a b overrun = refl
behind_data-twice a b decode_starved = refl

left_over : (n : ℕ) (behind : Bytes) → length (skip_crlf (drop n behind)) ≤ length behind
left_over n behind = omega (arith, skip_crlf-shorter (drop n behind), length-drop n behind)

first_line_end : (s : Bytes) (behind : Option Bytes) → after_crlf s ≡ behind → FirstLineEnd s behind
first_line_end s behind e = subst (FirstLineEnd s) e (after_crlf-FirstLineEnd s)

one_more :
    {body_length n : ℕ} {s : Bytes} {got : Decoded} (behind out : Bytes)
    → FirstLineEnd s (some behind)
    → strtol_hex s ≡ pos (suc n)
    → suc n ≤ length behind
    → Told body_length (skip_crlf (drop (suc n) behind)) (out ++ take (suc n) behind) got
    → Told body_length s out got
one_more {n = n} behind out line e there (r, o, told) = (
  behind_data (take (suc n) behind) r,
  whole_chunk line e there (skip_crlf-PastCrlf (drop (suc n) behind)) o,
  told ∙ behind_data-twice out (take (suc n) behind) r,
)

module _ (body_length : ℕ) (small : body_length < 2 ^ 63) where
  step_chunk-Told :
      (z : ℤ) (s behind out : Bytes) (again : Bytes → Bytes → Decoded)
      → FirstLineEnd s (some behind)
      → length behind ≤ body_length
      → strtol_hex s ≡ z
      → InLong z
      → ((n : ℕ)
          → suc n ≤ length behind
          → Told body_length
              (skip_crlf (drop (suc n) behind))
              (out ++ take (suc n) behind)
              (again (take (suc n) behind) (skip_crlf (drop (suc n) behind))))
      → Told body_length s out
          (step_chunk z (body_length - length behind) behind again (λ _. decoded out))
  unfolding step_chunk
  step_chunk-Told (pos zero) s behind out again line there e in_long go_on =
      (decoded [], last_chunk line e, ap decoded (sym (append-nil out)))
  step_chunk-Told (pos (suc n)) s behind out again line there e in_long go_on =
      elim (Bool-cases (
        ltb (body_length - length behind + length behind)
          ((body_length - length behind + suc n) % 2 ^ 64))) [
            | inl over ↦ rw over (malformed, cut_chunk line e (ground arith), refl)
            | inr fits ↦
                rw fits (one_more behind out line e (ground arith) (go_on n (ground arith)))
          ]
  step_chunk-Told (negsuc n) s behind out again line there e in_long go_on =
      elim (Bool-cases (
        ltb (body_length - length behind + length behind)
          ((body_length - length behind + size_of_long (negsuc n)) % 2 ^ 64))) [
            | inl over ↦ rw over (malformed, far_back line e (ground arith), refl)
            | inr fits ↦ rw fits (overrun, wraps_around line e (ground arith), refl)
          ]

  on_line-Told :
      (c : ℕ) (s out : Bytes) (line : Option Bytes) (go_on : Bytes → Decoded)
      → after_crlf (c ∷ s) ≡ line
      → ((behind : Bytes) → line ≡ some behind → Told body_length (c ∷ s) out (go_on behind))
      → Told body_length (c ∷ s) out (on_line line go_on)
  on_line-Told c s out none go_on e told =
      (malformed, no_line_end (first_line_end (c ∷ s) none e), refl)
  on_line-Told c s out (some behind) go_on e told = told behind refl

  chunk_loop-Told :
      (fuel : ℕ) (rest out : Bytes)
      → length rest ≤ fuel
      → length rest ≤ body_length
      → Told body_length rest out (chunk_loop fuel body_length rest out)
  unfolding chunk_loop
  chunk_loop-Told fuel [] out enough there = (decoded [], at_end, ap decoded (sym (append-nil out)))
  chunk_loop-Told zero (c ∷ rest) out enough there = absurd (omega arith)
  chunk_loop-Told (suc fuel) (c ∷ rest) out enough there =
      on_line-Told c rest out (after_crlf (c ∷ rest)) _ refl λ behind line.
        let shorter = after_crlf-shorter (c ∷ rest) behind line in
        step_chunk-Told (strtol_hex (c ∷ rest)) (c ∷ rest) behind out _
          (first_line_end (c ∷ rest) (some behind) line) (omega (arith, shorter)) refl
          (strtol_hex-InLong (c ∷ rest))
          (λ n le.
            let fewer = left_over (suc n) behind in
            chunk_loop-Told fuel (skip_crlf (drop (suc n) behind)) (out ++ take (suc n) behind)
              (omega (arith, shorter, fewer)) (omega (arith, shorter, fewer)))

-- Whatever the server sends, in a body of less than 2^63 bytes, the loop of `decode_chunked` ends, and
-- its outcome is the one of exact arithmetic on the sizes: the chunks up to the first of size 0 or the
-- end of the body, each copied only where all of it is there; a refusal where a line does not end, a
-- chunk is cut or a negative size reaches in front of the body; and an overrun for any other negative
-- size, which the test on the size lets through, and for nothing else.
pub decode_chunked-ChunkOutcome :
    (body : Bytes) → length body < 2 ^ 63 → ChunkOutcome (length body) body (decode_chunked body)
unfolding decode_chunked
decode_chunked-ChunkOutcome body small =
    let (r, o, told) =
      chunk_loop-Told (length body) small (length body) body [] (omega arith) (omega arith) in
    subst (ChunkOutcome (length body) body) (sym (told ∙ behind_data-nil r)) o
