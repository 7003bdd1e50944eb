-- ===== src/Http/Chunked/Bounds.antt =====
-- The loop of `decode_chunked` ends, and what it decodes is no longer than the body.
use frostlake_pdo.Http.Chunked.{
  Decoded, after_crlf, chunk_loop, decode_chunked, decoded, malformed, on_line, overrun,
  size_of_long, skip_crlf, step_chunk,
}
use frostlake_pdo.Libc.{strtol_hex}
use frostlake_pdo.Prelude.{
  Bytes, Option, [], arith, drop, length, lengths, ltb, negsuc, none, pos, refl, some, suc, take,
  zero, ℕ, ℤ, ◌%◌, ◌&&◌, ◌++◌, ◌+◌, ◌-◌, ◌==◌, ◌^◌, ◌∷◌, ◌≡◌, ◌≤◌,
}
use frostlake_pdo.Wire.Execute.Within.{branch}

pub data Bounded (n : ℕ) : Decoded → Type 0 where
  bounded : {out : Bytes} → length out ≤ n → Bounded n (decoded out)
  bounded_malformed : Bounded n malformed
  bounded_overrun : Bounded n overrun

length-take : (n : ℕ) (s : Bytes) → n ≤ length s → length (take n s) ≡ n
length-take zero s h = refl
length-take (suc n) [] h = absurd (omega arith)
length-take (suc n) (c ∷ s) h = omega (arith, length-take n s (omega arith))

pub length-drop : (n : ℕ) (s : Bytes) → length (drop n s) ≡ length s - n
length-drop zero s = omega arith
length-drop (suc n) [] = omega arith
length-drop (suc n) (c ∷ s) = omega (arith, length-drop n s)

length-take_le : (n : ℕ) (s : Bytes) → length (take n s) + length (drop n s) ≤ length s
length-take_le zero s = omega arith
length-take_le (suc n) [] = omega arith
length-take_le (suc n) (c ∷ s) = omega (arith, length-take_le n s)

pub after_crlf-shorter :
    (s behind : Bytes) → after_crlf s ≡ some behind → length behind + 2 ≤ length s
unfolding after_crlf
after_crlf-shorter [] behind e = cc
after_crlf-shorter (c ∷ []) behind e = cc
after_crlf-shorter (c ∷ d ∷ s) behind e = ground (arith, after_crlf-shorter (d ∷ s) behind)

pub skip_crlf-shorter : (s : Bytes) → length (skip_crlf s) ≤ length s
skip_crlf-shorter [] = omega arith
skip_crlf-shorter (c ∷ []) = omega arith
skip_crlf-shorter (c ∷ d ∷ s) =
    branch (λ (t : Bytes). length t ≤ suc (suc (length s))) (c == 13 && d == 10) (omega arith)
      (omega arith)

step_chunk-Bounded :
    (n : ℕ) (z : ℤ) (read_pos : ℕ) (rest : Bytes) (again : Bytes → Bytes → Decoded)
    (stop : Unit {0} → Decoded)
    → ((data_bytes rest' : Bytes)
        → length data_bytes + length rest' ≤ length rest
        → Bounded n (again data_bytes rest'))
    → Bounded n (stop tt)
    → Bounded n (step_chunk z read_pos rest again stop)
unfolding step_chunk
step_chunk-Bounded n (pos zero) read_pos rest again stop h hs = hs
step_chunk-Bounded n (pos (suc k)) read_pos rest again stop h hs =
    branch (Bounded n) (ltb (read_pos + length rest) ((read_pos + suc k) % 2 ^ 64))
      bounded_malformed
      (h _ _ (omega (arith, length-take_le (suc k) rest, skip_crlf-shorter (drop (suc k) rest))))
step_chunk-Bounded n (negsuc k) read_pos rest again stop h hs =
    branch (Bounded n)
      (ltb (read_pos + length rest) ((read_pos + size_of_long (negsuc k)) % 2 ^ 64))
      bounded_malformed bounded_overrun

on_line-Bounded :
    (n : ℕ) (line : Option Bytes) (next : Bytes → Decoded)
    → ((behind : Bytes) → line ≡ some behind → Bounded n (next behind))
    → Bounded n (on_line line next)
on_line-Bounded n none next h = bounded_malformed
on_line-Bounded n (some behind) next h = h behind refl

chunk_loop-Bounded :
    (fuel n body_length : ℕ) (rest out : Bytes)
    → length rest ≤ fuel
    → length out + length rest ≤ n
    → Bounded n (chunk_loop fuel body_length rest out)
unfolding chunk_loop
chunk_loop-Bounded fuel n body_length [] out h hn = bounded (omega arith)
chunk_loop-Bounded zero n body_length (c ∷ rest) out h hn = absurd (omega arith)
chunk_loop-Bounded (suc fuel) n body_length (c ∷ rest) out h hn =
    on_line-Bounded n (after_crlf (c ∷ rest)) _ λ behind e.
      let shorter = after_crlf-shorter (c ∷ rest) behind e in
      step_chunk-Bounded n (strtol_hex (c ∷ rest)) _ behind _ _
        (λ data_bytes rest' le.
          chunk_loop-Bounded fuel n body_length rest' (out ++ data_bytes)
            (omega (arith, le, shorter)) (omega (lengths, le, shorter)))
        (bounded (omega arith))

-- Whatever the server sends, the loop of `decode_chunked` ends, and a body that it decodes is no
-- longer than the chunked one.
pub decode_chunked-Bounded : (body : Bytes) → Bounded (length body) (decode_chunked body)
unfolding decode_chunked
decode_chunked-Bounded body =
    chunk_loop-Bounded (length body) (length body) (length body) body [] (omega arith) (omega arith)
