-- ===== src/Http/Chunked.antt =====
-- `decode_chunked` of http.c.
pub mod Bounds
pub mod Size
pub mod Lines
pub mod Outcomes
pub mod RoundTrip
use frostlake_pdo.Libc.{strtol_hex}
use frostlake_pdo.Prelude.{
  Bytes, Option, [], drop, if◌then◌else◌, length, ltb, negsuc, none, pos, some, suc, take, zero, ℕ,
  ℤ, ◌%◌, ◌&&◌, ◌++◌, ◌+◌, ◌-◌, ◌==◌, ◌^◌, ◌∷◌,
}

-- `overrun` is a memmove past the body, whose outcome C does not define.
pub data Decoded : Type 0 where
  decoded : Bytes → Decoded
  malformed overrun decode_starved : Decoded

-- What stands behind the first "\r\n": `memmem(s, |s|, "\r\n", 2) + 2`.
unfoldable pub after_crlf : Bytes → Option Bytes
after_crlf [] = none
after_crlf (c ∷ []) = none
after_crlf (c ∷ d ∷ s) =
    let later = after_crlf (d ∷ s) in if c == 13 && d == 10 then some s else later

-- The line end behind a chunk, if there is one.
abbrev pub skip_crlf : Bytes → Bytes
skip_crlf (c ∷ d ∷ s) = if c == 13 && d == 10 then s else c ∷ d ∷ s
skip_crlf s = s

-- `(size_t) n` of 64 bits.
abbrev pub size_of_long : ℤ → ℕ
size_of_long (pos n) = n
size_of_long (negsuc n) = 2 ^ 64 - 1 - n

-- The two tests on the chunk's size, where `rest` is what follows its line, and `read_pos` bytes
-- stand before it.
unfoldable pub step_chunk :
    ℤ → ℕ → Bytes → (Bytes → Bytes → Decoded) → (Unit {0} → Decoded) → Decoded
step_chunk (pos zero) read_pos rest again stop = stop tt
step_chunk (pos (suc n)) read_pos rest again stop =
    if ltb (read_pos + length rest) ((read_pos + suc n) % 2 ^ 64)
    then malformed
    else again (take (suc n) rest) (skip_crlf (drop (suc n) rest))
step_chunk (negsuc n) read_pos rest again stop =
    if ltb (read_pos + length rest) ((read_pos + size_of_long (negsuc n)) % 2 ^ 64)
    then malformed
    else overrun

abbrev pub on_line : Option Bytes → (Bytes → Decoded) → Decoded
on_line none next = malformed
on_line (some rest) next = next rest

-- The loop of `decode_chunked`: the body from `read_pos` on, and what is decoded.
unfoldable pub chunk_loop : ℕ → ℕ → Bytes → Bytes → Decoded
unfolding after_crlf strtol_hex step_chunk
chunk_loop fuel body_length [] out = decoded out
chunk_loop zero body_length (c ∷ rest) out = decode_starved
chunk_loop (suc fuel) body_length (c ∷ rest) out = on_line (after_crlf (c ∷ rest)) λ behind.
    step_chunk (strtol_hex (c ∷ rest)) (body_length - length behind) behind
      (λ data_bytes rest'. chunk_loop fuel body_length rest' (out ++ data_bytes)) (λ _. decoded out)

-- `decode_chunked`. Every round takes a line end off, so its fuel is enough.
unfoldable pub decode_chunked : Bytes → Decoded
unfolding chunk_loop
decode_chunked body = chunk_loop (length body) (length body) body []
