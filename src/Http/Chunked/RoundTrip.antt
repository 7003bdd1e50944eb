-- ===== src/Http/Chunked/RoundTrip.antt =====
-- Bodies in the chunked transfer coding, and what `decode_chunked` makes of them.
use frostlake_pdo.Http.Chunked.{Decoded, chunk_loop, decode_chunked, decoded, step_chunk}
use frostlake_pdo.Http.Chunked.Size.{
  IsExtension, IsSize, after_crlf-size_line, extension-HexStop, size_line, strtol_hex-size,
}
use frostlake_pdo.Libc.{hex_number, long_max}
use frostlake_pdo.Prelude.{
  All, Bytes, List, [], ap, append-nil, append_assoc, arith, drop-length, false, length,
  length-append_bytes, lengths, ltb, pos, refl, suc, sym, take-length, zero, ℕ, ◌%◌, ◌++◌, ◌+◌, ◌-◌,
  ◌<◌, ◌^◌, ◌∙◌, ◌∷◌, ◌≡◌, ◌≤◌,
}

-- A chunk as a server writes it.
pub record Chunk : Type 0 where
  pub size : Bytes
  pub extension : Bytes
  pub payload : Bytes

-- The chunks, and behind them the last one, of size 0, and a trailer.
abbrev pub chunked_text : List Chunk → Bytes → Bytes
chunked_text [] ending = ending
chunked_text (ch ∷ chunks) ending =
    size_line ch.size ch.extension (ch.payload ++ (13 ∷ 10 ∷ chunked_text chunks ending))

abbrev pub payloads : List Chunk → Bytes
payloads [] = []
payloads (ch ∷ chunks) = ch.payload ++ payloads chunks

pub record IsChunk (ch : Chunk) : Type 0 where
  pub digits : IsSize ch.size
  pub extended : IsExtension ch.extension
  pub sized : hex_number 0 ch.size ≡ length ch.payload
  pub not_last : 1 ≤ length ch.payload

-- The line of the last chunk, with a trailer behind it.
pub record IsEnding (ending : Bytes) : Type 0 where
  pub zeros : Bytes
  pub ending_extension : Bytes
  pub trailer : Bytes
  pub ending_digits : IsSize zeros
  pub ending_extended : IsExtension ending_extension
  pub zero_size : hex_number 0 zeros ≡ 0
  pub written : ending ≡ size_line zeros ending_extension trailer

fits_size : (a b n : ℕ) → b + n ≤ a → a < 2 ^ 63 → ltb a ((b + n) % 2 ^ 64) ≡ false
fits_size a b n h h' = ground arith

step_chunk-payload :
    (p rest : Bytes) (read_pos : ℕ) (again : Bytes → Bytes → Decoded) (stop : Unit {0} → Decoded)
    → 1 ≤ length p
    → read_pos + length (p ++ (13 ∷ 10 ∷ rest)) < 2 ^ 63
    → step_chunk (pos (length p)) read_pos (p ++ (13 ∷ 10 ∷ rest)) again stop ≡ again p rest
unfolding step_chunk
step_chunk-payload [] rest read_pos again stop h h' = absurd (omega arith)
step_chunk-payload (c ∷ p) rest read_pos again stop h h' =
    rw
      (
        fits_size (read_pos + length ((c ∷ p) ++ (13 ∷ 10 ∷ rest))) read_pos (suc (length p))
            (omega (arith, length-append_bytes p (13 ∷ 10 ∷ rest))) h',
        take-length p (13 ∷ 10 ∷ rest),
        drop-length p (13 ∷ 10 ∷ rest),
      )
      refl

-- The bodies that `decode_chunked` is for.
pub record IsChunked (chunks : List Chunk) (ending : Bytes) : Type 0 where
  pub every : All IsChunk chunks
  pub ended : IsEnding ending
  pub addressable : length (chunked_text chunks ending) < 2 ^ 63

-- A round of the loop at a line whose size is read.
chunk_loop-line :
    (fuel body_length : ℕ) (s extension rest out : Bytes)
    → IsSize s
    → IsExtension extension
    → hex_number 0 s ≤ long_max
    → chunk_loop (suc fuel) body_length (size_line s extension rest) out
      ≡ step_chunk
          (pos (hex_number 0 s))
          (body_length - length rest)
          rest
          (λ data_bytes rest'. chunk_loop fuel body_length rest' (out ++ data_bytes))
          (λ _. decoded out)
unfolding chunk_loop
chunk_loop-line fuel body_length [] extension rest out h he le = absurd h
chunk_loop-line fuel body_length (c ∷ s) extension rest out h he le =
    rw
      (
        after_crlf-size_line (c ∷ s) extension rest h he,
        strtol_hex-size (c ∷ s) (extension ++ (13 ∷ 10 ∷ rest)) h
            (extension-HexStop extension rest he) le,
      )
      refl

length-size_line :
    (s extension rest : Bytes)
    → length (size_line s extension rest) ≡ length s + length extension + 2 + length rest
length-size_line s extension rest = omega (
  lengths,
  length-append_bytes s (extension ++ (13 ∷ 10 ∷ rest)),
  length-append_bytes extension (13 ∷ 10 ∷ rest),
)

last_chunk :
    (n read_pos : ℕ) (rest out : Bytes) (again : Bytes → Bytes → Decoded)
    → n ≡ 0
    → step_chunk (pos n) read_pos rest again (λ _. decoded out) ≡ decoded (out ++ [])
unfolding step_chunk
last_chunk n read_pos rest out again e =
    ap (λ m. step_chunk (pos m) read_pos rest again (λ _. decoded out)) e
    ∙ ap decoded (sym (append-nil out))

chunk_loop-chunks :
    (chunks : List Chunk) (ending : Bytes) (fuel body_length : ℕ) (out : Bytes)
    → All IsChunk chunks
    → IsEnding ending
    → length (chunked_text chunks ending) ≤ fuel
    → length (chunked_text chunks ending) ≤ body_length
    → body_length < 2 ^ 63
    → chunk_loop fuel body_length (chunked_text chunks ending) out
      ≡ decoded (out ++ payloads chunks)
chunk_loop-chunks [] ending zero body_length out h e hf hb small =
    absurd
      (omega (arith, ap length e.written, length-size_line e.zeros e.ending_extension e.trailer))
chunk_loop-chunks [] ending (suc fuel) body_length out h e hf hb small =
    ap (λ t. chunk_loop (suc fuel) body_length t out) e.written
    ∙ chunk_loop-line fuel body_length e.zeros e.ending_extension e.trailer out e.ending_digits
        e.ending_extended (omega (arith, e.zero_size))
    ∙ last_chunk (hex_number 0 e.zeros) _ e.trailer out _ e.zero_size
chunk_loop-chunks (ch ∷ chunks) ending zero body_length out h e hf hb small = absurd (
    omega (
      arith,
      length-size_line ch.size ch.extension (ch.payload ++ (13 ∷ 10 ∷ chunked_text chunks ending)),
    ))
chunk_loop-chunks (ch ∷ chunks) ending (suc fuel) body_length out h e hf hb small =
    let rest = chunked_text chunks ending in
    let behind = ch.payload ++ (13 ∷ 10 ∷ rest) in
    let line = length-size_line ch.size ch.extension behind in
    let whole = length-append_bytes ch.payload (13 ∷ 10 ∷ rest) in
    chunk_loop-line fuel body_length ch.size ch.extension behind out h.0.digits h.0.extended
      (omega (arith, h.0.sized, line, whole))
    ∙ ap
        (λ n.
          step_chunk (pos n) (body_length - length behind) behind
            (λ data_bytes rest'. chunk_loop fuel body_length rest' (out ++ data_bytes))
            (λ _. decoded out))
        h.0.sized
    ∙ step_chunk-payload ch.payload rest (body_length - length behind) _ _ h.0.not_last
        (omega (arith, line, whole))
    ∙ chunk_loop-chunks chunks ending fuel body_length (out ++ ch.payload) h.1 e
        (omega (arith, line, whole)) (omega (arith, line, whole)) small
    ∙ ap decoded (append_assoc out ch.payload (payloads chunks))

-- A body of chunks, each with its size in hexadecimal digits of either case, with leading zeros and
-- with extensions or without, that ends with a chunk of size 0 and any trailer, and that an address
-- space holds, is decoded to the chunks' payloads, one after the other.
pub decode_chunked-chunked_text :
    (chunks : List Chunk) (ending : Bytes)
    → IsChunked chunks ending
    → decode_chunked (chunked_text chunks ending) ≡ decoded (payloads chunks)
unfolding decode_chunked
decode_chunked-chunked_text chunks ending h =
    chunk_loop-chunks chunks ending _ _ [] h.every h.ended (omega arith) (omega arith) h.addressable
