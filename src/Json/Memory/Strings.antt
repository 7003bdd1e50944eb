-- ===== src/Json/Memory/Strings.antt =====
-- The loop of `parse_string_body` with its memory, and `parse_string`.
-- The bytes that are there, before what a call reads.

use frostlake_pdo.Json.Memory.{Memory, Run, any_at, on_run, release_any}
use frostlake_pdo.Json.Memory.Buffers.{
  Appended, HeldBuffer, Placed-Room, Room, append_bytes-Appended, has_grown, not_grown,
}
use frostlake_pdo.Json.Memory.Free.{release_any-Gives}
use frostlake_pdo.Json.Memory.Holds.{Reads, accounted, given_up, ran_out}
use frostlake_pdo.Json.Memory.Reader.{
  Growing, append_escape, append_then, buffer_loop, growing_block, growing_bytes,
}
use frostlake_pdo.Json.Reader.Strings.{Escaped, escape_sequence-Ensures}
use frostlake_pdo.Json.Text.{escape_sequence, string_loop}
use frostlake_pdo.Prelude.{
  Bool, Bool-cases, Bytes, Ensures, Ensures-parsed, Parsed, [], append-nil, append_assoc, arith,
  false, inl, inr, out_of_fuel, parsed, refl, refused, subst, suc, sym, zero, ℕ, ◌++◌, ◌<◌, ◌==◌,
  ◌>>=◌, ◌^◌, ◌∙◌, ◌∷◌, ◌≡◌,
}

abbrev pub behind : Bytes → Bytes × Bytes → Parsed (Bytes × Bytes)
behind t (u, rest) = parsed (t ++ u, rest)

behind-behind :
    (t u : Bytes) (r : Parsed (Bytes × Bytes))
    → ((r >>= λ (v, rest). parsed (u ++ v, rest)) >>= behind t) ≡ (r >>= behind (t ++ u))
behind-behind t u (parsed (v, rest)) = rw append_assoc refl
behind-behind t u refused = refl
behind-behind t u out_of_fuel = refl

-- A round: the buffer with the bytes of it, and the input behind them.
abbrev pub buffer_held : Growing × Bytes → ℕ → ℕ
buffer_held (b, rest) = any_at (growing_block b)

abbrev pub buffer_seen : Growing × Bytes → Bytes × Bytes
buffer_seen (b, rest) = (growing_bytes b, rest)

module _ (grants : ℕ → ℕ → Bool) (bounded : (k n : ℕ) → 2 ^ 62 < n → grants k n ≡ false) where
  -- Whatever the loop does behind a round, it does behind the appending of the round.
  append_then-Reads :
      {L : ℕ → ℕ} (fuel : ℕ) (b : Growing) (added rest : Bytes) {r : Run Growing}
      → ((b' : Growing) (m' : Memory)
          → Room b'
          → HeldBuffer L b' m'
          → Reads L buffer_held buffer_seen
              (string_loop fuel rest >>= behind (growing_bytes b'))
              (buffer_loop grants fuel b' rest m'))
      → Appended L b added r
      → Reads L buffer_held buffer_seen
          (string_loop fuel rest >>= behind (growing_bytes b ++ added))
          (on_run
            (λ (b', rest') m'. buffer_loop grants fuel b' rest' m')
            (λ m'. m')
            (on_run (λ b' m'. (parsed (b', rest), m')) (release_any (growing_block b)) r))
  append_then-Reads {L} fuel b added rest ih (has_grown {b'} {m} h e room) =
      subst
        (λ t.
          Reads L buffer_held buffer_seen (string_loop fuel rest >>= behind t)
            (buffer_loop grants fuel b' rest m))
        e (ih b' m (Placed-Room b' room) h)
  append_then-Reads {L} fuel b added rest ih (not_grown {m} h d) =
      let g = release_any-Gives (growing_block b) {L = L} h in
      given_up g.owned (inr (g.same_denied ∙ d))

  -- The text that an escape refuses is refused.
  refused_escape :
      {L : ℕ → ℕ} {q : Parsed (Bytes × Bytes)} (b : Growing) {m : Memory}
      → HeldBuffer L b m
      → q ≡ refused
      → Reads L buffer_held buffer_seen q (refused, release_any (growing_block b) m)
  refused_escape {L} b h e = given_up (release_any-Gives (growing_block b) {L = L} h).owned (inl e)

  escape-Reads :
      {L : ℕ → ℕ} (fuel : ℕ) (b : Growing) (s : Bytes) (r : Parsed (Bytes × Bytes)) {m : Memory}
      → ((rest : Bytes) (b' : Growing) (m' : Memory)
          → Room b'
          → HeldBuffer L b' m'
          → Reads L buffer_held buffer_seen
              (string_loop fuel rest >>= behind (growing_bytes b'))
              (buffer_loop grants fuel b' rest m'))
      → Room b
      → HeldBuffer L b m
      → Ensures (Escaped s) r
      → Reads L buffer_held buffer_seen
          ((r >>= λ (out, rest).
              string_loop fuel rest >>= λ (text, after). parsed (out ++ text, after))
            >>= behind (growing_bytes b))
          (on_run
            (λ (b', rest') m'. buffer_loop grants fuel b' rest' m')
            (λ m'. m')
            (append_escape grants b m r))
  escape-Reads {L} fuel b s (parsed (out, rest)) {m} ih room h k =
      let (few, shorter) = Ensures-parsed k refl in
      subst
        (λ q. Reads L buffer_held buffer_seen q (
          on_run (λ (b', rest') m'. buffer_loop grants fuel b' rest' m') (λ m'. m')
            (append_then grants b m (out, rest))))
        (sym (behind-behind (growing_bytes b) out (string_loop fuel rest)))
        (append_then-Reads fuel b out rest (ih rest)
          (append_bytes-Appended grants bounded out b few room h))
  escape-Reads fuel b s refused ih room h k = refused_escape b h refl
  escape-Reads fuel b s out_of_fuel ih room h k = ran_out refl

  pub buffer_loop-Reads :
      {L : ℕ → ℕ} (fuel : ℕ) (s : Bytes) (b : Growing) (m : Memory)
      → Room b
      → HeldBuffer L b m
      → Reads L buffer_held buffer_seen
          (string_loop fuel s >>= behind (growing_bytes b))
          (buffer_loop grants fuel b s m)
  unfolding buffer_loop string_loop
  buffer_loop-Reads zero [] b m room h = refused_escape b h refl
  buffer_loop-Reads (suc fuel) [] b m room h = refused_escape b h refl
  buffer_loop-Reads zero (c ∷ s) b m room h = ran_out refl
  buffer_loop-Reads {L} (suc fuel) (c ∷ s) b m room h = elim (Bool-cases (c == b'"')) [
    | inl quote ↦ rw quote (accounted h (rw append-nil refl))
    | inr more ↦ rw more (elim (Bool-cases (c == b'\\')) [
      | inl slash ↦ rw slash (
          escape-Reads fuel b s (escape_sequence s)
            (λ rest b' m' r' h'. buffer_loop-Reads fuel rest b' m' r' h') room h
            (escape_sequence-Ensures s))
      | inr ordinary ↦ rw ordinary (
          subst
            (λ q. Reads L buffer_held buffer_seen q (
              on_run (λ (b', rest') m'. buffer_loop grants fuel b' rest' m') (λ m'. m')
                (append_then grants b m (c ∷ [], s))))
            (sym (behind-behind (growing_bytes b) (c ∷ []) (string_loop fuel s)))
            (append_then-Reads fuel b (c ∷ []) s
              (λ b' m' r' h'. buffer_loop-Reads fuel s b' m' r' h')
              (append_bytes-Appended grants bounded (c ∷ []) b (omega arith) room h)))
    ])
  ]
