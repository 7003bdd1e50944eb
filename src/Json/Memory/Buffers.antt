-- ===== src/Json/Memory/Buffers.antt =====
-- `parse_string_body` with its memory: the buffer stays accounted for while it grows, and is freed
-- where the text is refused.
-- The bytes of a buffer and their NUL fit in its block.

use frostlake_pdo.Json.Buffer.{
  Grown, doubled_times-le, first_capacity, first_capacity-le, grow, grow-Grown,
}
use frostlake_pdo.Json.Memory.{Memory, Run, any_at}
use frostlake_pdo.Json.Memory.Free.{Owns, plus}
use frostlake_pdo.Json.Memory.Holds.{Allocated, obtained, reallocate-Allocated, unobtained}
use frostlake_pdo.Json.Memory.Reader.{
  Growing, allocated, append_bytes, at_place, growing_block, growing_bytes, growing_capacity,
  grown_for, resized, unallocated,
}
use frostlake_pdo.Prelude.{
  Bool, Bool-cases, Bytes, Option, arith, dec_lt, false, false≢true, inl, inr, leb, length,
  length-append_bytes, none, parsed, refl, refused, some, subst, sym, true, ℕ, ◌%◌, ◌++◌, ◌+◌, ◌<◌,
  ◌^◌, ◌∙◌, ◌≡◌, ◌≤◌,
}

abbrev pub Room : Growing → Type 0
Room unallocated = Unit
Room (allocated a capacity s) = (length s < capacity) × (capacity ≤ 2 ^ 62)

-- As much of a buffer that is no longer NULL.
abbrev pub Placed : Growing → Type 0
Placed unallocated = ⊥
Placed (allocated a capacity s) = Room (allocated a capacity s)

pub Placed-Room : (b : Growing) → Placed b → Room b
Placed-Room unallocated h = absurd h
Placed-Room (allocated a capacity s) h = h

abbrev pub HeldBuffer : (ℕ → ℕ) → Growing → Memory → Type 0
HeldBuffer L b m = Owns (plus (any_at (growing_block b)) L) m

-- The buffer with bytes added behind its own; or as it was, where a request was refused.
pub data Appended (L : ℕ → ℕ) (b : Growing) (added : Bytes) : Run Growing → Type 0 where
  has_grown :
      {b' : Growing} {m : Memory}
      → HeldBuffer L b' m
      → growing_bytes b' ≡ growing_bytes b ++ added
      → Placed b'
      → Appended L b added (parsed b', m)
  not_grown : {m : Memory} → HeldBuffer L b m → m.denied ≡ true → Appended L b added (refused, m)

small_bytes : (b : Growing) → Room b → length (growing_bytes b) < 2 ^ 62
small_bytes unallocated h = omega arith
small_bytes (allocated a capacity s) h = omega (arith, h.0, h.1)

module _ (grants : ℕ → ℕ → Bool) (bounded : (k n : ℕ) → 2 ^ 62 < n → grants k n ≡ false) where
  granted_small : (k n : ℕ) → grants k n ≡ true → n ≤ 2 ^ 62
  granted_small k n h = elim (dec_lt (2 ^ 62) n) [
    | yes big ↦ absurd (false≢true (sym (bounded k n big) ∙ h))
    | no small ↦ omega arith
  ]

  at_place-Appended :
      {L : ℕ → ℕ} {b : Growing} {added : Bytes} {wanted : ℕ} {r : Option ℕ × Memory}
      → length (growing_bytes b ++ added) < wanted
      → Allocated grants wanted L (plus (any_at (growing_block b)) L) r
      → Appended L b added (at_place grants b added wanted r)
  at_place-Appended {wanted} fits (obtained k h granted) =
      has_grown h refl (fits, granted_small k wanted granted)
  at_place-Appended fits (unobtained h d) = not_grown h d

  resized-Appended :
      {L : ℕ → ℕ} (b : Growing) (added : Bytes) (need : ℕ) (o : Option ℕ) {m : Memory}
      → length (growing_bytes b ++ added) < need
      → Grown need (first_capacity (growing_capacity b)) o
      → HeldBuffer L b m
      → Appended L b added (resized grants b added o m)
  resized-Appended b added need none fits g h = absurd g
  resized-Appended b added need (some wanted) fits g h =
      at_place-Appended (omega (arith, fits, g.0))
        (reallocate-Allocated grants (growing_block b) wanted h)

  grow-needed :
      (capacity need : ℕ)
      → need ≤ 2 ^ 63
      → Grown need (first_capacity capacity) (grow 64 need (first_capacity capacity))
  grow-needed capacity need small = grow-Grown 64 need (first_capacity capacity) small (
      omega (
        arith,
        small,
        doubled_times-le 64 1 (first_capacity capacity) (first_capacity-le capacity).0,
      ))

  full-Appended :
      {L : ℕ → ℕ} (b : Growing) (added : Bytes) (need : ℕ) {m : Memory}
      → need ≡ length (growing_bytes b) + length added + 1
      → need ≤ 2 ^ 63
      → HeldBuffer L b m
      → Appended L b added
          (resized grants b added (grow 64 need (first_capacity (growing_capacity b))) m)
  full-Appended b added need e small h =
      resized-Appended b added need _
        (omega (arith, e, length-append_bytes (growing_bytes b) added))
        (grow-needed (growing_capacity b) need small) h

  grown_for-Appended :
      {L : ℕ → ℕ} (need : ℕ) (added : Bytes) (b : Growing) {m : Memory}
      → need ≡ length (growing_bytes b) + length added + 1
      → need ≤ 2 ^ 63
      → Room b
      → HeldBuffer L b m
      → Appended L b added (grown_for grants need added b m)
  grown_for-Appended need added unallocated e small room h =
      rw never (full-Appended unallocated added need e small h)
    where
      never : leb need 0 ≡ false
      never = ground (arith, e)
  grown_for-Appended need added (allocated a capacity s) e small room h =
      elim (Bool-cases (leb need capacity)) [
        | inl fits ↦
            rw fits
              (has_grown h refl (ground (arith, e, fits, length-append_bytes s added), room.1))
        | inr full ↦ rw full (full-Appended (allocated a capacity s) added need e small h)
      ]

  same_need : (n : ℕ) → n ≤ 2 ^ 63 → n % 2 ^ 64 ≡ n
  same_need n h = ground arith

  needs_little :
      (b : Growing) (added : Bytes)
      → length added ≤ 4
      → Room b
      → length (growing_bytes b) + length added + 1 ≤ 2 ^ 63
  needs_little b added few room = omega (arith, few, small_bytes b room)

  pub append_bytes-Appended :
      {L : ℕ → ℕ} (added : Bytes) (b : Growing) {m : Memory}
      → length added ≤ 4
      → Room b
      → HeldBuffer L b m
      → Appended L b added (append_bytes grants added b m)
  unfolding append_bytes
  append_bytes-Appended {L} added b {m} few room h =
      let small = needs_little b added few room in
      let e = same_need (length (growing_bytes b) + length added + 1) small in
      subst (λ need. Appended L b added (grown_for grants need added b m)) (sym e)
        (grown_for-Appended _ added b refl small room h)
