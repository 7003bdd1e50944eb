-- ===== src/Json/Memory/Scalars.antt =====
-- Texts, keys and scalar nodes with their memory.
-- The block of a text, and what the plain reader returns.

use frostlake_pdo.Json.Memory.{Memory, Node, Run, node_blocks, node_tree, on_run, one_at, scalar}
use frostlake_pdo.Json.Memory.Buffers.{Appended, append_bytes-Appended, has_grown, not_grown}
use frostlake_pdo.Json.Memory.Free.{Owns, Owns-same, plus, release-Gives}
use frostlake_pdo.Json.Memory.Holds.{
  Allocated, Reads, accounted, allocate-Allocated, given_up, nothing_freed, obtained, on_run-Reads,
  ran_out, unobtained,
}
use frostlake_pdo.Json.Memory.Nested.{key_colon, key_text, read_key}
use frostlake_pdo.Json.Memory.Reader.{
  Growing, allocated, buffer_loop, hand_over, hand_over_owned, new_scalar, node_size,
  read_string_body, read_string_node, scalar_size, string_node, texted, unallocated, with_text,
  without_text,
}
use frostlake_pdo.Json.Memory.Strings.{behind, buffer_held, buffer_loop-Reads, buffer_seen}
use frostlake_pdo.Json.Reader.{expect, parse_key, parse_string, skip_ws}
use frostlake_pdo.Json.Text.{c_string, string_body, string_loop}
use frostlake_pdo.Json.Value.{Json, string}
use frostlake_pdo.Prelude.{
  Bool, Bytes, Option, Parsed, [], arith, false, inl, inr, length, none, out_of_fuel, parsed, refl,
  refused, some, subst, true, ℕ, ◌<◌, ◌>>=◌, ◌^◌, ◌∙◌, ◌≡◌,
}

abbrev pub text_held : ℕ × (Bytes × Bytes) → ℕ → ℕ
text_held (a, x) = one_at a

abbrev pub text_seen : ℕ × (Bytes × Bytes) → Bytes × Bytes
text_seen (a, x) = x

abbrev pub node_held : Node × Bytes → ℕ → ℕ
node_held (t, rest) = node_blocks t

abbrev pub node_seen : Node × Bytes → Json × Bytes
node_seen (t, rest) = (node_tree t, rest)

behind-nothing : (r : Parsed (Bytes × Bytes)) → (r >>= behind []) ≡ r
behind-nothing (parsed (u, rest)) = refl
behind-nothing refused = refl
behind-nothing out_of_fuel = refl

-- The plain reader of a node, before what its caller does with it.
pub bind-parsed : {A : Type 0} (r : Parsed A) → (r >>= λ x. parsed x) ≡ r
bind-parsed (parsed x) = refl
bind-parsed refused = refl
bind-parsed out_of_fuel = refl

-- A scalar's blocks, counted as the code takes them.
scalar_Owns :
    (L : ℕ → ℕ) {m : Memory} (self a : ℕ) (v : Json)
    → Owns (plus (one_at a) (plus (one_at self) L)) m
    → Owns (plus (node_blocks (scalar self (some a) v)) L) m
unfolding node_blocks
scalar_Owns L self a v h = Owns-same h λ n. omega arith

bare_Owns :
    (L : ℕ → ℕ) {m : Memory} (self : ℕ) (v : Json)
    → Owns (plus (one_at self) L) m
    → Owns (plus (node_blocks (scalar self none v)) L) m
unfolding node_blocks
bare_Owns L self v h = Owns-same h λ n. omega arith

module _ (grants : ℕ → ℕ → Bool) (bounded : (k n : ℕ) → 2 ^ 62 < n → grants k n ≡ false) where
  handed_over :
      {L : ℕ → ℕ} (rest : Bytes) {r : Run Growing}
      → Appended L unallocated [] r
      → Reads L text_held text_seen
          (parsed ([], rest))
          (on_run (hand_over grants rest) (λ m'. m') r)
  handed_over rest (has_grown {b' = unallocated} h e placed) = absurd placed
  handed_over rest (has_grown {b' = allocated a capacity s} h e placed) = accounted h (rw e refl)
  handed_over rest (not_grown h d) = given_up (Owns-same h λ n. omega arith) (inr d)

  hand_over_owned-Reads :
      {L : ℕ → ℕ} (x : Growing × Bytes) (m : Memory)
      → Owns (plus (buffer_held x) L) m
      → Reads L text_held text_seen
          (parsed (c_string (buffer_seen x).0, (buffer_seen x).1))
          (hand_over_owned grants x m)
  hand_over_owned-Reads (unallocated, rest) m h =
      handed_over rest (append_bytes-Appended grants bounded [] unallocated (omega arith) tt h)
  hand_over_owned-Reads (allocated a capacity s, rest) m h = accounted h refl

  pub read_string_body-Reads :
      {L : ℕ → ℕ} (s : Bytes) (m : Memory)
      → Owns L m
      → Reads L text_held text_seen (string_body s) (read_string_body grants s m)
  unfolding string_body read_string_body
  read_string_body-Reads {L} s m h =
      on_run-Reads _
        (subst
          (λ q. Reads L buffer_held buffer_seen q (buffer_loop grants (length s) unallocated s m))
          (behind-nothing (string_loop (length s) s))
          (buffer_loop-Reads grants bounded (length s) s unallocated m tt
            (Owns-same h λ n. omega arith)))
        hand_over_owned-Reads nothing_freed

  string_node-Reads :
      {L : ℕ → ℕ} (a : ℕ) (text rest : Bytes) {r : Option ℕ × Memory}
      → Allocated grants node_size (plus (one_at a) L) (plus (one_at a) L) r
      → Reads L node_held node_seen (parsed (string text, rest)) (string_node grants a text rest r)
  unfolding node_tree
  string_node-Reads {L} a text rest (obtained {a = self} k h granted) =
      accounted (scalar_Owns L self a (string text) (Owns-same h λ n. omega arith)) refl
  string_node-Reads {L} a text rest (unobtained h d) =
      let g = release-Gives a {L = L} h in given_up g.owned (inr (g.same_denied ∙ d))

  pub read_string_node-Reads :
      {L : ℕ → ℕ} (s : Bytes) (m : Memory)
      → Owns L m
      → Reads L node_held node_seen (parse_string s) (read_string_node grants s m)
  unfolding parse_string read_string_node
  read_string_node-Reads s m h =
      on_run-Reads _ (read_string_body-Reads s m h)
        (λ (a, (text, rest)) m' h'.
          string_node-Reads a text rest (allocate-Allocated grants node_size h'))
        nothing_freed

  with_text-Reads :
      {L : ℕ → ℕ} (size self : ℕ) (v : Json) (rest : Bytes) {r : Option ℕ × Memory}
      → Allocated grants size (plus (one_at self) L) (plus (one_at self) L) r
      → Reads L node_held node_seen (parsed (v, rest)) (with_text grants self v rest r)
  unfolding node_tree
  with_text-Reads {L} size self v rest (obtained {a} k h granted) =
      accounted (scalar_Owns L self a v h) refl
  with_text-Reads {L} size self v rest (unobtained h d) =
      let g = release-Gives self {L = L} h in given_up g.owned (inr (g.same_denied ∙ d))

  texted-Reads :
      {L : ℕ → ℕ} (v : Json) (rest : Bytes) {r : Option ℕ × Memory}
      → Allocated grants node_size L L r
      → Reads L node_held node_seen (parsed (v, rest)) (texted grants v rest r)
  texted-Reads v rest (obtained {a = self} k h granted) =
      with_text-Reads (scalar_size v) self v rest (allocate-Allocated grants (scalar_size v) h)
  texted-Reads v rest (unobtained h d) = given_up h (inr d)

  without_text-Reads :
      {L : ℕ → ℕ} (v : Json) (rest : Bytes) {r : Option ℕ × Memory}
      → Allocated grants node_size L L r
      → Reads L node_held node_seen (parsed (v, rest)) (without_text grants v rest r)
  unfolding node_tree
  without_text-Reads {L} v rest (obtained {a = self} k h granted) =
      accounted (bare_Owns L self v h) refl
  without_text-Reads v rest (unobtained h d) = given_up h (inr d)

  pub new_scalar-Reads :
      {L : ℕ → ℕ} (has_text : Bool) (r : Parsed (Json × Bytes)) {m : Memory}
      → Owns L m
      → Reads L node_held node_seen r (new_scalar grants has_text r m)
  unfolding new_scalar
  new_scalar-Reads true (parsed (v, rest)) h =
      texted-Reads v rest (allocate-Allocated grants node_size h)
  new_scalar-Reads false (parsed (v, rest)) h =
      without_text-Reads v rest (allocate-Allocated grants node_size h)
  new_scalar-Reads true refused h = given_up h (inl refl)
  new_scalar-Reads false refused h = given_up h (inl refl)
  new_scalar-Reads true out_of_fuel h = ran_out refl
  new_scalar-Reads false out_of_fuel h = ran_out refl

  key_colon-Reads :
      {L : ℕ → ℕ} (a : ℕ) (key : Bytes) (m : Memory) (r : Parsed Bytes)
      → Owns (plus (one_at a) L) m
      → Reads L text_held text_seen (r >>= λ body. parsed (key, body)) (key_colon grants a key m r)
  key_colon-Reads a key m (parsed body) h = accounted h refl
  key_colon-Reads {L} a key m refused h = given_up (release-Gives a {L = L} h).owned (inl refl)
  key_colon-Reads a key m out_of_fuel h = ran_out refl

  key_text-Reads :
      {L : ℕ → ℕ} (m : Memory) (r : Parsed Bytes)
      → Owns L m
      → Reads L text_held text_seen
          (r >>= λ body. string_body body >>= λ (key, rest).
            expect b':' (skip_ws rest) >>= λ after. parsed (key, after))
          (key_text grants m r)
  key_text-Reads m (parsed body) h =
      on_run-Reads _ (read_string_body-Reads body m h)
        (λ (a, (key, rest)) m' h'. key_colon-Reads a key m' (expect b':' (skip_ws rest)) h')
        nothing_freed
  key_text-Reads m refused h = given_up h (inl refl)
  key_text-Reads m out_of_fuel h = ran_out refl

  pub read_key-Reads :
      {L : ℕ → ℕ} (s : Bytes) (m : Memory)
      → Owns L m
      → Reads L text_held text_seen (parse_key s) (read_key grants s m)
  unfolding parse_key read_key
  read_key-Reads s m h = key_text-Reads m (expect b'"' (skip_ws s)) h
