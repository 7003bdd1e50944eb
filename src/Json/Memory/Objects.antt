-- ===== src/Json/Memory/Objects.antt =====
-- The loop of `parse_object` with its memory, around a loop that keeps the accounts.
-- What the loop does with a node that is open.
use frostlake_pdo.Json.Memory.{
  Fields, Memory, Node, Run, any_at, field_members, json_free, no_keys, node_blocks, node_tree,
  object_node, release,
}
use frostlake_pdo.Json.Memory.Free.{Owns, Owns-same, json_free-Gives, next, plus, release-Gives}
use frostlake_pdo.Json.Memory.Holds.{
  Allocated, Reads, Reads-as, Reads-if, accounted, given_up, obtained, reallocate-Allocated,
  unobtained,
}
use frostlake_pdo.Json.Memory.Nested.{
  add_member, behind_member, key_grown, member_added, member_grown, object_opened,
}
use frostlake_pdo.Json.Memory.OpenFields.{
  beside_children, beside_keys, key_parts, key_whole, member_blocks, object_done, object_longer,
  object_of, object_of-member, object_parts, object_whole, one_more,
}
use frostlake_pdo.Json.Memory.Reader.{array_size, field_block, field_count, node_size}
use frostlake_pdo.Json.Memory.Scalars.{node_held, node_seen}
use frostlake_pdo.Json.Reader.{next_member, object_body}
use frostlake_pdo.Json.Value.{Json, Members}
use frostlake_pdo.Prelude.{
  Bool, Bool-cases, Bytes, Option, Parsed, [], arith, inl, inr, none, refl, refused, some, true, ℕ,
  ◌==◌, ◌>>=◌, ◌∙◌, ◌∷◌, ◌≡◌,
}

abbrev pub ObjectLoop :
    (Bytes → Parsed (Members × Bytes))
    → (ℕ → ℕ)
    → ℕ
    → (Option ℕ → Fields → Bytes → Memory → Run (Node × Bytes))
    → Type 0
ObjectLoop plain_loop L self loop =
    (block : Option ℕ) (fs : Fields) (s : Bytes) (m : Memory)
    → Owns (plus (node_blocks (object_node self block fs)) L) m
    → Reads L node_held node_seen (plain_loop s >>= object_of fs) (loop block fs s m)

module _ (grants : ℕ → ℕ → Bool) (plain_loop : Bytes → Parsed (Members × Bytes)) (L : ℕ → ℕ)
    (self : ℕ) {loop : Option ℕ → Fields → Bytes → Memory → Run (Node × Bytes)}
    (ih : ObjectLoop plain_loop L self loop) (a : ℕ) (key : Bytes) (t : Node) where
  behind_member-Reads :
      (block : Option ℕ) (k : ℕ) (fs : Fields) (s : Bytes) (m : Memory)
      → Owns (plus (node_blocks (object_node self block (one_more k fs a key t))) L) m
      → Reads L node_held node_seen
          (next_member plain_loop key (node_tree t) s >>= object_of fs)
          (behind_member grants loop self block (one_more k fs a key t) s m)
  unfolding next_member
  behind_member-Reads block k fs [] m h = given_up (json_free-Gives _ {L = L} h).owned (inl refl)
  behind_member-Reads block k fs (c ∷ s) m h = elim (Bool-cases (c == b',')) [
    | inl comma ↦ rw comma (
        Reads-as (object_of-member k fs a key t (plain_loop s))
          (ih block (one_more k fs a key t) s m h))
    | inr other ↦ rw other (elim (Bool-cases (c == b'}')) [
      | inl close ↦ rw close (accounted h (object_done self block k fs a key t s))
      | inr bad ↦ rw bad (given_up (json_free-Gives _ {L = L} h).owned (inl refl))
    ])
  ]

  -- Without the room for a member, the key, the child and the node are freed.
  no_room :
      {plainly : Parsed (Json × Bytes)} (block : Option ℕ) (fs : Fields) {m : Memory}
      → Owns (member_blocks L self block fs a t) m
      → m.denied ≡ true
      → Reads L node_held node_seen plainly
          (refused, json_free (object_node self block fs) (json_free t (release a m)))
  no_room block fs h d =
      let g =
        next
          (next
            (release-Gives a
              {L = plus (node_blocks t) (plus (node_blocks (object_node self block fs)) L)} h)
            (json_free-Gives t))
          (json_free-Gives (object_node self block fs)) in
      given_up g.owned (inr (g.same_denied ∙ d))

  key_grown-Reads :
      (b : ℕ) (fs : Fields) (size : ℕ) (s : Bytes) {r : Option ℕ × Memory}
      → Allocated grants size
          (beside_keys L self b fs a t)
          (plus (any_at (field_block fs)) (beside_keys L self b fs a t))
          r
      → Reads L node_held node_seen
          (next_member plain_loop key (node_tree t) s >>= object_of fs)
          (member_added grants loop self a t s (key_grown grants (some b) fs a key t r))
  key_grown-Reads b fs size s (obtained {a = k} {m} i h granted) =
      behind_member-Reads (some b) k fs s m (object_longer L self b k fs a key t h)
  key_grown-Reads b fs size s (unobtained h d) = no_room (some b) fs (key_whole L self b fs a t h) d

  member_grown-Reads :
      (block : Option ℕ) (fs : Fields) (size : ℕ) (s : Bytes) {r : Option ℕ × Memory}
      → Allocated grants size
          (beside_children L self fs a t)
          (plus (any_at block) (beside_children L self fs a t))
          r
      → Reads L node_held node_seen
          (next_member plain_loop key (node_tree t) s >>= object_of fs)
          (member_added grants loop self a t s (member_grown grants block fs a key t r))
  member_grown-Reads block fs size s (obtained {a = b} {m} i h granted) =
      key_grown-Reads b fs (array_size (field_count fs)) s (
        reallocate-Allocated grants (field_block fs) (array_size (field_count fs))
          (key_parts L self b fs a t h))
  member_grown-Reads block fs size s (unobtained h d) =
      no_room block fs (object_whole L self block fs a t h) d

  pub add_member-Reads :
      (block : Option ℕ) (fs : Fields) (s : Bytes) (m : Memory)
      → Owns (member_blocks L self block fs a t) m
      → Reads L node_held node_seen
          (next_member plain_loop key (node_tree t) s >>= object_of fs)
          (member_added grants loop self a t s (add_member grants block fs a key t m))
  unfolding add_member
  add_member-Reads block fs s m h = member_grown-Reads block fs (array_size (field_count fs)) s (
      reallocate-Allocated grants block (array_size (field_count fs))
        (object_parts L self block fs a t h))

-- An object behind its node.
pub object_opened-Reads :
    (grants : ℕ → ℕ → Bool) (plain_loop : Bytes → Parsed (Members × Bytes)) (L : ℕ → ℕ)
    {loop : ℕ → Option ℕ → Fields → Bytes → Memory → Run (Node × Bytes)} (s : Bytes)
    {r : Option ℕ × Memory}
    → ((self : ℕ) → ObjectLoop plain_loop L self (loop self))
    → Allocated grants node_size L L r
    → Reads L node_held node_seen (object_body plain_loop s) (object_opened grants loop s r)
unfolding object_body node_blocks field_members node_tree
object_opened-Reads grants plain_loop L s ih (unobtained h d) = given_up h (inr d)
object_opened-Reads grants plain_loop L [] ih (obtained {a} {m} k h granted) =
    ih a none no_keys [] m (Owns-same h λ n. omega arith)
object_opened-Reads grants plain_loop L (c ∷ s) ih (obtained {a} {m} k h granted) =
    Reads-if (c == b'}') (accounted (Owns-same h λ n. omega arith) refl)
      (ih a none no_keys (c ∷ s) m (Owns-same h λ n. omega arith))
