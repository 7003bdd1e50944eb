-- ===== src/Json/Memory/OpenFields.antt =====
-- The members of an object that is open: what they stand for, and the blocks that they hold.
use frostlake_pdo.Json.Memory.{
  Entries, Fields, Memory, Node, any_at, entry, entry_blocks, entry_members, field_blocks,
  field_members, keyed, no_entries, no_keys, node_blocks, node_tree, object_node, one_at,
}
use frostlake_pdo.Json.Memory.Free.{Owns, Owns-same, plus}
use frostlake_pdo.Json.Memory.Reader.{field_block, field_entries, last_entry}
use frostlake_pdo.Json.Memory.Scalars.{node_seen}
use frostlake_pdo.Json.Value.{Json, Members, member, no_members, object}
use frostlake_pdo.Prelude.{
  Bytes, Option, Parsed, arith, out_of_fuel, parsed, refl, refused, some, sym, ℕ, ◌+◌, ◌>>=◌, ◌≡◌,
}

abbrev pub append_members : Members → Members → Members
append_members no_members ys = ys
append_members (member k x xs) ys = member k x (append_members xs ys)

append_members-nil : (xs : Members) → append_members xs no_members ≡ xs
append_members-nil no_members = refl
append_members-nil (member k x xs) = rw (append_members-nil xs) refl

-- What the plain loop reads, behind the members that the node has.
abbrev pub object_of : Fields → Members × Bytes → Parsed (Json × Bytes)
object_of fs (ms, rest) = parsed (object (append_members (field_members fs) ms), rest)

-- The keys and children with one behind them, in a new array of keys.
abbrev pub one_more : ℕ → Fields → ℕ → Bytes → Node → Fields
one_more k fs a key t = keyed k (last_entry (field_entries fs) a key t)

members-last_entry :
    (es : Entries) (a : ℕ) (key : Bytes) (t : Node) (ms : Members)
    → append_members (entry_members (last_entry es a key t)) ms
      ≡ append_members (entry_members es) (member key (node_tree t) ms)
unfolding entry_members
members-last_entry no_entries a key t ms = refl
members-last_entry (entry b j u es) a key t ms = rw (members-last_entry es a key t ms) refl

members-one_more :
    (k : ℕ) (fs : Fields) (a : ℕ) (key : Bytes) (t : Node) (ms : Members)
    → append_members (field_members (one_more k fs a key t)) ms
      ≡ append_members (field_members fs) (member key (node_tree t) ms)
unfolding field_members entry_members
members-one_more k no_keys a key t ms = refl
members-one_more k (keyed old es) a key t ms = members-last_entry es a key t ms

blocks-last_entry :
    (es : Entries) (a : ℕ) (key : Bytes) (t : Node) (n : ℕ)
    → entry_blocks (last_entry es a key t) n ≡ entry_blocks es n + (one_at a n + node_blocks t n)
unfolding entry_blocks
blocks-last_entry no_entries a key t n = omega arith
blocks-last_entry (entry b j u es) a key t n = omega (arith, blocks-last_entry es a key t n)

blocks-field_entries :
    (fs : Fields) (n : ℕ)
    → field_blocks fs n ≡ any_at (field_block fs) n + entry_blocks (field_entries fs) n
unfolding field_blocks entry_blocks
blocks-field_entries no_keys n = refl
blocks-field_entries (keyed k es) n = refl

pub object_of-member :
    (k : ℕ) (fs : Fields) (a : ℕ) (key : Bytes) (t : Node) (r : Parsed (Members × Bytes))
    → ((r >>= λ (ms, rest). parsed (member key (node_tree t) ms, rest)) >>= object_of fs)
      ≡ (r >>= object_of (one_more k fs a key t))
object_of-member k fs a key t (parsed (ms, rest)) = rw (members-one_more k fs a key t ms) refl
object_of-member k fs a key t refused = refl
object_of-member k fs a key t out_of_fuel = refl

pub object_done :
    (self : ℕ) (block : Option ℕ) (k : ℕ) (fs : Fields) (a : ℕ) (key : Bytes) (t : Node) (s : Bytes)
    → object_of fs (member key (node_tree t) no_members, s)
      ≡ parsed (node_seen (object_node self block (one_more k fs a key t), s))
unfolding node_tree
object_done self block k fs a key t s =
    rw
      (
        sym (members-one_more k fs a key t no_members),
        append_members-nil (field_members (one_more k fs a key t)),
      )
      refl

-- The node's blocks besides its array of children, a key's and a child's.
abbrev pub beside_children : (ℕ → ℕ) → ℕ → Fields → ℕ → Node → ℕ → ℕ
beside_children L self fs a t n =
    one_at self n + (field_blocks fs n + (one_at a n + (node_blocks t n + L n)))

-- The same besides the array of keys, when that of the children has grown.
abbrev pub beside_keys : (ℕ → ℕ) → ℕ → ℕ → Fields → ℕ → Node → ℕ → ℕ
beside_keys L self b fs a t n =
    one_at self n
    + (one_at b n + (entry_blocks (field_entries fs) n + (one_at a n + (node_blocks t n + L n))))

-- A key, a child and the node that is open.
abbrev pub member_blocks : (ℕ → ℕ) → ℕ → Option ℕ → Fields → ℕ → Node → ℕ → ℕ
member_blocks L self block fs a t =
    plus (one_at a) (plus (node_blocks t) (plus (node_blocks (object_node self block fs)) L))

pub object_parts :
    (L : ℕ → ℕ) (self : ℕ) (block : Option ℕ) (fs : Fields) (a : ℕ) (t : Node) {m : Memory}
    → Owns (member_blocks L self block fs a t) m
    → Owns (plus (any_at block) (beside_children L self fs a t)) m
unfolding node_blocks
object_parts L self block fs a t h = Owns-same h λ n. omega arith

pub object_whole :
    (L : ℕ → ℕ) (self : ℕ) (block : Option ℕ) (fs : Fields) (a : ℕ) (t : Node) {m : Memory}
    → Owns (plus (any_at block) (beside_children L self fs a t)) m
    → Owns (member_blocks L self block fs a t) m
unfolding node_blocks
object_whole L self block fs a t h = Owns-same h λ n. omega arith

pub key_parts :
    (L : ℕ → ℕ) (self b : ℕ) (fs : Fields) (a : ℕ) (t : Node) {m : Memory}
    → Owns (plus (one_at b) (beside_children L self fs a t)) m
    → Owns (plus (any_at (field_block fs)) (beside_keys L self b fs a t)) m
key_parts L self b fs a t h = Owns-same h λ n. omega (arith, blocks-field_entries fs n)

pub key_whole :
    (L : ℕ → ℕ) (self b : ℕ) (fs : Fields) (a : ℕ) (t : Node) {m : Memory}
    → Owns (plus (any_at (field_block fs)) (beside_keys L self b fs a t)) m
    → Owns (member_blocks L self (some b) fs a t) m
unfolding node_blocks
key_whole L self b fs a t h = Owns-same h λ n. omega (arith, blocks-field_entries fs n)

pub object_longer :
    (L : ℕ → ℕ) (self b k : ℕ) (fs : Fields) (a : ℕ) (key : Bytes) (t : Node) {m : Memory}
    → Owns (plus (one_at k) (beside_keys L self b fs a t)) m
    → Owns (plus (node_blocks (object_node self (some b) (one_more k fs a key t))) L) m
unfolding node_blocks
object_longer L self b k fs a key t h =
    Owns-same h λ n. omega (arith, blocks-last_entry (field_entries fs) a key t n)
