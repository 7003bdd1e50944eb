-- ===== src/Json/Memory/Arrays.antt =====
-- The loop of `parse_array` with its memory, around a loop that keeps the accounts.
use frostlake_pdo.Json.Memory.{
  Elements, Memory, Node, Run, any_at, array_node, element, element_blocks, element_items,
  no_elements, node_blocks, node_tree, one_at,
}
use frostlake_pdo.Json.Memory.Free.{Owns, Owns-same, plus, json_free-Gives, next}
use frostlake_pdo.Json.Memory.Holds.{
  Allocated, Reads, Reads-as, Reads-if, accounted, given_up, obtained, reallocate-Allocated,
  unobtained,
}
use frostlake_pdo.Json.Memory.Nested.{add_item, array_opened, behind_item, item_added, item_grown}
use frostlake_pdo.Json.Memory.Reader.{array_size, element_count, last_element, node_size}
use frostlake_pdo.Json.Memory.Scalars.{node_held, node_seen}
use frostlake_pdo.Json.Reader.{array_body, next_element}
use frostlake_pdo.Json.Value.{Items, Json, array, item, no_items}
use frostlake_pdo.Prelude.{
  Bool, Bool-cases, Bytes, Option, Parsed, [], arith, inl, inr, none, out_of_fuel, parsed, refl,
  refused, some, sym, ℕ, ◌+◌, ◌==◌, ◌>>=◌, ◌∙◌, ◌∷◌, ◌≡◌,
}

abbrev pub append_items : Items → Items → Items
append_items no_items ys = ys
append_items (item x xs) ys = item x (append_items xs ys)

append_items-nil : (xs : Items) → append_items xs no_items ≡ xs
append_items-nil no_items = refl
append_items-nil (item x xs) = rw (append_items-nil xs) refl

-- What the plain loop reads, behind the elements that the node has.
abbrev pub array_of : Elements → Items × Bytes → Parsed (Json × Bytes)
array_of es (xs, rest) = parsed (array (append_items (element_items es) xs), rest)

items-last_element :
    (es : Elements) (t : Node) (xs : Items)
    → append_items (element_items (last_element es t)) xs
      ≡ append_items (element_items es) (item (node_tree t) xs)
unfolding element_items
items-last_element no_elements t xs = refl
items-last_element (element u es) t xs = rw (items-last_element es t xs) refl

blocks-last_element :
    (es : Elements) (t : Node) (n : ℕ)
    → element_blocks (last_element es t) n ≡ element_blocks es n + node_blocks t n
unfolding element_blocks
blocks-last_element no_elements t n = omega arith
blocks-last_element (element u es) t n = omega (arith, blocks-last_element es t n)

array_of-item :
    (es : Elements) (t : Node) (r : Parsed (Items × Bytes))
    → ((r >>= λ (xs, rest). parsed (item (node_tree t) xs, rest)) >>= array_of es)
      ≡ (r >>= array_of (last_element es t))
array_of-item es t (parsed (xs, rest)) = rw (items-last_element es t xs) refl
array_of-item es t refused = refl
array_of-item es t out_of_fuel = refl

array_done :
    (self : ℕ) (block : Option ℕ) (es : Elements) (t : Node) (s : Bytes)
    → array_of es (item (node_tree t) no_items, s)
      ≡ parsed (node_seen (array_node self block (last_element es t), s))
unfolding node_tree
array_done self block es t s =
    rw
      (sym (items-last_element es t no_items), append_items-nil (element_items (last_element es t)))
      refl

-- The node's blocks besides its array of children, and a child's.
abbrev pub beside_array : (ℕ → ℕ) → ℕ → Elements → Node → ℕ → ℕ
beside_array L self es t n = one_at self n + (element_blocks es n + (node_blocks t n + L n))

array_parts :
    (L : ℕ → ℕ) (self : ℕ) (block : Option ℕ) (es : Elements) (t : Node) {m : Memory}
    → Owns (plus (node_blocks t) (plus (node_blocks (array_node self block es)) L)) m
    → Owns (plus (any_at block) (beside_array L self es t)) m
unfolding node_blocks
array_parts L self block es t h = Owns-same h λ n. omega arith

array_whole :
    (L : ℕ → ℕ) (self : ℕ) (block : Option ℕ) (es : Elements) (t : Node) {m : Memory}
    → Owns (plus (any_at block) (beside_array L self es t)) m
    → Owns (plus (node_blocks t) (plus (node_blocks (array_node self block es)) L)) m
unfolding node_blocks
array_whole L self block es t h = Owns-same h λ n. omega arith

array_longer :
    (L : ℕ → ℕ) (self a : ℕ) (es : Elements) (t : Node) {m : Memory}
    → Owns (plus (one_at a) (beside_array L self es t)) m
    → Owns (plus (node_blocks (array_node self (some a) (last_element es t))) L) m
unfolding node_blocks
array_longer L self a es t h = Owns-same h λ n. omega (arith, blocks-last_element es t n)

-- What the loop does with a node that is open.
abbrev pub ArrayLoop :
    (Bytes → Parsed (Items × Bytes))
    → (ℕ → ℕ)
    → ℕ
    → (Option ℕ → Elements → Bytes → Memory → Run (Node × Bytes))
    → Type 0
ArrayLoop plain_loop L self loop =
    (block : Option ℕ) (es : Elements) (s : Bytes) (m : Memory)
    → Owns (plus (node_blocks (array_node self block es)) L) m
    → Reads L node_held node_seen (plain_loop s >>= array_of es) (loop block es s m)

module _ (grants : ℕ → ℕ → Bool) (plain_loop : Bytes → Parsed (Items × Bytes)) (L : ℕ → ℕ)
    (self : ℕ) {loop : Option ℕ → Elements → Bytes → Memory → Run (Node × Bytes)}
    (ih : ArrayLoop plain_loop L self loop) where
  behind_item-Reads :
      (block : Option ℕ) (es : Elements) (t : Node) (s : Bytes) (m : Memory)
      → Owns (plus (node_blocks (array_node self block (last_element es t))) L) m
      → Reads L node_held node_seen
          (next_element plain_loop (node_tree t) s >>= array_of es)
          (behind_item grants loop self block (last_element es t) s m)
  unfolding next_element
  behind_item-Reads block es t [] m h = given_up (json_free-Gives _ {L = L} h).owned (inl refl)
  behind_item-Reads block es t (c ∷ s) m h = elim (Bool-cases (c == b',')) [
    | inl comma ↦
        rw comma (Reads-as (array_of-item es t (plain_loop s)) (ih block (last_element es t) s m h))
    | inr other ↦ rw other (elim (Bool-cases (c == b']')) [
      | inl close ↦ rw close (accounted h (array_done self block es t s))
      | inr bad ↦ rw bad (given_up (json_free-Gives _ {L = L} h).owned (inl refl))
    ])
  ]

  pub item_added-Reads :
      (block : Option ℕ) (es : Elements) (t : Node) (size : ℕ) (s : Bytes) {r : Option ℕ × Memory}
      → Allocated grants size
          (beside_array L self es t)
          (plus (any_at block) (beside_array L self es t))
          r
      → Reads L node_held node_seen
          (next_element plain_loop (node_tree t) s >>= array_of es)
          (item_added grants loop self t s (item_grown grants block es t r))
  item_added-Reads block es t size s (obtained {a} {m} k h granted) =
      behind_item-Reads (some a) es t s m (array_longer L self a es t h)
  item_added-Reads block es t size s (unobtained h d) =
      let g =
        next
          (json_free-Gives t {L = plus (node_blocks (array_node self block es)) L}
            (array_whole L self block es t h))
          (json_free-Gives (array_node self block es)) in
      given_up g.owned (inr (g.same_denied ∙ d))

  pub add_item-Reads :
      (block : Option ℕ) (es : Elements) (t : Node) (s : Bytes) (m : Memory)
      → Owns (plus (node_blocks t) (plus (node_blocks (array_node self block es)) L)) m
      → Reads L node_held node_seen
          (next_element plain_loop (node_tree t) s >>= array_of es)
          (item_added grants loop self t s (add_item grants block es t m))
  unfolding add_item
  add_item-Reads block es t s m h = item_added-Reads block es t (array_size (element_count es)) s (
      reallocate-Allocated grants block (array_size (element_count es))
        (array_parts L self block es t h))

-- An array behind its node.
pub array_opened-Reads :
    (grants : ℕ → ℕ → Bool) (plain_loop : Bytes → Parsed (Items × Bytes)) (L : ℕ → ℕ)
    {loop : ℕ → Option ℕ → Elements → Bytes → Memory → Run (Node × Bytes)} (s : Bytes)
    {r : Option ℕ × Memory}
    → ((self : ℕ) → ArrayLoop plain_loop L self (loop self))
    → Allocated grants node_size L L r
    → Reads L node_held node_seen (array_body plain_loop s) (array_opened grants loop s r)
unfolding array_body node_blocks element_items node_tree
array_opened-Reads grants plain_loop L s ih (unobtained h d) = given_up h (inr d)
array_opened-Reads grants plain_loop L [] ih (obtained {a} {m} k h granted) =
    ih a none no_elements [] m (Owns-same h λ n. omega arith)
array_opened-Reads grants plain_loop L (c ∷ s) ih (obtained {a} {m} k h granted) =
    Reads-if (c == b']') (accounted (Owns-same h λ n. omega arith) refl)
      (ih a none no_elements (c ∷ s) m (Owns-same h λ n. omega arith))
