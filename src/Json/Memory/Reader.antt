-- ===== src/Json/Memory/Reader.antt =====
-- The reader of json.c with its memory: every function that allocates, on the paths where an
-- allocation is refused as well. `grants` is the allocator's answer to a request of a number and size.
use frostlake_pdo.Json.Buffer.{first_capacity, grow}
use frostlake_pdo.Json.Memory.{
  Elements, Entries, Fields, Memory, Node, Run, allocate, element, entry, keyed, no_elements,
  no_entries, no_keys, on_run, reallocate, release, release_any, scalar,
}
use frostlake_pdo.Json.Text.{c_string, escape_sequence}
use frostlake_pdo.Json.Value.{Json, array, bool, bool_text, null, number, object, string}
use frostlake_pdo.Prelude.{
  Bool, Bytes, Option, Parsed, [], false, if◌then◌else◌, leb, length, none, out_of_fuel, parsed,
  refused, some, suc, true, zero, ℕ, ◌%◌, ◌*◌, ◌++◌, ◌+◌, ◌==◌, ◌^◌, ◌∷◌,
}

-- sizeof(fl_json) and sizeof(char *) with pointers of 64 bits.
abbrev pub node_size : ℕ
node_size = 40

abbrev pub pointer_size : ℕ
pointer_size = 8

-- A buffer before its first allocation, or its address, its capacity and its bytes.
pub data Growing : Type 0 where
  unallocated : Growing
  allocated : ℕ → ℕ → Bytes → Growing

abbrev pub growing_block : Growing → Option ℕ
growing_block unallocated = none
growing_block (allocated a capacity s) = some a

abbrev pub growing_capacity : Growing → ℕ
growing_capacity unallocated = 0
growing_capacity (allocated a capacity s) = capacity

abbrev pub growing_bytes : Growing → Bytes
growing_bytes unallocated = []
growing_bytes (allocated a capacity s) = s

-- The `memcpy` behind a `strbuf_reserve` that found room. The buffer that is NULL has room for none.
abbrev pub put_behind : Bytes → Growing → Growing
put_behind added unallocated = unallocated
put_behind added (allocated a capacity s) = allocated a capacity (s ++ added)

abbrev pub element_count : Elements → ℕ
element_count no_elements = 0
element_count (element t es) = suc (element_count es)

abbrev pub entry_count : Entries → ℕ
entry_count no_entries = 0
entry_count (entry a key t es) = suc (entry_count es)

abbrev pub field_count : Fields → ℕ
field_count no_keys = 0
field_count (keyed k es) = entry_count es

-- `parent->children[parent->child_count] = child`
abbrev pub last_element : Elements → Node → Elements
last_element no_elements child = element child no_elements
last_element (element t es) child = element t (last_element es child)

abbrev pub last_entry : Entries → ℕ → Bytes → Node → Entries
last_entry no_entries a key child = entry a key child no_entries
last_entry (entry b k t es) a key child = entry b k t (last_entry es a key child)

abbrev pub field_block : Fields → Option ℕ
field_block no_keys = none
field_block (keyed k es) = some k

abbrev pub field_entries : Fields → Entries
field_entries no_keys = no_entries
field_entries (keyed k es) = es

-- `wanted * sizeof(void *)`, where `wanted` is one more than the children.
abbrev pub array_size : ℕ → ℕ
array_size count = suc count * pointer_size % 2 ^ 64

-- `text[length] = '\0'` behind the text of a scalar.
abbrev pub scalar_size : Json → ℕ
scalar_size null = 0
scalar_size (bool b) = length (bool_text b) + 1
scalar_size (number s) = length s + 1
scalar_size (string s) = length s + 1
scalar_size (array xs) = 0
scalar_size (object ms) = 0

module _ (grants : ℕ → ℕ → Bool) where
  abbrev pub at_place : Growing → Bytes → ℕ → Option ℕ × Memory → Run Growing
  at_place b added wanted (none, m) = (refused, m)
  at_place b added wanted (some a, m) = (parsed (allocated a wanted (growing_bytes b ++ added)), m)

  abbrev pub resized : Growing → Bytes → Option ℕ → Memory → Run Growing
  resized b added none m = (out_of_fuel, m)
  resized b added (some wanted) m =
      at_place b added wanted (reallocate grants (growing_block b) wanted m)

  abbrev pub grown_for : ℕ → Bytes → Growing → Memory → Run Growing
  grown_for need added b m =
      if leb need (growing_capacity b)
      then (parsed (put_behind added b), m)
      else resized b added (grow 64 need (first_capacity (growing_capacity b))) m

  -- `fl_strbuf_append_len`. A buffer that could not grow stays with the caller.
  unfoldable pub append_bytes : Bytes → Growing → Memory → Run Growing
  unfolding reallocate grow
  append_bytes added b m =
      grown_for ((length (growing_bytes b) + length added + 1) % 2 ^ 64) added b m

  -- An append in the loop of `parse_string_body`: its failure goes to `fail`, which frees the buffer.
  abbrev pub append_then : Growing → Memory → Bytes × Bytes → Run (Growing × Bytes)
  append_then b m (added, rest) =
      on_run (λ b' m'. (parsed (b', rest), m')) (release_any (growing_block b))
        (append_bytes added b m)

  abbrev pub append_escape : Growing → Memory → Parsed (Bytes × Bytes) → Run (Growing × Bytes)
  append_escape b m (parsed (added, rest)) = append_then b m (added, rest)
  append_escape b m refused = (refused, release_any (growing_block b) m)
  append_escape b m out_of_fuel = (out_of_fuel, m)

  -- The loop of `parse_string_body`.
  unfoldable pub buffer_loop : ℕ → Growing → Bytes → Memory → Run (Growing × Bytes)
  unfolding append_bytes escape_sequence
  buffer_loop fuel b [] m = (refused, release_any (growing_block b) m)
  buffer_loop zero b (c ∷ s) m = (out_of_fuel, m)
  buffer_loop (suc fuel) b (c ∷ s) m =
      let next =
        if c == b'\\' then append_escape b m (escape_sequence s) else append_then b m (c ∷ [], s) in
      let more = on_run (λ (b', rest) m'. buffer_loop fuel b' rest m') (λ m'. m') next in
      if c == b'"' then (parsed (b, s), m) else more

  -- `return buf.data`, with the text that a reader of it sees.
  abbrev pub hand_over : Bytes → Growing → Memory → Run (ℕ × (Bytes × Bytes))
  hand_over rest unallocated m = (refused, m)
  hand_over rest (allocated a capacity s) m = (parsed (a, (c_string s, rest)), m)

  -- An empty text gets its NUL only here.
  abbrev pub hand_over_owned : Growing × Bytes → Memory → Run (ℕ × (Bytes × Bytes))
  hand_over_owned (unallocated, rest) m =
      on_run (hand_over rest) (λ m'. m') (append_bytes [] unallocated m)
  hand_over_owned (allocated a capacity s, rest) m = hand_over rest (allocated a capacity s) m

  -- `parse_string_body`: the block of the text, the text, and the input behind it.
  unfoldable pub read_string_body : Bytes → Memory → Run (ℕ × (Bytes × Bytes))
  unfolding buffer_loop
  read_string_body s m = on_run hand_over_owned (λ m'. m') (buffer_loop (length s) unallocated s m)

  abbrev pub string_node : ℕ → Bytes → Bytes → Option ℕ × Memory → Run (Node × Bytes)
  string_node a text rest (none, m) = (refused, release a m)
  string_node a text rest (some self, m) = (parsed (scalar self (some a) (string text), rest), m)

  -- `parse_string`, behind the quote.
  unfoldable pub read_string_node : Bytes → Memory → Run (Node × Bytes)
  unfolding read_string_body allocate
  read_string_node s m =
      on_run (λ (a, (text, rest)) m'. string_node a text rest (allocate grants node_size m'))
        (λ m'. m') (read_string_body s m)

  abbrev pub with_text : ℕ → Json → Bytes → Option ℕ × Memory → Run (Node × Bytes)
  with_text self v rest (none, m) = (refused, release self m)
  with_text self v rest (some a, m) = (parsed (scalar self (some a) v, rest), m)

  abbrev pub without_text : Json → Bytes → Option ℕ × Memory → Run (Node × Bytes)
  without_text v rest (none, m) = (refused, m)
  without_text v rest (some self, m) = (parsed (scalar self none v, rest), m)

  abbrev pub texted : Json → Bytes → Option ℕ × Memory → Run (Node × Bytes)
  texted v rest (none, m) = (refused, m)
  texted v rest (some self, m) = with_text self v rest (allocate grants (scalar_size v) m)

  -- What `parse_number` and `parse_literal` do with what they scanned: the node, then its text.
  unfoldable pub new_scalar : Bool → Parsed (Json × Bytes) → Memory → Run (Node × Bytes)
  unfolding allocate
  new_scalar has_text refused m = (refused, m)
  new_scalar has_text out_of_fuel m = (out_of_fuel, m)
  new_scalar true (parsed (v, rest)) m = texted v rest (allocate grants node_size m)
  new_scalar false (parsed (v, rest)) m = without_text v rest (allocate grants node_size m)
