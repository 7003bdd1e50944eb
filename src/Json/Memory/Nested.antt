-- ===== src/Json/Memory/Nested.antt =====
-- `node_add_child`, `parse_array`, `parse_object`, `parse_value` and `fl_json_parse` of json.c with
-- their memory. The loops of an array and of an object take the node in its parts.
use frostlake_pdo.Json.Memory.{
  Elements, Fields, Memory, Node, Run, allocate, array_node, json_free, keyed, no_elements, no_keys,
  object_node, on_run, reallocate, release,
}
use frostlake_pdo.Json.Memory.Reader.{
  array_size, element_count, field_block, field_count, field_entries, last_element, last_entry,
  new_scalar, node_size, read_string_body, read_string_node,
}
use frostlake_pdo.Json.Reader.{expect, max_depth, parse_literal, parse_number, skip_ws}
use frostlake_pdo.Json.Value.{bool, null}
use frostlake_pdo.Prelude.{
  Bool, Bytes, Option, Parsed, [], codes, false, if◌then◌else◌, leb, length, none, out_of_fuel,
  parsed, refused, some, suc, true, zero, ℕ, ◌*◌, ◌+◌, ◌==◌, ◌∷◌,
}

abbrev pub Opened : Type 0
Opened = Option ℕ × Elements

abbrev pub OpenedFields : Type 0
OpenedFields = Option ℕ × Fields

module _ (grants : ℕ → ℕ → Bool) where
  abbrev pub item_grown : Option ℕ → Elements → Node → Option ℕ × Memory → Bool × (Opened × Memory)
  item_grown block es child (none, m) = (false, ((block, es), m))
  item_grown block es child (some grown, m) = (true, ((some grown, last_element es child), m))

  -- `node_add_child` of an ARRAY
  unfoldable pub add_item : Option ℕ → Elements → Node → Memory → Bool × (Opened × Memory)
  unfolding reallocate
  add_item block es child m =
      item_grown block es child (reallocate grants block (array_size (element_count es)) m)

  abbrev pub key_grown :
      Option ℕ → Fields → ℕ → Bytes → Node → Option ℕ × Memory → Bool × (OpenedFields × Memory)
  key_grown block fs a key child (none, m) = (false, ((block, fs), m))
  key_grown block fs a key child (some k, m) =
      (true, ((block, keyed k (last_entry (field_entries fs) a key child)), m))

  abbrev pub member_grown :
      Option ℕ → Fields → ℕ → Bytes → Node → Option ℕ × Memory → Bool × (OpenedFields × Memory)
  member_grown block fs a key child (none, m) = (false, ((block, fs), m))
  member_grown block fs a key child (some grown, m) =
      key_grown (some grown) fs a key child
        (reallocate grants (field_block fs) (array_size (field_count fs)) m)

  -- `node_add_child` of an OBJECT: the children's array, then the keys'.
  unfoldable pub add_member :
      Option ℕ → Fields → ℕ → Bytes → Node → Memory → Bool × (OpenedFields × Memory)
  unfolding reallocate
  add_member block fs a key child m =
      member_grown block fs a key child (reallocate grants block (array_size (field_count fs)) m)

  -- Behind an element of an array.
  abbrev pub behind_item :
      (Option ℕ → Elements → Bytes → Memory → Run (Node × Bytes))
      → ℕ
      → Option ℕ
      → Elements
      → Bytes
      → Memory
      → Run (Node × Bytes)
  behind_item loop self block es [] m = (refused, json_free (array_node self block es) m)
  behind_item loop self block es (c ∷ s) m =
      if c == b','
      then loop block es s m
      else if c == b']'
      then (parsed (array_node self block es, s), m)
      else (refused, json_free (array_node self block es) m)

  abbrev pub item_added :
      (Option ℕ → Elements → Bytes → Memory → Run (Node × Bytes))
      → ℕ
      → Node
      → Bytes
      → Bool × (Opened × Memory)
      → Run (Node × Bytes)
  item_added loop self child rest (true, ((block, es), m)) = behind_item loop self block es rest m
  item_added loop self child rest (false, ((block, es), m)) =
      (refused, json_free (array_node self block es) (json_free child m))

  abbrev pub behind_member :
      (Option ℕ → Fields → Bytes → Memory → Run (Node × Bytes))
      → ℕ
      → Option ℕ
      → Fields
      → Bytes
      → Memory
      → Run (Node × Bytes)
  behind_member loop self block fs [] m = (refused, json_free (object_node self block fs) m)
  behind_member loop self block fs (c ∷ s) m =
      if c == b','
      then loop block fs s m
      else if c == b'}'
      then (parsed (object_node self block fs, s), m)
      else (refused, json_free (object_node self block fs) m)

  abbrev pub member_added :
      (Option ℕ → Fields → Bytes → Memory → Run (Node × Bytes))
      → ℕ
      → ℕ
      → Node
      → Bytes
      → Bool × (OpenedFields × Memory)
      → Run (Node × Bytes)
  member_added loop self a child rest (true, ((block, fs), m)) =
      behind_member loop self block fs rest m
  member_added loop self a child rest (false, ((block, fs), m)) =
      (refused, json_free (object_node self block fs) (json_free child (release a m)))

  abbrev pub key_colon : ℕ → Bytes → Memory → Parsed Bytes → Run (ℕ × (Bytes × Bytes))
  key_colon a key m (parsed body) = (parsed (a, (key, body)), m)
  key_colon a key m refused = (refused, release a m)
  key_colon a key m out_of_fuel = (out_of_fuel, m)

  abbrev pub key_text : Memory → Parsed Bytes → Run (ℕ × (Bytes × Bytes))
  key_text m (parsed body) =
      on_run (λ (a, (key, rest)) m'. key_colon a key m' (expect b':' (skip_ws rest))) (λ m'. m')
        (read_string_body grants body m)
  key_text m refused = (refused, m)
  key_text m out_of_fuel = (out_of_fuel, m)

  -- A member's key and colon: the key's block, the key, and the input behind the colon.
  unfoldable pub read_key : Bytes → Memory → Run (ℕ × (Bytes × Bytes))
  unfolding expect read_string_body
  read_key s m = key_text m (expect b'"' (skip_ws s))

  -- `parse_array` behind its node, and `parse_object` behind its own.
  abbrev pub array_opened :
      (ℕ → Option ℕ → Elements → Bytes → Memory → Run (Node × Bytes))
      → Bytes
      → Option ℕ × Memory
      → Run (Node × Bytes)
  array_opened loop s (none, m) = (refused, m)
  array_opened loop [] (some self, m) = loop self none no_elements [] m
  array_opened loop (c ∷ s) (some self, m) =
      if c == b']'
      then (parsed (array_node self none no_elements, s), m)
      else loop self none no_elements (c ∷ s) m

  abbrev pub object_opened :
      (ℕ → Option ℕ → Fields → Bytes → Memory → Run (Node × Bytes))
      → Bytes
      → Option ℕ × Memory
      → Run (Node × Bytes)
  object_opened loop s (none, m) = (refused, m)
  object_opened loop [] (some self, m) = loop self none no_keys [] m
  object_opened loop (c ∷ s) (some self, m) =
      if c == b'}'
      then (parsed (object_node self none no_keys, s), m)
      else loop self none no_keys (c ∷ s) m

  -- The `switch` of `parse_value`.
  unfoldable pub read_switch :
      (ℕ → Option ℕ → Elements → Bytes → Memory → Run (Node × Bytes))
      → (ℕ → Option ℕ → Fields → Bytes → Memory → Run (Node × Bytes))
      → ℕ
      → Bytes
      → Memory
      → Run (Node × Bytes)
  unfolding read_string_node new_scalar allocate skip_ws
  read_switch elements members depth [] m = (refused, m)
  read_switch elements members depth (c ∷ s) m =
      if c == b'{'
      then (if leb max_depth depth
          then (refused, m)
          else object_opened members (skip_ws s) (allocate grants node_size m))
      else if c == b'['
      then (if leb max_depth depth
          then (refused, m)
          else array_opened elements (skip_ws s) (allocate grants node_size m))
      else if c == b'"'
      then read_string_node grants s m
      else if c == b't'
      then new_scalar grants true (parse_literal (codes "true") (bool true) (c ∷ s)) m
      else if c == b'f'
      then new_scalar grants true (parse_literal (codes "false") (bool false) (c ∷ s)) m
      else if c == b'n'
      then new_scalar grants false (parse_literal (codes "null") null (c ∷ s)) m
      else new_scalar grants true (parse_number (c ∷ s)) m

  -- `parse_value` and the two loops, on the fuel of the reader without its memory.
  unfoldable mutual
    unfolding read_switch read_key add_item add_member json_free

    pub read_value : ℕ → ℕ → Bytes → Memory → Run (Node × Bytes)
    read_value zero depth s m = (out_of_fuel, m)
    read_value (suc f) depth s m =
        read_switch (read_elements f (suc depth)) (read_members f (suc depth)) depth (skip_ws s) m

    pub read_elements : ℕ → ℕ → ℕ → Option ℕ → Elements → Bytes → Memory → Run (Node × Bytes)
    read_elements zero depth self block es s m = (out_of_fuel, m)
    read_elements (suc f) depth self block es s m =
        on_run
          (λ (child, rest) m'.
            item_added (read_elements f depth self) self child (skip_ws rest)
              (add_item block es child m'))
          (json_free (array_node self block es)) (read_value f depth s m)

    pub read_members : ℕ → ℕ → ℕ → Option ℕ → Fields → Bytes → Memory → Run (Node × Bytes)
    read_members zero depth self block fs s m = (out_of_fuel, m)
    read_members (suc f) depth self block fs s m =
        on_run
          (λ (a, (key, body)) m1.
            on_run
              (λ (child, rest) m2.
                member_added (read_members f depth self) self a child (skip_ws rest)
                  (add_member block fs a key child m2))
              (λ m2. json_free (object_node self block fs) (release a m2))
              (read_value f depth body m1))
          (json_free (object_node self block fs)) (read_key s m)

  abbrev pub whole_input : Node → Bytes → Memory → Run Node
  whole_input root [] m = (parsed root, m)
  whole_input root (_ ∷ _) m = (refused, json_free root m)

  -- `fl_json_parse`
  unfoldable pub json_parse : Bytes → Memory → Run Node
  unfolding read_value
  json_parse s m =
      on_run (λ (root, rest) m'. whole_input root (skip_ws rest) m') (λ m'. m')
        (read_value (2 * length s + 1) 0 s m)
