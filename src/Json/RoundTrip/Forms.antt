-- ===== src/Json/RoundTrip/Forms.antt =====
-- The written forms of arrays and objects, and the rounds of the loops that read them.
use frostlake_pdo.Json.Fits.{Fits, IsLexeme}
use frostlake_pdo.Json.Reader.{
  is_space, max_depth, next_element, next_member, parse_elements, parse_key, parse_members,
  parse_value, skip_ws, switch,
}
use frostlake_pdo.Json.RoundTrip.Leaves.{Stops, array_body-Opens, json_text-Opens}
use frostlake_pdo.Json.RoundTrip.Steps.{
  array_body_empty, object_body-key, object_body_empty, switch_array, switch_bool, switch_null,
  switch_number, switch_object, switch_string,
}
use frostlake_pdo.Json.Text.{NoNul, json_string}
use frostlake_pdo.Json.Value.{
  Items, Json, Members, array, bool, item, member, no_items, no_members, null, number, object,
  string,
}
use frostlake_pdo.Json.Writer.{items_text, json_text, members_text}
use frostlake_pdo.Prelude.{
  Bool, Bytes, append_assoc, arith, false, length, length-append_bytes, parsed, refl, suc, ℕ, ◌++◌,
  ◌+◌, ◌<◌, ◌∙◌, ◌∷◌, ◌≡◌, ◌≤◌,
}

-- The written forms, with what follows behind them, and their lengths.
abbrev pub elements_text : Json → Items → Bytes → Bytes
elements_text x xs rest = json_text x ++ (items_text false xs ++ b']' ∷ rest)

abbrev pub pairs_text : Bytes → Json → Members → Bytes → Bytes
pairs_text k x ms rest =
    json_string k ++ (b':' ∷ (json_text x ++ (members_text false ms ++ b'}' ∷ rest)))

module _ (x : Json) (xs : Items) where
  pub array_text :
      (rest : Bytes) → json_text (array (item x xs)) ++ rest ≡ b'[' ∷ elements_text x xs rest
  unfolding json_text
  array_text rest = simp append_assoc

  pub next_text :
      (rest : Bytes) → items_text false (item x xs) ++ b']' ∷ rest ≡ b',' ∷ elements_text x xs rest
  unfolding json_text
  next_text rest = simp append_assoc

  pub length_array :
      length (json_text (array (item x xs)))
      ≡ length (json_text x) + length (items_text false xs) + 2
  unfolding json_text
  length_array = simp length-append_bytes (omega arith)

  pub length_next :
      length (items_text false (item x xs))
      ≡ length (json_text x) + length (items_text false xs) + 1
  unfolding json_text
  length_next = simp length-append_bytes (omega arith)

module _ (k : Bytes) (x : Json) (ms : Members) where
  pub object_text :
      (rest : Bytes) → json_text (object (member k x ms)) ++ rest ≡ b'{' ∷ pairs_text k x ms rest
  unfolding json_text
  object_text rest = simp append_assoc

  pub next_pair_text :
      (rest : Bytes)
      → members_text false (member k x ms) ++ b'}' ∷ rest ≡ b',' ∷ pairs_text k x ms rest
  unfolding json_text
  next_pair_text rest = simp append_assoc

  pub length_object :
      length (json_text x) + length (members_text false ms) + 2
      ≤ length (json_text (object (member k x ms)))
  unfolding json_text
  length_object = simp length-append_bytes (omega arith)

  pub length_next_pair :
      length (json_text x) + length (members_text false ms) + 1
      ≤ length (members_text false (member k x ms))
  unfolding json_text
  length_next_pair = simp length-append_bytes (omega arith)

pub last_text : (rest : Bytes) → items_text false no_items ++ b']' ∷ rest ≡ b']' ∷ rest
unfolding json_text
last_text rest = refl

pub last_pair_text : (rest : Bytes) → members_text false no_members ++ b'}' ∷ rest ≡ b'}' ∷ rest
unfolding json_text
last_pair_text rest = refl

-- The loops' rounds, once their value is read.
module _ (f d : ℕ) {x : Json} (s : Bytes) where
  pub round_last :
      (rest : Bytes)
      → parse_value f d s ≡ parsed (x, b']' ∷ rest)
      → parse_elements (suc f) d s ≡ parsed (item x no_items, rest)
  unfolding parse_value next_element skip_ws is_space
  round_last rest e = rw e

  pub round_next :
      (t : Bytes) {xs : Items} {rest : Bytes}
      → parse_value f d s ≡ parsed (x, b',' ∷ t)
      → parse_elements f d t ≡ parsed (xs, rest)
      → parse_elements (suc f) d s ≡ parsed (item x xs, rest)
  unfolding parse_value next_element skip_ws is_space
  round_next t e e' = rw (e, e')

  pub round_last_pair :
      (k body rest : Bytes)
      → parse_key s ≡ parsed (k, body)
      → parse_value f d body ≡ parsed (x, b'}' ∷ rest)
      → parse_members (suc f) d s ≡ parsed (member k x no_members, rest)
  unfolding parse_value next_member skip_ws is_space
  round_last_pair k body rest ek e = rw (ek, e)

  pub round_next_pair :
      (k body t : Bytes) {ms : Members} {rest : Bytes}
      → parse_key s ≡ parsed (k, body)
      → parse_value f d body ≡ parsed (x, b',' ∷ t)
      → parse_members f d t ≡ parsed (ms, rest)
      → parse_members (suc f) d s ≡ parsed (member k x ms, rest)
  unfolding parse_value next_member skip_ws is_space
  round_next_pair k body t ek e e' = rw (ek, e, e')

pub parse_value_step :
    (f d : ℕ) (s : Bytes)
    → parse_value (suc f) d s
      ≡ switch (parse_elements f (suc d)) (parse_members f (suc d)) d (skip_ws s)
unfolding parse_value
parse_value_step f d s = refl

module _ (f d : ℕ) (rest : Bytes) where
  pub read_null : parse_value (suc f) d (json_text null ++ rest) ≡ parsed (null, rest)
  unfolding parse_value json_text
  read_null = switch_null _ _ _ rest

  pub read_bool :
      (b : Bool) → parse_value (suc f) d (json_text (bool b) ++ rest) ≡ parsed (bool b, rest)
  unfolding parse_value json_text
  read_bool b = switch_bool _ _ _ b rest

  pub read_number :
      (l : Bytes)
      → IsLexeme l
      → Stops rest
      → parse_value (suc f) d (json_text (number l) ++ rest) ≡ parsed (number l, rest)
  unfolding parse_value json_text
  read_number l n st = switch_number _ _ _ l rest n st

  pub read_string :
      (t : Bytes)
      → NoNul t
      → parse_value (suc f) d (json_text (string t) ++ rest) ≡ parsed (string t, rest)
  unfolding parse_value json_text
  read_string t n = switch_string _ _ _ t rest n

  pub read_array_empty :
      d < max_depth
      → parse_value (suc f) d (json_text (array no_items) ++ rest) ≡ parsed (array no_items, rest)
  unfolding parse_value json_text
  read_array_empty lt = switch_array _ _ _ (b']' ∷ rest) lt ∙ array_body_empty _ rest

  pub read_object_empty :
      d < max_depth
      → parse_value (suc f) d (json_text (object no_members) ++ rest)
        ≡ parsed (object no_members, rest)
  unfolding parse_value json_text
  read_object_empty lt = switch_object _ _ _ (b'}' ∷ rest) lt ∙ object_body_empty _ rest

  pub read_array :
      {x : Json} {xs : Items}
      → d < max_depth
      → Fits (suc d) x
      → parse_elements f (suc d) (elements_text x xs rest) ≡ parsed (item x xs, rest)
      → parse_value (suc f) d (json_text (array (item x xs)) ++ rest)
        ≡ parsed (array (item x xs), rest)
  read_array {x} {xs} lt hx e = rw (
    array_text x xs rest,
    parse_value_step f d,
    switch_array _ _ _ _ lt,
    array_body-Opens _ (json_text x) _ (json_text-Opens hx),
    e,
  )

  pub read_object :
      {k : Bytes} {x : Json} {ms : Members}
      → d < max_depth
      → parse_members f (suc d) (pairs_text k x ms rest) ≡ parsed (member k x ms, rest)
      → parse_value (suc f) d (json_text (object (member k x ms)) ++ rest)
        ≡ parsed (object (member k x ms), rest)
  read_object {k} {x} {ms} lt e = rw (
    object_text k x ms rest,
    parse_value_step f d,
    switch_object _ _ _ _ lt,
    object_body-key _ k _,
    e,
  )
