-- ===== src/Json/Reader.antt =====
-- The reader of json.c. `p->cur` up to `p->end` is the input that is left; `p->depth` is an
-- argument, since every call leaves it as it was. A refused input is NULL.
pub mod Strings
pub mod Sound
use frostlake_pdo.Json.Text.{string_body}
use frostlake_pdo.Json.Value.{
  Items, Json, Members, array, bool, item, member, no_items, no_members, null, number, object,
  string,
}
use frostlake_pdo.Prelude.{
  Bool, Bytes, Option, Parsed, [], codes, false, if◌then◌else◌, leb, length, none, out_of_fuel,
  parsed, refused, some, suc, true, within, zero, ℕ, ◌*◌, ◌+◌, ◌==◌, ◌>>=◌, ◌||◌, ◌∷◌,
}

-- FL_JSON_MAX_DEPTH
abbrev pub max_depth : ℕ
max_depth = 64

unfoldable pub is_space : ℕ → Bool
is_space c = c == b' ' || c == b'\t' || c == b'\n' || c == b'\r'

unfoldable pub skip_ws : Bytes → Bytes
skip_ws [] = []
skip_ws (c ∷ s) = if is_space c then skip_ws s else c ∷ s

-- The test of the loop of `parse_number`.
unfoldable pub is_number_byte : ℕ → Bool
is_number_byte c =
    within b'0' b'9' c || c == b'.' || c == b'e' || c == b'E' || c == b'+' || c == b'-'

-- The loop: the bytes that pass, and the input behind them.
unfoldable pub number_bytes : Bytes → Bytes × Bytes
number_bytes [] = ([], [])
number_bytes (c ∷ s) =
    let more = number_bytes s in if is_number_byte c then (c ∷ more.0, more.1) else ([], c ∷ s)

-- `p->cur == start` refuses an empty lexeme.
unfoldable pub lexeme : Bytes × Bytes → Parsed (Json × Bytes)
lexeme ([], rest) = refused
lexeme (c ∷ l, rest) = parsed (number (c ∷ l), rest)

-- The sign, then the loop.
unfoldable pub parse_number : Bytes → Parsed (Json × Bytes)
parse_number [] = refused
parse_number (c ∷ s) =
    if c == b'-'
    then lexeme (c ∷ (number_bytes s).0, (number_bytes s).1)
    else lexeme (number_bytes (c ∷ s))

-- `strncmp(p->cur, word, length) == 0`, and the input behind the word.
unfoldable pub strip : Bytes → Bytes → Option Bytes
strip [] s = some s
strip (w ∷ word) [] = none
strip (w ∷ word) (c ∷ s) = if c == w then strip word s else none

unfoldable pub parse_literal : Bytes → Json → Bytes → Parsed (Json × Bytes)
parse_literal word node s = elim (strip word s) [ none ↦ refused | some rest ↦ parsed (node, rest) ]

unfoldable pub parse_string : Bytes → Parsed (Json × Bytes)
parse_string s = string_body s >>= λ (text, rest). parsed (string text, rest)

-- Behind the `[`: an array that closes at once, or the loop.
unfoldable pub array_body : (Bytes → Parsed (Items × Bytes)) → Bytes → Parsed (Json × Bytes)
array_body loop [] = loop [] >>= λ (xs, rest). parsed (array xs, rest)
array_body loop (c ∷ s) =
    if c == b']'
    then parsed (array no_items, s)
    else loop (c ∷ s) >>= λ (xs, rest). parsed (array xs, rest)

unfoldable pub object_body : (Bytes → Parsed (Members × Bytes)) → Bytes → Parsed (Json × Bytes)
object_body loop [] = loop [] >>= λ (ms, rest). parsed (object ms, rest)
object_body loop (c ∷ s) =
    if c == b'}'
    then parsed (object no_members, s)
    else loop (c ∷ s) >>= λ (ms, rest). parsed (object ms, rest)

-- Behind an element: a comma goes round the loop, a bracket ends it.
unfoldable pub next_element :
    (Bytes → Parsed (Items × Bytes)) → Json → Bytes → Parsed (Items × Bytes)
next_element loop child [] = refused
next_element loop child (c ∷ s) =
    if c == b','
    then loop s >>= (λ (xs, rest). parsed (item child xs, rest))
    else if c == b']'
    then parsed (item child no_items, s)
    else refused

unfoldable pub next_member :
    (Bytes → Parsed (Members × Bytes)) → Bytes → Json → Bytes → Parsed (Members × Bytes)
next_member loop key child [] = refused
next_member loop key child (c ∷ s) =
    if c == b','
    then loop s >>= (λ (ms, rest). parsed (member key child ms, rest))
    else if c == b'}'
    then parsed (member key child no_members, s)
    else refused

-- One byte that must stand here, and the input behind it.
unfoldable pub expect : ℕ → Bytes → Parsed Bytes
expect b [] = refused
expect b (c ∷ s) = if c == b then parsed s else refused

-- A member's key and colon.
unfoldable pub parse_key : Bytes → Parsed (Bytes × Bytes)
parse_key s = expect b'"' (skip_ws s) >>= λ body.
    string_body body >>= λ (key, rest). expect b':' (skip_ws rest) >>= λ after. parsed (key, after)

-- The `switch` of `parse_value`, at the first byte that is no space. `elements` and `members` are
-- the two loops, one level down.
unfoldable pub switch :
    (Bytes → Parsed (Items × Bytes))
    → (Bytes → Parsed (Members × Bytes))
    → ℕ
    → Bytes
    → Parsed (Json × Bytes)
switch elements members depth [] = refused
switch elements members depth (c ∷ s) =
    if c == b'{'
    then (if leb max_depth depth then refused else object_body members (skip_ws s))
    else if c == b'['
    then (if leb max_depth depth then refused else array_body elements (skip_ws s))
    else if c == b'"'
    then parse_string s
    else if c == b't'
    then parse_literal (codes "true") (bool true) (c ∷ s)
    else if c == b'f'
    then parse_literal (codes "false") (bool false) (c ∷ s)
    else if c == b'n'
    then parse_literal (codes "null") null (c ∷ s)
    else parse_number (c ∷ s)

-- `parse_value` and the loops of `parse_array` and `parse_object`. What a call leaves of the input
-- is no structural part of it, so each call costs a unit of fuel.
unfoldable mutual
  pub parse_value : ℕ → ℕ → Bytes → Parsed (Json × Bytes)
  parse_value zero depth s = out_of_fuel
  parse_value (suc f) depth s =
      switch (parse_elements f (suc depth)) (parse_members f (suc depth)) depth (skip_ws s)

  pub parse_elements : ℕ → ℕ → Bytes → Parsed (Items × Bytes)
  parse_elements zero depth s = out_of_fuel
  parse_elements (suc f) depth s = parse_value f depth s >>= λ (child, rest).
      next_element (parse_elements f depth) child (skip_ws rest)

  pub parse_members : ℕ → ℕ → Bytes → Parsed (Members × Bytes)
  parse_members zero depth s = out_of_fuel
  parse_members (suc f) depth s = parse_key s >>= λ (key, body).
      parse_value f depth body >>= λ (child, rest).
      next_member (parse_members f depth) key child (skip_ws rest)

-- Nothing but space may follow the document.
unfoldable pub end_of_input : Json → Bytes → Parsed Json
end_of_input root [] = parsed root
end_of_input root (_ ∷ _) = refused

-- `fl_json_parse`
unfoldable pub parse : Bytes → Parsed Json
parse s = parse_value (2 * length s + 1) 0 s >>= λ (root, rest). end_of_input root (skip_ws rest)
