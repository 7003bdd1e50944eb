-- ===== src/Json/RoundTrip/Steps.antt =====
-- `switch` of `parse_value` at each kind of value.
use frostlake_pdo.Json.Fits.{IsLexeme, number_fits, number_text}
use frostlake_pdo.Json.Reader.{
  array_body, is_number_byte, is_space, max_depth, object_body, parse_literal, skip_ws, strip,
  switch,
}
use frostlake_pdo.Json.RoundTrip.Leaves.{
  Stops, json_text-Opens, parse_number-append, parse_string-json_string, skip_ws-Opens,
  switch-number,
}
use frostlake_pdo.Json.Text.{NoNul, json_string}
use frostlake_pdo.Json.Value.{
  Items, Members, array, bool, bool_text, item, member, no_items, no_members, null, number, object,
  string,
}
use frostlake_pdo.Json.Writer.{items_text, json_text, members_text}
use frostlake_pdo.Prelude.{
  Bool, Bytes, Parsed, append_assoc, arith, codes, false, parsed, refl, true, ℕ, ◌++◌, ◌<◌, ◌>>=◌,
  ◌∙◌, ◌∷◌, ◌≡◌,
}

-- The `switch` at the first byte of each kind of value, whatever its two loops do.
module _ (elements : Bytes → Parsed (Items × Bytes)) (members : Bytes → Parsed (Members × Bytes))
    (d : ℕ) where
  pub switch_null :
      (rest : Bytes)
      → switch elements members d (skip_ws (codes "null" ++ rest)) ≡ parsed (null, rest)
  unfolding switch skip_ws is_space parse_literal strip
  switch_null rest = refl

  pub switch_bool :
      (b : Bool) (rest : Bytes)
      → switch elements members d (skip_ws (bool_text b ++ rest)) ≡ parsed (bool b, rest)
  unfolding switch skip_ws is_space parse_literal strip
  switch_bool true rest = refl
  switch_bool false rest = refl

  pub switch_lexeme :
      {l : Bytes} (rest : Bytes)
      → IsLexeme l
      → Stops rest
      → switch elements members d (l ++ rest) ≡ parsed (number l, rest)
  switch_lexeme rest (number_text {c} {l = t} nc nt) st =
      switch-number elements members d c (t ++ rest) nc
      ∙ parse_number-append (c ∷ t) rest (number_text nc nt) st

  pub switch_number :
      (l rest : Bytes)
      → IsLexeme l
      → Stops rest
      → switch elements members d (skip_ws (l ++ rest)) ≡ parsed (number l, rest)
  unfolding json_text
  switch_number l rest n st =
      rw (skip_ws-Opens l rest (json_text-Opens {d = 0} (number_fits n))) (switch_lexeme rest n st)

  pub switch_string :
      (t rest : Bytes)
      → NoNul t
      → switch elements members d (skip_ws (json_string t ++ rest)) ≡ parsed (string t, rest)
  unfolding switch skip_ws is_space json_string
  switch_string t rest n = rw (append_assoc, parse_string-json_string t rest n)

  pub switch_array :
      (s : Bytes)
      → d < max_depth
      → switch elements members d (skip_ws (b'[' ∷ s)) ≡ array_body elements (skip_ws s)
  unfolding switch skip_ws is_space
  switch_array s h = ground arith

  pub switch_object :
      (s : Bytes)
      → d < max_depth
      → switch elements members d (skip_ws (b'{' ∷ s)) ≡ object_body members (skip_ws s)
  unfolding switch skip_ws is_space
  switch_object s h = ground arith

pub array_body_empty :
    (loop : Bytes → Parsed (Items × Bytes)) (rest : Bytes)
    → array_body loop (skip_ws (b']' ∷ rest)) ≡ parsed (array no_items, rest)
unfolding array_body skip_ws is_space
array_body_empty loop rest = refl

pub object_body_empty :
    (loop : Bytes → Parsed (Members × Bytes)) (rest : Bytes)
    → object_body loop (skip_ws (b'}' ∷ rest)) ≡ parsed (object no_members, rest)
unfolding object_body skip_ws is_space
object_body_empty loop rest = refl

pub object_body-key :
    (loop : Bytes → Parsed (Members × Bytes)) (k rest : Bytes)
    → object_body loop (skip_ws (json_string k ++ rest))
      ≡ (loop (json_string k ++ rest) >>= λ (ms, after). parsed (object ms, after))
unfolding object_body skip_ws is_space json_string
object_body-key loop k rest = refl

-- What follows an element: the closing bracket, or a comma and the next one.
pub items_text-Stops : (xs : Items) (rest : Bytes) → Stops (items_text false xs ++ b']' ∷ rest)
unfolding json_text is_number_byte
items_text-Stops no_items rest = refl
items_text-Stops (item x xs) rest = refl

pub members_text-Stops :
    (ms : Members) (rest : Bytes) → Stops (members_text false ms ++ b'}' ∷ rest)
unfolding json_text is_number_byte
members_text-Stops no_members rest = refl
members_text-Stops (member k x ms) rest = refl
