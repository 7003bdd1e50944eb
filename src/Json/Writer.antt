-- ===== src/Json/Writer.antt =====
-- `pdo_frostlake_append_json` of frostlake_sql.c: a node's JSON text.
use frostlake_pdo.Json.Text.{json_string}
use frostlake_pdo.Json.Value.{
  Items, Json, Members, array, bool, bool_text, item, member, no_items, no_members, null, number,
  object, string,
}
use frostlake_pdo.Prelude.{Bool, Bytes, [], codes, false, true, ◌++◌, ◌∷◌}

-- The comma before each child but the first; the flag is `i == 0`.
abbrev pub separator : Bool → Bytes
separator true = []
separator false = b',' ∷ []

unfoldable mutual
  pub json_text : Json → Bytes
  json_text null = codes "null"
  json_text (bool b) = bool_text b
  json_text (number l) = l
  json_text (string t) = json_string t
  json_text (array xs) = b'[' ∷ (items_text true xs ++ b']' ∷ [])
  json_text (object ms) = b'{' ∷ (members_text true ms ++ b'}' ∷ [])

  pub items_text : Bool → Items → Bytes
  items_text first no_items = []
  items_text first (item x xs) = separator first ++ (json_text x ++ items_text false xs)

  pub members_text : Bool → Members → Bytes
  members_text first no_members = []
  members_text first (member k x ms) =
      separator first ++ (json_string k ++ (b':' ∷ (json_text x ++ members_text false ms)))
