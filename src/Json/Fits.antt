-- ===== src/Json/Fits.antt =====
-- The nodes that the reader can return, as a specification that does not mention it: the texts are
-- C strings, the numbers are lexemes, and the nesting stays within FL_JSON_MAX_DEPTH.
use frostlake_pdo.Json.Reader.{is_number_byte, max_depth}
use frostlake_pdo.Json.Text.{NoNul}
use frostlake_pdo.Json.Value.{
  Items, Json, Members, array, bool, item, member, no_items, no_members, null, number, object,
  string,
}
use frostlake_pdo.Prelude.{All, Bool, Bytes, arith, max, suc, true, ℕ, ◌+◌, ◌<◌, ◌∷◌, ◌≡◌, ◌≤◌}

-- One or more bytes of a number.
pub data IsLexeme : Bytes → Type 0 where
  number_text :
      {c : ℕ} {l : Bytes}
      → is_number_byte c ≡ true
      → All (λ b. is_number_byte b ≡ true) l
      → IsLexeme (c ∷ l)

-- `Fits d v`: `v` can stand inside `d` arrays and objects.
mutual
  pub data Fits : ℕ → Json → Type 0 where
    null_fits : {d : ℕ} → Fits d null
    bool_fits : {d : ℕ} {b : Bool} → Fits d (bool b)
    number_fits : {d : ℕ} {l : Bytes} → IsLexeme l → Fits d (number l)
    string_fits : {d : ℕ} {t : Bytes} → NoNul t → Fits d (string t)
    array_fits : {d : ℕ} {xs : Items} → d < max_depth → FitsItems (suc d) xs → Fits d (array xs)
    object_fits :
        {d : ℕ} {ms : Members} → d < max_depth → FitsMembers (suc d) ms → Fits d (object ms)

  pub data FitsItems : ℕ → Items → Type 0 where
    no_items_fit : {d : ℕ} → FitsItems d no_items
    item_fits :
        {d : ℕ} {x : Json} {xs : Items} → Fits d x → FitsItems d xs → FitsItems d (item x xs)

  pub data FitsMembers : ℕ → Members → Type 0 where
    no_members_fit : {d : ℕ} → FitsMembers d no_members
    member_fits :
        {d : ℕ} {k : Bytes} {x : Json} {ms : Members}
        → NoNul k
        → Fits d x
        → FitsMembers d ms
        → FitsMembers d (member k x ms)

-- How deep the arrays and objects of a node nest.
unfoldable mutual
  pub nesting : Json → ℕ
  nesting null = 0
  nesting (bool b) = 0
  nesting (number l) = 0
  nesting (string t) = 0
  nesting (array xs) = suc (nesting_items xs)
  nesting (object ms) = suc (nesting_members ms)

  pub nesting_items : Items → ℕ
  nesting_items no_items = 0
  nesting_items (item x xs) = max (nesting x) (nesting_items xs)

  pub nesting_members : Members → ℕ
  nesting_members no_members = 0
  nesting_members (member k x ms) = max (nesting x) (nesting_members ms)

mutual
  unfolding nesting

  add-nesting-le : {d : ℕ} {v : Json} → Fits d v → d ≤ max_depth → d + nesting v ≤ max_depth
  add-nesting-le null_fits h = omega arith
  add-nesting-le bool_fits h = omega arith
  add-nesting-le (number_fits l) h = omega arith
  add-nesting-le (string_fits t) h = omega arith
  add-nesting-le (array_fits lt xs) h = omega (arith, add-nesting_items-le xs (omega arith))
  add-nesting-le (object_fits lt ms) h = omega (arith, add-nesting_members-le ms (omega arith))

  add-nesting_items-le :
      {d : ℕ} {xs : Items} → FitsItems d xs → d ≤ max_depth → d + nesting_items xs ≤ max_depth
  add-nesting_items-le no_items_fit h = omega arith
  add-nesting_items-le (item_fits x xs) h =
      omega (arith, add-nesting-le x h, add-nesting_items-le xs h)

  add-nesting_members-le :
      {d : ℕ} {ms : Members} → FitsMembers d ms → d ≤ max_depth → d + nesting_members ms ≤ max_depth
  add-nesting_members-le no_members_fit h = omega arith
  add-nesting_members-le (member_fits k x ms) h =
      omega (arith, add-nesting-le x h, add-nesting_members-le ms h)

pub Fits-nesting : {v : Json} → Fits 0 v → nesting v ≤ max_depth
Fits-nesting h = omega (arith, add-nesting-le h (omega arith))
