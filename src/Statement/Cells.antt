-- ===== src/Statement/Cells.antt =====
-- What PHP has of the cells of an answer that was read.
use frostlake_pdo.Json.Fits.{
  Fits, FitsItems, FitsMembers, array_fits, bool_fits, item_fits, member_fits, no_items_fit,
  no_members_fit, null_fits, number_fits, object_fits, string_fits,
}
use frostlake_pdo.Json.Lookup.{at, get, get_string, item_at, member_named}
use frostlake_pdo.Json.Reader.{parse}
use frostlake_pdo.Json.Reader.Sound.{parse-Fits}
use frostlake_pdo.Json.RoundTrip.{parse-json_text}
use frostlake_pdo.Json.Value.{
  Items, Json, Members, array, bool, bool_text, null, number, object, string,
}
use frostlake_pdo.Json.Writer.{json_text}
use frostlake_pdo.Libc.{bytes_eq, bytes_eq_iff}
use frostlake_pdo.Prelude.{
  Bool, Bool-cases, Bytes, Option, [], arith, codes, false, if◌then◌else◌, inl, inr, leb, none,
  parsed, refl, some, subst, suc, sym, true, zero, ℕ, ◌↔◌, ◌≡◌, ◌≤◌,
}
use frostlake_pdo.Statement.Column.{count_children, snowflake_type_name}
use frostlake_pdo.Statement.Cursor.{
  Fetched, Statement, cell_value, clear_result, current_row, enter_first, enter_result_set, fetch,
  first_result_set, get_col, keep_response, next_row, next_rowset, null_value, text_value,
}
use frostlake_pdo.Wire.Execute.Within.{branch}

-- The statements that read an answer: after the execution, and from call to call.
pub data Reads (answer : Json) : Statement → Type 0 where
  reads_first : (s : Statement) → Reads answer (keep_response answer (clear_result s))
  reads_row : {s : Statement} → Reads answer s → Reads answer (fetch s).1
  reads_set : {s : Statement} → Reads answer s → Reads answer (next_rowset s).1

-- The data type of a column as the server names it: a Boolean one, in any spelling.
abbrev pub IsBooleanType : Option Bytes → Type 0
IsBooleanType data_type = snowflake_type_name data_type ≡ codes "BOOLEAN"

-- A cell of a column of a type, and what `pdo_frostlake_stmt_get_col` gives for it: one form for each
-- kind of cell, and an array or object as a text that is read back as that same tree.
pub data Shows (data_type : Option Bytes) : Json → Fetched → Type 0 where
  shows_null : Shows data_type null null_value
  shows_true : IsBooleanType data_type → Shows data_type (bool true) (text_value (codes "1"))
  shows_false : IsBooleanType data_type → Shows data_type (bool false) (text_value [])
  shows_word :
      (b : Bool) → ¬ (IsBooleanType data_type) → Shows data_type (bool b) (text_value (bool_text b))
  shows_number : (l : Bytes) → Shows data_type (number l) (text_value l)
  shows_string : (t : Bytes) → Shows data_type (string t) (text_value t)
  shows_array :
      {xs : Items} (t : Bytes)
      → parse t ≡ parsed (array xs)
      → Shows data_type (array xs) (text_value t)
  shows_object :
      {ms : Members} (t : Bytes)
      → parse t ≡ parsed (object ms)
      → Shows data_type (object ms) (text_value t)

-- A node that fits deeper in a tree fits on its own.
mutual
  lower-Fits : {e d : ℕ} {v : Json} → Fits d v → e ≤ d → Fits e v
  lower-Fits null_fits h = null_fits
  lower-Fits bool_fits h = bool_fits
  lower-Fits (number_fits l) h = number_fits l
  lower-Fits (string_fits t) h = string_fits t
  lower-Fits (array_fits lt xs) h = array_fits (omega arith) (lower-FitsItems xs (omega arith))
  lower-Fits (object_fits lt ms) h = object_fits (omega arith) (lower-FitsMembers ms (omega arith))

  lower-FitsItems : {e d : ℕ} {xs : Items} → FitsItems d xs → e ≤ d → FitsItems e xs
  lower-FitsItems no_items_fit h = no_items_fit
  lower-FitsItems (item_fits x xs) h = item_fits (lower-Fits x h) (lower-FitsItems xs h)

  lower-FitsMembers : {e d : ℕ} {ms : Members} → FitsMembers d ms → e ≤ d → FitsMembers e ms
  lower-FitsMembers no_members_fit h = no_members_fit
  lower-FitsMembers (member_fits k x ms) h = member_fits k (lower-Fits x h) (lower-FitsMembers ms h)

abbrev FitsAny : Option Json → Type 0
FitsAny none = Unit
FitsAny (some v) = Fits 0 v

item_at-FitsAny : {d : ℕ} {xs : Items} (i : ℕ) → FitsItems d xs → FitsAny (item_at i xs)
unfolding item_at
item_at-FitsAny zero no_items_fit = tt
item_at-FitsAny (suc i) no_items_fit = tt
item_at-FitsAny zero (item_fits x xs) = lower-Fits x (omega arith)
item_at-FitsAny (suc i) (item_fits x xs) = item_at-FitsAny i xs

at-FitsAny : (node : Option Json) (i : ℕ) → FitsAny node → FitsAny (at node i)
unfolding at
at-FitsAny none i h = tt
at-FitsAny (some null) i h = tt
at-FitsAny (some (bool b)) i h = tt
at-FitsAny (some (number l)) i h = tt
at-FitsAny (some (string t)) i h = tt
at-FitsAny (some (array xs)) i (array_fits lt h) = item_at-FitsAny i h
at-FitsAny (some (object ms)) i h = tt

member_named-FitsAny :
    {d : ℕ} {ms : Members} (key : Bytes) → FitsMembers d ms → FitsAny (member_named key ms)
unfolding member_named
member_named-FitsAny key no_members_fit = tt
member_named-FitsAny key (member_fits {k} {x} {ms} nk hx hs) =
    branch FitsAny (bytes_eq k key) (lower-Fits hx (omega arith)) (member_named-FitsAny key hs)

get-FitsAny : (node : Option Json) (key : Bytes) → FitsAny node → FitsAny (get node key)
unfolding get
get-FitsAny none key h = tt
get-FitsAny (some null) key h = tt
get-FitsAny (some (bool b)) key h = tt
get-FitsAny (some (number l)) key h = tt
get-FitsAny (some (string t)) key h = tt
get-FitsAny (some (array xs)) key h = tt
get-FitsAny (some (object ms)) key (object_fits lt h) = member_named-FitsAny key h

module _ (answer : Json) (fits : Fits 0 answer) where
  abbrev Kept : Statement → Type 0
  Kept s = (s.response ≡ some answer) × FitsAny s.rows

  set-FitsAny : (i : ℕ) → FitsAny (at (get (some answer) (codes "resultSets")) i)
  set-FitsAny i = at-FitsAny _ i (get-FitsAny (some answer) (codes "resultSets") fits)

  enter_first-Kept :
      (first : Option Json) (s : Statement)
      → FitsAny first
      → s.response ≡ some answer
      → s.rows ≡ none
      → Kept (enter_first first s)
  unfolding enter_result_set
  enter_first-Kept none s h e no_rows = (e, subst FitsAny (sym no_rows) tt)
  enter_first-Kept (some first) s h e no_rows = (e, get-FitsAny (some first) (codes "rows") h)

  fetch-Kept : (s : Statement) → Kept s → Kept (fetch s).1
  unfolding fetch
  fetch-Kept s h =
      branch (λ (r : Bool × Statement). Kept r.1) (leb (count_children s.rows) (next_row s.row)) h h

  next_rowset-Kept : (s : Statement) → Kept s → Kept (next_rowset s).1
  unfolding next_rowset enter_result_set
  next_rowset-Kept s h =
      let sets = get s.response (codes "resultSets") in
      branch (λ (r : Bool × Statement). Kept r.1) (leb (count_children sets) (suc s.result_set)) h
        (
          h.0,
          get-FitsAny (at sets (suc s.result_set)) (codes "rows") (
              subst (λ o. FitsAny (at (get o (codes "resultSets")) (suc s.result_set))) (sym h.0)
                (set-FitsAny (suc s.result_set))),
        )

  Reads-Kept : {s : Statement} → Reads answer s → Kept s
  unfolding keep_response clear_result
  Reads-Kept (reads_first s) =
      enter_first-Kept (first_result_set (some answer))
        (record (clear_result s) { response = some answer }) (set-FitsAny 0) refl refl
  Reads-Kept (reads_row {s} r) = fetch-Kept s (Reads-Kept r)
  Reads-Kept (reads_set {s} r) = next_rowset-Kept s (Reads-Kept r)

row-FitsAny :
    (rows : Option Json) (row : Option ℕ)
    → FitsAny rows
    → FitsAny (elim row as (λ _. Option Json) [ none ↦ none | some i ↦ at rows i ])
row-FitsAny rows none h = tt
row-FitsAny rows (some i) h = at-FitsAny rows i h

current_row-FitsAny : (s : Statement) → FitsAny s.rows → FitsAny (current_row s)
current_row-FitsAny s h = row-FitsAny s.rows s.row h

abbrev is_boolean : Option Bytes → Bool
is_boolean data_type = bytes_eq (snowflake_type_name data_type) (codes "BOOLEAN")

is_boolean_iff :
    (data_type : Option Bytes) → (is_boolean data_type ≡ true) ↔ IsBooleanType data_type
is_boolean_iff data_type = bytes_eq_iff (snowflake_type_name data_type) (codes "BOOLEAN")

flag-Shows :
    (data_type : Option Bytes) (b : Bool)
    → IsBooleanType data_type
    → Shows data_type (bool b) (if b then text_value (codes "1") else text_value [])
flag-Shows data_type true named = shows_true named
flag-Shows data_type false named = shows_false named

bool-Shows :
    (data_type : Option Bytes) (b : Bool) → Shows data_type (bool b) (cell_value data_type (bool b))
unfolding cell_value
bool-Shows data_type b = elim (Bool-cases (is_boolean data_type)) [
  | inl e ↦ rw e (flag-Shows data_type b ((is_boolean_iff data_type).0 e))
  | inr e ↦ rw e (shows_word b λ named. ground (arith, e, (is_boolean_iff data_type).1 named))
]

cell_value-Shows :
    (data_type : Option Bytes) (x : Json) → Fits 0 x → Shows data_type x (cell_value data_type x)
unfolding cell_value
cell_value-Shows data_type null h = shows_null
cell_value-Shows data_type (bool b) h = bool-Shows data_type b
cell_value-Shows data_type (number l) h = shows_number l
cell_value-Shows data_type (string t) h = shows_string t
cell_value-Shows data_type (array xs) h = shows_array (json_text (array xs)) (parse-json_text h)
cell_value-Shows data_type (object ms) h = shows_object (json_text (object ms)) (parse-json_text h)

-- On a statement that reads an answer that the JSON reader gave for a body, after any calls of fetch
-- and next_rowset, the value of a cell is NULL for null, and only for null; the text of a string or a
-- number; for a Boolean `1` or nothing in a Boolean column and its word in any other; and for an array
-- or object a text that is read back as that same tree.
pub get_col-Shows :
    (body : Bytes) (answer : Json) (s : Statement) (colno : ℕ) (x : Json)
    → parse body ≡ parsed answer
    → Reads answer s
    → at (current_row s) colno ≡ some x
    → Shows (get_string (at s.columns colno) (codes "dataType")) x (get_col s colno)
unfolding get_col
get_col-Shows body answer s colno x e reads cell =
    let kept = Reads-Kept answer (parse-Fits body e) reads in
    let fits =
      subst FitsAny cell (at-FitsAny (current_row s) colno (current_row-FitsAny s kept.1)) in
    rw cell (cell_value-Shows (get_string (at s.columns colno) (codes "dataType")) x fits)
