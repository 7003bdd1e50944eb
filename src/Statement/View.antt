-- ===== src/Statement/View.antt =====
-- The result of a statement as a list of result sets with their rows, read one after the other: what
-- the cursor of frostlake_statement.c promises.
use frostlake_pdo.Json.Lookup.{at, get, item_at}
use frostlake_pdo.Json.Value.{
  Items, Json, Members, array, bool, item, member, no_items, no_members, null, number, object,
  string,
}
use frostlake_pdo.Prelude.{
  Bool, Bool-cases, List, Option, [], arith, codes, drop, false, inl, inr, leb, none, refl, some,
  suc, true, zero, ℕ, ◌<◌, ◌∷◌, ◌≡◌, ◌≤◌,
}
use frostlake_pdo.Statement.Column.{
  child_count, count_children, count_items, count_members, result_row_count,
}
use frostlake_pdo.Statement.Cursor.{
  Statement, current_row, enter_result_set, fetch, next_row, next_rowset,
}

-- What a node's entries give to `fl_json_at`: those of an array, and NULL for each of an object.
abbrev pub item_children : Items → List (Option Json)
item_children no_items = []
item_children (item x xs) = some x ∷ item_children xs

abbrev pub member_children : Members → List (Option Json)
member_children no_members = []
member_children (member k x ms) = none ∷ member_children ms

abbrev pub children : Option Json → List (Option Json)
children (some (array xs)) = item_children xs
children (some (object ms)) = member_children ms
children _ = []

-- The reader of a result: the columns of its result set, the row it stands on, and the rows and the
-- result sets still to come.
pub record Reading : Type 0 where
  pub columns : Option Json
  pub current : Option Json
  pub rows_left : List (Option Json)
  pub sets_left : List (Option Json)

abbrev pub take_row : Reading → Bool × Reading
take_row r = elim r.rows_left [
  | [] ↦ (false, r)
  | x ∷ xs ↦ (true, record r { current = x; rows_left = xs })
]

abbrev pub rows_of : Option Json → List (Option Json)
rows_of result_set = children (get result_set (codes "rows"))

-- A result set that was just entered: before its first row.
abbrev pub opened_set : Option Json → List (Option Json) → Reading
opened_set x sets = record {
  columns = get x (codes "columns");
  current = none;
  rows_left = rows_of x;
  sets_left = sets;
}

abbrev pub take_set : Reading → Bool × Reading
take_set r = elim r.sets_left [ [] ↦ (false, r) | x ∷ xs ↦ (true, opened_set x xs) ]

abbrev pub result_sets : Option Json → List (Option Json)
result_sets answer = children (get answer (codes "resultSets"))

-- The reader that a statement is.
abbrev pub view : Statement → Reading
view s = record {
  columns = s.columns;
  current = current_row s;
  rows_left = drop (next_row s.row) (children s.rows);
  sets_left = drop (suc s.result_set) (result_sets s.response);
}

abbrev pub view_of : Bool × Statement → Bool × Reading
view_of (more, s) = (more, view s)

drop-item_children :
    (xs : Items) (n : ℕ)
    → n < count_items xs
    → drop n (item_children xs) ≡ item_at n xs ∷ drop (suc n) (item_children xs)
unfolding item_at
drop-item_children no_items n h = absurd (omega arith)
drop-item_children (item x xs) zero h = refl
drop-item_children (item x xs) (suc n) h = drop-item_children xs n (omega arith)

drop-member_children :
    (ms : Members) (n : ℕ)
    → n < count_members ms
    → drop n (member_children ms) ≡ none ∷ drop (suc n) (member_children ms)
drop-member_children no_members n h = absurd (omega arith)
drop-member_children (member k x ms) zero h = refl
drop-member_children (member k x ms) (suc n) h = drop-member_children ms n (omega arith)

items_end : (xs : Items) (n : ℕ) → count_items xs ≤ n → drop n (item_children xs) ≡ []
items_end no_items zero h = refl
items_end no_items (suc n) h = refl
items_end (item x xs) zero h = absurd (omega arith)
items_end (item x xs) (suc n) h = items_end xs n (omega arith)

members_end : (ms : Members) (n : ℕ) → count_members ms ≤ n → drop n (member_children ms) ≡ []
members_end no_members zero h = refl
members_end no_members (suc n) h = refl
members_end (member k x ms) zero h = absurd (omega arith)
members_end (member k x ms) (suc n) h = members_end ms n (omega arith)

abbrev no_rows : List (Option Json)
no_rows = []

drop_nil : (n : ℕ) → drop n no_rows ≡ no_rows
drop_nil zero = refl
drop_nil (suc n) = refl

drop-children :
    (node : Option Json) (n : ℕ)
    → leb (count_children node) n ≡ false
    → drop n (children node) ≡ at node n ∷ drop (suc n) (children node)
unfolding at child_count
drop-children (some (array xs)) n h = drop-item_children xs n (ground arith)
drop-children (some (object ms)) n h = drop-member_children ms n (ground arith)
drop-children (some null) n h = ground arith
drop-children (some (bool b)) n h = ground arith
drop-children (some (number l)) n h = ground arith
drop-children (some (string t)) n h = ground arith
drop-children none n h = ground arith

children_end :
    (node : Option Json) (n : ℕ) → leb (count_children node) n ≡ true → drop n (children node) ≡ []
unfolding child_count
children_end (some (array xs)) n h = items_end xs n (ground arith)
children_end (some (object ms)) n h = members_end ms n (ground arith)
children_end (some null) n h = drop_nil n
children_end (some (bool b)) n h = drop_nil n
children_end (some (number l)) n h = drop_nil n
children_end (some (string t)) n h = drop_nil n
children_end none n h = drop_nil n

fetch-view : (s : Statement) → view_of (fetch s) ≡ take_row (view s)
unfolding fetch
fetch-view s = elim (Bool-cases (leb (count_children s.rows) (next_row s.row))) [
  | inl over ↦ rw (over, children_end s.rows (next_row s.row) over) refl
  | inr more ↦ rw (more, drop-children s.rows (next_row s.row) more) refl
]

next_rowset-view : (s : Statement) → view_of (next_rowset s) ≡ take_set (view s)
unfolding next_rowset enter_result_set
next_rowset-view s =
    let sets = get s.response (codes "resultSets") in
    elim (Bool-cases (leb (count_children sets) (suc s.result_set))) [
      | inl over ↦ rw (over, children_end sets (suc s.result_set) over) refl
      | inr more ↦ rw (more, drop-children sets (suc s.result_set) more) refl
    ]

-- What a call of fetch leaves besides the view: the whole statement where there was no row, and all
-- but the row where there was one.
abbrev pub RowTaken : Statement → Bool × Statement → Type 0
RowTaken s (false, s') = s' ≡ s
RowTaken s (true, s') = s' ≡ record s { row = s'.row }

-- What a call of next_rowset leaves besides the view: the whole statement where there was no result
-- set. Where there was one, the answer and what was asked stay, and the counts that PDO is given are
-- those of the result set.
abbrev pub SetTaken : Statement → Bool × Statement → Type 0
SetTaken s (false, s') = s' ≡ s
SetTaken s (true, s') =
    (s'.result_set ≡ suc s.result_set)
    × (s' ≡ record s' {
      query = s.query;
      active_query = s.active_query;
      response = s.response;
      multi_statement_count = s.multi_statement_count;
      column_count = count_children s'.columns;
      row_count = result_row_count (at (get s.response (codes "resultSets")) s'.result_set);
    })

fetch-RowTaken : (s : Statement) → RowTaken s (fetch s)
unfolding fetch
fetch-RowTaken s = elim (Bool-cases (leb (count_children s.rows) (next_row s.row))) [
  | inl over ↦ rw over refl
  | inr more ↦ rw more refl
]

next_rowset-SetTaken : (s : Statement) → SetTaken s (next_rowset s)
unfolding next_rowset enter_result_set
next_rowset-SetTaken s =
    elim (Bool-cases
      (leb (count_children (get s.response (codes "resultSets"))) (suc s.result_set))) [
        | inl over ↦ rw over refl
        | inr more ↦ rw more (refl, refl)
      ]

-- The statement's cursor reads the list of result sets: `pdo_frostlake_stmt_fetch` takes the next row
-- of the result set it is in, and `pdo_frostlake_stmt_next_rowset` takes the next result set with its
-- columns; each answers whether there was one, and leaves the whole statement as it was where there
-- was none. Where there was one, fetch changes the row only, and next_rowset keeps the answer and the
-- query and gives PDO the counts of columns and rows of the result set that it enters.
pub cursor_refines :
    (s : Statement)
    → (view_of (fetch s) ≡ take_row (view s))
      × (view_of (next_rowset s) ≡ take_set (view s))
      × RowTaken s (fetch s)
      × SetTaken s (next_rowset s)
cursor_refines s = (fetch-view s, next_rowset-view s, fetch-RowTaken s, next_rowset-SetTaken s)
