-- ===== src/Statement/Column/Names.antt =====
-- The type name that `snowflake_type_name` gives, by the table.
use frostlake_pdo.Libc.{toupper}
use frostlake_pdo.Prelude.{
  All, Bool, Bytes, List, Option, [], ap, ap₂, arith, codes, false, if◌then◌else◌, none, not, refl,
  some, sym, true, ℕ, ◌&&◌, ◌++◌, ◌==◌, ◌||◌, ◌∙◌, ◌∷◌, ◌≡◌,
}
use frostlake_pdo.Statement.Column.{
  binary_types, first_type, fixed_types, is_found, real_types, same_types, snowflake_type_name,
  type_is,
}
use frostlake_pdo.Statement.Column.Table.{
  IsPlain, IsPlainByte, bare_name, date_names, date_types, entry_named, entry_named-append,
  first_type-entry, names_behind_binary, names_behind_fixed, names_behind_real, or_else, same_table,
  same_type-entry, snowflake_names, table_of,
}
use frostlake_pdo.Wire.Session.{or_text}

plain_byte : ℕ → Bool
plain_byte n = toupper n == n && not (n == b'(' || n == b' ')

plain_name : Bytes → Bool
plain_name [] = true
plain_name (n ∷ name) = plain_byte n && plain_name name

plain_names : List Bytes → Bool
plain_names [] = true
plain_names (name ∷ names) = plain_name name && plain_names names

plain_byte-IsPlainByte : (n : ℕ) → plain_byte n ≡ true → IsPlainByte n
unfolding plain_byte
plain_byte-IsPlainByte n h = (ground arith, ground arith, ground arith)

plain_name-IsPlain : (name : Bytes) → plain_name name ≡ true → IsPlain name
unfolding plain_name
plain_name-IsPlain [] h = tt
plain_name-IsPlain (n ∷ name) h =
    (plain_byte-IsPlainByte n (ground arith), plain_name-IsPlain name (ground arith))

plain_names-IsPlain : (names : List Bytes) → plain_names names ≡ true → All IsPlain names
unfolding plain_names
plain_names-IsPlain [] h = tt
plain_names-IsPlain (name ∷ names) h =
    (plain_name-IsPlain name (ground arith), plain_names-IsPlain names (ground arith))

-- The order of the tests against the order of the table.
abbrev found_name : Bool → Bytes → Option Bytes
found_name found reported = if found then some reported else none

tests_in_order :
    (fixed real binary datetime timestamp : Bool) (same : Option Bytes) (f r b t text : Bytes)
    → or_text
        (or_else (found_name fixed f) (
          or_else (found_name real r) (
            or_else (found_name binary b) (
              or_else same (
                found_name
                  (is_found (if datetime then some t else if timestamp then some t else none))
                  t)))))
        text
      ≡ (if fixed
          then f
          else if real
          then r
          else if binary
          then b
          else elim same [ some name ↦ name | none ↦ if datetime || timestamp then t else text ])
tests_in_order true real binary datetime timestamp same f r b t text = refl
tests_in_order false true binary datetime timestamp same f r b t text = refl
tests_in_order false false true datetime timestamp same f r b t text = refl
tests_in_order false false false datetime timestamp (some name) f r b t text = refl
tests_in_order false false false true timestamp none f r b t text = refl
tests_in_order false false false false true none f r b t text = refl
tests_in_order false false false false false none f r b t text = refl

layer :
    (key : Bytes) (first second : List (Bytes × Bytes)) {x y : Option Bytes}
    → entry_named key first ≡ x
    → entry_named key second ≡ y
    → entry_named key (first ++ second) ≡ or_else x y
layer key first second p q = entry_named-append key first second ∙ ap₂ or_else p q

first_type-date_types :
    (s : Bytes)
    → first_type s date_types ≡ (
        if type_is s (codes "DATETIME")
        then some (codes "DATETIME")
        else if type_is s (codes "TIMESTAMP")
        then some (codes "TIMESTAMP")
        else none)
unfolding first_type
first_type-date_types s = refl

is_found-dates :
    (datetime timestamp : Bool) (d t u : Bytes)
    → is_found (if datetime then some d else if timestamp then some t else none)
      ≡ is_found (if datetime then some u else if timestamp then some u else none)
is_found-dates true timestamp d t u = refl
is_found-dates false true d t u = refl
is_found-dates false false d t u = refl

dates :
    (s t : Bytes)
    → found_name (is_found (first_type s date_types)) t
      ≡ found_name
          (is_found (
            if type_is s (codes "DATETIME")
            then some t
            else if type_is s (codes "TIMESTAMP")
            then some t
            else none))
          t
dates s t =
    ap (λ b. found_name b t)
      (ap is_found (first_type-date_types s)
        ∙ is_found-dates (type_is s (codes "DATETIME")) (type_is s (codes "TIMESTAMP")) _ _ t)

entry_named-first_type :
    (s : Bytes)
    → entry_named (bare_name s) snowflake_names
      ≡ or_else (found_name (is_found (first_type s fixed_types)) (codes "FIXED")) (
          or_else (found_name (is_found (first_type s real_types)) (codes "REAL")) (
            or_else (found_name (is_found (first_type s binary_types)) (codes "BINARY")) (
              or_else
                (first_type s same_types)
                (found_name (is_found (first_type s date_types)) (codes "TIMESTAMP_NTZ")))))
unfolding plain_names plain_name plain_byte
entry_named-first_type s =
    let key = bare_name s in
    layer key (table_of fixed_types (codes "FIXED")) names_behind_fixed
      (first_type-entry s (codes "FIXED") fixed_types (plain_names-IsPlain fixed_types refl))
      (layer key (table_of real_types (codes "REAL")) names_behind_real
        (first_type-entry s (codes "REAL") real_types (plain_names-IsPlain real_types refl))
        (layer key (table_of binary_types (codes "BINARY")) names_behind_binary
          (first_type-entry s (codes "BINARY") binary_types (plain_names-IsPlain binary_types refl))
          (layer key (same_table same_types) date_names
            (same_type-entry s same_types (plain_names-IsPlain same_types refl))
            (first_type-entry s (codes "TIMESTAMP_NTZ") date_types
              (plain_names-IsPlain date_types refl)))))

-- The type that a column is reported with is that of its bare name in the table of the engine's names,
-- and TEXT for a name that is not there: what stands behind the name in brackets or behind a space does
-- not count, nor does the case of its letters.
pub snowflake_type_name-entry_named :
    (s : Bytes)
    → snowflake_type_name (some s)
      ≡ or_text (entry_named (bare_name s) snowflake_names) (codes "TEXT")
unfolding snowflake_type_name
snowflake_type_name-entry_named s = sym (
    ap (λ o. or_text o (codes "TEXT"))
      (entry_named-first_type s
        ∙ ap
            (λ o. or_else (found_name (is_found (first_type s fixed_types)) (codes "FIXED")) (
              or_else (found_name (is_found (first_type s real_types)) (codes "REAL")) (
                or_else (found_name (is_found (first_type s binary_types)) (codes "BINARY"))
                  (or_else (first_type s same_types) o))))
            (dates s (codes "TIMESTAMP_NTZ")))
    ∙ tests_in_order (is_found (first_type s fixed_types)) (is_found (first_type s real_types))
        (is_found (first_type s binary_types)) (type_is s (codes "DATETIME"))
        (type_is s (codes "TIMESTAMP")) (first_type s same_types) (codes "FIXED") (codes "REAL")
        (codes "BINARY") (codes "TIMESTAMP_NTZ") (codes "TEXT"))
