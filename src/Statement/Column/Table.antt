-- ===== src/Statement/Column/Table.antt =====
-- A table of the engine's type names, and the tests of `snowflake_type_name` against it.
-- The name of a type without its parameters, in capitals.
use frostlake_pdo.Libc.{bytes_eq, toupper}
use frostlake_pdo.Prelude.{
  All, Bool-cases, Bytes, List, Option, [], arith, codes, false, if◌then◌else◌, inl, inr, none,
  refl, some, sym, true, ℕ, ◌++◌, ◌==◌, ◌||◌, ◌∷◌, ◌≡◌, ◌≢◌,
}
use frostlake_pdo.Statement.Column.{
  binary_types, first_type, fixed_types, is_found, real_types, same_types, type_is,
}

abbrev pub bare_name : Bytes → Bytes
bare_name [] = []
bare_name (c ∷ s) = if c == b'(' || c == b' ' then [] else toupper c ∷ bare_name s

-- The engine's names, each with the name that Snowflake's metadata has for it.
abbrev pub table_of : List Bytes → Bytes → List (Bytes × Bytes)
table_of [] reported = []
table_of (name ∷ names) reported = (name, reported) ∷ table_of names reported

abbrev pub same_table : List Bytes → List (Bytes × Bytes)
same_table [] = []
same_table (name ∷ names) = (name, name) ∷ same_table names

abbrev pub date_types : List Bytes
date_types = codes "DATETIME" ∷ codes "TIMESTAMP" ∷ []

abbrev pub date_names : List (Bytes × Bytes)
date_names = table_of date_types (codes "TIMESTAMP_NTZ")

abbrev pub names_behind_binary : List (Bytes × Bytes)
names_behind_binary = same_table same_types ++ date_names

abbrev pub names_behind_real : List (Bytes × Bytes)
names_behind_real = table_of binary_types (codes "BINARY") ++ names_behind_binary

abbrev pub names_behind_fixed : List (Bytes × Bytes)
names_behind_fixed = table_of real_types (codes "REAL") ++ names_behind_real

abbrev pub snowflake_names : List (Bytes × Bytes)
snowflake_names = table_of fixed_types (codes "FIXED") ++ names_behind_fixed

-- The first entry of exactly that name.
abbrev pub entry_named : Bytes → List (Bytes × Bytes) → Option Bytes
entry_named key [] = none
entry_named key ((name, reported) ∷ table) =
    let rest = entry_named key table in if bytes_eq key name then some reported else rest

-- A name in a table is of capitals, digits and underscores.
abbrev pub IsPlainByte : ℕ → Type 0
IsPlainByte n = (toupper n ≡ n) × (n ≢ b'(') × (n ≢ b' ')

abbrev pub IsPlain : Bytes → Type 0
IsPlain = All IsPlainByte

differs :
    (c n : ℕ)
    → toupper n ≡ n
    → n ≢ b'('
    → n ≢ b' '
    → (c == b'(' || c == b' ') ≡ true
    → (toupper c == toupper n) ≡ false
differs c n capital no_bracket no_space ends = ground arith

type_is-bare_name : (s name : Bytes) → IsPlain name → type_is s name ≡ bytes_eq (bare_name s) name
unfolding type_is bytes_eq
type_is-bare_name [] [] h = refl
type_is-bare_name (c ∷ s) [] h = ground arith
type_is-bare_name [] (n ∷ name) h = refl
type_is-bare_name (c ∷ s) (n ∷ name) ((capital, no_bracket, no_space), h) =
    elim (Bool-cases (c == b'(' || c == b' ')) [
      | inl ends ↦ rw (ends, differs c n capital no_bracket no_space ends) refl
      | inr goes_on ↦ rw (goes_on, capital, type_is-bare_name s name h) refl
    ]

pub first_type-entry :
    (s reported : Bytes) (names : List Bytes)
    → All IsPlain names
    → entry_named (bare_name s) (table_of names reported)
      ≡ (if is_found (first_type s names) then some reported else none)
unfolding first_type
first_type-entry s reported [] h = refl
first_type-entry s reported (name ∷ names) (hn, h) =
    rw (sym (type_is-bare_name s name hn)) (elim (Bool-cases (type_is s name)) [
      | inl e ↦ rw e refl
      | inr e ↦ rw e (first_type-entry s reported names h)
    ])

pub same_type-entry :
    (s : Bytes) (names : List Bytes)
    → All IsPlain names
    → entry_named (bare_name s) (same_table names) ≡ first_type s names
unfolding first_type
same_type-entry s [] h = refl
same_type-entry s (name ∷ names) (hn, h) =
    rw (sym (type_is-bare_name s name hn)) (elim (Bool-cases (type_is s name)) [
      | inl e ↦ rw e refl
      | inr e ↦ rw e (same_type-entry s names h)
    ])

-- A name that the first table has not is looked up in the second.
abbrev pub or_else : Option Bytes → Option Bytes → Option Bytes
or_else none second = second
or_else (some reported) second = some reported

pub entry_named-append :
    (key : Bytes) (first second : List (Bytes × Bytes))
    → entry_named key (first ++ second) ≡ or_else (entry_named key first) (entry_named key second)
entry_named-append key [] second = refl
entry_named-append key ((name, reported) ∷ first) second = elim (Bool-cases (bytes_eq key name)) [
  | inl e ↦ rw e refl
  | inr e ↦ rw e (entry_named-append key first second)
]
