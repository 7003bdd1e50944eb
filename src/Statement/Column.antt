-- ===== src/Statement/Column.antt =====
-- What frostlake_statement.c reads off the metadata of a result set and of its columns.
pub mod Table
pub mod Names
use frostlake_pdo.Json.Lookup.{get, get_long, get_string}
use frostlake_pdo.Json.Value.{
  Items, Json, Members, array, item, member, no_items, no_members, object,
}
use frostlake_pdo.Libc.{bytes_eq, toupper}
use frostlake_pdo.Prelude.{
  Bool, Bytes, List, Option, [], codes, false, if◌then◌else◌, length, ltb, negsuc, none, pos, some,
  suc, true, ℕ, ℤ, ◌&&◌, ◌*◌, ◌/◌, ◌==◌, ◌||◌, ◌∷◌,
}

abbrev pub default_max_text_size : ℕ
default_max_text_size = 16777216

abbrev pub default_max_binary_size : ℕ
default_max_binary_size = default_max_text_size / 2

abbrev pub default_max_variant_size : ℕ
default_max_variant_size = 16777216

abbrev pub max_value_bytes : ℕ
max_value_bytes = 134217728

abbrev pub count_items : Items → ℕ
count_items no_items = 0
count_items (item x xs) = suc (count_items xs)

abbrev pub count_members : Members → ℕ
count_members no_members = 0
count_members (member k x ms) = suc (count_members ms)

-- `node->child_count`
unfoldable pub child_count : Json → ℕ
child_count (array xs) = count_items xs
child_count (object ms) = count_members ms
child_count _ = 0

abbrev pub count_children : Option Json → ℕ
count_children none = 0
count_children (some node) = child_count node

abbrev pub not_negative : ℤ → Bool
not_negative (pos n) = true
not_negative (negsuc n) = false

-- `pdo_frostlake_result_row_count`
unfoldable pub result_row_count : Option Json → ℤ
unfolding child_count
result_row_count result_set =
    if not_negative (get_long result_set (codes "updateCount") (negsuc 0))
    then get_long result_set (codes "updateCount") (negsuc 0)
    else pos (count_children (get result_set (codes "rows")))

-- What may stand behind a type's name: nothing, or its parameters.
abbrev pub ends_type : Bytes → Bool
ends_type [] = true
ends_type (c ∷ _) = c == b'(' || c == b' '

-- `type_is`: `strncasecmp` over the bytes of the name, and the byte behind them.
unfoldable pub type_is : Bytes → Bytes → Bool
type_is data_type [] = ends_type data_type
type_is [] (n ∷ name) = false
type_is (c ∷ data_type) (n ∷ name) = toupper c == toupper n && type_is data_type name

-- The first entry of a table that is the type's name.
unfoldable pub first_type : Bytes → List Bytes → Option Bytes
unfolding type_is
first_type data_type [] = none
first_type data_type (name ∷ names) =
    if type_is data_type name then some name else first_type data_type names

abbrev pub fixed_types : List Bytes
fixed_types =
    codes "NUMBER"
    ∷ codes "DECIMAL"
    ∷ codes "NUMERIC"
    ∷ codes "INT"
    ∷ codes "INTEGER"
    ∷ codes "BIGINT"
    ∷ codes "SMALLINT"
    ∷ codes "TINYINT"
    ∷ codes "BYTEINT"
    ∷ []

abbrev pub real_types : List Bytes
real_types = codes "FLOAT" ∷ codes "FLOAT4" ∷ codes "FLOAT8" ∷ codes "DOUBLE" ∷ codes "REAL" ∷ []

abbrev pub binary_types : List Bytes
binary_types = codes "BINARY" ∷ codes "VARBINARY" ∷ []

abbrev pub same_types : List Bytes
same_types =
    codes "BOOLEAN"
    ∷ codes "DATE"
    ∷ codes "TIME"
    ∷ codes "TIMESTAMP_NTZ"
    ∷ codes "TIMESTAMP_LTZ"
    ∷ codes "TIMESTAMP_TZ"
    ∷ codes "VARIANT"
    ∷ codes "OBJECT"
    ∷ codes "ARRAY"
    ∷ codes "DECFLOAT"
    ∷ []

abbrev pub is_found : Option Bytes → Bool
is_found none = false
is_found (some _) = true

-- The body of `snowflake_type_name`, for a type that is named.
unfoldable pub type_name : Bytes → Bytes
unfolding first_type
type_name data_type =
    if is_found (first_type data_type fixed_types)
    then codes "FIXED"
    else if is_found (first_type data_type real_types)
    then codes "REAL"
    else if is_found (first_type data_type binary_types)
    then codes "BINARY"
    else elim (first_type data_type same_types) [
      | some name ↦ name
      | none ↦
          if type_is data_type (codes "DATETIME") || type_is data_type (codes "TIMESTAMP")
          then codes "TIMESTAMP_NTZ"
          else codes "TEXT"
    ]

-- `snowflake_type_name`
unfoldable pub snowflake_type_name : Option Bytes → Bytes
unfolding type_name
snowflake_type_name none = codes "TEXT"
snowflake_type_name (some data_type) = type_name data_type

-- Four bytes to a character, up to the largest value.
abbrev pub text_size : ℤ → ℕ
text_size (negsuc n) = default_max_text_size
text_size (pos n) = if ltb (max_value_bytes / 4) n then max_value_bytes else n * 4

abbrev pub binary_size : ℤ → ℕ
binary_size (negsuc n) = default_max_binary_size
binary_size (pos n) = n

-- The tests of `column_byte_size` on the type's Snowflake name.
unfoldable pub byte_size : Bytes → ℤ → ℕ
byte_size type length =
    if bytes_eq type (codes "TEXT")
    then text_size length
    else if bytes_eq type (codes "BINARY")
    then binary_size length
    else if bytes_eq type (codes "VARIANT")
        || (bytes_eq type (codes "OBJECT") || bytes_eq type (codes "ARRAY"))
    then default_max_variant_size
    else if bytes_eq type (codes "BOOLEAN")
    then 1
    else 0

-- `column_byte_size`
unfoldable pub column_byte_size : Option Json → ℕ
unfolding byte_size
column_byte_size column =
    byte_size (snowflake_type_name (get_string column (codes "dataType")))
      (get_long column (codes "length") (negsuc 0))
