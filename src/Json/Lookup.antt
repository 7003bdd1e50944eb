-- ===== src/Json/Lookup.antt =====
-- The lookups of json.c. A NULL node is none; a key is compared as a C string.
pub mod First
pub mod Long
use frostlake_pdo.Json.Value.{
  Items, Json, Members, array, bool, item, member, no_items, no_members, number, object, string,
}
use frostlake_pdo.Libc.{bytes_eq, strtol}
use frostlake_pdo.Prelude.{Bool, Bytes, Option, if◌then◌else◌, none, some, suc, zero, ℕ, ℤ}

unfoldable pub member_named : Bytes → Members → Option Json
member_named key no_members = none
member_named key (member k x ms) = if bytes_eq k key then some x else member_named key ms

-- `fl_json_get`
unfoldable pub get : Option Json → Bytes → Option Json
unfolding member_named
get (some (object ms)) key = member_named key ms
get _ key = none

abbrev pub text_of : Option Json → Option Bytes
text_of (some (string t)) = some t
text_of _ = none

-- `fl_json_get_string`
unfoldable pub get_string : Option Json → Bytes → Option Bytes
get_string node key = text_of (get node key)

unfoldable pub item_at : ℕ → Items → Option Json
item_at i no_items = none
item_at zero (item x xs) = some x
item_at (suc i) (item x xs) = item_at i xs

-- `fl_json_at`
unfoldable pub at : Option Json → ℕ → Option Json
at (some (array xs)) i = item_at i xs
at _ i = none

abbrev pub bool_of : Bool → Option Json → Bool
bool_of fallback (some (bool b)) = b
bool_of fallback _ = fallback

-- `fl_json_get_bool`
unfoldable pub get_bool : Option Json → Bytes → Bool → Bool
get_bool node key fallback = bool_of fallback (get node key)

abbrev pub long_of : ℤ → Option Json → ℤ
long_of fallback (some (number l)) = strtol l
long_of fallback _ = fallback

-- `fl_json_get_long`
unfoldable pub get_long : Option Json → Bytes → ℤ → ℤ
get_long node key fallback = long_of fallback (get node key)
