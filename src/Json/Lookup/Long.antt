-- ===== src/Json/Lookup/Long.antt =====
-- Integers behind a key.
use frostlake_pdo.Json.Lookup.{get, get_long}
use frostlake_pdo.Json.Value.{Json, number}
use frostlake_pdo.Libc.{decimal}
use frostlake_pdo.Libc.Digits.{InLong, strtol-decimal}
use frostlake_pdo.Prelude.{Bytes, Option, some, ℤ, ◌≡◌}

-- An integer of a `long` that was written with `%ld` under a key is what `fl_json_get_long` gives,
-- whatever its fallback.
get_long-decimal :
    (object_node : Option Json) (key : Bytes) (n fallback : ℤ)
    → InLong n
    → get object_node key ≡ some (number (decimal n))
    → get_long object_node key fallback ≡ n
unfolding get_long
get_long-decimal object_node key n fallback h e = rw e (strtol-decimal n h)
