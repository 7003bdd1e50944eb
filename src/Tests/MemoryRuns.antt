-- ===== src/Tests/MemoryRuns.antt =====
-- Runs of src/json.c with its memory, and of its buffer.
-- An allocator of 2^62 bytes, and one that refuses its fifth request.
use frostlake_pdo.Json.Buffer.{strbuf_init}
use frostlake_pdo.Json.Buffer.Spelled.{Spelled, append_json_string, append_json_string-Spelled}
use frostlake_pdo.Json.Memory.{Memory, Node, Run, node_tree}
use frostlake_pdo.Json.Memory.Lifecycle.{
  ParseOutcome, freed, json_parse-ParseOutcome, json_parse-freed,
}
use frostlake_pdo.Json.Memory.Nested.{json_parse}
use frostlake_pdo.Json.Reader.{is_number_byte, is_space, lexeme, number_bytes, parse_number}
use frostlake_pdo.Json.Text.{json_string}
use frostlake_pdo.Json.Value.{Json, array, item, member, no_items, no_members, number, object}
use frostlake_pdo.Prelude.{
  Bool, Bytes, Option, arith, codes, false, if◌then◌else◌, leb, none, out_of_fuel, parsed, refl,
  refused, some, ℕ, ◌<◌, ◌==◌, ◌^◌, ◌≡◌,
}

abbrev roomy : ℕ → ℕ → Bool
roomy k n = leb n (2 ^ 62)

abbrev fifth_refused : ℕ → ℕ → Bool
fifth_refused k n = if k == 4 then false else leb n (2 ^ 62)

abbrev fresh : Memory
fresh = record { live = λ n. 0; asked = 0; denied = false; fault = false }

-- {"a":[1]}
abbrev nested_text : Bytes
nested_text = codes "{\"a\":[1]}"

roomy-bounded : (k n : ℕ) → 2 ^ 62 < n → roomy k n ≡ false
roomy-bounded k n h = ground arith

fifth_refused-bounded : (k n : ℕ) → 2 ^ 62 < n → fifth_refused k n ≡ false
fifth_refused-bounded k n h = ground arith

json_parse-ParseOutcome_example :
    ParseOutcome nested_text fresh (json_parse roomy nested_text fresh)
json_parse-ParseOutcome_example = json_parse-ParseOutcome roomy roomy-bounded nested_text fresh refl

json_parse-freed_example :
    ((n : ℕ) → (freed (json_parse fifth_refused nested_text fresh)).live n ≡ 0)
    × ((freed (json_parse fifth_refused nested_text fresh)).fault ≡ false)
json_parse-freed_example =
    json_parse-freed fifth_refused fifth_refused-bounded nested_text fresh refl

-- What a run gave, without the memory.
abbrev outcome_of : Run Node → Option Json
outcome_of (parsed t, m) = some (node_tree t)
outcome_of (refused, m) = none
outcome_of (out_of_fuel, m) = none

nested-read :
    outcome_of (json_parse roomy nested_text fresh)
    ≡ some (object (member (codes "a") (array (item (number (codes "1")) no_items)) no_members))
unfolding json_parse node_tree is_space parse_number lexeme number_bytes is_number_byte
nested-read = refl

nested-denied : outcome_of (json_parse fifth_refused nested_text fresh) ≡ none
unfolding json_parse node_tree is_space parse_number lexeme number_bytes is_number_byte
nested-denied = refl

-- An allocation of at most 512 bytes.
abbrev half_kilobyte : ℕ → Bool
half_kilobyte n = leb n 512

append_json_string-Spelled_example :
    Spelled half_kilobyte
      (json_string (codes "a\"b"))
      strbuf_init
      (append_json_string half_kilobyte (codes "a\"b") strbuf_init)
unfolding strbuf_init
append_json_string-Spelled_example =
    append_json_string-Spelled half_kilobyte (codes "a\"b") strbuf_init (omega arith)
