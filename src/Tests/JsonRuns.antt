-- ===== src/Tests/JsonRuns.antt =====
-- Runs of the reader and the writer of src/json.c.
use frostlake_pdo.Json.Buffer.{Extended, strbuf_append, strbuf_append-Extended, strbuf_init}
use frostlake_pdo.Json.Fits.{
  Fits, IsLexeme, array_fits, item_fits, member_fits, no_items_fit, no_members_fit, null_fits,
  number_fits, number_text, object_fits, string_fits,
}
use frostlake_pdo.Json.Reader.{is_number_byte, parse}
use frostlake_pdo.Json.Reader.Sound.{parse-Fits, parse-ne-out_of_fuel}
use frostlake_pdo.Json.RoundTrip.{parse-json_text}
use frostlake_pdo.Json.Text.{
  escape, escape_byte, hex4, hex_value, json_string, low_half, string_body, unicode, utf8,
}
use frostlake_pdo.Json.Text.RoundTrip.{string_body-escape}
use frostlake_pdo.Json.Text.Utf8.{IsScalar, IsUtf8, unicode-surrogates, utf8-IsUtf8_iff}
use frostlake_pdo.Json.Value.{
  Json, array, item, member, no_items, no_members, null, number, object, string,
}
use frostlake_pdo.Json.Writer.{items_text, json_text, members_text}
use frostlake_pdo.Prelude.{
  Bool, Bytes, [], arith, codes, leb, out_of_fuel, parsed, refl, ℕ, ◌++◌, ◌↔◌, ◌≡◌, ◌≢◌,
}

-- {"a":[1,null],"b":"x\ny"}
abbrev small : Json
small = object (
    member (codes "a") (array (item (number (codes "1")) (item null no_items)))
      (member (codes "b") (string (codes "x\ny")) no_members))

abbrev small_text : Bytes
small_text = codes "{\"a\":[1,null],\"b\":\"x\\ny\"}"

small-written : json_text small ≡ small_text
unfolding json_text items_text members_text json_string escape escape_byte
small-written = refl

one-IsLexeme : IsLexeme (codes "1")
unfolding is_number_byte
one-IsLexeme = number_text refl tt

small-Fits : Fits 0 small
small-Fits = object_fits (omega arith) (
    member_fits (ground arith)
      (array_fits (omega arith)
        (item_fits (number_fits one-IsLexeme) (item_fits null_fits no_items_fit)))
      (member_fits (ground arith) (string_fits (ground arith)) no_members_fit))

parse-json_text_example : parse (json_text small) ≡ parsed small
parse-json_text_example = parse-json_text small-Fits

small-parsed : parse small_text ≡ parsed small
small-parsed = rw small-written at parse-json_text_example

parse-Fits_example : Fits 0 small
parse-Fits_example = parse-Fits small_text small-parsed

parse-ne-out_of_fuel_example : parse (codes "[[[") ≢ out_of_fuel
parse-ne-out_of_fuel_example = parse-ne-out_of_fuel (codes "[[[")

string_body-escape_example :
    string_body (escape (codes "a\"b\\") ++ codes "\",1") ≡ parsed (codes "a\"b\\", codes ",1")
string_body-escape_example = string_body-escape (codes "a\"b\\") (codes ",1") (ground arith)

utf8-IsUtf8_iff_example : IsUtf8 0xD800 (utf8 0xD800) ↔ IsScalar 0xD800
utf8-IsUtf8_iff_example = utf8-IsUtf8_iff 0xD800

unicode-surrogates_example : unicode (codes "d83d\\ude00!") ≡ parsed (utf8 0x1F600, codes "!")
unicode-surrogates_example = unicode-surrogates 0x1F600 (codes "!") (omega arith) (omega arith)

-- A high surrogate takes any second escape with it.
unpaired_surrogate : unicode (codes "d800\\u0041") ≡ parsed (utf8 0x2441, [])
unfolding unicode hex4 hex_value low_half
unpaired_surrogate = refl

-- An allocation of at most 512 bytes.
abbrev half_kilobyte : ℕ → Bool
half_kilobyte n = leb n 512

strbuf_append-Extended_example :
    Extended half_kilobyte
      (codes "[1]")
      strbuf_init
      (strbuf_append half_kilobyte (codes "[1]") strbuf_init)
unfolding strbuf_init
strbuf_append-Extended_example =
    strbuf_append-Extended half_kilobyte (codes "[1]") strbuf_init (omega arith)
