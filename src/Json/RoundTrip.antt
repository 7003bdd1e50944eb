-- ===== src/Json/RoundTrip.antt =====
-- What `pdo_frostlake_append_json` writes, `fl_json_parse` reads.
mod Leaves
mod Steps
mod Forms
use frostlake_pdo.Json.Fits.{
  Fits, FitsItems, FitsMembers, array_fits, bool_fits, item_fits, member_fits, no_items_fit,
  no_members_fit, null_fits, number_fits, object_fits, string_fits,
}
use frostlake_pdo.Json.Lookup.{at}
use frostlake_pdo.Json.Reader.{
  end_of_input, parse, parse_elements, parse_key, parse_members, parse_value, skip_ws,
}
use frostlake_pdo.Json.RoundTrip.Forms.{
  elements_text, last_pair_text, last_text, length_array, length_next, length_next_pair,
  length_object, next_pair_text, next_text, pairs_text, parse_value_step, read_array,
  read_array_empty, read_bool, read_null, read_number, read_object, read_object_empty, read_string,
  round_last, round_last_pair, round_next, round_next_pair,
}
use frostlake_pdo.Json.RoundTrip.Leaves.{Stops, key_read, pay}
use frostlake_pdo.Json.RoundTrip.Steps.{
  items_text-Stops, members_text-Stops, object_body-key, switch_object,
}
use frostlake_pdo.Json.Text.{NoNul, json_string}
use frostlake_pdo.Json.Value.{Items, Json, Members, item, member, object}
use frostlake_pdo.Json.Writer.{items_text, json_text, members_text}
use frostlake_pdo.Prelude.{
  Bytes, [], append-nil, arith, false, length, lengths, parsed, refl, suc, ℕ, ◌*◌, ◌++◌, ◌+◌, ◌<◌,
  ◌∷◌, ◌≡◌, ◌≤◌,
}

-- The value is read, so the rest of the loop's fuel serves what follows it.
abbrev ElementsRead : ℕ → Json → Items → Bytes → ℕ → Type 0
ElementsRead d x xs rest f = parse_elements f d (elements_text x xs rest) ≡ parsed (item x xs, rest)

abbrev MembersRead : ℕ → Bytes → Json → Members → Bytes → ℕ → Type 0
MembersRead d k x ms rest f =
    parse_members f d (pairs_text k x ms rest) ≡ parsed (member k x ms, rest)

mutual
  reads :
      {d : ℕ} {v : Json}
      → Fits d v
      → (rest : Bytes) → Stops rest
      → (f : ℕ) → 2 * length (json_text v) < f
      → parse_value f d (json_text v ++ rest) ≡ parsed (v, rest)
  reads {d} null_fits rest st = pay _ λ f h. read_null f d rest
  reads {d} (bool_fits {b}) rest st = pay _ λ f h. read_bool f d rest b
  reads {d} (number_fits {l} n) rest st = pay _ λ f h. read_number f d rest l n st
  reads {d} (string_fits {t} n) rest st = pay _ λ f h. read_string f d rest t n
  reads {d} (array_fits lt no_items_fit) rest st = pay _ λ f h. read_array_empty f d rest lt
  reads {d} (array_fits lt (item_fits {x} {xs} hx hxs)) rest st = pay _ λ f h.
      read_array f d rest lt hx (
        pay {bound = 2 * (length (json_text x) + length (items_text false xs)) + 1}
          (ElementsRead (suc d) x xs rest)
          (λ g k.
            read_items hxs x _ rest g (reads hx _ (items_text-Stops xs rest) g (omega arith))
              (omega arith))
          f (omega (arith, length_array x xs)))
  reads {d} (object_fits lt no_members_fit) rest st = pay _ λ f h. read_object_empty f d rest lt
  reads {d} (object_fits lt (member_fits {k} {x} {ms} nk hx hms)) rest st = pay _ λ f h.
      read_object f d rest lt (
        pay {bound = 2 * (length (json_text x) + length (members_text false ms)) + 1}
          (MembersRead (suc d) k x ms rest)
          (λ g b.
            read_pairs hms k x _ _ rest g (key_read k _ nk)
              (reads hx _ (members_text-Stops ms rest) g (omega arith)) (omega arith))
          f (omega (arith, length_object k x ms)))

  read_items :
      {d : ℕ} {xs : Items}
      → FitsItems d xs
      → (x : Json) (s rest : Bytes) (f : ℕ)
      → parse_value f d s ≡ parsed (x, items_text false xs ++ b']' ∷ rest)
      → 2 * length (items_text false xs) ≤ f
      → parse_elements (suc f) d s ≡ parsed (item x xs, rest)
  read_items {d} no_items_fit x s rest f e h = round_last f d s rest (rw (last_text rest) at e)
  read_items {d} (item_fits {x = y} {xs = ys} hy hys) x s rest f e h =
      round_next f d s (elements_text y ys rest) (rw (next_text y ys rest) at e) (
        pay {bound = 2 * (length (json_text y) + length (items_text false ys)) + 1}
          (ElementsRead d y ys rest)
          (λ g k.
            read_items hys y _ rest g (reads hy _ (items_text-Stops ys rest) g (omega arith))
              (omega arith))
          f (omega (arith, length_next y ys)))

  read_pairs :
      {d : ℕ} {ms : Members}
      → FitsMembers d ms
      → (k : Bytes) (x : Json) (s body rest : Bytes) (f : ℕ) → parse_key s ≡ parsed (k, body)
      → parse_value f d body ≡ parsed (x, members_text false ms ++ b'}' ∷ rest)
      → 2 * length (members_text false ms) ≤ f
      → parse_members (suc f) d s ≡ parsed (member k x ms, rest)
  read_pairs {d} no_members_fit k x s body rest f ek e h =
      round_last_pair f d s k body rest ek (rw (last_pair_text rest) at e)
  read_pairs {d} (member_fits {k = j} {x = y} {ms = ns} nj hy hns) k x s body rest f ek e h =
      round_next_pair f d s k body (pairs_text j y ns rest) ek
        (rw (next_pair_text j y ns rest) at e)
        (pay {bound = 2 * (length (json_text y) + length (members_text false ns)) + 1}
          (MembersRead d j y ns rest)
          (λ g b.
            read_pairs hns j y _ _ rest g (key_read j _ nj)
              (reads hy _ (members_text-Stops ns rest) g (omega arith)) (omega arith))
          f (omega (arith, length_next_pair j y ns)))

end_of_input-nil : (v : Json) → end_of_input v (skip_ws []) ≡ parsed v
unfolding end_of_input skip_ws
end_of_input-nil v = refl

-- Every node tree whose texts are C strings, whose numbers are lexemes and which nests at most 64
-- deep is read back, as the same tree, from the text that the driver writes of it.
pub parse-json_text : {v : Json} → Fits 0 v → parse (json_text v) ≡ parsed v
unfolding parse
parse-json_text {v} h =
    let whole = reads h [] tt (2 * length (json_text v) + 1) (omega arith) in
    rw (rw append-nil at whole) (end_of_input-nil v)

-- An object whose first value is written in another way, which the reader reads all the same.
module _ (k : Bytes) (x : Json) (first : Bytes) {ms : Members} (nk : NoNul k)
    (hms : FitsMembers 1 ms)
    (value : (f : ℕ) (rest : Bytes)
      → 0 < f
      → parse_value f 1 (first ++ rest) ≡ parsed (x, rest)) where
  first_pair : Bytes
  first_pair = json_string k ++ (b':' ∷ (first ++ (members_text false ms ++ b'}' ∷ [])))

  read_first_pair :
      (f : ℕ)
      → 2 * length (members_text false ms) + 1 < f
      → parse_members f 1 first_pair ≡ parsed (member k x ms, [])
  unfolding first_pair
  read_first_pair f h =
      pay {bound = 2 * length (members_text false ms) + 1}
        (λ g. parse_members g 1 first_pair ≡ parsed (member k x ms, []))
        (λ g b.
          read_pairs hms k x _ _ [] g (key_read k _ nk) (value g _ (omega arith)) (omega arith))
        f h

  read_first_object :
      (f : ℕ)
      → 2 * length (members_text false ms) + 2 < f
      → parse_value f 0 (b'{' ∷ first_pair) ≡ parsed (object (member k x ms), [])
  unfolding first_pair
  read_first_object f h =
      pay {bound = 2 * length (members_text false ms) + 2}
        (λ g. parse_value g 0 (b'{' ∷ first_pair) ≡ parsed (object (member k x ms), []))
        (λ g b. rw (
          parse_value_step g 0,
          switch_object _ _ 0 _ (omega arith),
          object_body-key _ k _,
          read_first_pair g (omega arith),
        ))
        f h

  pub parse-first_pair :
      parse (b'{' ∷ (json_string k ++ (b':' ∷ (first ++ (members_text false ms ++ b'}' ∷ [])))))
      ≡ parsed (object (member k x ms))
  unfolding parse first_pair
  parse-first_pair =
      rw (read_first_object (2 * length (b'{' ∷ first_pair) + 1) (omega lengths))
        (end_of_input-nil (object (member k x ms)))
