-- ===== src/Json/Reader/Sound.antt =====
-- `fl_json_parse` keeps within its fuel, and what it returns fits.
use frostlake_pdo.Json.Fits.{
  Fits, Fits-nesting, FitsItems, FitsMembers, array_fits, bool_fits, item_fits, member_fits,
  nesting, no_items_fit, no_members_fit, null_fits, number_fits, number_text, object_fits,
  string_fits,
}
use frostlake_pdo.Json.Reader.{
  array_body, end_of_input, expect, is_number_byte, lexeme, max_depth, next_element, next_member,
  number_bytes, object_body, parse, parse_elements, parse_key, parse_literal, parse_members,
  parse_number, parse_string, parse_value, skip_ws, strip, switch,
}
use frostlake_pdo.Json.Reader.Strings.{Shorter, length-skip_ws, string_body-Ensures}
use frostlake_pdo.Json.Text.{NoNul}
use frostlake_pdo.Json.Value.{Items, Json, Members, bool, null}
use frostlake_pdo.Prelude.{
  All, Bool-cases, Bytes, Ensures, Ensures-bind, Ensures-if, Ensures-map, Ensures-ne,
  Ensures-parsed, Option-cases, Parsed, [], arith, codes, false, holds, inl, inr, leb, length, none,
  out_of_fuel, parsed, rejected, some, suc, true, zero, ℕ, ◌*◌, ◌+◌, ◌<◌, ◌==◌, ◌∷◌, ◌≡◌, ◌≢◌, ◌≤◌,
  ◌⊎◌,
}

number_bytes-All :
    (s : Bytes)
    → All (λ b. is_number_byte b ≡ true) (number_bytes s).0 × (length (number_bytes s).1 ≤ length s)
unfolding number_bytes
number_bytes-All [] = (tt, omega arith)
number_bytes-All (c ∷ s) = elim (Bool-cases (is_number_byte c)) [
  | inl e ↦ let (n, h) = number_bytes-All s in rw e ((e, n), omega arith)
  | inr e ↦ rw e (tt, omega arith)
]

-- What a run reads at depth `d` fits there, and the input gets shorter.
abbrev ValueRead : ℕ → Bytes → Json × Bytes → Type 0
ValueRead d s (v, rest) = Fits d v × Shorter rest s

abbrev ItemsRead : ℕ → Bytes → Items × Bytes → Type 0
ItemsRead d s (xs, rest) = FitsItems d xs × Shorter rest s

abbrev MembersRead : ℕ → Bytes → Members × Bytes → Type 0
MembersRead d s (ms, rest) = FitsMembers d ms × Shorter rest s

sign_number : (c : ℕ) → c == b'-' ≡ true → is_number_byte c ≡ true
unfolding is_number_byte
sign_number c h = ground arith

parse_number-Ensures : (d : ℕ) (s : Bytes) → Ensures (ValueRead d s) (parse_number s)
unfolding parse_number lexeme number_bytes
parse_number-Ensures d [] = rejected
parse_number-Ensures d (c ∷ s) =
    let (n, h) = number_bytes-All s in
    Ensures-if (c == b'-') (λ e. holds (number_fits (number_text (sign_number c e) n), omega arith))
      (λ _. go (Bool-cases (is_number_byte c)))
  where
    go :
        (is_number_byte c ≡ true) ⊎ (is_number_byte c ≡ false)
        → Ensures (ValueRead d (c ∷ s)) (lexeme (number_bytes (c ∷ s)))
    go (inl e) =
        let (n, h) = number_bytes-All s in rw e (holds (number_fits (number_text e n), omega arith))
    go (inr e) = rw e rejected

length-strip :
    (word s : Bytes) {rest : Bytes}
    → strip word s ≡ some rest
    → length s ≡ length word + length rest
unfolding strip
length-strip [] s e = ground arith
length-strip (w ∷ word) [] e = cc
length-strip (w ∷ word) (c ∷ s) {rest} e = elim (Bool-cases (c == w)) [
  | inl t ↦ omega (arith, length-strip word s (rw t at e))
  | inr t ↦ absurd (not-some (rw t at e))
]
  where
    not-some : none ≡ some rest → ⊥
    not-some h = cc

parse_literal-Ensures :
    (d : ℕ) (word : Bytes) (node : Json) (s : Bytes)
    → 0 < length word
    → Fits d node
    → Ensures (ValueRead d s) (parse_literal word node s)
unfolding parse_literal
parse_literal-Ensures d word node s pos fits = elim (Option-cases (strip word s)) [
  | inl e ↦ rw (e, parse_literal) rejected
  | inr (rest, e) ↦ rw (e, parse_literal) (holds (fits, omega (arith, length-strip word s e)))
]

parse_string-Ensures : (d : ℕ) (s : Bytes) → Ensures (ValueRead d s) (parse_string s)
unfolding parse_string
parse_string-Ensures d s =
    Ensures-bind (string_body-Ensures s) λ (text, rest) (n, h). holds (string_fits n, h)

expect-Ensures : (b : ℕ) (s : Bytes) → Ensures (λ rest. Shorter rest s) (expect b s)
unfolding expect
expect-Ensures b [] = rejected
expect-Ensures b (c ∷ s) = Ensures-if (c == b) (λ _. holds (omega arith)) (λ _. rejected)

parse_key-Ensures : (s : Bytes) → Ensures (λ (key, rest). NoNul key × Shorter rest s) (parse_key s)
unfolding parse_key
parse_key-Ensures s = Ensures-bind (expect-Ensures b'"' (skip_ws s)) λ body h.
    Ensures-bind (string_body-Ensures body) λ (key, rest) (n, k).
      Ensures-bind (expect-Ensures b':' (skip_ws rest))
        λ after j. holds (n, omega (arith, length-skip_ws s, length-skip_ws rest))

-- The parts of the loops, over any loop that reads what it should from a shorter input.
module _ (d : ℕ) where
  array_body-Ensures :
      (loop : Bytes → Parsed (Items × Bytes)) (s : Bytes)
      → d < max_depth
      → Ensures (ItemsRead (suc d) s) (loop s)
      → Ensures (ValueRead d s) (array_body loop s)
  unfolding array_body
  array_body-Ensures loop [] lt run =
      Ensures-bind run λ (xs, rest) (fits, h). holds (array_fits lt fits, h)
  array_body-Ensures loop (c ∷ s) lt run =
      Ensures-if (c == b']') (λ _. holds (array_fits lt no_items_fit, omega arith))
        λ _. Ensures-bind run λ (xs, rest) (fits, h). holds (array_fits lt fits, h)

  object_body-Ensures :
      (loop : Bytes → Parsed (Members × Bytes)) (s : Bytes)
      → d < max_depth
      → Ensures (MembersRead (suc d) s) (loop s)
      → Ensures (ValueRead d s) (object_body loop s)
  unfolding object_body
  object_body-Ensures loop [] lt run =
      Ensures-bind run λ (ms, rest) (fits, h). holds (object_fits lt fits, h)
  object_body-Ensures loop (c ∷ s) lt run =
      Ensures-if (c == b'}') (λ _. holds (object_fits lt no_members_fit, omega arith))
        λ _. Ensures-bind run λ (ms, rest) (fits, h). holds (object_fits lt fits, h)

  next_element-Ensures :
      (loop : Bytes → Parsed (Items × Bytes)) (x : Json) (s : Bytes)
      → Fits d x
      → ((t : Bytes) → Shorter t s → Ensures (ItemsRead d t) (loop t))
      → Ensures (ItemsRead d s) (next_element loop x s)
  unfolding next_element
  next_element-Ensures loop x [] fx run = rejected
  next_element-Ensures loop x (c ∷ s) fx run =
      Ensures-if (c == b',')
        (λ _.
          Ensures-bind (run s (omega arith))
            λ (xs, rest) (fits, h). holds (item_fits fx fits, omega arith))
        λ _.
          Ensures-if (c == b']') (λ _. holds (item_fits fx no_items_fit, omega arith))
            (λ _. rejected)

  next_member-Ensures :
      (loop : Bytes → Parsed (Members × Bytes)) (k : Bytes) (x : Json) (s : Bytes)
      → NoNul k
      → Fits d x
      → ((t : Bytes) → Shorter t s → Ensures (MembersRead d t) (loop t))
      → Ensures (MembersRead d s) (next_member loop k x s)
  unfolding next_member
  next_member-Ensures loop k x [] nk fx run = rejected
  next_member-Ensures loop k x (c ∷ s) nk fx run =
      Ensures-if (c == b',')
        (λ _.
          Ensures-bind (run s (omega arith))
            λ (ms, rest) (fits, h). holds (member_fits nk fx fits, omega arith))
        λ _.
          Ensures-if (c == b'}') (λ _. holds (member_fits nk fx no_members_fit, omega arith))
            (λ _. rejected)

switch-Ensures :
    (elements : Bytes → Parsed (Items × Bytes)) (members : Bytes → Parsed (Members × Bytes)) (d : ℕ)
    (s : Bytes)
    → ((t : Bytes) → Shorter t s → Ensures (ItemsRead (suc d) t) (elements t))
    → ((t : Bytes) → Shorter t s → Ensures (MembersRead (suc d) t) (members t))
    → Ensures (ValueRead d s) (switch elements members d s)
unfolding switch
switch-Ensures elements members d [] items pairs = rejected
switch-Ensures elements members d (c ∷ s) items pairs =
    Ensures-if (c == b'{')
      (λ _.
        Ensures-if (leb max_depth d) (λ _. rejected)
          λ e.
            Ensures-map
              (object_body-Ensures d members (skip_ws s) (ground arith)
                (pairs (skip_ws s) (omega (arith, length-skip_ws s))))
              λ (v, rest) (fits, h). (fits, omega (arith, length-skip_ws s)))
      λ _.
        Ensures-if (c == b'[')
          (λ _.
            Ensures-if (leb max_depth d) (λ _. rejected)
              λ e.
                Ensures-map
                  (array_body-Ensures d elements (skip_ws s) (ground arith)
                    (items (skip_ws s) (omega (arith, length-skip_ws s))))
                  λ (v, rest) (fits, h). (fits, omega (arith, length-skip_ws s)))
          λ _.
            Ensures-if (c == b'"')
              (λ _.
                Ensures-map (parse_string-Ensures d s) λ (v, rest) (fits, h). (fits, omega arith))
              λ _.
                Ensures-if (c == b't')
                  (λ _.
                    parse_literal-Ensures d (codes "true") (bool true) (c ∷ s) (omega arith)
                      bool_fits)
                  λ _.
                    Ensures-if (c == b'f')
                      (λ _.
                        parse_literal-Ensures d (codes "false") (bool false) (c ∷ s) (omega arith)
                          bool_fits)
                      λ _.
                        Ensures-if (c == b'n')
                          (λ _.
                            parse_literal-Ensures d (codes "null") null (c ∷ s) (omega arith)
                              null_fits)
                          λ _. parse_number-Ensures d (c ∷ s)

mutual
  unfolding parse_value

  parse_value-Ensures :
      (f d : ℕ) (s : Bytes) → 2 * length s < f → Ensures (ValueRead d s) (parse_value f d s)
  parse_value-Ensures zero d s h = absurd (omega arith)
  parse_value-Ensures (suc f) d s h =
      Ensures-map
        (switch-Ensures _ _ d (skip_ws s)
          (λ t k. parse_elements-Ensures f (suc d) t (omega (arith, length-skip_ws s)))
          (λ t k. parse_members-Ensures f (suc d) t (omega (arith, length-skip_ws s))))
        λ (v, rest) (fits, k). (fits, omega (arith, length-skip_ws s))

  parse_elements-Ensures :
      (f d : ℕ) (s : Bytes) → 2 * length s + 1 < f → Ensures (ItemsRead d s) (parse_elements f d s)
  parse_elements-Ensures zero d s h = absurd (omega arith)
  parse_elements-Ensures (suc f) d s h =
      Ensures-bind (parse_value-Ensures f d s (omega arith)) λ (x, rest) (fx, k).
        Ensures-map
          (next_element-Ensures d (parse_elements f d) x (skip_ws rest) fx
            (λ t j. parse_elements-Ensures f d t (omega (arith, length-skip_ws rest))))
          λ (xs, after) (fits, j). (fits, omega (arith, length-skip_ws rest))

  parse_members-Ensures :
      (f d : ℕ) (s : Bytes) → 2 * length s + 1 < f → Ensures (MembersRead d s) (parse_members f d s)
  parse_members-Ensures zero d s h = absurd (omega arith)
  parse_members-Ensures (suc f) d s h = Ensures-bind (parse_key-Ensures s) λ (key, body) (nk, i).
      Ensures-bind (parse_value-Ensures f d body (omega arith)) λ (x, rest) (fx, k).
        Ensures-map
          (next_member-Ensures d (parse_members f d) key x (skip_ws rest) nk fx
            (λ t j. parse_members-Ensures f d t (omega (arith, length-skip_ws rest))))
          λ (ms, after) (fits, j). (fits, omega (arith, length-skip_ws rest))

end_of_input-Ensures : (v : Json) (s : Bytes) → Fits 0 v → Ensures (Fits 0) (end_of_input v s)
unfolding end_of_input
end_of_input-Ensures v [] h = holds h
end_of_input-Ensures v (c ∷ s) h = rejected

parse-Ensures : (s : Bytes) → Ensures (Fits 0) (parse s)
unfolding parse
parse-Ensures s =
    Ensures-bind (parse_value-Ensures (2 * length s + 1) 0 s (omega arith))
      λ (v, rest) (fits, h). end_of_input-Ensures v (skip_ws rest) fits

-- The reader ends on every input: it returns a tree or refuses, and the fuel never decides.
pub parse-ne-out_of_fuel : (s : Bytes) → parse s ≢ out_of_fuel
parse-ne-out_of_fuel s = Ensures-ne (parse-Ensures s)

-- Whatever the reader returns fits: its texts are C strings, its numbers are lexemes, and its
-- arrays and objects stand within the depth limit.
pub parse-Fits : (s : Bytes) {v : Json} → parse s ≡ parsed v → Fits 0 v
parse-Fits s e = Ensures-parsed (parse-Ensures s) e

-- No tree that the reader returns nests deeper than FL_JSON_MAX_DEPTH.
pub parse-nesting : (s : Bytes) {v : Json} → parse s ≡ parsed v → nesting v ≤ max_depth
parse-nesting s e = Fits-nesting (parse-Fits s e)
