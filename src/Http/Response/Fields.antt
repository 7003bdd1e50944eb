-- ===== src/Http/Response/Fields.antt =====
-- What `find_header` finds among the fields of a response.
use frostlake_pdo.Http.Response.{
  find_header, header_loop, is_header_line, on_next, skip_blanks, split_line,
}
use frostlake_pdo.Http.Response.Lines.{
  Field, FieldBytes, IsField, LineBytes, after_line, and_false, field_line, field_line-LineBytes,
  fields_text, is_header_line-field, line_text, same_name, same_name-length, skip_blanks-value,
  split_line-fields, value_from,
}
use frostlake_pdo.Libc.{starts_with_caseless}
use frostlake_pdo.Prelude.{
  All, Bool-cases, Bytes, List, Option, [], ap, arith, drop, false, if◌then◌else◌, inl, inr, length,
  length-append_bytes, ltb, refl, some, suc, true, zero, ℕ, ◌++◌, ◌+◌, ◌∙◌, ◌∷◌, ◌≡◌, ◌≤◌,
}

drop_after : (s rest : Bytes) (c : ℕ) → drop (suc (length s)) (s ++ (c ∷ rest)) ≡ rest
drop_after [] rest c = refl
drop_after (d ∷ s) rest c = drop_after s rest c

drop_equal : (m n : ℕ) (s : Bytes) → m ≡ n → drop m s ≡ drop n s
drop_equal m n s e = ap (λ k. drop k s) e

drop_name : (s rest : Bytes) (c n : ℕ) → n ≡ length s → drop (n + 1) (s ++ (c ∷ rest)) ≡ rest
drop_name s rest c n e =
    drop_equal (n + 1) (suc (length s)) (s ++ (c ∷ rest)) (omega (arith, e)) ∙ drop_after s rest c

-- A round of the loop, on a line as it is split.
abbrev round_on : ℕ → Bytes → Bytes → Bytes × Option Bytes → Option Bytes
round_on fuel name s p =
    if is_header_line name s (length p.0)
    then some (skip_blanks (drop (length name + 1) s))
    else on_next p.1 (header_loop fuel name)

header_loop-round_on :
    (fuel : ℕ) (name s : Bytes)
    → 1 ≤ length s
    → header_loop (suc fuel) name s ≡ round_on fuel name s (split_line s)
unfolding header_loop
header_loop-round_on fuel name [] h = absurd (omega arith)
header_loop-round_on fuel name (c ∷ s) h = refl

value_dropped :
    (name : Bytes) (f : Field) (rest : Bytes)
    → IsField f
    → same_name name f.name ≡ true
    → skip_blanks (drop (length name + 1) (field_line f ++ rest)) ≡ f.value ++ rest
value_dropped name f rest h e =
    ap (λ s. skip_blanks (drop (length name + 1) s)) (line_text f rest)
    ∙ ap skip_blanks (
        drop_name f.name (b' ' ∷ (f.value ++ rest)) b':' (length name)
          (same_name-length name f.name e))
    ∙ skip_blanks-value f.value rest h.valued

-- The loop on the lines of the fields.
next_fields :
    (fuel : ℕ) (name : Bytes) (fs : List Field)
    → FieldBytes name
    → All IsField fs
    → length (fields_text fs) ≤ fuel
    → on_next (after_line fs) (header_loop fuel name) ≡ value_from name fs
next_fields fuel name [] hn h hf = refl
next_fields zero name (f ∷ fs) hn h hf = absurd (omega arith)
next_fields (suc fuel) name (f ∷ fs) hn h hf =
    let line = length-append_bytes f.name (b':' ∷ b' ' ∷ f.value) in
    let whole = length-append_bytes (field_line f) (fields_text fs) in
    let string = field_line f ++ fields_text fs in
    let found = some (skip_blanks (drop (length name + 1) string)) in
    let later = on_next (after_line fs) (header_loop fuel name) in
    header_loop-round_on fuel name string (omega (arith, line, whole))
    ∙ ap (round_on fuel name string)
        (split_line-fields (field_line f) fs (field_line-LineBytes f h.0))
    ∙ ap (λ b. if b then found else later) (is_header_line-field name f (fields_text fs) hn h.0)
    ∙ elim (Bool-cases (same_name name f.name)) [
      | inl same ↦ rw same (ap some (value_dropped name f (fields_text fs) h.0 same))
      | inr other ↦ rw other (next_fields fuel name fs hn h.1 (omega (arith, line, whole)))
    ]

-- What `find_header` finds behind a first line that is no field of the name.
pub find_header-fields :
    (first name : Bytes) (fs : List Field)
    → 1 ≤ length first
    → LineBytes first
    → starts_with_caseless name (first ++ fields_text fs) ≡ false
    → FieldBytes name
    → All IsField fs
    → find_header (first ++ fields_text fs) name ≡ value_from name fs
unfolding find_header
find_header-fields [] name fs long hl other hn h = absurd (omega arith)
find_header-fields (c ∷ first) name fs long hl other hn h =
    let string = (c ∷ first) ++ fields_text fs in
    let fuel = length (first ++ fields_text fs) in
    header_loop-round_on fuel name string (omega arith)
    ∙ ap (round_on fuel name string) (split_line-fields (c ∷ first) fs hl)
    ∙ rw (other, and_false (ltb (length name + 1) (length (c ∷ first))))
        (next_fields fuel name fs hn h (omega (arith, length-append_bytes first (fields_text fs))))
