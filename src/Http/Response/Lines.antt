-- ===== src/Http/Response/Lines.antt =====
-- Header fields as a server writes them, and the lines that they are.
use frostlake_pdo.Http.Response.{
  is_field_blank, is_header_line, skip_blanks, split_line, starts_colon,
}
use frostlake_pdo.Libc.{starts_with_caseless, tolower}
use frostlake_pdo.Prelude.{
  All, All-append, Bool, Bytes, List, Option, [], ap, append_assoc, arith, drop, false,
  if◌then◌else◌, length, length-append_bytes, ltb, none, not, refl, some, suc, true, ℕ, ◌&&◌, ◌++◌,
  ◌+◌, ◌<◌, ◌==◌, ◌∙◌, ◌∷◌, ◌≡◌, ◌≤◌,
}

pub record Field : Type 0 where
  pub name : Bytes
  pub value : Bytes

-- Neither a line end nor the end of a C string.
abbrev pub is_line_byte : ℕ → Bool
is_line_byte c = not (c == 13) && not (c == 0)

abbrev is_field_byte : ℕ → Bool
is_field_byte c = is_line_byte c && not (c == b':')

abbrev pub LineBytes : Bytes → Type 0
LineBytes s = All (λ c. is_line_byte c ≡ true) s

abbrev pub FieldBytes : Bytes → Type 0
FieldBytes s = All (λ c. is_field_byte c ≡ true) s

-- A value: not empty, and no blank at its start.
abbrev pub IsValue : Bytes → Type 0
IsValue [] = ⊥
IsValue (c ∷ s) = (is_field_blank c ≡ false) × LineBytes (c ∷ s)

pub record IsField (f : Field) : Type 0 where
  pub name_bytes : FieldBytes f.name
  pub valued : IsValue f.value

-- "<name>: <value>"
abbrev pub field_line : Field → Bytes
field_line f = f.name ++ (b':' ∷ b' ' ∷ f.value)

-- The fields, each behind a line end.
abbrev pub fields_text : List Field → Bytes
fields_text [] = []
fields_text (f ∷ fs) = 13 ∷ 10 ∷ (field_line f ++ fields_text fs)

-- Two names but for case.
abbrev pub same_name : Bytes → Bytes → Bool
same_name [] [] = true
same_name (c ∷ s) (d ∷ t) = tolower c == tolower d && same_name s t
same_name _ _ = false

-- The value of the first field of that name.
abbrev pub field_named : Bytes → List Field → Option Bytes
field_named name [] = none
field_named name (f ∷ fs) = if same_name name f.name then some f.value else field_named name fs

-- That value with the fields behind it.
abbrev pub value_from : Bytes → List Field → Option Bytes
value_from name [] = none
value_from name (f ∷ fs) =
    if same_name name f.name then some (f.value ++ fields_text fs) else value_from name fs

colon_case : (c : ℕ) → is_field_byte c ≡ true → (tolower c == tolower b':') ≡ false
colon_case c h = ground arith

not_colon : (c : ℕ) → is_field_byte c ≡ true → (c == b':') ≡ false
not_colon c h = ground arith

pub and_false : (b : Bool) → (b && false) ≡ false
and_false b = ground arith

and_assoc : (a b c : Bool) → ((a && b) && c) ≡ (a && (b && c))
and_assoc a b c = ground arith

name_match :
    (name s rest : Bytes)
    → FieldBytes name
    → FieldBytes s
    → (starts_with_caseless name (s ++ (b':' ∷ rest))
        && starts_colon (drop (length name) (s ++ (b':' ∷ rest))))
      ≡ same_name name s
unfolding starts_with_caseless
name_match [] [] rest hn hs = refl
name_match [] (d ∷ t) rest hn hs = not_colon d hs.0
name_match (c ∷ name) [] rest hn hs = rw (colon_case c hn.0) refl
name_match (c ∷ name) (d ∷ t) rest hn hs =
    and_assoc (tolower c == tolower d) _ _
    ∙ ap (λ b. tolower c == tolower d && b) (name_match name t rest hn.1 hs.1)

pub same_name-length : (s t : Bytes) → same_name s t ≡ true → length s ≡ length t
same_name-length [] [] h = refl
same_name-length [] (d ∷ t) h = cc
same_name-length (c ∷ s) [] h = cc
same_name-length (c ∷ s) (d ∷ t) h = ap suc (same_name-length s t (ground arith))

ltb-true : (m n : ℕ) → m < n → (ltb m n && true) ≡ true
ltb-true m n h = ground arith

long_enough : (b : Bool) (m n : ℕ) → (b ≡ true → m < n) → (ltb m n && b) ≡ b
long_enough false m n h = and_false (ltb m n)
long_enough true m n h = ltb-true m n (h refl)

abbrev pub after_line : List Field → Option Bytes
after_line [] = none
after_line (f ∷ fs) = some (field_line f ++ fields_text fs)

line_byte-not_cr : (c : ℕ) → is_line_byte c ≡ true → (c == 13) ≡ false
line_byte-not_cr c h = ground arith

pub split_line-fields :
    (line : Bytes) (fs : List Field)
    → LineBytes line
    → split_line (line ++ fields_text fs) ≡ (line, after_line fs)
unfolding split_line
split_line-fields [] [] h = refl
split_line-fields [] (f ∷ fs) h = refl
split_line-fields (c ∷ []) [] h = refl
split_line-fields (c ∷ []) (f ∷ fs) h = rw (line_byte-not_cr c h.0) refl
split_line-fields (c ∷ d ∷ s) fs h = rw (line_byte-not_cr c h.0) (
    ap (λ (p : Bytes × Option Bytes). let q : Bytes × Option Bytes = (c ∷ p.0, p.1) in q)
      (split_line-fields (d ∷ s) fs h.1))

name_byte-line : (c : ℕ) → is_field_byte c ≡ true → is_line_byte c ≡ true
name_byte-line c h = ground arith

FieldBytes-LineBytes : (s : Bytes) → FieldBytes s → LineBytes s
FieldBytes-LineBytes [] h = tt
FieldBytes-LineBytes (c ∷ s) h = (name_byte-line c h.0, FieldBytes-LineBytes s h.1)

IsValue-LineBytes : (s : Bytes) → IsValue s → LineBytes s
IsValue-LineBytes [] h = absurd h
IsValue-LineBytes (c ∷ s) h = h.1

pub field_line-LineBytes : (f : Field) → IsField f → LineBytes (field_line f)
field_line-LineBytes f h =
    All-append _ f.name (b':' ∷ b' ' ∷ f.value) (FieldBytes-LineBytes f.name h.name_bytes)
      (refl, (refl, IsValue-LineBytes f.value h.valued))

IsValue-length : (s : Bytes) → IsValue s → 1 ≤ length s
IsValue-length [] h = absurd h
IsValue-length (c ∷ s) h = omega arith

pub skip_blanks-value : (s rest : Bytes) → IsValue s → skip_blanks (b' ' ∷ (s ++ rest)) ≡ s ++ rest
unfolding skip_blanks
skip_blanks-value [] rest h = absurd h
skip_blanks-value (c ∷ s) rest h = rw h.0 refl

pub line_text :
    (f : Field) (rest : Bytes) → field_line f ++ rest ≡ f.name ++ (b':' ∷ b' ' ∷ (f.value ++ rest))
line_text f rest = append_assoc f.name (b':' ∷ b' ' ∷ f.value) rest

pub is_header_line-field :
    (name : Bytes) (f : Field) (rest : Bytes)
    → FieldBytes name
    → IsField f
    → is_header_line name (field_line f ++ rest) (length (field_line f)) ≡ same_name name f.name
is_header_line-field name f rest hn h =
    let line = length-append_bytes f.name (b':' ∷ b' ' ∷ f.value) in
    and_assoc (ltb (length name + 1) (length (field_line f))) _ _
    ∙ ap
        (λ s.
          ltb (length name + 1) (length (field_line f))
          && (starts_with_caseless name s && starts_colon (drop (length name) s)))
        (line_text f rest)
    ∙ ap (λ b. ltb (length name + 1) (length (field_line f)) && b)
        (name_match name f.name (b' ' ∷ (f.value ++ rest)) hn h.name_bytes)
    ∙ long_enough (same_name name f.name) _ _
        (λ e. omega (arith, line, same_name-length name f.name e, IsValue-length f.value h.valued))
