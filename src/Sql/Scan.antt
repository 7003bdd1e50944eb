-- ===== src/Sql/Scan.antt =====
-- The scanner of frostlake_sql.c. A position in the text is the byte before it, none at the start,
-- and the bytes from there to the end; a stretch is its bytes and what stands behind it.
pub mod Stretch
use frostlake_pdo.Libc.{isalnum, isalpha}
use frostlake_pdo.Prelude.{
  Bool, Bytes, Option, [], false, if◌then◌else◌, none, not, some, ℕ, ◌&&◌, ◌++◌, ◌==◌, ◌||◌, ◌∷◌,
}

abbrev pub Split : Type 0
Split = Bytes × Bytes

abbrev pub before : Bytes → Split → Split
before taken p = (taken ++ p.0, p.1)

-- The loop behind an opening `'`.
unfoldable pub single_quoted : Bytes → Split
single_quoted [] = ([], [])
single_quoted (c ∷ []) = (c ∷ [], [])
single_quoted (c ∷ d ∷ s) =
    let two = before (c ∷ d ∷ []) (single_quoted s) in
    let one = before (c ∷ []) (single_quoted (d ∷ s)) in
    if c == b'\\'
    then two
    else if c == b'\''
    then (if d == b'\'' then two else (c ∷ [], d ∷ s))
    else one

-- The loop behind an opening `"`.
unfoldable pub double_quoted : Bytes → Split
double_quoted [] = ([], [])
double_quoted (c ∷ []) = (c ∷ [], [])
double_quoted (c ∷ d ∷ s) =
    let two = before (c ∷ d ∷ []) (double_quoted s) in
    let one = before (c ∷ []) (double_quoted (d ∷ s)) in
    if c == b'"' then (if d == b'"' then two else (c ∷ [], d ∷ s)) else one

-- `memchr(p, '\n', end - p)`, and the byte itself.
unfoldable pub through_newline : Bytes → Split
through_newline [] = ([], [])
through_newline (c ∷ s) =
    let more = before (c ∷ []) (through_newline s) in if c == b'\n' then (c ∷ [], s) else more

-- The loops that look for `*/` and `$$`.
unfoldable pub through_pair : ℕ → ℕ → Bytes → Split
through_pair a b [] = ([], [])
through_pair a b (c ∷ []) = (c ∷ [], [])
through_pair a b (c ∷ d ∷ s) =
    let more = before (c ∷ []) (through_pair a b (d ∷ s)) in
    if c == a && d == b then (c ∷ d ∷ [], s) else more

-- `isalnum(c[-1]) || c[-1] == '_' || c[-1] == '$'`, false at the start.
abbrev pub word_before : Option ℕ → Bool
word_before none = false
word_before (some p) = isalnum p || p == b'_' || p == b'$'

-- The openers of two bytes.
unfoldable pub skip_pair : Option ℕ → ℕ → ℕ → Bytes → Option Split
skip_pair prev c d s =
    if (c == b'-' && d == b'-') || (c == b'/' && d == b'/')
    then some (before (c ∷ d ∷ []) (through_newline s))
    else if c == b'/' && d == b'*'
    then some (before (c ∷ d ∷ []) (through_pair b'*' b'/' s))
    else if (c == b'$' && d == b'$') && not (word_before prev)
    then some (before (c ∷ d ∷ []) (through_pair b'$' b'$' s))
    else none

-- `skip_non_placeholder`: the stretch that begins here, none where nothing opens one.
unfoldable pub skip : Option ℕ → Bytes → Option Split
skip prev [] = none
skip prev (c ∷ []) =
    if c == b'\''
    then some (before (c ∷ []) (single_quoted []))
    else if c == b'"'
    then some (before (c ∷ []) (double_quoted []))
    else none
skip prev (c ∷ d ∷ s) =
    if c == b'\''
    then some (before (c ∷ []) (single_quoted (d ∷ s)))
    else if c == b'"'
    then some (before (c ∷ []) (double_quoted (d ∷ s)))
    else skip_pair prev c d s

-- The bytes before a `:` that make it a path or a cast.
abbrev pub ends_operand : Option ℕ → Bool
ends_operand none = false
ends_operand (some p) =
    isalnum p
    || p == b'_'
    || p == b'$'
    || p == b')'
    || p == b']'
    || p == b'}'
    || p == b'\''
    || p == b'"'
    || p == b'?'
    || p == b':'

-- `opens_named_parameter`, at a `:` whose next bytes are given.
unfoldable pub opens_named_parameter : Option ℕ → Bytes → Bool
opens_named_parameter prev [] = false
opens_named_parameter prev (d ∷ _) = (isalpha d || d == b'_') && not (ends_operand prev)

-- The byte before the position behind a stretch.
abbrev pub last_byte : Option ℕ → Bytes → Option ℕ
last_byte prev [] = prev
last_byte prev (c ∷ s) = last_byte (some c) s
