-- ===== src/Sql/Session.antt =====
-- Session tracking of frostlake_sql.c: what a request leaves on the session.
pub mod Statements
pub mod Use
pub mod Words
use frostlake_pdo.Libc.{bytes_eq, isalnum, isspace, toupper}
use frostlake_pdo.Prelude.{
  Bool, Bytes, List, Option, [], codes, false, if◌then◌else◌, leb, length, map, none, not, some,
  suc, tail, take, true, zero, ℕ, ◌&&◌, ◌++◌, ◌==◌, ◌||◌, ◌∷◌,
}
use frostlake_pdo.Sql.Numeric.{span}
use frostlake_pdo.Sql.Scan.{last_byte, skip, through_newline, through_pair}

-- `is_word_byte`
abbrev pub is_word_byte : ℕ → Bool
is_word_byte c = isalnum c || c == b'_' || c == b'$' || leb 0x80 c

-- SESSION_WORDS, and the bytes of SESSION_WORD_MAX less the NUL.
abbrev pub session_words : ℕ
session_words = 16

abbrev pub word_length : ℕ
word_length = 31

-- A word is upper-cased and cut short.
unfoldable pub word : Bytes → Bytes
word s = take word_length (map toupper s)

-- `c + 1 < end && c[1] == b`
abbrev pub follows : ℕ → Bytes → Bool
follows b [] = false
follows b (d ∷ _) = d == b

-- The loop of `leading_words`, with `room` words to go. Each round takes a byte or more.
unfoldable pub words_loop : ℕ → ℕ → Bytes → List Bytes
words_loop fuel zero s = []
words_loop fuel (suc room) [] = []
words_loop zero (suc room) (c ∷ s) = []
words_loop (suc fuel) (suc room) (c ∷ s) =
    let blank = words_loop fuel (suc room) s in
    let line = words_loop fuel (suc room) (through_newline (tail s)).1 in
    let comment = words_loop fuel (suc room) (through_pair b'*' b'/' (tail s)).1 in
    let more =
      word (span is_word_byte (c ∷ s)).0 ∷ words_loop fuel room (span is_word_byte (c ∷ s)).1 in
    if isspace c
    then blank
    else if (c == b'-' && follows b'-' s) || (c == b'/' && follows b'/' s)
    then line
    else if c == b'/' && follows b'*' s
    then comment
    else if is_word_byte c
    then more
    else []

unfoldable pub leading_words : Bytes → List Bytes
leading_words s = words_loop (length s) session_words s

-- `is_one_of`
unfoldable pub is_one_of : Bytes → List Bytes → Bool
is_one_of w [] = false
is_one_of w (x ∷ xs) = bytes_eq w x || is_one_of w xs

abbrev pub object_modifiers : List Bytes
object_modifiers =
    codes "OR"
    ∷ codes "REPLACE"
    ∷ codes "TRANSIENT"
    ∷ codes "TEMPORARY"
    ∷ codes "TEMP"
    ∷ codes "VOLATILE"
    ∷ codes "LOCAL"
    ∷ codes "GLOBAL"
    ∷ codes "SECURE"
    ∷ codes "IF"
    ∷ codes "NOT"
    ∷ codes "EXISTS"
    ∷ codes "PUBLIC"
    ∷ codes "PRIVATE"
    ∷ codes "ICEBERG"
    ∷ codes "DYNAMIC"
    ∷ codes "HYBRID"
    ∷ codes "EVENT"
    ∷ codes "RECURSIVE"
    ∷ codes "MATERIALIZED"
    ∷ codes "EXTERNAL"
    ∷ []

abbrev pub temporary_modifiers : List Bytes
temporary_modifiers = codes "TEMPORARY" ∷ codes "TEMP" ∷ codes "VOLATILE" ∷ []

-- The loop over the modifiers: whether one says temporary, and the kind behind them, if any.
unfoldable pub object_kind : Bool → List Bytes → Bool × Bytes
object_kind temporary [] = (temporary, [])
object_kind temporary (w ∷ ws) =
    let more = object_kind (temporary || is_one_of w temporary_modifiers) ws in
    if is_one_of w object_modifiers then more else (temporary, w)

unfoldable pub touches_session : List Bytes → Bool
touches_session [] = false
touches_session (verb ∷ ws) =
    let alter = bytes_eq verb (codes "ALTER") in
    let create = bytes_eq verb (codes "CREATE") in
    let (temporary, kind) = object_kind false ws in
    if bytes_eq verb (codes "USE") || bytes_eq verb (codes "SET") || bytes_eq verb (codes "UNSET")
    then true
    else if not alter && not create && not (bytes_eq verb (codes "DROP"))
    then false
    else if alter
    then bytes_eq kind (codes "SESSION")
    else bytes_eq kind (codes "DATABASE") || bytes_eq kind (codes "SCHEMA") || (create && temporary)

-- 1, -1 and 0
pub data Effect : Type 0 where
  opens_transaction ends_transaction no_effect : Effect

-- `words[1]` is one of `set`, or there is none and `absent` holds.
abbrev second_in : Bool → List Bytes → List Bytes → Bool
second_in absent set [] = absent
second_in absent set (w ∷ _) = is_one_of w set

unfoldable pub transaction_effect : List Bytes → Effect
transaction_effect [] = no_effect
transaction_effect (verb ∷ ws) =
    if bytes_eq verb (codes "COMMIT") || bytes_eq verb (codes "ROLLBACK")
    then ends_transaction
    else if bytes_eq verb (codes "START")
    then (if second_in false (codes "TRANSACTION" ∷ []) ws then opens_transaction else no_effect)
    else if not (bytes_eq verb (codes "BEGIN"))
    then no_effect
    else if second_in true (codes "TRANSACTION" ∷ codes "WORK" ∷ codes "NAME" ∷ []) ws
    then opens_transaction
    else no_effect

-- The fields of the connection that tracking sets.
pub record Tracked : Type 0 where
  pub dirty : Bool
  pub in_transaction : Bool

abbrev pub some_word : List Bytes → Bool
some_word [] = false
some_word (_ ∷ _) = true

-- `in_transaction` behind a statement.
abbrev pub transaction_after : Effect → Bool → Bool → Bool
transaction_after ends_transaction starts was = false
transaction_after opens_transaction starts was = true
transaction_after no_effect starts was = starts || was

-- What one statement's words do.
unfoldable pub note_words : Bool → List Bytes → Tracked → Tracked
note_words auto_commit words h = record {
  dirty = touches_session words || h.dirty;
  in_transaction =
      transaction_after (transaction_effect words) (not auto_commit && some_word words)
        h.in_transaction;
}

abbrev pub note_statement : Bool → Bytes → Tracked → Tracked
note_statement auto_commit statement h = note_words auto_commit (leading_words statement) h

-- The loop of `pdo_frostlake_track_session`: `statement` holds the bytes since the last `;`.
unfoldable pub track_loop : Bool → ℕ → Option ℕ → Bytes → Bytes → Tracked → Tracked
track_loop auto fuel prev statement [] h = note_statement auto statement h
track_loop auto zero prev statement (c ∷ s) h = h
track_loop auto (suc fuel) prev statement (c ∷ s) h = elim (skip prev (c ∷ s)) [
  | some (stretch, rest) ↦
      track_loop auto fuel (last_byte prev stretch) (statement ++ stretch) rest h
  | none ↦ elim (c == b';') [
    | false ↦ track_loop auto fuel (some c) (statement ++ c ∷ []) s h
    | true ↦ track_loop auto fuel (some c) [] s (note_statement auto statement h)
  ]
]

-- `pdo_frostlake_track_session`; `auto_commit` is `H->opened_auto_commit`.
unfoldable pub track_session : Bool → Bytes → Tracked → Tracked
track_session auto sql h = track_loop auto (length sql) none [] sql h
