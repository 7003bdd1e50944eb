-- ===== src/Sql/Session/Statements.antt =====
-- Tracking as a fold over the statements of a request.
use frostlake_pdo.Prelude.{
  ==_iff, Bool, Bool-cases, Bytes, List, Option, Option-cases, [], ap, append_assoc, arith, false,
  get_or, if◌then◌else◌, inl, inr, length, none, not, refl, some, suc, sym, true, zero, ℕ, ◌&&◌,
  ◌++◌, ◌==◌, ◌||◌, ◌∙◌, ◌∷◌, ◌≡◌, ◌≤◌,
}
use frostlake_pdo.Sql.Scan.{last_byte, skip}
use frostlake_pdo.Sql.Scan.Stretch.{skip-Takes}
use frostlake_pdo.Sql.Session.{
  Effect, Tracked, ends_transaction, leading_words, no_effect, note_statement, note_words,
  opens_transaction, some_word, touches_session, track_loop, track_session, transaction_effect,
}

-- The pieces between the top-level semicolons.
unfoldable pub split_loop : ℕ → Option ℕ → Bytes → Bytes → List Bytes
split_loop fuel prev statement [] = statement ∷ []
split_loop zero prev statement (c ∷ s) = statement ∷ []
split_loop (suc fuel) prev statement (c ∷ s) = elim (skip prev (c ∷ s)) [
  | some (stretch, rest) ↦ split_loop fuel (last_byte prev stretch) (statement ++ stretch) rest
  | none ↦ elim (c == b';') [
    | false ↦ split_loop fuel (some c) (statement ++ c ∷ []) s
    | true ↦ statement ∷ split_loop fuel (some c) [] s
  ]
]

unfoldable pub statements : Bytes → List Bytes
statements sql = split_loop (length sql) none [] sql

-- The pieces, each with a semicolon behind it.
abbrev pub terminated : List Bytes → Bytes
terminated [] = []
terminated (x ∷ xs) = x ++ (b';' ∷ terminated xs)

-- The effects of statements, one after the other.
abbrev pub note_all : Bool → List Bytes → Tracked → Tracked
note_all auto [] h = h
note_all auto (x ∷ xs) h = note_all auto xs (note_statement auto x h)

terminated-split_loop :
    (fuel : ℕ) (prev : Option ℕ) (statement s : Bytes)
    → length s ≤ fuel
    → terminated (split_loop fuel prev statement s) ≡ statement ++ (s ++ b';' ∷ [])
unfolding split_loop
terminated-split_loop zero prev statement [] h = refl
terminated-split_loop (suc fuel) prev statement [] h = refl
terminated-split_loop zero prev statement (c ∷ s) h = absurd (omega arith)
terminated-split_loop (suc fuel) prev statement (c ∷ s) h =
    elim (Option-cases (skip prev (c ∷ s))) [
      | inr ((stretch, rest), e) ↦
          let (whole, shorter) = skip-Takes prev c s e in
          rw (e, split_loop)
            (terminated-split_loop fuel _ _ rest (omega arith)
              ∙ append_assoc statement stretch _
              ∙ ap (◌++◌ statement)
                  (sym (append_assoc stretch rest (b';' ∷ [])) ∙ ap (λ t. t ++ b';' ∷ []) whole))
      | inl e ↦ elim (Bool-cases (c == b';')) [
        | inl semi ↦
            rw (e, split_loop)
              (rw (semi, split_loop)
                (ap (λ t. statement ++ (b';' ∷ t)) (terminated-split_loop fuel _ [] s (omega arith))
                  ∙ rw (← (==_iff c b';').0 semi)))
        | inr other ↦
            rw (e, split_loop)
              (rw (other, split_loop)
                (terminated-split_loop fuel _ _ s (omega arith)
                  ∙ append_assoc statement (c ∷ []) _))
      ]
    ]

-- Splitting loses nothing of the request.
terminated-statements : (sql : Bytes) → terminated (statements sql) ≡ sql ++ b';' ∷ []
unfolding statements
terminated-statements sql = terminated-split_loop (length sql) none [] sql (omega arith)

track_loop-split :
    (auto : Bool) (fuel : ℕ) (prev : Option ℕ) (statement s : Bytes) (h : Tracked)
    → length s ≤ fuel
    → track_loop auto fuel prev statement s h ≡ note_all auto (split_loop fuel prev statement s) h
unfolding track_loop split_loop
track_loop-split auto zero prev statement [] h le = refl
track_loop-split auto (suc fuel) prev statement [] h le = refl
track_loop-split auto zero prev statement (c ∷ s) h le = absurd (omega arith)
track_loop-split auto (suc fuel) prev statement (c ∷ s) h le =
    elim (Option-cases (skip prev (c ∷ s))) [
      | inr ((stretch, rest), e) ↦
          rw (e, track_loop, split_loop)
            (track_loop-split auto fuel _ _ rest h (omega (arith, (skip-Takes prev c s e).1)))
      | inl e ↦ elim (Bool-cases (c == b';')) [
        | inl semi ↦
            rw (e, track_loop, split_loop)
              (rw (semi, track_loop, split_loop) (track_loop-split auto fuel _ _ s _ (omega arith)))
        | inr other ↦
            rw (e, track_loop, split_loop)
              (rw (other, track_loop, split_loop)
                (track_loop-split auto fuel _ _ s h (omega arith)))
      ]
    ]

-- Tracking notes the request's statements in order.
pub track_session-note_all :
    (auto : Bool) (sql : Bytes) (h : Tracked)
    → track_session auto sql h ≡ note_all auto (statements sql) h
unfolding track_session statements
track_session-note_all auto sql h = track_loop-split auto (length sql) none [] sql h (omega arith)

-- Whether a statement touches the session, for any statement of the list.
abbrev pub any_touches : List Bytes → Bool
any_touches [] = false
any_touches (x ∷ xs) = touches_session (leading_words x) || any_touches xs

-- What a statement says of an open transaction: with autocommit off, any statement that has a word
-- may have opened one.
abbrev pub decision : Bool → Effect → Bool → Option Bool
decision auto ends_transaction has_word = some false
decision auto opens_transaction has_word = some true
decision auto no_effect has_word = if not auto && has_word then some true else none

abbrev pub last_decision : Bool → List Bytes → Option Bool
last_decision auto [] = none
last_decision auto (x ∷ xs) = elim (last_decision auto xs) [
  | some b ↦ some b
  | none ↦ decision auto (transaction_effect (leading_words x)) (some_word (leading_words x))
]

note_all-dirty :
    (auto : Bool) (xs : List Bytes) (h : Tracked)
    → (note_all auto xs h).dirty ≡ (any_touches xs || h.dirty)
unfolding note_words
note_all-dirty auto [] h = refl
note_all-dirty auto (x ∷ xs) h = ground (arith, note_all-dirty auto xs (note_statement auto x h))

note_words-transaction :
    (auto : Bool) (words : List Bytes) (h : Tracked)
    → (note_words auto words h).in_transaction
      ≡ get_or (decision auto (transaction_effect words) (some_word words)) h.in_transaction
unfolding note_words
note_words-transaction auto words h = ground arith

note_all-transaction :
    (auto : Bool) (xs : List Bytes) (h : Tracked)
    → (note_all auto xs h).in_transaction ≡ get_or (last_decision auto xs) h.in_transaction
note_all-transaction auto [] h = refl
note_all-transaction auto (x ∷ xs) h = ground (
  arith,
  note_all-transaction auto xs (note_statement auto x h),
  note_words-transaction auto (leading_words x) h,
)

-- After a request the connection is dirty if it was, or if any statement of the request touches the
-- session; and it is in a transaction as the last statement that decides says, or as before if none
-- does.
pub track_session_fields :
    (auto : Bool) (sql : Bytes) (h : Tracked)
    → ((track_session auto sql h).dirty ≡ (any_touches (statements sql) || h.dirty))
      × ((track_session auto sql h).in_transaction
          ≡ get_or (last_decision auto (statements sql)) h.in_transaction)
track_session_fields auto sql h =
    rw (track_session-note_all auto sql h)
      (note_all-dirty auto (statements sql) h, note_all-transaction auto (statements sql) h)
