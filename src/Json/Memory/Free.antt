-- ===== src/Json/Memory/Free.antt =====
-- `fl_json_free` gives back the blocks of a tree, each once.
-- The live blocks are these, and none was freed that is not live.
use frostlake_pdo.Json.Memory.{
  Elements, Entries, Fields, Memory, Node, any_at, array_node, element, element_blocks, entry,
  entry_blocks, field_blocks, free_elements, free_entries, free_fields, json_free, keyed,
  no_elements, no_entries, no_keys, node_blocks, object_node, one_at, release, release_any, scalar,
}
use frostlake_pdo.Prelude.{Option, arith, false, none, refl, some, ℕ, ◌+◌, ◌==◌, ◌∙◌, ◌≡◌}

pub record Owns (blocks : ℕ → ℕ) (m : Memory) : Type 0 where
  pub counts : (n : ℕ) → m.live n ≡ blocks n
  pub sound : m.fault ≡ false

abbrev pub plus : (ℕ → ℕ) → (ℕ → ℕ) → ℕ → ℕ
plus held blocks n = held n + blocks n

pub Owns-same : {L K : ℕ → ℕ} {m : Memory} → Owns L m → ((n : ℕ) → L n ≡ K n) → Owns K m
Owns-same h e = record { counts = λ n. h.counts n ∙ e n; sound = h.sound }

-- What a call that only frees leaves: the flag of refused requests stays.
pub record Gives (blocks : ℕ → ℕ) (m m' : Memory) : Type 0 where
  pub owned : Owns blocks m'
  pub same_denied : m'.denied ≡ m.denied

one_at_self : (a : ℕ) → one_at a a ≡ 1
one_at_self a = ground arith

pub release-Gives :
    (a : ℕ) {L : ℕ → ℕ} {m : Memory} → Owns (plus (one_at a) L) m → Gives L m (release a m)
unfolding release
release-Gives a {L} {m} h = record {
  owned = record { counts = λ n. omega (arith, h.counts n); sound = rw nonzero h.sound };
  same_denied = refl;
}
  where
    nonzero : (m.live a == 0) ≡ false
    nonzero = ground (arith, h.counts a, one_at_self a)

pub release_any-Gives :
    (o : Option ℕ) {L : ℕ → ℕ} {m : Memory}
    → Owns (plus (any_at o) L) m
    → Gives L m (release_any o m)
release_any-Gives none h = record { owned = Owns-same h λ n. omega arith; same_denied = refl }
release_any-Gives (some a) h = release-Gives a h

-- Two calls that free, one behind the other.
pub next :
    {L K : ℕ → ℕ} {m m' m'' : Memory} → Gives L m m' → (Owns L m' → Gives K m' m'') → Gives K m m''
next g k =
    let g' = k g.owned in record { owned = g'.owned; same_denied = g'.same_denied ∙ g.same_denied }

Gives-nothing : {L K : ℕ → ℕ} {m : Memory} → Owns L m → ((n : ℕ) → L n ≡ K n) → Gives K m m
Gives-nothing h e = record { owned = Owns-same h e; same_denied = refl }

mutual
  unfolding json_free node_blocks

  pub json_free-Gives :
      (t : Node) {L : ℕ → ℕ} {m : Memory}
      → Owns (plus (node_blocks t) L) m
      → Gives L m (json_free t m)
  json_free-Gives (scalar self text v) {L} h =
      next (release_any-Gives text {L = plus (one_at self) L} (Owns-same h λ n. omega arith))
        (release-Gives self)
  json_free-Gives (array_node self block es) {L} h =
      next
        (next
          (free_elements-Gives es {L = plus (any_at block) (plus (one_at self) L)}
            (Owns-same h λ n. omega arith))
          (release_any-Gives block))
        (release-Gives self)
  json_free-Gives (object_node self block fs) {L} h =
      next (free_fields-Gives block fs {L = plus (one_at self) L} (Owns-same h λ n. omega arith))
        (release-Gives self)

  free_elements-Gives :
      (es : Elements) {L : ℕ → ℕ} {m : Memory}
      → Owns (plus (element_blocks es) L) m
      → Gives L m (free_elements es m)
  free_elements-Gives no_elements h = Gives-nothing h λ n. omega arith
  free_elements-Gives (element t es) {L} h =
      next (json_free-Gives t {L = plus (element_blocks es) L} (Owns-same h λ n. omega arith))
        (free_elements-Gives es)

  free_fields-Gives :
      (block : Option ℕ) (fs : Fields) {L : ℕ → ℕ} {m : Memory}
      → Owns (plus (any_at block) (plus (field_blocks fs) L)) m
      → Gives L m (free_fields block fs m)
  free_fields-Gives block no_keys {L} h =
      release_any-Gives block {L = L} (Owns-same h λ n. omega arith)
  free_fields-Gives block (keyed k es) {L} h =
      next
        (next
          (free_entries-Gives es {L = plus (any_at block) (plus (one_at k) L)}
            (Owns-same h λ n. omega arith))
          (release_any-Gives block))
        (release-Gives k)

  free_entries-Gives :
      (es : Entries) {L : ℕ → ℕ} {m : Memory}
      → Owns (plus (entry_blocks es) L) m
      → Gives L m (free_entries es m)
  free_entries-Gives no_entries h = Gives-nothing h λ n. omega arith
  free_entries-Gives (entry a key t es) {L} h =
      next
        (next
          (json_free-Gives t {L = plus (one_at a) (plus (entry_blocks es) L)}
            (Owns-same h λ n. omega arith))
          (release-Gives a))
        (free_entries-Gives es)
