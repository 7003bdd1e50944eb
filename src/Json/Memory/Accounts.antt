-- ===== src/Json/Memory/Accounts.antt =====
-- `fl_json_parse` with its memory against the reader without: what it returns, and its blocks.

use frostlake_pdo.Json.Memory.{
  Elements, Fields, Memory, Node, Run, array_node, node_blocks, node_tree, object_node, one_at,
}
use frostlake_pdo.Json.Memory.Arrays.{ArrayLoop, add_item-Reads, array_of, array_opened-Reads}
use frostlake_pdo.Json.Memory.Free.{Owns, Owns-same, json_free-Gives, next, plus, release-Gives}
use frostlake_pdo.Json.Memory.Holds.{
  Reads, Reads-as, Reads-if, accounted, allocate-Allocated, bind-bind, given_up, nothing_freed,
  on_run-Reads, ran_out,
}
use frostlake_pdo.Json.Memory.Nested.{
  json_parse, read_elements, read_members, read_switch, read_value, whole_input,
}
use frostlake_pdo.Json.Memory.Objects.{ObjectLoop, add_member-Reads, object_opened-Reads}
use frostlake_pdo.Json.Memory.OpenFields.{member_blocks, object_of}
use frostlake_pdo.Json.Memory.Reader.{node_size}
use frostlake_pdo.Json.Memory.Scalars.{
  new_scalar-Reads, node_held, node_seen, read_key-Reads, read_string_node-Reads,
}
use frostlake_pdo.Json.Reader.{
  end_of_input, max_depth, parse, parse_elements, parse_key, parse_members, parse_value, skip_ws,
  switch,
}
use frostlake_pdo.Json.Value.{Items, Json, Members}
use frostlake_pdo.Prelude.{
  Bool, Bytes, Option, Parsed, [], arith, false, if◌then◌else◌, inl, leb, length, refl, refused,
  suc, true, zero, ℕ, ◌*◌, ◌+◌, ◌<◌, ◌==◌, ◌>>=◌, ◌^◌, ◌∷◌, ◌≡◌,
}

module _ (grants : ℕ → ℕ → Bool) (bounded : (k n : ℕ) → 2 ^ 62 < n → grants k n ≡ false) where
  too_deep :
      {L : ℕ → ℕ} (b : Bool) {p : Parsed (Json × Bytes)} {r : Run (Node × Bytes)} {m : Memory}
      → Owns L m
      → Reads L node_held node_seen p r
      → Reads L node_held node_seen (if b then refused else p) (if b then (refused, m) else r)
  too_deep b h k = Reads-if b (given_up h (inl refl)) k

  switch-Reads :
      (L : ℕ → ℕ) (elements : Bytes → Parsed (Items × Bytes))
      (members : Bytes → Parsed (Members × Bytes))
      {loop : ℕ → Option ℕ → Elements → Bytes → Memory → Run (Node × Bytes)}
      {loop' : ℕ → Option ℕ → Fields → Bytes → Memory → Run (Node × Bytes)} (depth : ℕ) (s : Bytes)
      (m : Memory)
      → ((self : ℕ) → ArrayLoop elements L self (loop self))
      → ((self : ℕ) → ObjectLoop members L self (loop' self))
      → Owns L m
      → Reads L node_held node_seen
          (switch elements members depth s)
          (read_switch grants loop loop' depth s m)
  unfolding switch read_switch
  switch-Reads L elements members depth [] m ih jh h = given_up h (inl refl)
  switch-Reads L elements members depth (c ∷ s) m ih jh h =
      Reads-if (c == b'{')
        (too_deep (leb max_depth depth) h (
          object_opened-Reads grants members L (skip_ws s) jh
            (allocate-Allocated grants node_size h)))
        (Reads-if (c == b'[')
          (too_deep (leb max_depth depth) h (
            array_opened-Reads grants elements L (skip_ws s) ih
              (allocate-Allocated grants node_size h)))
          (Reads-if (c == b'"') (read_string_node-Reads grants bounded s m h) (
            Reads-if (c == b't') (new_scalar-Reads grants bounded true _ h) (
              Reads-if (c == b'f') (new_scalar-Reads grants bounded true _ h) (
                Reads-if (c == b'n') (new_scalar-Reads grants bounded false _ h)
                  (new_scalar-Reads grants bounded true _ h))))))

  swapped :
      (L : ℕ → ℕ) (self : ℕ) (block : Option ℕ) (fs : Fields) (a : ℕ) (t : Node) {m : Memory}
      → Owns
          (plus
            (node_blocks t)
            (plus (one_at a) (plus (node_blocks (object_node self block fs)) L)))
          m
      → Owns (member_blocks L self block fs a t) m
  swapped L self block fs a t h = Owns-same h λ n. omega arith

  mutual
    unfolding parse_value read_value

    value-Reads :
        (f depth : ℕ) (s : Bytes) {L : ℕ → ℕ} (m : Memory)
        → Owns L m
        → Reads L node_held node_seen (parse_value f depth s) (read_value grants f depth s m)
    value-Reads zero depth s m h = ran_out refl
    value-Reads (suc f) depth s {L} m h =
        switch-Reads L (parse_elements f (suc depth)) (parse_members f (suc depth)) depth
          (skip_ws s) m
          (λ self block es t m' h'. elements-Reads f (suc depth) self block es t m' h')
          (λ self block fs t m' h'. members-Reads f (suc depth) self block fs t m' h') h

    elements-Reads :
        (f depth self : ℕ) (block : Option ℕ) (es : Elements) (s : Bytes) {L : ℕ → ℕ} (m : Memory)
        → Owns (plus (node_blocks (array_node self block es)) L) m
        → Reads L node_held node_seen
            (parse_elements f depth s >>= array_of es)
            (read_elements grants f depth self block es s m)
    elements-Reads zero depth self block es s m h = ran_out refl
    elements-Reads (suc f) depth self block es s {L} m h =
        Reads-as (bind-bind _ (array_of es) (parse_value f depth s)) (
          on_run-Reads _ (value-Reads f depth s m h)
            (λ (t, rest) m' h'.
              add_item-Reads grants (parse_elements f depth) L self
                (λ b xs u n k. elements-Reads f depth self b xs u n k) block es t (skip_ws rest) m'
                h')
            (λ m' h'. json_free-Gives (array_node self block es) h'))

    members-Reads :
        (f depth self : ℕ) (block : Option ℕ) (fs : Fields) (s : Bytes) {L : ℕ → ℕ} (m : Memory)
        → Owns (plus (node_blocks (object_node self block fs)) L) m
        → Reads L node_held node_seen
            (parse_members f depth s >>= object_of fs)
            (read_members grants f depth self block fs s m)
    members-Reads zero depth self block fs s m h = ran_out refl
    members-Reads (suc f) depth self block fs s {L} m h =
        Reads-as (bind-bind _ (object_of fs) (parse_key s)) (
          on_run-Reads _ (read_key-Reads grants bounded s m h)
            (λ (a, (key, body)) m1 h1.
              Reads-as (bind-bind _ (object_of fs) (parse_value f depth body)) (
                on_run-Reads _ (value-Reads f depth body m1 h1)
                  (λ (t, rest) m2 h2.
                    add_member-Reads grants (parse_members f depth) L self
                      (λ b xs u n k. members-Reads f depth self b xs u n k) a key t block fs
                      (skip_ws rest) m2 (swapped L self block fs a t h2))
                  (λ m2 h2.
                    next (release-Gives a {L = plus (node_blocks (object_node self block fs)) L} h2)
                      (json_free-Gives (object_node self block fs)))))
            (λ m' h'. json_free-Gives (object_node self block fs) h'))

  whole_input-Reads :
      {L : ℕ → ℕ} (t : Node) (s : Bytes) (m : Memory)
      → Owns (plus (node_blocks t) L) m
      → Reads L node_blocks node_tree (end_of_input (node_tree t) s) (whole_input grants t s m)
  unfolding end_of_input
  whole_input-Reads t [] m h = accounted h refl
  whole_input-Reads {L} t (c ∷ s) m h = given_up (json_free-Gives t {L = L} h).owned (inl refl)

  pub json_parse-Reads :
      {L : ℕ → ℕ} (s : Bytes) (m : Memory)
      → Owns L m
      → Reads L node_blocks node_tree (parse s) (json_parse grants s m)
  unfolding parse json_parse
  json_parse-Reads s m h =
      on_run-Reads _ (value-Reads (2 * length s + 1) 0 s m h)
        (λ (t, rest) m' h'. whole_input-Reads t (skip_ws rest) m' h') nothing_freed
