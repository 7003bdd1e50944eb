-- ===== src/Json/Lookup/First.antt =====
-- `fl_json_get` finds the first member of that name.
use frostlake_pdo.Json.Lookup.{get, member_named}
use frostlake_pdo.Json.Value.{Json, Members, member, no_members, object}
use frostlake_pdo.Libc.{bytes_eq, bytes_eq_iff}
use frostlake_pdo.Prelude.{
  Bool-cases, Bytes, arith, false≢true, inl, inr, refl, some, subst, sym, ◌↔◌, ◌∙◌, ◌≡◌, ◌≢◌,
}

-- The value under `key` that stands first.
pub data FirstMember (key : Bytes) (v : Json) : Members → Type 0 where
  here : {ms : Members} → FirstMember key v (member key v ms)
  later :
      {k : Bytes} {x : Json} {ms : Members}
      → k ≢ key
      → FirstMember key v ms
      → FirstMember key v (member k x ms)

member_named-here :
    (key : Bytes) (v : Json) (ms : Members) → member_named key (member key v ms) ≡ some v
unfolding member_named
member_named-here key v ms = rw ((bytes_eq_iff key key).1 refl)

member_named-later :
    (key k : Bytes) (x : Json) (ms : Members)
    → k ≢ key
    → member_named key (member k x ms) ≡ member_named key ms
unfolding member_named
member_named-later key k x ms n = ground (arith, bytes_eq_iff k key)

first→named :
    {key : Bytes} {v : Json} {ms : Members} → FirstMember key v ms → member_named key ms ≡ some v
first→named {key} {v} (here {ms}) = member_named-here key v ms
first→named {key} (later {k} {x} {ms} n f) = member_named-later key k x ms n ∙ first→named f

named→first :
    (key : Bytes) (v : Json) (ms : Members) → member_named key ms ≡ some v → FirstMember key v ms
unfolding member_named
named→first key v no_members e = cc
named→first key v (member k x ms) e = elim (Bool-cases (bytes_eq k key)) [
  | inl same ↦
      subst (λ j. FirstMember key v (member j x ms)) (sym ((bytes_eq_iff k key).0 same))
        (subst (λ y. FirstMember key y (member key x ms)) (found (rw same at e)) here)
  | inr other ↦
      later (λ same. false≢true (sym other ∙ (bytes_eq_iff k key).1 same))
        (named→first key v ms (rw other at e))
]
  where
    found : some x ≡ some v → x ≡ v
    found h = cc

-- A lookup in an object gives a value exactly when that is the first one under the key.
get-first_iff :
    (ms : Members) (key : Bytes) (v : Json)
    → (get (some (object ms)) key ≡ some v) ↔ FirstMember key v ms
unfolding get
get-first_iff ms key v = (named→first key v ms, first→named)
