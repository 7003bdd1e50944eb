-- ===== src/Json/Memory/Lifecycle.antt =====
-- A tree of `fl_json_parse` from its reading to `fl_json_free`, in the live blocks of the allocator.
-- What a reading leaves behind, by what it returns.

use frostlake_pdo.Json.Memory.{Memory, Node, Run, json_free, node_blocks, node_tree}
use frostlake_pdo.Json.Memory.Accounts.{json_parse-Reads}
use frostlake_pdo.Json.Memory.Free.{Owns, json_free-Gives}
use frostlake_pdo.Json.Memory.Holds.{Reads, accounted, given_up, ran_out}
use frostlake_pdo.Json.Memory.Nested.{json_parse}
use frostlake_pdo.Json.Reader.{parse}
use frostlake_pdo.Json.Reader.Sound.{parse-ne-out_of_fuel}
use frostlake_pdo.Json.Value.{Json}
use frostlake_pdo.Prelude.{
  Bool, Bytes, Parsed, false, inl, inr, out_of_fuel, parsed, refl, refused, true, ℕ, ◌+◌, ◌<◌, ◌^◌,
  ◌≡◌, ◌⊎◌,
}

abbrev pub ParseOutcome : Bytes → Memory → Run Node → Type 0
ParseOutcome s m (parsed t, m') =
    (parse s ≡ parsed (node_tree t))
    × ((n : ℕ) → m'.live n ≡ node_blocks t n + m.live n)
    × (m'.fault ≡ false)
ParseOutcome s m (refused, m') =
    ((parse s ≡ refused) ⊎ (m'.denied ≡ true))
    × ((n : ℕ) → m'.live n ≡ m.live n)
    × (m'.fault ≡ false)
ParseOutcome s m (out_of_fuel, m') = ⊥

-- A caller that frees what it was given; NULL it leaves alone.
abbrev pub freed : Run Node → Memory
freed (parsed t, m) = json_free t m
freed (refused, m) = m
freed (out_of_fuel, m) = m

Reads-ParseOutcome :
    (s : Bytes) (m : Memory) {r : Run Node}
    → Reads m.live node_blocks node_tree (parse s) r
    → ParseOutcome s m r
Reads-ParseOutcome s m (accounted h e) = (e, h.counts, h.sound)
Reads-ParseOutcome s m (given_up h why) = (why, h.counts, h.sound)
Reads-ParseOutcome s m (ran_out e) = absurd (parse-ne-out_of_fuel s e)

Reads-freed :
    {L : ℕ → ℕ} (p : Parsed Json) {r : Run Node}
    → Reads L node_blocks node_tree p r
    → Owns L (freed r) ⊎ (p ≡ out_of_fuel)
Reads-freed {L} p (accounted {a = t} h e) = inl (json_free-Gives t {L = L} h).owned
Reads-freed p (given_up h why) = inl h
Reads-freed p (ran_out e) = inr e

module _ (grants : ℕ → ℕ → Bool) (bounded : (k n : ℕ) → 2 ^ 62 < n → grants k n ≡ false) where
  starts : (m : Memory) → m.fault ≡ false → Owns m.live m
  starts m ok = record { counts = λ n. refl; sound = ok }

  -- Over any allocator that grants nothing beyond 2^62 bytes, and from any memory without a fault,
  -- the reader ends. It returns the tree that it returns without its memory, and the blocks of that
  -- tree are live besides those of before; or it returns NULL with just the blocks of before, where
  -- the text is no document or a request was refused, in this run or earlier. It never frees a block
  -- that is not live.
  pub json_parse-ParseOutcome :
      (s : Bytes) (m : Memory) → m.fault ≡ false → ParseOutcome s m (json_parse grants s m)
  json_parse-ParseOutcome s m ok =
      Reads-ParseOutcome s m (json_parse-Reads grants bounded s m (starts m ok))

  -- A caller that frees what the reader gave it, over such an allocator and from such a memory, ends
  -- with the blocks it began with: `fl_json_free` frees every block of the tree, and each once.
  pub json_parse-freed :
      (s : Bytes) (m : Memory)
      → m.fault ≡ false
      → ((n : ℕ) → (freed (json_parse grants s m)).live n ≡ m.live n)
        × ((freed (json_parse grants s m)).fault ≡ false)
  json_parse-freed s m ok =
      elim (Reads-freed (parse s) (json_parse-Reads grants bounded s m (starts m ok))) [
        | inl h ↦ (h.counts, h.sound)
        | inr e ↦ absurd (parse-ne-out_of_fuel s e)
      ]
