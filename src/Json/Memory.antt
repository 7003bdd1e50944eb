-- ===== src/Json/Memory.antt =====
-- The memory of json.c's nodes: what `node_new`, `malloc` and `realloc` take and `free` gives back.
-- An address is the number of the request it answers, so that no two blocks share one.
pub mod Reader
pub mod Nested
pub mod Free
pub mod Holds
pub mod Buffers
pub mod Strings
pub mod Scalars
pub mod Arrays
pub mod OpenFields
pub mod Objects
pub mod Accounts
pub mod Lifecycle
use frostlake_pdo.Json.Value.{
  Items, Json, Members, array, item, member, no_items, no_members, object,
}
use frostlake_pdo.Prelude.{
  Bool, Bytes, Option, Parsed, false, if◌then◌else◌, none, out_of_fuel, parsed, refused, some, suc,
  true, ℕ, ◌+◌, ◌-◌, ◌==◌,
}

-- The blocks that are live at each address, the requests made so far, and two flags: a request was
-- refused, and a block was freed that is not live.
pub record Memory : Type 0 where
  pub live : ℕ → ℕ
  pub asked : ℕ
  pub denied : Bool
  pub fault : Bool

-- One at `a`, nothing elsewhere.
abbrev pub one_at : ℕ → ℕ → ℕ
one_at a n = if a == n then 1 else 0

-- What an allocating function returns, and the memory it leaves. NULL is `refused`.
abbrev pub Run : Type 0 → Type 0
Run A = Parsed A × Memory

-- The caller goes on with what a call returned, or cleans up behind its NULL and returns NULL.
abbrev pub on_run : {A B : Type 0} → (A → Memory → Run B) → (Memory → Memory) → Run A → Run B
on_run go_on clean_up (parsed a, m) = go_on a m
on_run go_on clean_up (refused, m) = (refused, clean_up m)
on_run go_on clean_up (out_of_fuel, m) = (out_of_fuel, m)

-- `free` of a block
unfoldable pub release : ℕ → Memory → Memory
release a m = record m {
  live = λ n. m.live n - one_at a n;
  fault = if m.live a == 0 then true else m.fault;
}

-- `free`, which leaves NULL alone.
abbrev pub release_any : Option ℕ → Memory → Memory
release_any none m = m
release_any (some a) m = release a m

abbrev pub answer_request : Bool → Memory → Option ℕ × Memory
answer_request true m =
    (some m.asked, record m { live = λ n. one_at m.asked n + m.live n; asked = suc m.asked })
answer_request false m = (none, record m { asked = suc m.asked; denied = true })

-- `malloc` and `calloc`, over what the allocator answers to a request, by its number and size.
unfoldable pub allocate : (ℕ → ℕ → Bool) → ℕ → Memory → Option ℕ × Memory
allocate grants size m = answer_request (grants m.asked size) m

abbrev pub moved : Option ℕ → Option ℕ × Memory → Option ℕ × Memory
moved old (none, m) = (none, m)
moved old (some a, m) = (some a, release_any old m)

-- `realloc`, which is taken to move the block whenever it grants, or refuses and leaves it.
unfoldable pub reallocate : (ℕ → ℕ → Bool) → Option ℕ → ℕ → Memory → Option ℕ × Memory
unfolding allocate
reallocate grants old size m = moved old (allocate grants size m)

-- The nodes with the blocks they hold. A scalar has a text or none; the arrays of an ARRAY or OBJECT
-- are NULL while nothing was added, and `keys` is there from the first member on.
mutual
  pub data Node : Type 0 where
    scalar : ℕ → Option ℕ → Json → Node
    array_node : ℕ → Option ℕ → Elements → Node
    object_node : ℕ → Option ℕ → Fields → Node

  pub data Elements : Type 0 where
    no_elements : Elements
    element : Node → Elements → Elements

  pub data Fields : Type 0 where
    no_keys : Fields
    keyed : ℕ → Entries → Fields

  pub data Entries : Type 0 where
    no_entries : Entries
    entry : ℕ → Bytes → Node → Entries → Entries

-- The tree that the nodes stand for.
unfoldable mutual
  pub node_tree : Node → Json
  node_tree (scalar self text v) = v
  node_tree (array_node self block es) = array (element_items es)
  node_tree (object_node self block fs) = object (field_members fs)

  pub element_items : Elements → Items
  element_items no_elements = no_items
  element_items (element t es) = item (node_tree t) (element_items es)

  pub field_members : Fields → Members
  field_members no_keys = no_members
  field_members (keyed k es) = entry_members es

  pub entry_members : Entries → Members
  entry_members no_entries = no_members
  entry_members (entry a key t es) = member key (node_tree t) (entry_members es)

-- The blocks at an address that may be there.
abbrev pub any_at : Option ℕ → ℕ → ℕ
any_at none n = 0
any_at (some a) n = one_at a n

-- The blocks that a tree holds, by their address.
unfoldable mutual
  pub node_blocks : Node → ℕ → ℕ
  node_blocks (scalar self text v) n = one_at self n + any_at text n
  node_blocks (array_node self block es) n = one_at self n + (any_at block n + element_blocks es n)
  node_blocks (object_node self block fs) n = one_at self n + (any_at block n + field_blocks fs n)

  pub element_blocks : Elements → ℕ → ℕ
  element_blocks no_elements n = 0
  element_blocks (element t es) n = node_blocks t n + element_blocks es n

  pub field_blocks : Fields → ℕ → ℕ
  field_blocks no_keys n = 0
  field_blocks (keyed k es) n = one_at k n + entry_blocks es n

  pub entry_blocks : Entries → ℕ → ℕ
  entry_blocks no_entries n = 0
  entry_blocks (entry a key t es) n = one_at a n + (node_blocks t n + entry_blocks es n)

-- `fl_json_free`: the children, each with its key behind it, the arrays, the text and the node.
unfoldable mutual
  pub json_free : Node → Memory → Memory
  json_free (scalar self text v) m = release self (release_any text m)
  json_free (array_node self block es) m = release self (release_any block (free_elements es m))
  json_free (object_node self block fs) m = release self (free_fields block fs m)

  pub free_elements : Elements → Memory → Memory
  free_elements no_elements m = m
  free_elements (element t es) m = free_elements es (json_free t m)

  pub free_fields : Option ℕ → Fields → Memory → Memory
  free_fields block no_keys m = release_any block m
  free_fields block (keyed k es) m = release k (release_any block (free_entries es m))

  pub free_entries : Entries → Memory → Memory
  free_entries no_entries m = m
  free_entries (entry a key t es) m = free_entries es (release a (json_free t m))
