-- ===== src/Json/Value.antt =====
-- The node tree of json.h: one constructor for each `fl_json_kind`. `Items` and `Members` are the
-- child arrays of an ARRAY and an OBJECT node.
use frostlake_pdo.Prelude.{Bool, Bytes, codes, false, true}

mutual
  pub data Json : Type 0 where
    null : Json
    bool : Bool → Json
    -- the lexeme
    number : Bytes → Json
    -- the decoded text
    string : Bytes → Json
    array : Items → Json
    object : Members → Json

  pub data Items : Type 0 where
    no_items : Items
    item : Json → Items → Items

  pub data Members : Type 0 where
    no_members : Members
    member : Bytes → Json → Members → Members

-- The text of a BOOL node.
abbrev pub bool_text : Bool → Bytes
bool_text true = codes "true"
bool_text false = codes "false"
