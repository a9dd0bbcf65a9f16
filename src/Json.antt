-- ===== src/Json.antt =====
-- JSON values as `serde_json` has them, and the one operation on them that the code makes itself.
-- The parser and the printer of the library are parameters of what uses them.
use wa_rs.Common.{Bool, String, ◌==◌, if◌then◌else◌}

mutual
  pub data Value : Type 0 where
    null : Value
    bool : Bool → Value
    number : String → Value
    string : String → Value
    array : Values → Value
    object : Fields → Value

  pub data Values : Type 0 where
    nil : Values
    cons : Value → Values → Values

  pub data Fields : Type 0 where
    end : Fields
    field : String → Value → Fields → Fields

-- `Map::insert`: replaces the value of a key that is there.
unfoldable pub insert : String → Value → Fields → Fields
insert k v end = field k v end
insert k v (field j w fs) = if j == k then field k v fs else field j w (insert k v fs)
