-- ===== src/Json.antt =====
-- Values of Go's `any` as encoding/json reads and writes them, and its maps with string keys.
use langopen.Prelude.{String, Bool, Option, none, some, ◌==◌, if◌then◌else◌}

mutual
  pub data Json : Type 0 where
    null : Json
    bool : Bool → Json
    number : String → Json
    text : String → Json
    array : Items → Json
    object : Fields → Json

  pub data Items : Type 0 where
    nil : Items
    cons : Json → Items → Items

  pub data Fields : Type 0 where
    end : Fields
    field : String → Json → Fields → Fields

-- `m[key]`, with `ok` as `some`.
unfoldable pub lookup : String → Fields → Option Json
lookup k end = none
lookup k (field j v m) = if j == k then some v else lookup k m

-- `m[key] = v`.
unfoldable pub insert : String → Json → Fields → Fields
insert k v end = field k v end
insert k v (field j w m) = if j == k then field k v m else field j w (insert k v m)
