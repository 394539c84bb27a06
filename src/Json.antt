-- ===== src/Json.antt =====
-- Values of JSON: audit metadata, token payloads and public keys. A number is a natural one, since
-- the services put no other there.
use oid.Shared.{ℕ, String, Bool, Option, none, some, ◌==◌, if◌then◌else◌}

mutual
  pub data Json : Type 0 where
    null : Json
    bool : Bool → Json
    num : ℕ → Json
    str : String → Json
    arr : Items → Json
    obj : Fields → Json

  pub data Items : Type 0 where
    nil : Items
    cons : Json → Items → Items

  pub data Fields : Type 0 where
    end : Fields
    field : String → Json → Fields → Fields

-- `value.name` on an object: the field of that name.
unfoldable pub member : String → Fields → Option Json
member k end = none
member k (field j v fs) = if j == k then some v else member k fs

-- `string | null` as a value.
abbrev pub nullable_str : Option String → Json
nullable_str none = null
nullable_str (some s) = str s

-- `{ ...fs, ...gs }`
abbrev pub append_fields : Fields → Fields → Fields
append_fields end gs = gs
append_fields (field k v fs) gs = field k v (append_fields fs gs)
