-- ===== src/Json.antt =====
-- JSON values, with `undefined` for what is missing.
use kube_diagnostics_mcp.Common.{
  Bool, Text, Number, List, [], ◌∷◌, Option, none, some, same, if◌then◌else◌, true, false,
}

mutual
  pub data Value : Type 0 where
    undefined null : Value
    bool : Bool → Value
    num : Number → Value
    obj : Fields → Value
    arr : Items → Value
    str : Text → Value

  pub data Items : Type 0 where
    nil : Items
    cons : Value → Items → Items

  pub data Fields : Type 0 where
    end : Fields
    field : Text → Value → Fields → Fields

unfoldable pub find_field : Text → Fields → Value
find_field k end = undefined
find_field k (field j v fs) = if same j k then v else find_field k fs

-- `v.k`; an array has none of the fields that the program asks for.
unfoldable pub member : Text → Value → Value
unfolding find_field
member k (obj fs) = find_field k fs
member k _ = undefined

-- `v && typeof v === "object"`
abbrev pub is_object : Value → Bool
is_object (arr xs) = true
is_object (obj fs) = true
is_object _ = false

-- `typeof v === "string" ? v : undefined`
abbrev pub as_text : Value → Option Text
as_text (str s) = some s
as_text _ = none

-- `v === true`
abbrev pub is_true : Value → Bool
is_true (bool b) = b
is_true _ = false

-- the items of an array
abbrev pub items : Items → List Value
items nil = []
items (cons v xs) = v ∷ items xs

-- `Array.isArray(v) ? v : undefined`
abbrev pub as_array : Value → Option (List Value)
as_array (arr xs) = some (items xs)
as_array _ = none
