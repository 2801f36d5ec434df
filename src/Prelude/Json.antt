-- ===== src/Prelude/Json.antt =====
-- Documents in JSON: the values of the crate `serde_json`. A number is the text that it prints as, and
-- an object is its entries in the order in which the map yields them.
use mathlib.Core.Bool.{Bool, true, false}
use mathlib.Core.List.{List, [], ◌∷◌}
use aircraft_api_r.Prelude.Text.{Text}

mutual
  pub data Value : Type 0 where
    null : Value
    bool : Bool → Value
    number : Text → Value
    string : Text → Value
    array : Values → Value
    object : Members → Value

  pub data Values : Type 0 where
    no_values : Values
    value : Value → Values → Values

  pub data Members : Type 0 where
    no_members : Members
    member : Text → Value → Members → Members

unfoldable pub values : Values → List Value
values no_values = []
values (value v rest) = v ∷ values rest

unfoldable pub entries : Members → List (Text × Value)
entries no_members = []
entries (member key v rest) = (key, v) ∷ entries rest

-- `Value::is_object`
abbrev pub is_object : Value → Bool
is_object (object fs) = true
is_object _ = false
