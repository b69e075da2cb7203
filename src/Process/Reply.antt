-- ===== src/Process/Reply.antt =====
-- process.go: a reply of the browser as encoding/json decodes it into an interface{}, and the type
-- assertions on it. A float64 is of a type `Real` that is a parameter.
use text.Mathlib.Text.{◌==◌}
use browserpm.Common.{Bool, Option, none, some, String, if◌then◌else◌}

mutual
  pub data Value (Real : Type 0) : Type 0 where
    null : Value Real
    boolean : Bool → Value Real
    string : String → Value Real
    number : Real → Value Real
    array : Items Real → Value Real
    object : Fields Real → Value Real

  pub data Items (Real : Type 0) : Type 0 where
    nil : Items Real
    cons : Value Real → Items Real → Items Real

  pub data Fields (Real : Type 0) : Type 0 where
    end : Fields Real
    field : String → Value Real → Fields Real → Fields Real

module _ {Real : Type 0} where
  -- fields[key], which is nil where the key is missing.
  unfoldable pub get_field : String → Fields Real → Value Real
  get_field key end = null
  get_field key (field k v fs) = let rest = get_field key fs in if k == key then v else rest

  -- The assertions to map[string]interface{}, []interface{}, float64 and string.
  abbrev pub as_object : Value Real → Option (Fields Real)
  as_object (object fs) = some fs
  as_object _ = none

  abbrev pub as_array : Value Real → Option (Items Real)
  as_array (array xs) = some xs
  as_array _ = none

  abbrev pub as_number : Value Real → Option Real
  as_number (number x) = some x
  as_number _ = none

  abbrev pub as_text : Value Real → Option String
  as_text (string s) = some s
  as_text _ = none
