-- ===== src/Base/Json.antt =====
-- The values of JSON as Python reads them, with the text and the truth value that it gives them.
use Prim.Native.String.{String}
use mathlib.Core.Bool.{Bool, true, false, not, ◌||◌}
use mathlib.Core.Option.{Option, none, some}
use text.Mathlib.Text.{◌==◌ as str_eq}
use flight_multi_agent.Base.Tests.{if◌then◌else◌}
use flight_multi_agent.Base.Text.{truthy}

-- A number is the text that Python prints for it.
mutual
  pub data Json : Type 0 where
    null : Json
    boolean : Bool → Json
    number : String → Json
    json_text : String → Json
    array : Values → Json
    object : Fields → Json

  pub data Values : Type 0 where
    no_values : Values
    value : Json → Values → Values

  pub data Fields : Type 0 where
    no_fields : Fields
    field : String → Json → Fields → Fields

-- `dict.get`
abbrev pub field_of : String → Fields → Option Json
field_of key no_fields = none
field_of key (field name held rest) =
    let later = field_of key rest in if str_eq key name then some held else later

abbrev pub has_values : Values → Bool
has_values no_values = false
has_values (value first rest) = true

abbrev pub has_fields : Fields → Bool
has_fields no_fields = false
has_fields (field name held rest) = true

-- `bool`
abbrev pub is_true : Json → Bool
is_true null = false
is_true (boolean b) = b
is_true (number n) = not (str_eq n "0" || (str_eq n "0.0" || str_eq n "-0.0"))
is_true (json_text s) = truthy s
is_true (array values) = has_values values
is_true (object fields) = has_fields fields

-- `str`, with Python's own text of a list or a dictionary as `repr`
abbrev pub str : (Json → String) → Json → String
str repr null = "None"
str repr (boolean true) = "True"
str repr (boolean false) = "False"
str repr (number n) = n
str repr (json_text s) = s
str repr (array values) = repr (array values)
str repr (object fields) = repr (object fields)
