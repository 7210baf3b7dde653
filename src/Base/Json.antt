-- ===== src/Base/Json.antt =====
-- A decoded JSON value, and `Mapping.get`.
use Prim.Native.String.{String}
use mathlib.Core.Bool.{Bool, true, false}
use mathlib.Core.Option.{Option, none, some}
use text.Mathlib.Text.{◌==◌}
use livepeer_open_clearingho.Base.Tests.{if◌then◌else◌}
use livepeer_open_clearingho.Base.Int.{ℤ}

mutual
  pub data Json : Type 0 where
    null : Json
    number : ℤ → Json
    string : String → Json
    array : Items → Json
    object : Fields → Json

  pub data Items : Type 0 where
    nil : Items
    cons : Json → Items → Items

  pub data Fields : Type 0 where
    end : Fields
    field : String → Json → Fields → Fields

-- `mapping.get(key)`
abbrev pub get : String → Fields → Option Json
get key end = none
get key (field k value rest) = if k == key then some value else get key rest

-- `isinstance(value, str)`
abbrev pub as_text : Option Json → Option String
as_text (some (string s)) = some s
as_text value = none

-- `isinstance(value, dict)`
abbrev pub as_object : Option Json → Option Fields
as_object (some (object fields)) = some fields
as_object value = none

-- `value is not None`
abbrev pub is_present : Option Json → Bool
is_present none = false
is_present (some null) = false
is_present (some value) = true
