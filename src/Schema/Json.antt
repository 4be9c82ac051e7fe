-- ===== src/Schema/Json.antt =====
-- The values of a JSON column (`IdempotencyKey.responsePayload`), and property reads on them.
use Prim.Native.String.{String}
use mathlib.Core.Bool.{Bool, false}
use mathlib.Core.Option.{Option, none, some}
use text.Mathlib.Text.{◌==◌}
use online_banking.Base.{if◌then◌else◌}
use online_banking.Base.Int.{ℤ}
use online_banking.Base.Text.{Text}

mutual
  pub data Json : Type 0 where
    bool : Bool → Json
    num : ℤ → Json
    str : Text → Json
    obj : Props → Json
    arr : Items → Json
    null : Json

  -- the properties of an object
  pub data Props : Type 0 where
    prop : String → Json → Props → Props
    end : Props

  -- the elements of an array
  pub data Items : Type 0 where
    item : Json → Items → Items
    stop : Items

-- `o.name`, `null` standing for `undefined` too: no test below tells them apart
abbrev pub get : String → Props → Json
get name end = null
get name (prop k v ps) = if k == name then v else get name ps

-- `typeof v === 'string'`, with the string
abbrev pub as_string : Json → Option Text
as_string (str s) = some s
as_string _ = none

-- `typeof v === 'boolean'`, with the value
abbrev pub as_boolean : Json → Option Bool
as_boolean (bool b) = some b
as_boolean _ = none

-- `v === true`
abbrev pub is_true : Json → Bool
is_true (bool b) = b
is_true _ = false

-- `raw && typeof raw === 'object' && !Array.isArray(raw)`, with the object
abbrev pub as_object : Json → Option Props
as_object (obj ps) = some ps
as_object _ = none
