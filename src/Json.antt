-- ===== src/Json.antt =====
-- Values that `JSON.parse` yields, as the code reads them: `asRecord`, property access and the
-- tests of `typeof`.
use user_service_platform.Prelude.{Bool, true, false, [], ◌∷◌, Option, none, some, if◌then◌else◌}
use user_service_platform.Prelude.Int.{ℤ}
use user_service_platform.Text.{Text, text_eq}

mutual
  -- A number that is no integer is told apart only as such.
  pub data Json : Type 0 where
    null : Json
    bool : Bool → Json
    int : ℤ → Json
    non_integer : Json
    str : Text → Json
    arr : Items → Json
    obj : Members → Json

  pub data Items : Type 0 where
    nil : Items
    cons : Json → Items → Items

  pub data Members : Type 0 where
    end : Members
    member : Text → Json → Members → Members

-- `record.name`; `none` is `undefined`.
unfoldable pub get : Text → Members → Option Json
get name end = none
get name (member key value rest) = if text_eq key name then some value else get name rest

-- `asRecord(value)`. An array is an object too, and has none of the properties that are read.
abbrev pub as_record : Json → Option Members
as_record (obj ms) = some ms
as_record (arr _) = some end
as_record _ = none

-- `typeof value === 'string'`, with the text.
unfoldable pub as_text : Option Json → Option Text
as_text (some (str s)) = some s
as_text (some _) = none
as_text none = none

-- `typeof value === 'string' && value.length > 0`
unfoldable pub as_filled_text : Option Json → Option Text
as_filled_text (some (str [])) = none
as_filled_text (some (str (c ∷ s))) = some (c ∷ s)
as_filled_text (some _) = none
as_filled_text none = none

-- `typeof value === 'number' && Number.isInteger(value)`
unfoldable pub as_integer : Option Json → Option ℤ
as_integer (some (int n)) = some n
as_integer (some _) = none
as_integer none = none

-- `typeof value === 'boolean'`
unfoldable pub as_bool : Option Json → Option Bool
as_bool (some (bool b)) = some b
as_bool (some _) = none
as_bool none = none

-- `value === text`
unfoldable pub is_text : Option Json → Text → Bool
is_text (some (str s)) t = text_eq s t
is_text (some _) t = false
is_text none t = false

-- `Array.isArray(value) && value.length === 0`
unfoldable pub is_empty_array : Option Json → Bool
is_empty_array (some (arr nil)) = true
is_empty_array (some _) = false
is_empty_array none = false

abbrev pub bind_record : Option Json → Option Members
bind_record none = none
bind_record (some v) = as_record v
