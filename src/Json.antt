-- ===== src/Json.antt =====
-- JSON values as the jsonb columns `playbook_config` and `outbox_events.payload` hold them, and the
-- reads that the services make of them. A number is a natural number in the unit of its column.
use arbibot.Base.{ℕ, zero, suc, String, Bool, Option, none, some, str_eq, if◌then◌else◌}

mutual
  pub data Json : Type 0 where
    null : Json
    bool : Bool → Json
    num : ℕ → Json
    str : String → Json
    arr : Items → Json
    obj : Fields → Json

  pub data Items : Type 0 where
    nil : Items
    cons : Json → Items → Items

  pub data Fields : Type 0 where
    end : Fields
    field : String → Json → Fields → Fields

-- `o.name` of an object; `none` is `undefined`.
unfoldable pub get_field : String → Fields → Option Json
unfolding str_eq
get_field k end = none
get_field k (field j v fs) = if str_eq j k then some v else get_field k fs

-- `a[i]`; `none` is `undefined`.
unfoldable pub get_item : ℕ → Items → Option Json
get_item i nil = none
get_item zero (cons v vs) = some v
get_item (suc i) (cons v vs) = get_item i vs

-- `v.name` where `v` may be any value: only an object has fields that the services read.
unfoldable pub prop : String → Option Json → Option Json
unfolding get_field
prop k (some (obj fs)) = get_field k fs
prop k _ = none

-- `Array.isArray(v)`, with the items.
unfoldable pub as_array : Option Json → Option Items
as_array (some (arr xs)) = some xs
as_array _ = none

-- `typeof v === 'string'`, with the text.
unfoldable pub as_string : Option Json → Option String
as_string (some (str s)) = some s
as_string _ = none

-- `typeof v === 'number'`, with the number.
unfoldable pub as_number : Option Json → Option ℕ
as_number (some (num n)) = some n
as_number _ = none

-- A column of type `text | null`.
abbrev pub text_or_null : Option String → Json
text_or_null none = null
text_or_null (some s) = str s

abbrev pub num_or_null : Option ℕ → Json
num_or_null none = null
num_or_null (some n) = num n
