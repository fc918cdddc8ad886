-- ===== src/Json.antt =====
-- What `JSON.parse` yields, as lib/push-server.ts and lib/push-gateway.ts read it. Numbers are whole
-- ones, with their sign; a parsed object names a key once.
use sub_etha.Prelude.{
  ℕ, Text, text_eq, Bool, true, false, List, [], ◌∷◌, Option, none, some, if◌then◌else◌,
}

mutual
  pub data Json : Type 0 where
    null : Json
    bool : Bool → Json
    num : (negative : Bool) → ℕ → Json
    str : Text → Json
    arr : Items → Json
    obj : Fields → Json

  pub data Items : Type 0 where
    nil : Items
    cons : Json → Items → Items

  pub data Fields : Type 0 where
    end : Fields
    field : Text → Json → Fields → Fields

abbrev pub items : Items → List Json
items nil = []
items (cons v vs) = v ∷ items vs

-- `none` stands for `undefined`.
unfoldable pub field_of : Fields → Text → Option Json
field_of end key = none
field_of (field k v fs) key = if text_eq k key then some v else field_of fs key

-- `v?.key` of a value that is there: a property of anything but an object is `undefined`.
unfoldable pub get : Json → Text → Option Json
unfolding field_of
get (obj fs) key = field_of fs key
get _ key = none

-- `v?.key`
abbrev pub get? : Option Json → Text → Option Json
get? none key = none
get? (some v) key = get v key

-- `typeof v === "string"`
abbrev pub string_of : Option Json → Option Text
string_of (some (str s)) = some s
string_of _ = none

-- `v ?? null`
abbrev pub or_null : Option Json → Json
or_null none = null
or_null (some v) = v

-- `v == null`
abbrev pub is_nullish : Option Json → Bool
is_nullish none = true
is_nullish (some null) = true
is_nullish (some _) = false
