-- ===== src/Roster/Json.antt =====
-- cJSON as main/beacon_config.c uses it: a parameter, with what the code asks of an item and how
-- it builds one, and the code's own wrappers of these calls.
use van_child_safety.Base.{Bool, true, false, Option, none, some, List, [], if◌then◌else◌}
use van_child_safety.Base.Int.{ℤ}
use van_child_safety.Base.Text.{Text, is_empty}

pub record Cjson : Type 1 where
  pub Item : Type 0
  -- `cJSON_Parse` and `cJSON_PrintUnformatted`; `none` is a null pointer.
  pub parse : Text → Option Item
  pub print : Item → Option Text
  -- `cJSON_GetObjectItem`.
  pub get_item : Item → Text → Option Item
  -- `valuestring` if `cJSON_IsString`, `valueint` if `cJSON_IsNumber`, the elements if
  -- `cJSON_IsArray`.
  pub string_value : Item → Option Text
  pub int_value : Item → Option ℤ
  pub elements : Item → Option (List Item)
  pub is_true : Item → Bool
  pub is_false : Item → Bool
  pub is_object : Item → Bool
  -- What `cJSON_CreateObject`, `cJSON_AddArrayToObject` and the like build, members in order.
  pub object : List (Text × Item) → Item
  pub array : List Item → Item
  pub string : Text → Item
  pub number : ℤ → Item
  pub boolean : Bool → Item

abbrev pub is_some {ℓ} : {A : Type ℓ} → Option A → Bool
is_some none = false
is_some (some _) = true

-- `if (!x) x = y;` on pointers.
abbrev pub first_of {ℓ} : {A : Type ℓ} → Option A → Option A → Option A
first_of none y = y
first_of (some x) y = some x

-- A null pointer read as the empty string, as `copy_string` does.
abbrev pub or_empty : Option Text → Text
or_empty none = []
or_empty (some s) = s

-- `if (s && s[0] == '\0') s = NULL;`
abbrev pub non_empty : Option Text → Option Text
non_empty none = none
non_empty (some s) = if is_empty s then none else some s

abbrev pub int_or : Option ℤ → ℤ → ℤ
int_or none d = d
int_or (some n) d = n

-- `item && p(item)`.
abbrev pub flag {ℓ} : {A : Type ℓ} → (A → Bool) → Option A → Bool
flag p none = false
flag p (some a) = p a

module _ (cj : Cjson) where
  -- `cJSON_GetObjectItem` of what may be a null pointer.
  abbrev pub member : Option cj.Item → Text → Option cj.Item
  member none key = none
  member (some item) key = cj.get_item item key

  abbrev pub as_string : Option cj.Item → Option Text
  as_string none = none
  as_string (some item) = cj.string_value item

  abbrev pub as_object : Option cj.Item → Option cj.Item
  as_object none = none
  as_object (some item) = if cj.is_object item then some item else none

  abbrev pub as_int : Option cj.Item → Option ℤ
  as_int none = none
  as_int (some item) = cj.int_value item

  -- `json_string_or_null`.
  unfoldable pub json_string_or_null : Option cj.Item → Text → Option Text
  json_string_or_null json key = as_string (member json key)

  -- `json_object_or_null`.
  unfoldable pub json_object_or_null : cj.Item → Text → Option cj.Item
  json_object_or_null json key = as_object (cj.get_item json key)

  -- `json_int_or_default`.
  unfoldable pub json_int_or_default : Option cj.Item → Text → ℤ → ℤ
  json_int_or_default json key d = int_or (as_int (member json key)) d
