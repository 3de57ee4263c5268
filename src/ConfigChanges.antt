-- ===== src/ConfigChanges.antt =====
-- web/static/js/core/config_changes.js: the differences between the applied config and the saved one
-- as steps that can be taken back one at a time. This file has the comparison of values; its children
-- have the pairing of rows and the steps. The texts that describe a change, and the walk that lists
-- the changes, are not modelled.
pub mod Matching
pub mod MatchingLaws
pub mod Rows
pub mod RowCounts
pub mod Order
pub mod OrderCounts
pub mod Steps
pub mod Reverts
mod Examples
use evuproxy.Common.{
  ℕ, ◌≡◌, ◌↔◌, refl, sym, ◌∙◌, String, Bool, true, false, not, Option, none, some, List, [], ◌∷◌,
  str_eq, ◌==◌, text_leb, if◌then◌else◌,
}
use evuproxy.Json.{
  Json, null, bool, num, str, arr, obj, Items, nil, cons, Fields, end, field, items_list,
}
use evuproxy.Json.Equality.{json_eq, json_eq_iff}

-- `isEmptyValue`
abbrev pub is_empty_value : Json → Bool
is_empty_value null = true
is_empty_value (bool b) = not b
is_empty_value (num n) = n == 0
is_empty_value (str s) = str_eq s ""
is_empty_value (arr nil) = true
is_empty_value (arr (cons _ _)) = false
is_empty_value (obj end) = true
is_empty_value (obj (field _ _ _)) = false

-- Keys in sorted order.
insert_field : String → Json → Fields → Fields
insert_field k v end = field k v end
insert_field k v (field j w fs) =
    if text_leb k j then field k v (field j w fs) else field j w (insert_field k v fs)

abbrev keep_field : String → Json → Fields → Fields
keep_field k v fs = if is_empty_value v then fs else insert_field k v fs

unfoldable mutual
  unfolding insert_field

  pub strip_empty : Json → Json
  strip_empty null = null
  strip_empty (bool b) = bool b
  strip_empty (num n) = num n
  strip_empty (str s) = str s
  strip_empty (arr vs) = arr (strip_items vs)
  strip_empty (obj fs) = obj (strip_fields fs)

  pub strip_items : Items → Items
  strip_items nil = nil
  strip_items (cons v vs) = cons (strip_empty v) (strip_items vs)

  pub strip_fields : Fields → Fields
  strip_fields end = end
  strip_fields (field k v fs) = keep_field k (strip_empty v) (strip_fields fs)

-- `canonical`: equal texts of `JSON.stringify` are equal stripped values, and "null" stands for every
-- empty one. `none` is undefined.
unfoldable pub canonical : Option Json → Json
unfolding strip_empty
canonical none = null
canonical (some v) = if is_empty_value (strip_empty v) then null else strip_empty v

unfoldable pub same : Option Json → Option Json → Bool
same a b = json_eq (canonical a) (canonical b)

pub same_iff : (a b : Option Json) → (same a b ≡ true) ↔ (canonical a ≡ canonical b)
unfolding same
same_iff a b = json_eq_iff (canonical a) (canonical b)

-- The API leaves `disabled: false` out, and a client may send it in any order.
abbrev sent_row : Json
sent_row = obj (field "ports" (arr (cons (num 80) nil)) (field "disabled" (bool false) end))

abbrev applied_row : Json
applied_row = obj (field "ports" (arr (cons (num 80) nil)) end)

same_rows : same (some sent_row) (some applied_row) ≡ true
unfolding same canonical json_eq
same_rows = refl
