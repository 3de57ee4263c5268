-- ===== src/TableSort.antt =====
-- web/static/js/core/table_sort.js: click-to-sort of a table, which changes only the order in which
-- rows are drawn. The browser's collator is an argument. Its `sort` is stable.
pub mod Order
mod Examples
use Prim.Native.Nat.{compare, Ordering}
use evuproxy.Common.{
  ℕ, ◌+◌, String, Bool, true, false, Option, none, some, List, [], ◌∷◌, map, str_eq, if◌then◌else◌,
}

-- A value to sort on. Null, undefined and the empty text are `empty`.
pub data Value : Type 0 where
  empty : Value
  num : ℕ → Value
  text : String → Value

pub record Sort : Type 0 where
  pub col : String
  pub descending : Bool

-- The three outcomes of a comparison.
pub data Compared : Type 0 where
  before same after : Compared

abbrev compared_numbers : ℕ → ℕ → Compared
compared_numbers a b = elim (compare a b) [
  | Ordering.lt ↦ before
  | Ordering.eq ↦ same
  | Ordering.gt ↦ after
]

abbrev flipped : Compared → Compared
flipped before = after
flipped same = same
flipped after = before

abbrev pub is_empty_value : Value → Bool
is_empty_value empty = true
is_empty_value _ = false

abbrev pub is_after : Compared → Bool
is_after after = true
is_after _ = false

module _ (collate : Value → Value → Compared) where
  -- `compareValues`: two numbers by size, anything else by its text.
  abbrev pub compare_values : Value → Value → Compared
  compare_values (num a) (num b) = compared_numbers a b
  compare_values a b = collate a b

  -- An empty value comes last in both directions.
  unfoldable pub compare_keys : Bool → Value → Value → Compared
  compare_keys descending x y =
      if is_empty_value x
      then (if is_empty_value y then same else after)
      else if is_empty_value y
      then before
      else if descending
      then flipped (compare_values x y)
      else compare_values x y

  module _ {A : Type 0} where
    -- The rows with their index in the config.
    abbrev pub indexed_from : ℕ → List A → List (A × ℕ)
    indexed_from i [] = []
    indexed_from i (a ∷ as') = (a, i) ∷ indexed_from (i + 1) as'

    -- `keyed.sort`: a row goes before the first that it does not come after.
    unfoldable pub insert_row : Bool → (A → Value) → A × ℕ → List (A × ℕ) → List (A × ℕ)
    unfolding compare_keys
    insert_row descending value x [] = x ∷ []
    insert_row descending value x (y ∷ rows) =
        let rest = insert_row descending value x rows in
        if is_after (compare_keys descending (value x.0) (value y.0))
        then y ∷ rest
        else x ∷ y ∷ rows

    unfoldable pub sort_rows : Bool → (A → Value) → List (A × ℕ) → List (A × ℕ)
    unfolding insert_row
    sort_rows descending value [] = []
    sort_rows descending value (x ∷ rows) =
        insert_row descending value x (sort_rows descending value rows)

    abbrev pub sorted_by : Option Sort → Option (A → Value) → List (A × ℕ) → List (A × ℕ)
    sorted_by none value rows = rows
    sorted_by (some s) none rows = rows
    sorted_by (some s) (some value) rows = sort_rows s.descending value rows

    abbrev pub column_of : (String → Option (A → Value)) → Option Sort → Option (A → Value)
    column_of columns none = none
    column_of columns (some s) = columns s.col

    -- `sortedRows`
    unfoldable pub sorted_rows : Option Sort → List A → (String → Option (A → Value)) → List (A × ℕ)
    unfolding sort_rows
    sorted_rows sort items columns = sorted_by sort (column_of columns sort) (indexed_from 0 items)

-- `isSortedBy`
abbrev pub is_sorted_by : Option Sort → String → Bool
is_sorted_by none col = false
is_sorted_by (some s) col = str_eq s.col col

-- A click on the header of `col`: ascending, then descending, then the config's order.
unfoldable pub on_header_click : String → Option Sort → Option Sort
on_header_click col none = some (record { col = col; descending = false })
on_header_click col (some s) =
    if str_eq s.col col
    then (if s.descending then none else some (record { col = col; descending = true }))
    else some (record { col = col; descending = false })
