-- ===== src/ConfigChanges/Rows.antt =====
-- `moveRow`: taking one row step back, or making it again, in the rows of a fresh draft.
use evuproxy.Common.{
  ℕ, zero, suc, String, Bool, true, false, not, ◌&&◌, Option, none, some, List, [], ◌∷◌, leb, any,
  set, str_eq, if◌then◌else◌,
}

-- The new rows, nothing to do (`return false`), the error that the peer is back in another form, or
-- the error that the row was edited elsewhere.
pub data Moved (A : Type 0) : Type 0 where
  moved : List A → Moved A
  already back_differently stale : Moved A

-- The search meets a row: here, or one further on.
abbrev pub next_row : Bool → Option ℕ → Option ℕ
next_row true later = some 0
next_row false none = none
next_row false (some i) = some (suc i)

module _ {A : Type 0} (same : A → A → Bool) where
  abbrev pub count_of : List A → A → ℕ
  count_of [] row = 0
  count_of (r ∷ rows) row = if same r row then suc (count_of rows row) else count_of rows row

  -- `rows.findIndex((r) => same(r, have))`
  unfoldable pub find_row : A → List A → Option ℕ
  find_row have [] = none
  find_row have (r ∷ rows) = next_row (same r have) (find_row have rows)

  -- `rows.splice(Math.min(at, rows.length), 0, row)`
  unfoldable pub insert_at : ℕ → A → List A → List A
  insert_at zero row rows = row ∷ rows
  insert_at (suc i) row [] = row ∷ []
  insert_at (suc i) row (r ∷ rows) = r ∷ insert_at i row rows

  -- `rows.splice(i, 1)`
  unfoldable pub erase_idx : ℕ → List A → List A
  erase_idx i [] = []
  erase_idx zero (r ∷ rows) = rows
  erase_idx (suc i) (r ∷ rows) = r ∷ erase_idx i rows

module _ {A : Type 0} (same : A → A → Bool) (public_key : A → String) where
  abbrev pub is_back : A → List A → Bool
  is_back want rows =
      not (str_eq (public_key want) "") && any (λ r. str_eq (public_key r) (public_key want)) rows

  unfoldable pub restore_row : A → ℕ → List A → List A → Moved A
  unfolding insert_at
  restore_row want want_at want_rows rows =
      if leb (count_of same want_rows want) (count_of same rows want)
      then already
      else if is_back want rows
      then back_differently
      else moved (insert_at same want_at want rows)

  abbrev pub removed_at : Option ℕ → List A → Moved A
  removed_at none rows = already
  removed_at (some i) rows = moved (erase_idx same i rows)

  unfoldable pub remove_row : A → List A → List A → Moved A
  unfolding find_row erase_idx
  remove_row have want_rows rows =
      if leb (count_of same rows have) (count_of same want_rows have)
      then already
      else removed_at (find_row same have rows) rows

  abbrev pub replaced_at : A → Option ℕ → List A → Moved A
  replaced_at want none rows = if any (λ r. same r want) rows then already else stale
  replaced_at want (some i) rows = moved (set rows i want)

  unfoldable pub replace_row : A → A → List A → Moved A
  unfolding find_row
  replace_row have want rows = replaced_at want (find_row same have rows) rows

  -- A step has a row on at least one side.
  unfoldable pub move_row : Option A → Option A → ℕ → List A → List A → Moved A
  unfolding restore_row remove_row replace_row
  move_row none none want_at want_rows rows = already
  move_row none (some want) want_at want_rows rows = restore_row want want_at want_rows rows
  move_row (some have) none want_at want_rows rows = remove_row have want_rows rows
  move_row (some have) (some want) want_at want_rows rows = replace_row have want rows
