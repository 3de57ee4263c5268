-- ===== src/TableSort/Order.antt =====
-- What a sorted table shows: the same rows, with the gaps last.
use mathlib.Core.List.{Perm}
use mathlib.Core.List.Perm
use evuproxy.Common.{
  ℕ, ◌≡◌, refl, String, Bool, true, false, Option, none, some, List, [], ◌∷◌, str_eq_iff, All,
  if-either, Bool-cases, inl, inr, arith,
}
use evuproxy.TableSort.{
  Value, Sort, Compared, is_empty_value, is_after, compare_keys, indexed_from, insert_row,
  sort_rows, sorted_by, column_of, sorted_rows, is_sorted_by, on_header_click,
}

later_gap :
    (collate : Value → Value → Compared) (descending : Bool) (x y : Value)
    → is_after (compare_keys collate descending x y) ≡ true
    → is_empty_value y ≡ true
    → is_empty_value x ≡ true
unfolding compare_keys
later_gap collate descending x y later gap = elim (Bool-cases (is_empty_value x)) [
  | inl e ↦ e
  | inr n ↦ ground arith
]

sooner_gap :
    (collate : Value → Value → Compared) (descending : Bool) (x y : Value)
    → is_after (compare_keys collate descending x y) ≡ false
    → is_empty_value x ≡ true
    → is_empty_value y ≡ true
unfolding compare_keys
sooner_gap collate descending x y sooner gap = elim (Bool-cases (is_empty_value y)) [
  | inl e ↦ e
  | inr n ↦ ground arith
]

module _ (collate : Value → Value → Compared) {A : Type 0} where
  -- Behind a row with no value, no row has one.
  abbrev pub GapsLast : (A → Value) → List (A × ℕ) → Type 0
  GapsLast value [] = Unit {0}
  GapsLast value (x ∷ rows) =
      (is_empty_value (value x.0) ≡ true → All (λ y. is_empty_value (value y.0) ≡ true) rows)
      × GapsLast value rows

  insert_row-Perm :
      (descending : Bool) (value : A → Value) (x : A × ℕ) (rows : List (A × ℕ))
      → Perm (insert_row collate descending value x rows) (x ∷ rows)
  unfolding insert_row
  insert_row-Perm descending value x [] = Perm.refl _
  insert_row-Perm descending value x (y ∷ rows) =
      if-either (λ (r : List (A × ℕ)). Perm r (x ∷ y ∷ rows))
        (is_after (compare_keys collate descending (value x.0) (value y.0)))
        (λ _. Perm.trans (Perm.cons _ (insert_row-Perm descending value x rows)) (Perm.swap _ _ _))
        (λ _. Perm.refl _)

  sort_rows-Perm :
      (descending : Bool) (value : A → Value) (rows : List (A × ℕ))
      → Perm (sort_rows collate descending value rows) rows
  unfolding sort_rows
  sort_rows-Perm descending value [] = Perm.refl _
  sort_rows-Perm descending value (x ∷ rows) =
      Perm.trans (insert_row-Perm descending value x (sort_rows collate descending value rows))
        (Perm.cons _ (sort_rows-Perm descending value rows))

  All-insert_row :
      (P : A × ℕ → Type 0) (descending : Bool) (value : A → Value) (x : A × ℕ) (rows : List (A × ℕ))
      → P x
      → All P rows
      → All P (insert_row collate descending value x rows)
  unfolding insert_row
  All-insert_row P descending value x [] p ps = (p, tt)
  All-insert_row P descending value x (y ∷ rows) p ps =
      if-either (All P) (is_after (compare_keys collate descending (value x.0) (value y.0)))
        (λ _. (ps.0, All-insert_row P descending value x rows p ps.1)) (λ _. (p, ps))

  insert_row-GapsLast :
      (descending : Bool) (value : A → Value) (x : A × ℕ) (rows : List (A × ℕ))
      → GapsLast value rows
      → GapsLast value (insert_row collate descending value x rows)
  unfolding insert_row
  insert_row-GapsLast descending value x [] g = (λ _. tt, tt)
  insert_row-GapsLast descending value x (y ∷ rows) g =
      if-either (GapsLast value)
        (is_after (compare_keys collate descending (value x.0) (value y.0)))
        (λ later. (
          λ gap.
              All-insert_row (λ z. is_empty_value (value z.0) ≡ true) descending value x rows
                (later_gap collate descending (value x.0) (value y.0) later gap) (g.0 gap),
          insert_row-GapsLast descending value x rows g.1,
        ))
        (λ sooner. (
          λ gap.
              let y_gap = sooner_gap collate descending (value x.0) (value y.0) sooner gap in
              (y_gap, g.0 y_gap),
          g,
        ))

  sort_rows-GapsLast :
      (descending : Bool) (value : A → Value) (rows : List (A × ℕ))
      → GapsLast value (sort_rows collate descending value rows)
  unfolding sort_rows
  sort_rows-GapsLast descending value [] = tt
  sort_rows-GapsLast descending value (x ∷ rows) =
      insert_row-GapsLast descending value x (sort_rows collate descending value rows)
        (sort_rows-GapsLast descending value rows)

  abbrev pub ShowsAll : List A → Option (A → Value) → List (A × ℕ) → Type 0
  ShowsAll items none rows = rows ≡ indexed_from collate 0 items
  ShowsAll items (some value) rows = Perm rows (indexed_from collate 0 items) × GapsLast value rows

  sorted_by-ShowsAll :
      (sort : Option Sort) (items : List A) (columns : String → Option (A → Value))
      → ShowsAll items (column_of collate columns sort) (sorted_rows collate sort items columns)
  unfolding sorted_rows
  sorted_by-ShowsAll none items columns = refl
  sorted_by-ShowsAll (some s) items columns = shown (columns s.col)
    where
      shown :
          (value : Option (A → Value))
          → ShowsAll items value (sorted_by collate (some s) value (indexed_from collate 0 items))
      shown none = refl
      shown (some value) = (
        sort_rows-Perm s.descending value (indexed_from collate 0 items),
        sort_rows-GapsLast s.descending value (indexed_from collate 0 items),
      )

-- A sorted table shows every row of the config exactly once, each with its index in the config, and
-- the rows with no value last, in both directions and for any collator. An unsorted one, or one
-- sorted on a column that it does not have, shows the config's order.
pub sorted_rows-ShowsAll :
    (collate : Value → Value → Compared) {A : Type 0} (sort : Option Sort) (items : List A)
    (columns : String → Option (A → Value))
    → ShowsAll collate items
        (column_of collate columns sort)
        (sorted_rows collate sort items columns)
sorted_rows-ShowsAll collate sort items columns = sorted_by-ShowsAll collate sort items columns

-- From a table not sorted on this column, three clicks on its header go through both directions and
-- end without a sort.
on_header_click-cycles :
    (col : String) (sort : Option Sort)
    → is_sorted_by sort col ≡ false
    → (on_header_click col sort ≡ some (record { col = col; descending = false }))
      × (on_header_click col (on_header_click col sort)
          ≡ some (record { col = col; descending = true }))
      × (on_header_click col (on_header_click col (on_header_click col sort)) ≡ none)
unfolding on_header_click
on_header_click-cycles col none fresh =
    let it = (str_eq_iff col col).1 refl in (refl, rw it refl, rw it rw it refl)
on_header_click-cycles col (some s) fresh =
    let it = (str_eq_iff col col).1 refl in
    (rw fresh refl, rw fresh rw it refl, rw fresh rw it rw it refl)
