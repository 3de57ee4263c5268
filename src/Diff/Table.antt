-- ===== src/Diff/Table.antt =====
-- Each cell of the table is the one of the plain recursion on the two prefixes.
use evuproxy.Common.{
  ℕ, zero, suc, ◌≤◌, ◌≡◌, refl, ◌∙◌, ap, Bool, some, List, [], ◌∷◌, length, get_elem?, arith,
}
use evuproxy.Diff.{
  Dir, Cell, zero_cell, fill_cells, fill_row, zero_row, fill_rows, table, dir_at, dir_of, cell_in,
}
use evuproxy.Diff.Reference.{cell_of, fill_cell-cell_of}

-- The first `n` elements, the last of them first.
abbrev pub rev_take {ℓ} : {A : Type ℓ} → ℕ → List A → List A → List A
rev_take zero xs acc = acc
rev_take (suc n) [] acc = acc
rev_take (suc n) (x ∷ xs) acc = rev_take n xs (x ∷ acc)

module _ {A : Type 0} (eq : A → A → Bool) where
  -- These are the directions of the plain recursion.
  abbrev pub IsTable : List A → List A → (ℕ → ℕ → Dir) → Type 0
  IsTable old new dirs =
      (i j : ℕ)
      → i ≤ length old
      → j ≤ length new
      → dirs i j ≡ (cell_of eq (rev_take i old []) (rev_take j new [])).dir

  -- The cells right of the one at `ys`, `new` being what follows.
  abbrev spec_rest : List A → List A → List A → List Cell
  spec_rest xs ys [] = []
  spec_rest xs ys (y ∷ new) = cell_of eq xs (y ∷ ys) ∷ spec_rest xs (y ∷ ys) new

  abbrev spec_row : List A → List A → List A → List Cell
  spec_row xs ys new = cell_of eq xs ys ∷ spec_rest xs ys new

  fill_cells_lem :
      (x : A) (xs ys new : List A)
      → fill_cells eq x new (spec_row xs ys new) (cell_of eq (x ∷ xs) ys)
        ≡ spec_rest (x ∷ xs) ys new
  unfolding fill_cells
  fill_cells_lem x xs ys [] = refl
  fill_cells_lem x xs ys (y ∷ new) =
      ap (λ c. c ∷ fill_cells eq x new (spec_row xs (y ∷ ys) new) c)
        (fill_cell-cell_of eq x y xs ys)
      ∙ ap (λ cs. cell_of eq (x ∷ xs) (y ∷ ys) ∷ cs) (fill_cells_lem x xs (y ∷ ys) new)

  fill_row_lem :
      (x : A) (xs new : List A) → fill_row eq x new (spec_row xs [] new) ≡ spec_row (x ∷ xs) [] new
  unfolding fill_row cell_of
  fill_row_lem x xs new = ap (λ cs. zero_cell ∷ cs) (fill_cells_lem x xs [] new)

  zero_row_lem : (ys new : List A) → zero_row eq new ≡ spec_row [] ys new
  unfolding cell_of
  zero_row_lem ys [] = refl
  zero_row_lem ys (y ∷ new) = ap (λ cs. zero_cell ∷ cs) (zero_row_lem (y ∷ ys) new)

  cell_in-spec :
      (xs ys new : List A) (j : ℕ)
      → j ≤ length new
      → get_elem? (spec_row xs ys new) j ≡ some (cell_of eq xs (rev_take j new ys))
  cell_in-spec xs ys new zero h = refl
  cell_in-spec xs ys [] (suc j) h = absurd (omega arith)
  cell_in-spec xs ys (y ∷ new) (suc j) h = cell_in-spec xs (y ∷ ys) new j (omega arith)

  row_at :
      (xs old new : List A) (i : ℕ)
      → i ≤ length old
      → get_elem? (spec_row xs [] new ∷ fill_rows eq old new (spec_row xs [] new)) i
        ≡ some (spec_row (rev_take i old xs) [] new)
  unfolding fill_rows
  row_at xs old new zero h = refl
  row_at xs [] new (suc i) h = absurd (omega arith)
  row_at xs (x ∷ old) new (suc i) h =
      ap (λ row. get_elem? (row ∷ fill_rows eq old new row) i) (fill_row_lem x xs new)
      ∙ row_at (x ∷ xs) old new i (omega arith)

  pub dir_at_lem : (old new : List A) → IsTable old new (dir_at eq (table eq old new))
  unfolding dir_at table
  dir_at_lem old new i j hi hj =
      ap (λ row. dir_of eq (cell_in eq j (get_elem? (row ∷ fill_rows eq old new row) i)))
        (zero_row_lem [] new)
      ∙ ap (λ row. dir_of eq (cell_in eq j row)) (row_at [] old new i hi)
      ∙ ap (dir_of eq) (cell_in-spec (rev_take i old []) [] new j hj)
