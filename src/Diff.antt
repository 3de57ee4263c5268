-- ===== src/Diff.antt =====
-- web/static/js/pages/pending.js: the line diff between the rules on the host and those that an Apply
-- would load, by a table of longest common subsequences. The table's cells are kept row by row; a
-- cell has its length and the direction that the way back takes from it. Lines and characters are
-- compared by an equality that is an argument.
pub mod Reference
pub mod Table
pub mod Trace
pub mod Shortest
pub mod Rows
mod Examples
use evuproxy.Common.{
  ℕ, zero, suc, ◌+◌, ◌*◌, String, Bool, true, false, ◌&&◌, ◌||◌, Option, none, some, List, [], ◌∷◌,
  ◌==◌, leb, ltb, length, get_elem?, if◌then◌else◌,
}

-- 1, 2 and 3 of `dirs`, and the 0 that no cell was given.
pub data Dir : Type 0 where
  unset diagonal up left : Dir

pub record Cell : Type 0 where
  pub len : ℕ
  pub dir : Dir

abbrev pub zero_cell : Cell
zero_cell = record { len = 0; dir = unset }

pub data Op (A : Type 0) : Type 0 where
  equal : A → A → Op A
  insert : A → Op A
  delete : A → Op A

-- What the inner loop writes, from the cells at its diagonal, above and to the left.
unfoldable pub fill_cell : Bool → Cell → Cell → Cell → Cell
fill_cell same d u l =
    if same
    then record { len = suc d.len; dir = diagonal }
    else if leb l.len u.len
    then record { len = u.len; dir = up }
    else record { len = l.len; dir = left }

module _ {A : Type 0} (eq : A → A → Bool) where
  -- The inner loop: `prev` is the row above from one cell to the left on.
  unfoldable pub fill_cells : A → List A → List Cell → Cell → List Cell
  unfolding fill_cell
  fill_cells x (y ∷ new) (d ∷ u ∷ prev) l =
      let c = fill_cell (eq x y) d u l in c ∷ fill_cells x new (u ∷ prev) c
  fill_cells x _ _ l = []

  unfoldable pub fill_row : A → List A → List Cell → List Cell
  unfolding fill_cells
  fill_row x new prev = zero_cell ∷ fill_cells x new prev zero_cell

  abbrev pub zero_row : List A → List Cell
  zero_row [] = zero_cell ∷ []
  zero_row (y ∷ new) = zero_cell ∷ zero_row new

  -- The rows below a row.
  unfoldable pub fill_rows : List A → List A → List Cell → List (List Cell)
  unfolding fill_row
  fill_rows [] new prev = []
  fill_rows (x ∷ old) new prev = let row = fill_row x new prev in row ∷ fill_rows old new row

  unfoldable pub table : List A → List A → List (List Cell)
  unfolding fill_rows
  table old new = zero_row new ∷ fill_rows old new (zero_row new)

  abbrev pub cell_in : ℕ → Option (List Cell) → Option Cell
  cell_in j none = none
  cell_in j (some row) = get_elem? row j

  abbrev pub dir_of : Option Cell → Dir
  dir_of none = unset
  dir_of (some c) = c.dir

  -- `dirs[idx(i, j)]`
  unfoldable pub dir_at : List (List Cell) → ℕ → ℕ → Dir
  dir_at t i j = dir_of (cell_in j (get_elem? t i))

  -- The way back from row `i` and column `j`, with the operations behind it. A round leaves the loop
  -- at (0, 0), and where a line is missing.
  abbrev pub put_equal : Option A → Option A → List (Op A) → List (Op A)
  put_equal (some x) (some y) ops = equal x y ∷ ops
  put_equal _ _ ops = ops

  abbrev pub put_insert : Option A → List (Op A) → List (Op A)
  put_insert (some y) ops = insert y ∷ ops
  put_insert none ops = ops

  abbrev pub put_delete : Option A → List (Op A) → List (Op A)
  put_delete (some x) ops = delete x ∷ ops
  put_delete none ops = ops

  module _ (old new : List A) (dirs : ℕ → ℕ → Dir) where
    -- The loop's body at `i` rows and `j` columns, `go` being the rounds that follow.
    abbrev pub trace_step :
        (ℕ → ℕ → List (Op A) → List (Op A)) → ℕ → ℕ → Dir → List (Op A) → List (Op A)
    trace_step go zero zero d ops = ops
    trace_step go zero (suc j) d ops = go zero j (put_insert (get_elem? new j) ops)
    trace_step go (suc i) zero d ops = go i zero (put_delete (get_elem? old i) ops)
    trace_step go (suc i) (suc j) diagonal ops =
        go i j (put_equal (get_elem? old i) (get_elem? new j) ops)
    trace_step go (suc i) (suc j) left ops = go (suc i) j (put_insert (get_elem? new j) ops)
    trace_step go (suc i) (suc j) up ops = go i (suc j) (put_delete (get_elem? old i) ops)
    trace_step go (suc i) (suc j) unset ops = go i (suc j) (put_delete (get_elem? old i) ops)

    unfoldable pub trace : ℕ → ℕ → ℕ → List (Op A) → List (Op A)
    trace zero i j ops = ops
    trace (suc fuel) i j ops = trace_step (trace fuel) i j (dirs i j) ops

  -- `computeLineDiff` and `computeCharDiff` have the same body under two limits.
  unfoldable pub compute_ops : List A → List A → List (Op A)
  unfolding table dir_at trace
  compute_ops old new =
      trace old new (dir_at (table old new)) (length old + length new) (length old) (length new) []

  abbrev pub is_too_large : ℕ → ℕ → List A → List A → Bool
  is_too_large max_side max_cells old new =
      ltb max_side (length old)
      || ltb max_side (length new)
      || ltb max_cells (length old * length new)

  unfoldable pub compute_line_diff : List A → List A → Option (List (Op A))
  unfolding compute_ops
  compute_line_diff old new =
      let ops = compute_ops old new in if is_too_large 6000 12000000 old new then none else some ops
