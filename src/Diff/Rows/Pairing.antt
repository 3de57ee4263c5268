-- ===== src/Diff/Rows/Pairing.antt =====
-- The views treat a removal with an addition right behind it as one changed line. The diff lists the
-- addition first.
use mathlib.Core.Path.{subst}
use evuproxy.Common.{
  ℕ, zero, suc, ◌+◌, ◌≤◌, ◌≡◌, sym, ◌∙◌, ap, Bool, true, false, none, some, List, [], ◌∷◌, length,
  if◌then◌else◌, arith,
}
use evuproxy.Diff.{
  Dir, unset, diagonal, up, left, Op, equal, insert, delete, trace_step, trace, compute_ops, dir_at,
  table, is_too_large, compute_line_diff,
}
use evuproxy.Diff.Reference.{lcs, cell_of}
use evuproxy.Diff.Table.{rev_take, dir_at_lem, IsTable}
use evuproxy.Diff.Trace.{rev_take-suc}
use evuproxy.Diff.Rows.{SideRow, context, changed, alone, gap, render_split, eq_line}

-- One more element on either side takes nothing away, and adds at most one.
lcs_steps :
    {A : Type 0} (eq : A → A → Bool) (xs ys : List A) (x y : A)
    → (lcs eq xs ys ≤ lcs eq xs (y ∷ ys)) × (lcs eq (x ∷ xs) ys ≤ suc (lcs eq xs ys))
unfolding lcs
lcs_steps eq [] [] x y = (omega arith, omega arith)
lcs_steps eq [] (z ∷ ys) x y =
    let (wider, taller) = lcs_steps eq [] ys x z in (omega arith, ground arith)
lcs_steps eq (z ∷ xs) [] x y = (ground arith, omega arith)
lcs_steps eq (z ∷ xs) (w ∷ ys) x y =
    let (_, taller) = lcs_steps eq xs (w ∷ ys) z y in
    let (wider, more) = lcs_steps eq (z ∷ xs) ys x w in (ground arith, ground arith)

-- No removal has an addition right behind it.
abbrev pub NeverPairs : {A : Type 0} → List (Op A) → Type 0
NeverPairs [] = Unit {0}
NeverPairs (equal x y ∷ ops) = NeverPairs ops
NeverPairs (insert y ∷ ops) = NeverPairs ops
NeverPairs (delete x ∷ insert y ∷ ops) = ⊥
NeverPairs (delete x ∷ []) = Unit {0}
NeverPairs (delete x ∷ equal z y ∷ ops) = NeverPairs ops
NeverPairs (delete x ∷ delete z ∷ ops) = NeverPairs (delete z ∷ ops)

-- The round at two prefixes, the last element of each first, removes a line.
abbrev Removes : {A : Type 0} → (A → A → Bool) → List A → List A → Type 0
Removes eq [] ys = ⊥
Removes eq (x ∷ xs) [] = Unit {0}
Removes eq (x ∷ xs) (y ∷ ys) = (cell_of eq (x ∷ xs) (y ∷ ys)).dir ≡ up

abbrev IsAdded : {A : Type 0} → List (Op A) → Type 0
IsAdded (insert y ∷ ops) = Unit {0}
IsAdded _ = ⊥

-- Left of a cell whose round adds a line, no round removes one.
left_Removes :
    {A : Type 0} (eq : A → A → Bool) (x y : A) (xs ys : List A)
    → (cell_of eq (x ∷ xs) (y ∷ ys)).dir ≡ left
    → Removes eq (x ∷ xs) ys
    → ⊥
unfolding cell_of lcs
left_Removes eq x y xs [] goes r = ground arith
left_Removes eq x y xs (z ∷ ys) goes r =
    let (wider, _) = lcs_steps eq xs (z ∷ ys) x y in ground arith

not_added :
    {A : Type 0} (x : A) (ops : List (Op A))
    → NeverPairs ops
    → (IsAdded ops → ⊥)
    → NeverPairs (delete x ∷ ops)
not_added x [] n free = tt
not_added x (equal z y ∷ ops) n free = n
not_added x (delete z ∷ ops) n free = n
not_added x (insert y ∷ ops) n free = free tt

module _ {A : Type 0} (eq : A → A → Bool) where
  -- What the loop keeps at a round, over the prefixes that are left.
  abbrev Safe : List A → List A → List (Op A) → Type 0
  Safe xs ys ops = NeverPairs ops × (IsAdded ops → Removes eq xs ys → ⊥)

  is_set : (x y : A) (xs ys : List A) → (cell_of eq (x ∷ xs) (y ∷ ys)).dir ≡ unset → ⊥
  unfolding cell_of
  is_set x y xs ys e = ground arith

  step_back :
      (x y : A) (xs ys : List A) (ops : List (Op A)) (go : Dir → List (Op A))
      → Safe (x ∷ xs) (y ∷ ys) ops
      → (Safe xs ys (equal x y ∷ ops) → NeverPairs (go diagonal))
      → (Safe xs (y ∷ ys) (delete x ∷ ops) → NeverPairs (go up))
      → (Safe (x ∷ xs) ys (insert y ∷ ops) → NeverPairs (go left))
      → (d : Dir) → (cell_of eq (x ∷ xs) (y ∷ ys)).dir ≡ d
      → NeverPairs (go d)
  step_back x y xs ys ops go s d u l diagonal e = d (s.0, λ a _. a)
  step_back x y xs ys ops go s d u l up e = u (not_added x ops s.0 (λ a. s.1 a e), λ a _. a)
  step_back x y xs ys ops go s d u l left e = l (s.0, λ _ r. left_Removes eq x y xs ys e r)
  step_back x y xs ys ops go s d u l unset e = elim (is_set x y xs ys e) [ ]

  module _ (old new : List A) (dirs : ℕ → ℕ → Dir) where
    trace-NeverPairs :
        IsTable eq old new dirs
        → (fuel i j : ℕ) (ops : List (Op A)) → i ≤ length old
        → j ≤ length new
        → Safe (rev_take i old []) (rev_take j new []) ops
        → NeverPairs (trace eq old new dirs fuel i j ops)
    unfolding trace
    trace-NeverPairs t zero i j ops hi hj s = s.0
    trace-NeverPairs t (suc fuel) zero zero ops hi hj s = s.0
    trace-NeverPairs t (suc fuel) zero (suc j) ops hi hj s =
        let (y, at_y, ys) = rev_take-suc j new [] hj in
        rw at_y (trace-NeverPairs t fuel zero j (insert y ∷ ops) hi (omega arith) (s.0, λ _ r. r))
    trace-NeverPairs t (suc fuel) (suc i) zero ops hi hj s =
        let (x, at_x, xs) = rev_take-suc i old [] hi in
        let safe = subst (λ l. Safe l [] ops) xs s in
        rw at_x (
          trace-NeverPairs t fuel i zero (delete x ∷ ops) (omega arith) hj
            (not_added x ops s.0 (λ a. safe.1 a tt), λ a _. a))
    trace-NeverPairs t (suc fuel) (suc i) (suc j) ops hi hj s =
        let (x, at_x, xs) = rev_take-suc i old [] hi in
        let (y, at_y, ys) = rev_take-suc j new [] hj in
        let dir =
          t (suc i) (suc j) hi hj
          ∙ ap (λ l. (cell_of eq l (rev_take (suc j) new [])).dir) xs
          ∙ ap (λ l. (cell_of eq (x ∷ rev_take i old []) l).dir) ys in
        let safe =
          subst (λ l. Safe (x ∷ rev_take i old []) l ops) ys
            (subst (λ l. Safe l (rev_take (suc j) new []) ops) xs s) in
        step_back x y (rev_take i old []) (rev_take j new []) ops
          (λ d. trace_step eq old new dirs (trace eq old new dirs fuel) (suc i) (suc j) d ops) safe
          (λ s'.
            rw at_x rw at_y
              (trace-NeverPairs t fuel i j (equal x y ∷ ops) (omega arith) (omega arith) s'))
          (λ s'. rw at_x (
            trace-NeverPairs t fuel i (suc j) (delete x ∷ ops) (omega arith) hj
              (subst (λ l. Safe (rev_take i old []) l (delete x ∷ ops)) (sym ys) s')))
          (λ s'. rw at_y (
            trace-NeverPairs t fuel (suc i) j (insert y ∷ ops) hi (omega arith)
              (subst (λ l. Safe l (rev_take j new []) (insert y ∷ ops)) (sym xs) s')))
          (dirs (suc i) (suc j)) (sym dir)

  compute_ops-NeverPairs : (old new : List A) → NeverPairs (compute_ops eq old new)
  unfolding compute_ops
  compute_ops-NeverPairs old new =
      trace-NeverPairs old new (dir_at eq (table eq old new)) (dir_at_lem eq old new)
        (length old + length new) (length old) (length new) [] (omega arith) (omega arith)
        (tt, λ a _. a)

pub some_of : {A : Type 0} (b : Bool) (x y : A) → (if b then none else some x) ≡ some y → x ≡ y
some_of true x y e = cc
some_of false x y e = cc

abbrev pub HasChanged : {C : Type 0} → List (SideRow C) → Type 0
HasChanged [] = ⊥
HasChanged (changed i ps ∷ rows) = Unit {0}
HasChanged (context i ps ∷ rows) = HasChanged rows
HasChanged (alone i ps ∷ rows) = HasChanged rows
HasChanged (gap ∷ rows) = HasChanged rows

module _ {C : Type 0} (eq : C → C → Bool) where
  apart_rows :
      (ops : List (Op (List C))) (o n : ℕ)
      → NeverPairs ops
      → HasChanged (render_split eq ops o n).0
      → ⊥
  unfolding render_split
  apart_rows [] o n p c = c
  apart_rows (equal x y ∷ ops) o n p c = apart_rows ops (o + 1) (n + 1) p c
  apart_rows (insert y ∷ ops) o n p c = apart_rows ops o (n + 1) p c
  apart_rows (delete x ∷ insert y ∷ ops) o n p c = p
  apart_rows (delete x ∷ []) o n p c = c
  apart_rows (delete x ∷ equal z y ∷ ops) o n p c = apart_rows (equal z y ∷ ops) (o + 1) n p c
  apart_rows (delete x ∷ delete z ∷ ops) o n p c = apart_rows (delete z ∷ ops) (o + 1) n p c

  -- The rows that the left pane shows of a diff which was computed never have a changed line, with its
  -- pieces, among them: a line that was rewritten stands as an addition and a removal.
  pub render_split-HasChanged :
      (old new : List (List C)) (ops : List (Op (List C)))
      → compute_line_diff (eq_line eq) old new ≡ some ops
      → ¬ HasChanged (render_split eq ops 0 0).0
  unfolding compute_line_diff
  render_split-HasChanged old new ops e c =
      apart_rows ops 0 0
        (subst NeverPairs (some_of (is_too_large (eq_line eq) 6000 12000000 old new) _ ops e)
          (compute_ops-NeverPairs (eq_line eq) old new))
        c
