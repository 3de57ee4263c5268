-- ===== src/Diff/Reference.antt =====
-- The longest common subsequence, by the plain recursion, and that none is longer.
use evuproxy.Common.{
  ℕ, suc, ◌≤◌, ◌≡◌, refl, ◌↔◌, Bool, true, false, List, [], ◌∷◌, leb, length, if◌then◌else◌,
  Bool-cases, inl, inr, arith,
}
use evuproxy.Diff.{diagonal, up, left, Cell, zero_cell, fill_cell}

abbrev pub larger : ℕ → ℕ → ℕ
larger a b = if leb a b then b else a

-- `zs` with other elements put in between is `xs`.
pub data Within {A : Type 0} : List A → List A → Type 0 where
  none_left : {xs : List A} → Within [] xs
  skip : {zs xs : List A} {x : A} → Within zs xs → Within zs (x ∷ xs)
  keep : {zs xs : List A} {x : A} → Within zs xs → Within (x ∷ zs) (x ∷ xs)

drop_first : {A : Type 0} {zs xs : List A} {z : A} → Within (z ∷ zs) xs → Within zs xs
drop_first (skip w) = skip (drop_first w)
drop_first (keep w) = skip w

drop_both : {A : Type 0} {zs xs : List A} {z x : A} → Within (z ∷ zs) (x ∷ xs) → Within zs xs
drop_both (skip w) = drop_first w
drop_both (keep w) = w

module _ {A : Type 0} (eq : A → A → Bool) where
  unfoldable pub lcs : List A → List A → ℕ
  lcs [] ys = 0
  lcs (x ∷ xs) [] = 0
  lcs (x ∷ xs) (y ∷ ys) =
      let kept = suc (lcs xs ys) in
      let dropped = larger (lcs (x ∷ xs) ys) (lcs xs (y ∷ ys)) in if eq x y then kept else dropped

  -- The cell of two prefixes, each with its last element first.
  unfoldable pub cell_of : List A → List A → Cell
  unfolding lcs fill_cell
  cell_of [] ys = zero_cell
  cell_of (x ∷ xs) [] = zero_cell
  cell_of (x ∷ xs) (y ∷ ys) = record {
    len = lcs (x ∷ xs) (y ∷ ys);
    dir = if eq x y then diagonal else if leb (lcs (x ∷ xs) ys) (lcs xs (y ∷ ys)) then up else left;
  }

  pub len-cell_of : (xs ys : List A) → (cell_of xs ys).len ≡ lcs xs ys
  unfolding cell_of
  len-cell_of [] ys = refl
  len-cell_of (x ∷ xs) [] = refl
  len-cell_of (x ∷ xs) (y ∷ ys) = refl

  pub fill_cell-cell_of :
      (x y : A) (xs ys : List A)
      → fill_cell (eq x y) (cell_of xs ys) (cell_of xs (y ∷ ys)) (cell_of (x ∷ xs) ys)
        ≡ cell_of (x ∷ xs) (y ∷ ys)
  unfolding fill_cell cell_of
  fill_cell-cell_of x y xs ys =
      ground (arith, len-cell_of xs ys, len-cell_of xs (y ∷ ys), len-cell_of (x ∷ xs) ys)

  module _ (eq_iff : (x y : A) → (eq x y ≡ true) ↔ (x ≡ y)) where
    apart :
        {z x y : A} {zs xs ys : List A} {n a b : ℕ}
        → (Within (z ∷ zs) xs → n ≤ b)
        → (Within (z ∷ zs) ys → n ≤ a)
        → eq x y ≡ false
        → Within (z ∷ zs) (x ∷ xs)
        → Within (z ∷ zs) (y ∷ ys)
        → n ≤ larger a b
    apart first second differ (skip v) w = let le = first v in ground arith
    apart first second differ v (skip w) = let le = second w in ground arith
    apart {x} first second differ (keep v) (keep w) = let e = (eq_iff x x).1 refl in cc (e, differ)

    -- No common subsequence is longer.
    pub length-le-lcs : (zs xs ys : List A) → Within zs xs → Within zs ys → length zs ≤ lcs xs ys
    unfolding lcs
    length-le-lcs [] xs ys v w = omega arith
    length-le-lcs (z ∷ zs) [] ys v w = elim v [ ]
    length-le-lcs (z ∷ zs) (x ∷ xs) [] v w = elim w [ ]
    length-le-lcs (z ∷ zs) (x ∷ xs) (y ∷ ys) v w = elim (Bool-cases (eq x y)) [
      | inl same ↦
          let both = length-le-lcs zs xs ys (drop_both v) (drop_both w) in
          rw same (omega (arith, both))
      | inr differ ↦ rw differ (
          apart (λ m. length-le-lcs (z ∷ zs) xs (y ∷ ys) m w)
            (λ m. length-le-lcs (z ∷ zs) (x ∷ xs) ys v m) differ v w)
    ]
