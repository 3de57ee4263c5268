-- ===== src/Diff/Trace.antt =====
-- The way back through the table: the operations keep both texts, and keep as many lines as the
-- longest common subsequence has.
use evuproxy.Common.{
  ℕ, zero, suc, ◌+◌, ◌≤◌, ◌<◌, ◌≡◌, ◌↔◌, refl, ◌∙◌, ap, Bool, true, false, some, List, [], ◌∷◌,
  length, get_elem?, leb, Bool-cases, inl, inr, All, arith,
}
use evuproxy.Diff.{Dir, diagonal, up, left, Op, equal, insert, delete, trace_step, trace}
use evuproxy.Diff.Reference.{lcs, cell_of}
use evuproxy.Diff.Table.{rev_take, IsTable}

abbrev pub olds : {A : Type 0} → List (Op A) → List A
olds [] = []
olds (equal x y ∷ ops) = x ∷ olds ops
olds (insert y ∷ ops) = olds ops
olds (delete x ∷ ops) = x ∷ olds ops

abbrev pub news : {A : Type 0} → List (Op A) → List A
news [] = []
news (equal x y ∷ ops) = y ∷ news ops
news (insert y ∷ ops) = y ∷ news ops
news (delete x ∷ ops) = news ops

abbrev pub kept : {A : Type 0} → List (Op A) → ℕ
kept [] = 0
kept (equal x y ∷ ops) = suc (kept ops)
kept (insert y ∷ ops) = kept ops
kept (delete x ∷ ops) = kept ops

-- An operation that keeps a line keeps it as it is.
abbrev pub IsSame : {A : Type 0} → Op A → Type 0
IsSame (equal x y) = x ≡ y
IsSame (insert y) = Unit {0}
IsSame (delete x) = Unit {0}

abbrev pub unrev : {A : Type 0} → List A → List A → List A
unrev [] acc = acc
unrev (x ∷ xs) acc = unrev xs (x ∷ acc)

-- What the way back over two prefixes, the last element of each first, puts before `ops`.
pub record Aligned {A : Type 0} (eq : A → A → Bool) (xs ys : List A) (ops done : List (Op A))
    : Type 0 where
  pub old_text : olds done ≡ unrev xs (olds ops)
  pub new_text : news done ≡ unrev ys (news ops)
  pub same : All IsSame ops → All IsSame done
  pub keeps : kept done ≡ lcs eq xs ys + kept ops

pub rev_take-suc :
    {A : Type 0} (i : ℕ) (xs acc : List A)
    → i < length xs
    → (x : A) × (get_elem? xs i ≡ some x) × (rev_take (suc i) xs acc ≡ x ∷ rev_take i xs acc)
rev_take-suc zero (x ∷ xs) acc h = (x, refl, refl)
rev_take-suc (suc i) (x ∷ xs) acc h = rev_take-suc i xs (x ∷ acc) (omega arith)
rev_take-suc zero [] acc h = absurd (omega arith)
rev_take-suc (suc i) [] acc h = absurd (omega arith)

module _ {A : Type 0} (eq : A → A → Bool) (eq_iff : (x y : A) → (eq x y ≡ true) ↔ (x ≡ y)) where
  keep_both :
      (x y : A) (xs ys : List A) (ops done : List (Op A))
      → eq x y ≡ true
      → Aligned eq xs ys (equal x y ∷ ops) done
      → Aligned eq (x ∷ xs) (y ∷ ys) ops done
  unfolding lcs
  keep_both x y xs ys ops done e a = record {
    old_text = a.old_text;
    new_text = a.new_text;
    same = λ s. a.same ((eq_iff x y).0 e, s);
    keeps = a.keeps ∙ (rw e (omega arith));
  }

  drop_old :
      (x y : A) (xs ys : List A) (ops done : List (Op A))
      → eq x y ≡ false
      → leb (lcs eq (x ∷ xs) ys) (lcs eq xs (y ∷ ys)) ≡ true
      → Aligned eq xs (y ∷ ys) (delete x ∷ ops) done
      → Aligned eq (x ∷ xs) (y ∷ ys) ops done
  unfolding lcs
  drop_old x y xs ys ops done e more a = record {
    old_text = a.old_text;
    new_text = a.new_text;
    same = λ s. a.same (tt, s);
    keeps = a.keeps ∙ (rw e rw more refl);
  }

  drop_new :
      (x y : A) (xs ys : List A) (ops done : List (Op A))
      → eq x y ≡ false
      → leb (lcs eq (x ∷ xs) ys) (lcs eq xs (y ∷ ys)) ≡ false
      → Aligned eq (x ∷ xs) ys (insert y ∷ ops) done
      → Aligned eq (x ∷ xs) (y ∷ ys) ops done
  unfolding lcs
  drop_new x y xs ys ops done e less a = record {
    old_text = a.old_text;
    new_text = a.new_text;
    same = λ s. a.same (tt, s);
    keeps = a.keeps ∙ (rw e rw less refl);
  }

  lcs_nil : (xs : List A) → lcs eq xs [] ≡ 0
  unfolding lcs
  lcs_nil [] = refl
  lcs_nil (x ∷ xs) = refl

  -- One round, for the direction that the cell of the two prefixes has.
  step_back :
      (x y : A) (xs ys : List A) (ops : List (Op A)) (go : Dir → List (Op A))
      → Aligned eq xs ys (equal x y ∷ ops) (go diagonal)
      → Aligned eq xs (y ∷ ys) (delete x ∷ ops) (go up)
      → Aligned eq (x ∷ xs) ys (insert y ∷ ops) (go left)
      → Aligned eq (x ∷ xs) (y ∷ ys) ops (go (cell_of eq (x ∷ xs) (y ∷ ys)).dir)
  unfolding cell_of
  step_back x y xs ys ops go d u l = elim (Bool-cases (eq x y)) [
    | inl same ↦ rw same (keep_both x y xs ys ops (go diagonal) same d)
    | inr differ ↦ elim (Bool-cases (leb (lcs eq (x ∷ xs) ys) (lcs eq xs (y ∷ ys)))) [
      | inl more ↦ rw differ rw more (drop_old x y xs ys ops (go up) differ more u)
      | inr less ↦ rw differ rw less (drop_new x y xs ys ops (go left) differ less l)
    ]
  ]

  module _ (old new : List A) (dirs : ℕ → ℕ → Dir) where
    pub trace-Aligned :
        IsTable eq old new dirs
        → (fuel i j : ℕ) (ops : List (Op A)) → i + j ≤ fuel
        → i ≤ length old
        → j ≤ length new
        → Aligned eq
            (rev_take i old [])
            (rev_take j new [])
            ops
            (trace eq old new dirs fuel i j ops)
    unfolding trace lcs
    trace-Aligned t zero zero zero ops enough hi hj = record {
      old_text = refl;
      new_text = refl;
      same = λ s. s;
      keeps = omega arith;
    }
    trace-Aligned t (suc fuel) zero zero ops enough hi hj = record {
      old_text = refl;
      new_text = refl;
      same = λ s. s;
      keeps = omega arith;
    }
    trace-Aligned t (suc fuel) zero (suc j) ops enough hi hj =
        let (y, at_y, ys) = rev_take-suc j new [] hj in
        let r = trace-Aligned t fuel zero j (insert y ∷ ops) (omega arith) hi (omega arith) in
        rw ys rw at_y record {
          old_text = r.old_text;
          new_text = r.new_text;
          same = λ s. r.same (tt, s);
          keeps = r.keeps;
        }
    trace-Aligned t (suc fuel) (suc i) zero ops enough hi hj =
        let (x, at_x, xs) = rev_take-suc i old [] hi in
        let r = trace-Aligned t fuel i zero (delete x ∷ ops) (omega arith) (omega arith) hj in
        rw xs rw at_x record {
          old_text = r.old_text;
          new_text = r.new_text;
          same = λ s. r.same (tt, s);
          keeps = r.keeps ∙ ap (λ n. n + kept ops) (lcs_nil (rev_take i old []));
        }
    trace-Aligned t (suc fuel) (suc i) (suc j) ops enough hi hj =
        let (x, at_x, xs) = rev_take-suc i old [] hi in
        let (y, at_y, ys) = rev_take-suc j new [] hj in
        let dir =
          t (suc i) (suc j) hi hj
          ∙ ap (λ l. (cell_of eq l (rev_take (suc j) new [])).dir) xs
          ∙ ap (λ l. (cell_of eq (x ∷ rev_take i old []) l).dir) ys in
        let both =
          trace-Aligned t fuel i j (equal x y ∷ ops) (omega arith) (omega arith) (omega arith) in
        let one_up =
          trace-Aligned t fuel i (suc j) (delete x ∷ ops) (omega arith) (omega arith) hj in
        let one_left =
          trace-Aligned t fuel (suc i) j (insert y ∷ ops) (omega arith) hi (omega arith) in
        rw xs rw ys rw dir (
          step_back x y (rev_take i old []) (rev_take j new []) ops
            (λ d. trace_step eq old new dirs (trace eq old new dirs fuel) (suc i) (suc j) d ops)
            (rw at_x rw at_y both) (rw at_x rw (← ys) one_up) (rw at_y rw (← xs) one_left))
    trace-Aligned t zero zero (suc j) ops enough hi hj = absurd (omega arith)
    trace-Aligned t zero (suc i) j ops enough hi hj = absurd (omega arith)
