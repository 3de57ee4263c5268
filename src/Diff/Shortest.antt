-- ===== src/Diff/Shortest.antt =====
-- The diff that is shown: both texts, line by line, with as many lines kept as can be.
use mathlib.Core.Path.{subst}
use evuproxy.Common.{
  ◌+◌, ◌≤◌, ◌≡◌, ◌↔◌, refl, ◌∙◌, ap, Bool, true, false, some, List, [], ◌∷◌, length, All, arith,
}
use evuproxy.Diff.{
  Op, equal, insert, delete, table, dir_at, compute_ops, is_too_large, compute_line_diff,
}
use evuproxy.Diff.Reference.{Within, none_left, skip, keep, lcs, length-le-lcs}
use evuproxy.Diff.Table.{rev_take, dir_at_lem}
use evuproxy.Diff.Trace.{olds, news, kept, IsSame, unrev, trace-Aligned}

-- A diff of two texts, and that none keeps more lines.
pub record IsShortest {A : Type 0} (old new : List A) (ops : List (Op A)) : Type 0 where
  pub old_text : olds ops ≡ old
  pub new_text : news ops ≡ new
  pub same : All IsSame ops
  pub shortest :
      (other : List (Op A))
      → olds other ≡ old
      → news other ≡ new
      → All IsSame other
      → kept other ≤ kept ops

rev_take-all : {A : Type 0} (xs acc : List A) → rev_take (length xs) xs acc ≡ unrev xs acc
rev_take-all [] acc = refl
rev_take-all (x ∷ xs) acc = rev_take-all xs (x ∷ acc)

unrev-unrev : {A : Type 0} (xs acc : List A) → unrev (unrev xs acc) [] ≡ unrev acc xs
unrev-unrev [] acc = refl
unrev-unrev (x ∷ xs) acc = unrev-unrev xs (x ∷ acc)

-- The kept lines, the last one first.
abbrev kept_lines : {A : Type 0} → List (Op A) → List A → List A
kept_lines [] acc = acc
kept_lines (equal x y ∷ ops) acc = kept_lines ops (x ∷ acc)
kept_lines (insert y ∷ ops) acc = kept_lines ops acc
kept_lines (delete x ∷ ops) acc = kept_lines ops acc

length-kept_lines :
    {A : Type 0} (ops : List (Op A)) (acc : List A)
    → length (kept_lines ops acc) ≡ kept ops + length acc
length-kept_lines [] acc = omega arith
length-kept_lines (equal x y ∷ ops) acc = omega (arith, length-kept_lines ops (x ∷ acc))
length-kept_lines (insert y ∷ ops) acc = length-kept_lines ops acc
length-kept_lines (delete x ∷ ops) acc = length-kept_lines ops acc

kept_lines-olds :
    {A : Type 0} (ops : List (Op A)) (acc xs : List A)
    → Within acc xs
    → Within (kept_lines ops acc) (unrev (olds ops) xs)
kept_lines-olds [] acc xs w = w
kept_lines-olds (equal x y ∷ ops) acc xs w = kept_lines-olds ops (x ∷ acc) (x ∷ xs) (keep w)
kept_lines-olds (insert y ∷ ops) acc xs w = kept_lines-olds ops acc xs w
kept_lines-olds (delete x ∷ ops) acc xs w = kept_lines-olds ops acc (x ∷ xs) (skip w)

kept_lines-news :
    {A : Type 0} (ops : List (Op A)) (acc ys : List A)
    → All IsSame ops
    → Within acc ys
    → Within (kept_lines ops acc) (unrev (news ops) ys)
kept_lines-news [] acc ys s w = w
kept_lines-news (equal x y ∷ ops) acc ys s w =
    kept_lines-news ops (x ∷ acc) (y ∷ ys) s.1 (subst (λ z. Within (x ∷ acc) (z ∷ ys)) s.0 (keep w))
kept_lines-news (insert y ∷ ops) acc ys s w = kept_lines-news ops acc (y ∷ ys) s.1 (skip w)
kept_lines-news (delete x ∷ ops) acc ys s w = kept_lines-news ops acc ys s.1 w

module _ {A : Type 0} (eq : A → A → Bool) (eq_iff : (x y : A) → (eq x y ≡ true) ↔ (x ≡ y)) where
  kept-le-lcs :
      (ops : List (Op A)) (old new : List A)
      → olds ops ≡ old
      → news ops ≡ new
      → All IsSame ops
      → kept ops ≤ lcs eq (unrev old []) (unrev new [])
  kept-le-lcs ops old new o n s =
      let bound =
        length-le-lcs eq eq_iff (kept_lines ops []) (unrev old []) (unrev new [])
          (subst (λ z. Within (kept_lines ops []) (unrev z [])) o
            (kept_lines-olds ops [] [] none_left))
          (subst (λ z. Within (kept_lines ops []) (unrev z [])) n
            (kept_lines-news ops [] [] s none_left)) in
      omega (arith, bound, length-kept_lines ops [])

  pub compute_ops-IsShortest : (old new : List A) → IsShortest old new (compute_ops eq old new)
  unfolding compute_ops
  compute_ops-IsShortest old new =
      let a =
        trace-Aligned eq eq_iff old new (dir_at eq (table eq old new)) (dir_at_lem eq old new)
          (length old + length new) (length old) (length new) [] (omega arith) (omega arith)
          (omega arith) in
      let all_old = rev_take-all old [] in
      let all_new = rev_take-all new [] in
      record {
        old_text = a.old_text ∙ ap (λ z. unrev z []) all_old ∙ unrev-unrev old [];
        new_text = a.new_text ∙ ap (λ z. unrev z []) all_new ∙ unrev-unrev new [];
        same = a.same tt;
        shortest = λ other o n s.
            let most : kept (compute_ops eq old new) ≡ lcs eq (unrev old []) (unrev new []) =
              a.keeps
              ∙ ap (λ z. lcs eq z (rev_take (length new) new []) + 0) all_old
              ∙ ap (λ z. lcs eq (unrev old []) z + 0) all_new
              ∙ omega arith in
            omega (arith, most, kept-le-lcs other old new o n s);
      }

-- Two texts within the limits have a diff: its old lines are the old text, its new lines the new one,
-- a line that it keeps is the same on both sides, and no other such diff keeps more lines.
pub compute_line_diff-IsShortest :
    {A : Type 0} (eq : A → A → Bool) (eq_iff : (x y : A) → (eq x y ≡ true) ↔ (x ≡ y))
    (old new : List A)
    → is_too_large eq 6000 12000000 old new ≡ false
    → (ops : List (Op A)) × (compute_line_diff eq old new ≡ some ops) × IsShortest old new ops
unfolding compute_line_diff
compute_line_diff-IsShortest eq eq_iff old new small =
    (compute_ops eq old new, (rw small refl), compute_ops-IsShortest eq eq_iff old new)
