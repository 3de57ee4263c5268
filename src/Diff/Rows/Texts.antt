-- ===== src/Diff/Rows/Texts.antt =====
-- The panes show the two texts, whole and with their line numbers.
use mathlib.Core.List.{append_assoc, append-nil}
use evuproxy.Common.{
  ℕ, suc, ◌+◌, ◌≡◌, ◌↔◌, refl, ◌∙◌, ap, Bool, true, false, Option, List, [], ◌∷◌, ◌++◌, length,
  if◌then◌else◌, if-either, All,
}
use evuproxy.Diff.{Op, equal, insert, delete, compute_ops, is_too_large}
use evuproxy.Diff.Trace.{olds, news, IsSame}
use evuproxy.Diff.Shortest.{compute_ops-IsShortest}
use evuproxy.Diff.Rows.{
  Piece, plain, strong, Mark, same, removed, added, same_mark, Run, merge_from, merge_char_ops,
  runs_of, push_del, push_ins, del_pieces, ins_pieces, SideRow, context, changed, alone, gap,
  compute_char_diff, eq_line, pair_of, pair_apart, intraline_pair, render_split,
}

abbrev pub flat : {C : Type 0} → List (Piece C) → List C
flat [] = []
flat (plain t ∷ ps) = t ++ flat ps
flat (strong t ∷ ps) = t ++ flat ps

-- What a run says on either side.
abbrev del_part : {C : Type 0} → Mark → List C → List C
del_part same t = t
del_part removed t = t
del_part added t = []

abbrev ins_part : {C : Type 0} → Mark → List C → List C
ins_part same t = t
ins_part removed t = []
ins_part added t = t

abbrev text_by : {C : Type 0} → (Mark → List C → List C) → List (Run C) → List C
text_by part [] = []
text_by part (op ∷ ops) = part op.mark op.text ++ text_by part ops

abbrev Joins : {C : Type 0} → (Mark → List C → List C) → Type 0
Joins {C} part =
    (m k : Mark) (a b : List C) → same_mark m k ≡ true → part m (a ++ b) ≡ part m a ++ part k b

del_part-Joins : {C : Type 0} → Joins (del_part {C = C})
del_part-Joins same same a b e = refl
del_part-Joins removed removed a b e = refl
del_part-Joins added added a b e = refl
del_part-Joins same removed a b e = cc
del_part-Joins same added a b e = cc
del_part-Joins removed same a b e = cc
del_part-Joins removed added a b e = cc
del_part-Joins added same a b e = cc
del_part-Joins added removed a b e = cc

ins_part-Joins : {C : Type 0} → Joins (ins_part {C = C})
ins_part-Joins same same a b e = refl
ins_part-Joins removed removed a b e = refl
ins_part-Joins added added a b e = refl
ins_part-Joins same removed a b e = cc
ins_part-Joins same added a b e = cc
ins_part-Joins removed same a b e = cc
ins_part-Joins removed added a b e = cc
ins_part-Joins added same a b e = cc
ins_part-Joins added removed a b e = cc

text_by-merge_from :
    {C : Type 0} (part : Mark → List C → List C) (joins : Joins part) (last : Run C)
    (ops : List (Run C))
    → text_by part (merge_from last ops) ≡ text_by part (last ∷ ops)
unfolding merge_from
text_by-merge_from part joins last [] = refl
text_by-merge_from part joins last (op ∷ ops) =
    if-either (λ (r : List (Run _)). text_by part r ≡ text_by part (last ∷ op ∷ ops))
      (same_mark last.mark op.mark)
      (λ e.
        text_by-merge_from part joins (record last { text = last.text ++ op.text }) ops
        ∙ ap (λ t. t ++ text_by part ops) (joins last.mark op.mark last.text op.text e)
        ∙ append_assoc (part last.mark last.text) (part op.mark op.text) (text_by part ops))
      (λ _. ap (λ t. part last.mark last.text ++ t) (text_by-merge_from part joins op ops))

text_by-merge_char_ops :
    {C : Type 0} (part : Mark → List C → List C) (joins : Joins part) (ops : List (Run C))
    → text_by part (merge_char_ops ops) ≡ text_by part ops
text_by-merge_char_ops part joins [] = refl
text_by-merge_char_ops part joins (op ∷ ops) = text_by-merge_from part joins op ops

flat-del_pieces : {C : Type 0} (ops : List (Run C)) → flat (del_pieces ops) ≡ text_by del_part ops
flat-del_pieces [] = refl
flat-del_pieces (op ∷ ops) = by_mark op.mark (flat-del_pieces ops)
  where
    by_mark :
        (m : Mark)
        → flat (del_pieces ops) ≡ text_by del_part ops
        → flat (push_del (record op { mark = m }) (del_pieces ops))
          ≡ del_part m op.text ++ text_by del_part ops
    by_mark same e = ap (λ t. op.text ++ t) e
    by_mark removed e = ap (λ t. op.text ++ t) e
    by_mark added e = e

flat-ins_pieces : {C : Type 0} (ops : List (Run C)) → flat (ins_pieces ops) ≡ text_by ins_part ops
flat-ins_pieces [] = refl
flat-ins_pieces (op ∷ ops) = by_mark op.mark (flat-ins_pieces ops)
  where
    by_mark :
        (m : Mark)
        → flat (ins_pieces ops) ≡ text_by ins_part ops
        → flat (push_ins (record op { mark = m }) (ins_pieces ops))
          ≡ ins_part m op.text ++ text_by ins_part ops
    by_mark same e = ap (λ t. op.text ++ t) e
    by_mark removed e = e
    by_mark added e = ap (λ t. op.text ++ t) e

text_by-runs_del : {C : Type 0} (ops : List (Op C)) → text_by del_part (runs_of ops) ≡ olds ops
text_by-runs_del [] = refl
text_by-runs_del (equal x y ∷ ops) = ap (λ t. x ∷ t) (text_by-runs_del ops)
text_by-runs_del (insert y ∷ ops) = text_by-runs_del ops
text_by-runs_del (delete x ∷ ops) = ap (λ t. x ∷ t) (text_by-runs_del ops)

text_by-runs_ins :
    {C : Type 0} (ops : List (Op C)) → All IsSame ops → text_by ins_part (runs_of ops) ≡ news ops
text_by-runs_ins [] s = refl
text_by-runs_ins (equal x y ∷ ops) s = cc (s.0, text_by-runs_ins ops s.1)
text_by-runs_ins (insert y ∷ ops) s = ap (λ t. y ∷ t) (text_by-runs_ins ops s.1)
text_by-runs_ins (delete x ∷ ops) s = text_by-runs_ins ops s.1

abbrev pub number_from : {C : Type 0} → ℕ → List (List C) → List (ℕ × List C)
number_from i [] = []
number_from i (x ∷ xs) = (i + 1, x) ∷ number_from (i + 1) xs

-- The numbered lines of a pane.
abbrev pub shown : {C : Type 0} → List (SideRow C) → List (ℕ × List C)
shown [] = []
shown (context i ps ∷ rows) = (i, flat ps) ∷ shown rows
shown (changed i ps ∷ rows) = (i, flat ps) ∷ shown rows
shown (alone i ps ∷ rows) = (i, flat ps) ∷ shown rows
shown (gap ∷ rows) = shown rows

pub record ShowsBoth {C : Type 0} (ops : List (Op (List C))) (o n : ℕ)
    (panes : List (SideRow C) × List (SideRow C)) : Type 0 where
  pub left_text : shown panes.0 ≡ number_from o (olds ops)
  pub right_text : shown panes.1 ≡ number_from n (news ops)
  pub aligned : length panes.0 ≡ length panes.1

both_true : (a b : Bool) → (if a then b else false) ≡ true → (a ≡ true) × (b ≡ true)
both_true true b e = (refl, e)
both_true false b e = cc

module _ {C : Type 0} (eq : C → C → Bool) (eq_iff : (x y : C) → (eq x y ≡ true) ↔ (x ≡ y)) where
  pub eq_line_sound : (xs ys : List C) → eq_line eq xs ys ≡ true → xs ≡ ys
  eq_line_sound [] [] e = refl
  eq_line_sound [] (y ∷ ys) e = cc
  eq_line_sound (x ∷ xs) [] e = cc
  eq_line_sound (x ∷ xs) (y ∷ ys) e =
      let (first, rest) = both_true (eq x y) (eq_line eq xs ys) e in
      cc ((eq_iff x y).0 first, eq_line_sound xs ys rest)

  pair_of-texts :
      (x y : List C)
      → (flat (pair_of eq x y (compute_char_diff eq x y)).0 ≡ x)
        × (flat (pair_of eq x y (compute_char_diff eq x y)).1 ≡ y)
  unfolding compute_char_diff
  pair_of-texts x y =
      let s = compute_ops-IsShortest eq eq_iff x y in
      let runs = runs_of (compute_ops eq x y) in
      if-either
        (λ (o : Option (List (Run C))).
          (flat (pair_of eq x y o).0 ≡ x) × (flat (pair_of eq x y o).1 ≡ y))
        (is_too_large eq 4096 500000 x y) (λ _. (append-nil x, append-nil y))
        (λ _. (
          flat-del_pieces (merge_char_ops runs)
              ∙ text_by-merge_char_ops del_part del_part-Joins runs
              ∙ text_by-runs_del (compute_ops eq x y)
              ∙ s.old_text,
          flat-ins_pieces (merge_char_ops runs)
              ∙ text_by-merge_char_ops ins_part ins_part-Joins runs
              ∙ text_by-runs_ins (compute_ops eq x y) s.same
              ∙ s.new_text,
        ))

  pair_apart-texts :
      (x y : List C) → (flat (pair_apart eq x y).0 ≡ x) × (flat (pair_apart eq x y).1 ≡ y)
  pair_apart-texts [] y = (refl, append-nil y)
  pair_apart-texts (c ∷ x) [] = (append-nil (c ∷ x), refl)
  pair_apart-texts (c ∷ x) (d ∷ y) = pair_of-texts (c ∷ x) (d ∷ y)

  -- The pieces of a changed line say the line, on either side.
  pub intraline_pair-texts :
      (x y : List C) → (flat (intraline_pair eq x y).0 ≡ x) × (flat (intraline_pair eq x y).1 ≡ y)
  unfolding intraline_pair
  intraline_pair-texts x y =
      if-either (λ (p : List (Piece C) × List (Piece C)). (flat p.0 ≡ x) × (flat p.1 ≡ y))
        (eq_line eq x y) (λ e. (append-nil x, append-nil x ∙ eq_line_sound x y e))
        (λ _. pair_apart-texts x y)

  pub one_row :
      (x : List C) (i : ℕ) {rest rest' : List (ℕ × List C)}
      → rest ≡ rest'
      → (i, flat (plain x ∷ [])) ∷ rest ≡ (i, x) ∷ rest'
  one_row x i e = cc (append-nil x, e)

  render_split-ShowsBoth :
      (ops : List (Op (List C))) (o n : ℕ) → ShowsBoth ops o n (render_split eq ops o n)
  unfolding render_split
  render_split-ShowsBoth [] o n = record { left_text = refl; right_text = refl; aligned = refl }
  render_split-ShowsBoth (equal x y ∷ ops) o n =
      let r = render_split-ShowsBoth ops (o + 1) (n + 1) in
      record {
        left_text = one_row x (o + 1) r.left_text;
        right_text = one_row y (n + 1) r.right_text;
        aligned = ap {B = ℕ} (λ k. suc k) r.aligned;
      }
  render_split-ShowsBoth (insert y ∷ ops) o n =
      let r = render_split-ShowsBoth ops o (n + 1) in
      record {
        left_text = r.left_text;
        right_text = one_row y (n + 1) r.right_text;
        aligned = ap {B = ℕ} (λ k. suc k) r.aligned;
      }
  render_split-ShowsBoth (delete x ∷ insert y ∷ ops) o n =
      let r = render_split-ShowsBoth ops (o + 1) (n + 1) in
      let t = intraline_pair-texts x y in
      record {
        left_text = cc (t.0, r.left_text);
        right_text = cc (t.1, r.right_text);
        aligned = ap {B = ℕ} (λ k. suc k) r.aligned;
      }
  render_split-ShowsBoth (delete x ∷ []) o n = record {
    left_text = one_row x (o + 1) refl;
    right_text = refl;
    aligned = refl;
  }
  render_split-ShowsBoth (delete x ∷ equal z y ∷ ops) o n =
      let r = render_split-ShowsBoth (equal z y ∷ ops) (o + 1) n in
      record {
        left_text = one_row x (o + 1) r.left_text;
        right_text = r.right_text;
        aligned = ap {B = ℕ} (λ k. suc k) r.aligned;
      }
  render_split-ShowsBoth (delete x ∷ delete z ∷ ops) o n =
      let r = render_split-ShowsBoth (delete z ∷ ops) (o + 1) n in
      record {
        left_text = one_row x (o + 1) r.left_text;
        right_text = r.right_text;
        aligned = ap {B = ℕ} (λ k. suc k) r.aligned;
      }

-- The two panes show the old and the new text of a diff, every line whole and under its number, also
-- where a changed line is split into plain and emphasised pieces; and they have as many rows.
pub render_split-ShowsTexts :
    {C : Type 0} (eq : C → C → Bool) (eq_iff : (x y : C) → (eq x y ≡ true) ↔ (x ≡ y))
    (ops : List (Op (List C)))
    → ShowsBoth ops 0 0 (render_split eq ops 0 0)
render_split-ShowsTexts eq eq_iff ops = render_split-ShowsBoth eq eq_iff ops 0 0
