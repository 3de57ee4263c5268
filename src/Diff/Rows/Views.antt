-- ===== src/Diff/Rows/Views.antt =====
-- From two texts to what the views show.
use evuproxy.Common.{ℕ, ◌+◌, ◌≡◌, ◌↔◌, refl, ◌∙◌, ap, Bool, true, some, List, [], ◌∷◌, length, All}
use mathlib.Core.Path.{subst}
use evuproxy.Diff.{Op, equal, insert, delete, is_too_large, compute_line_diff}
use evuproxy.Diff.Trace.{olds, news, IsSame}
use evuproxy.Diff.Shortest.{IsShortest, compute_ops-IsShortest}
use evuproxy.Diff.Rows.{UnifiedRow, eq_line, render_split, render_unified}
use evuproxy.Diff.Rows.Texts.{
  flat, shown, number_from, eq_line_sound, intraline_pair-texts, one_row, render_split-ShowsTexts,
}
use evuproxy.Diff.Rows.Pairing.{some_of}

-- The numbered lines of the unified view, of either text.
abbrev pub old_lines : {C : Type 0} → List (UnifiedRow C) → List (ℕ × List C)
old_lines [] = []
old_lines (UnifiedRow.context i j ps ∷ rows) = (i, flat ps) ∷ old_lines rows
old_lines (UnifiedRow.removed i ps ∷ rows) = (i, flat ps) ∷ old_lines rows
old_lines (UnifiedRow.added j ps ∷ rows) = old_lines rows

abbrev pub new_lines : {C : Type 0} → List (UnifiedRow C) → List (ℕ × List C)
new_lines [] = []
new_lines (UnifiedRow.context i j ps ∷ rows) = (j, flat ps) ∷ new_lines rows
new_lines (UnifiedRow.removed i ps ∷ rows) = new_lines rows
new_lines (UnifiedRow.added j ps ∷ rows) = (j, flat ps) ∷ new_lines rows

pub record ShowsUnified {C : Type 0} (olds' news' : List (ℕ × List C)) (rows : List (UnifiedRow C))
    : Type 0 where
  pub old_text : old_lines rows ≡ olds'
  pub new_text : new_lines rows ≡ news'

module _ {C : Type 0} (eq : C → C → Bool) (eq_iff : (x y : C) → (eq x y ≡ true) ↔ (x ≡ y)) where
  eq_line_complete : (xs : List C) → eq_line eq xs xs ≡ true
  eq_line_complete [] = refl
  eq_line_complete (x ∷ xs) = let here = (eq_iff x x).1 refl in rw here (eq_line_complete xs)

  eq_line_iff : (xs ys : List C) → (eq_line eq xs ys ≡ true) ↔ (xs ≡ ys)
  eq_line_iff xs ys = (
    eq_line_sound eq eq_iff xs ys,
    λ e. subst (λ zs. eq_line eq xs zs ≡ true) e (eq_line_complete xs),
  )

  render_unified-Shows :
      (ops : List (Op (List C))) (o n : ℕ)
      → All IsSame ops
      → ShowsUnified
          (number_from o (olds ops))
          (number_from n (news ops))
          (render_unified eq ops o n)
  unfolding render_unified
  render_unified-Shows [] o n s = record { old_text = refl; new_text = refl }
  render_unified-Shows (equal x y ∷ ops) o n s =
      let r = render_unified-Shows ops (o + 1) (n + 1) s.1 in
      record {
        old_text = one_row eq eq_iff x (o + 1) r.old_text;
        new_text =
            one_row eq eq_iff x (n + 1) r.new_text
            ∙ ap (λ z. (n + 1, z) ∷ number_from (n + 1) (news ops)) s.0;
      }
  render_unified-Shows (insert y ∷ ops) o n s =
      let r = render_unified-Shows ops o (n + 1) s.1 in
      record { old_text = r.old_text; new_text = one_row eq eq_iff y (n + 1) r.new_text }
  render_unified-Shows (delete x ∷ insert y ∷ ops) o n s =
      let r = render_unified-Shows ops (o + 1) (n + 1) s.1.1 in
      let t = intraline_pair-texts eq eq_iff x y in
      record { old_text = cc (t.0, r.old_text); new_text = cc (t.1, r.new_text) }
  render_unified-Shows (delete x ∷ []) o n s = record {
    old_text = one_row eq eq_iff x (o + 1) refl;
    new_text = refl;
  }
  render_unified-Shows (delete x ∷ equal z y ∷ ops) o n s =
      let r = render_unified-Shows (equal z y ∷ ops) (o + 1) n s.1 in
      record { old_text = one_row eq eq_iff x (o + 1) r.old_text; new_text = r.new_text }
  render_unified-Shows (delete x ∷ delete z ∷ ops) o n s =
      let r = render_unified-Shows (delete z ∷ ops) (o + 1) n s.1 in
      record { old_text = one_row eq eq_iff x (o + 1) r.old_text; new_text = r.new_text }

-- What either view of a diff shows of two texts.
pub record ShowsTexts {C : Type 0} (old new : List (List C)) (eq : C → C → Bool)
    (ops : List (Op (List C))) : Type 0 where
  pub left_pane : shown (render_split eq ops 0 0).0 ≡ number_from 0 old
  pub right_pane : shown (render_split eq ops 0 0).1 ≡ number_from 0 new
  pub aligned : length (render_split eq ops 0 0).0 ≡ length (render_split eq ops 0 0).1
  pub unified : ShowsUnified (number_from 0 old) (number_from 0 new) (render_unified eq ops 0 0)

-- Both views of a diff that was computed show the two texts that it was computed from: each line whole,
-- in its order and under its number, in the left and the right pane, which have as many rows, and in the
-- unified view.
pub compute_line_diff-ShowsTexts :
    {C : Type 0} (eq : C → C → Bool) (eq_iff : (x y : C) → (eq x y ≡ true) ↔ (x ≡ y))
    (old new : List (List C)) (ops : List (Op (List C)))
    → compute_line_diff (eq_line eq) old new ≡ some ops
    → ShowsTexts old new eq ops
unfolding compute_line_diff
compute_line_diff-ShowsTexts eq eq_iff old new ops e =
    let same = some_of (is_too_large (eq_line eq) 6000 12000000 old new) _ ops e in
    let s : IsShortest old new ops =
      subst (λ o. IsShortest old new o) same
        (compute_ops-IsShortest (eq_line eq) (eq_line_iff eq eq_iff) old new) in
    let b = render_split-ShowsTexts eq eq_iff ops in
    let u = render_unified-Shows eq eq_iff ops 0 0 s.same in
    record {
      left_pane = b.left_text ∙ ap (number_from 0) s.old_text;
      right_pane = b.right_text ∙ ap (number_from 0) s.new_text;
      aligned = b.aligned;
      unified = record {
        old_text = u.old_text ∙ ap (number_from 0) s.old_text;
        new_text = u.new_text ∙ ap (number_from 0) s.new_text;
      };
    }
