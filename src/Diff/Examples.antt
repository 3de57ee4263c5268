-- ===== src/Diff/Examples.antt =====
-- Two rule files of three lines, with lines of one or two characters, told by numbers.
use evuproxy.Common.{ℕ, ◌≡◌, refl, Bool, true, some, List, [], ◌∷◌, ◌==◌, eq_sound, ◌↔◌, arith}
use evuproxy.Diff.{Op, equal, insert, delete, compute_line_diff}
use evuproxy.Diff.Shortest.{IsShortest, compute_line_diff-IsShortest}
use evuproxy.Diff.Rows.{
  plain, strong, context, changed, render_split, eq_line, ruleset_change_count,
}
use evuproxy.Diff.Rows.Pairing.{HasChanged, render_split-HasChanged}
use evuproxy.Diff.Rows.Views.{ShowsTexts, compute_line_diff-ShowsTexts}

abbrev eq : ℕ → ℕ → Bool
eq x y = x == y

eq_iff : (x y : ℕ) → (eq x y ≡ true) ↔ (x ≡ y)
eq_iff x y = (eq_sound x y, λ e. ground arith)

abbrev host : List ℕ
host = 1 ∷ 2 ∷ 3 ∷ []

abbrev proposed : List ℕ
proposed = 1 ∷ 4 ∷ 3 ∷ 5 ∷ []

abbrev ops : List (Op ℕ)
ops = equal 1 1 ∷ insert 4 ∷ delete 2 ∷ equal 3 3 ∷ insert 5 ∷ []

diff_of : compute_line_diff eq host proposed ≡ some ops
unfolding compute_line_diff
diff_of = refl

changes_of : ruleset_change_count eq host proposed ≡ 2
unfolding ruleset_change_count
changes_of = refl

compute_line_diff-IsShortest_example :
    (found : List (Op ℕ)) × (compute_line_diff eq host proposed ≡ some found)
    × IsShortest host proposed found
compute_line_diff-IsShortest_example = compute_line_diff-IsShortest eq eq_iff host proposed refl

abbrev line_ops : List (Op (List ℕ))
line_ops = delete (7 ∷ 8 ∷ []) ∷ insert (7 ∷ 9 ∷ []) ∷ equal (1 ∷ []) (1 ∷ []) ∷ []

emphasised :
    (render_split eq line_ops 0 0).0
    ≡ changed 1 (plain (7 ∷ []) ∷ strong (8 ∷ []) ∷ []) ∷ context 2 (plain (1 ∷ []) ∷ []) ∷ []
unfolding render_split
emphasised = refl

abbrev old_lines : List (List ℕ)
old_lines = (7 ∷ 8 ∷ []) ∷ (1 ∷ []) ∷ []

abbrev new_lines : List (List ℕ)
new_lines = (7 ∷ 9 ∷ []) ∷ (1 ∷ []) ∷ []

abbrev computed_ops : List (Op (List ℕ))
computed_ops = insert (7 ∷ 9 ∷ []) ∷ delete (7 ∷ 8 ∷ []) ∷ equal (1 ∷ []) (1 ∷ []) ∷ []

computed : compute_line_diff (eq_line eq) old_lines new_lines ≡ some computed_ops
unfolding compute_line_diff
computed = refl

render_split-HasChanged_example : ¬ HasChanged (render_split eq computed_ops 0 0).0
render_split-HasChanged_example =
    render_split-HasChanged eq old_lines new_lines computed_ops computed

compute_line_diff-ShowsTexts_example : ShowsTexts old_lines new_lines eq computed_ops
compute_line_diff-ShowsTexts_example =
    compute_line_diff-ShowsTexts eq eq_iff old_lines new_lines computed_ops computed
