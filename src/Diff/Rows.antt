-- ===== src/Diff/Rows.antt =====
-- The rows that show a diff, unified or side by side. A line is a list of characters. The markup is
-- left out: a row has its numbers and its pieces of text, plain or emphasised.
pub mod Texts
pub mod Pairing
pub mod Views
use evuproxy.Common.{
  ℕ, suc, ◌+◌, Bool, true, false, Option, none, some, List, [], ◌∷◌, ◌++◌, if◌then◌else◌, leb,
}
use evuproxy.Diff.{Op, equal, insert, delete, compute_ops, is_too_large, compute_line_diff}

pub data Piece (C : Type 0) : Type 0 where
  plain strong : List C → Piece C

-- `type` of a character operation, and a run of them with its text.
pub data Mark : Type 0 where
  same removed added : Mark

abbrev pub same_mark : Mark → Mark → Bool
same_mark same same = true
same_mark same _ = false
same_mark removed removed = true
same_mark removed _ = false
same_mark added added = true
same_mark added _ = false

pub record Run (C : Type 0) : Type 0 where
  pub mark : Mark
  pub text : List C

-- `mergeCharOps`: `last` is the run that the next operation may join.
unfoldable pub merge_from : {C : Type 0} → Run C → List (Run C) → List (Run C)
merge_from last [] = last ∷ []
merge_from last (op ∷ ops) =
    let joined = merge_from (record last { text = last.text ++ op.text }) ops in
    let apart = merge_from op ops in if same_mark last.mark op.mark then joined else last ∷ apart

abbrev pub merge_char_ops : {C : Type 0} → List (Run C) → List (Run C)
merge_char_ops [] = []
merge_char_ops (op ∷ ops) = merge_from op ops

abbrev pub run_of : {C : Type 0} → Op C → Run C
run_of (equal x y) = record { mark = same; text = x ∷ [] }
run_of (insert y) = record { mark = added; text = y ∷ [] }
run_of (delete x) = record { mark = removed; text = x ∷ [] }

abbrev pub runs_of : {C : Type 0} → List (Op C) → List (Run C)
runs_of [] = []
runs_of (op ∷ ops) = run_of op ∷ runs_of ops

abbrev pub push_del : {C : Type 0} → Run C → List (Piece C) → List (Piece C)
push_del op ps = elim op.mark [
  | same ↦ plain op.text ∷ ps
  | removed ↦ strong op.text ∷ ps
  | added ↦ ps
]

abbrev pub push_ins : {C : Type 0} → Run C → List (Piece C) → List (Piece C)
push_ins op ps = elim op.mark [
  | same ↦ plain op.text ∷ ps
  | removed ↦ ps
  | added ↦ strong op.text ∷ ps
]

abbrev pub del_pieces : {C : Type 0} → List (Run C) → List (Piece C)
del_pieces [] = []
del_pieces (op ∷ ops) = push_del op (del_pieces ops)

abbrev pub ins_pieces : {C : Type 0} → List (Run C) → List (Piece C)
ins_pieces [] = []
ins_pieces (op ∷ ops) = push_ins op (ins_pieces ops)

-- A row of one pane: its number and text, or a gap beside a line of the other pane.
pub data SideRow (C : Type 0) : Type 0 where
  context changed alone : ℕ → List (Piece C) → SideRow C
  gap : SideRow C

pub data UnifiedRow (C : Type 0) : Type 0 where
  context : ℕ → ℕ → List (Piece C) → UnifiedRow C
  removed added : ℕ → List (Piece C) → UnifiedRow C

abbrev pub push_rows :
    {C : Type 0}
    → SideRow C
    → SideRow C
    → List (SideRow C) × List (SideRow C)
    → List (SideRow C) × List (SideRow C)
push_rows l r (ls, rs) = (l ∷ ls, r ∷ rs)

module _ {C : Type 0} (eq : C → C → Bool) where
  unfoldable pub compute_char_diff : List C → List C → Option (List (Run C))
  unfolding compute_ops merge_from
  compute_char_diff old new =
      let runs = merge_char_ops (runs_of (compute_ops eq old new)) in
      if is_too_large eq 4096 500000 old new then none else some runs

  abbrev pub eq_line : List C → List C → Bool
  eq_line [] [] = true
  eq_line [] (y ∷ ys) = false
  eq_line (x ∷ xs) [] = false
  eq_line (x ∷ xs) (y ∷ ys) = let rest = eq_line xs ys in if eq x y then rest else false

  abbrev pub pair_of : List C → List C → Option (List (Run C)) → List (Piece C) × List (Piece C)
  pair_of old new none = (plain old ∷ [], plain new ∷ [])
  pair_of old new (some runs) = (del_pieces runs, ins_pieces runs)

  abbrev pub pair_apart : List C → List C → List (Piece C) × List (Piece C)
  pair_apart [] new = ([], strong new ∷ [])
  pair_apart (x ∷ old) [] = (strong (x ∷ old) ∷ [], [])
  pair_apart (x ∷ old) (y ∷ new) =
      pair_of (x ∷ old) (y ∷ new) (compute_char_diff (x ∷ old) (y ∷ new))

  -- `intralinePairHtml`
  unfoldable pub intraline_pair : List C → List C → List (Piece C) × List (Piece C)
  unfolding compute_char_diff
  intraline_pair old new =
      if eq_line old new then (plain old ∷ [], plain old ∷ []) else pair_apart old new

  -- `renderSplitDiffHtml` behind `o` old and `n` new lines. A removal with an addition right behind
  -- it is one changed line.
  unfoldable pub render_split : List (Op (List C)) → ℕ → ℕ → List (SideRow C) × List (SideRow C)
  unfolding intraline_pair
  render_split [] o n = ([], [])
  render_split (equal x y ∷ ops) o n =
      push_rows (context (o + 1) (plain x ∷ [])) (context (n + 1) (plain y ∷ []))
        (render_split ops (o + 1) (n + 1))
  render_split (insert y ∷ ops) o n =
      push_rows gap (alone (n + 1) (plain y ∷ [])) (render_split ops o (n + 1))
  render_split (delete x ∷ insert y ∷ ops) o n =
      push_rows (changed (o + 1) (intraline_pair x y).0) (changed (n + 1) (intraline_pair x y).1)
        (render_split ops (o + 1) (n + 1))
  render_split (delete x ∷ []) o n = push_rows (alone (o + 1) (plain x ∷ [])) gap ([], [])
  render_split (delete x ∷ equal z y ∷ ops) o n =
      push_rows (alone (o + 1) (plain x ∷ [])) gap (render_split (equal z y ∷ ops) (o + 1) n)
  render_split (delete x ∷ delete z ∷ ops) o n =
      push_rows (alone (o + 1) (plain x ∷ [])) gap (render_split (delete z ∷ ops) (o + 1) n)

  -- `renderUnifiedDiffHtml`
  unfoldable pub render_unified : List (Op (List C)) → ℕ → ℕ → List (UnifiedRow C)
  unfolding intraline_pair
  render_unified [] o n = []
  render_unified (equal x y ∷ ops) o n =
      UnifiedRow.context (o + 1) (n + 1) (plain x ∷ []) ∷ render_unified ops (o + 1) (n + 1)
  render_unified (insert y ∷ ops) o n =
      UnifiedRow.added (n + 1) (plain y ∷ []) ∷ render_unified ops o (n + 1)
  render_unified (delete x ∷ insert y ∷ ops) o n =
      UnifiedRow.removed (o + 1) (intraline_pair x y).0
      ∷ UnifiedRow.added (n + 1) (intraline_pair x y).1
      ∷ render_unified ops (o + 1) (n + 1)
  render_unified (delete x ∷ []) o n = UnifiedRow.removed (o + 1) (plain x ∷ []) ∷ []
  render_unified (delete x ∷ equal z y ∷ ops) o n =
      UnifiedRow.removed (o + 1) (plain x ∷ []) ∷ render_unified (equal z y ∷ ops) (o + 1) n
  render_unified (delete x ∷ delete z ∷ ops) o n =
      UnifiedRow.removed (o + 1) (plain x ∷ []) ∷ render_unified (delete z ∷ ops) (o + 1) n

-- The stretches of changed lines.
unfoldable pub count_changes : {A : Type 0} → List (Op A) → Bool → ℕ
count_changes [] in_change = 0
count_changes (equal x y ∷ ops) in_change = count_changes ops false
count_changes (insert y ∷ ops) in_change = (if in_change then 0 else 1) + count_changes ops true
count_changes (delete x ∷ ops) in_change = (if in_change then 0 else 1) + count_changes ops true

abbrev pub count_or_one : {A : Type 0} → Option (List (Op A)) → ℕ
count_or_one none = 1
count_or_one (some ops) = let n = count_changes ops false in if leb 1 n then n else 1

-- `rulesetChangeCount`: the lines of the two rulesets are given.
unfoldable pub ruleset_change_count : {A : Type 0} → (A → A → Bool) → List A → List A → ℕ
unfolding compute_line_diff count_changes
ruleset_change_count eq old new = count_or_one (compute_line_diff eq old new)
