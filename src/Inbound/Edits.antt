-- ===== src/Inbound/Edits.antt =====
-- What the edits do to the rules, and the way back from a removal.
use mathlib.Core.Path.{subst}
use evuproxy.Common.{
  ℕ, ◌≤◌, ◌≡◌, ◌⊎◌, refl, ap, inl, inr, String, Bool, true, false, Option, none, some, List, leb,
  length, get_elem?, set, remove_at, insert_at, insert_at-remove_at, le-length-remove_at, arith,
}
use evuproxy.ConfigSave.{Edited, changed, skipped, merge_error}
use evuproxy.ConfigSave.Rows.{
  Found, at, missing, ambiguous, resolve_list_index, count_matches, IsRow, Resolves,
  resolve_list_index-Resolves,
}
use evuproxy.Inbound.{
  Rule, Config, at_row, update_at, placed_rule, place_at, is_listed, inbound_rule_identity,
  edit_disabled, edit_remove, removed_by, edit_restore, edit_save,
}

-- How an edit of one row ends: at a row with the identity, the one that the operator acted on or the
-- only one, it makes the change; else it is refused, and the row is gone or cannot be told from others.
abbrev pub EndsAtRow :
    {C : Type 0} → (Rule → String) → String → List Rule → ℕ → (ℕ → C) → Edited C → Type 0
EndsAtRow identity_of identity rules index done (changed c) =
    (i : ℕ) × IsRow identity_of identity rules i
    × ((i ≡ index) ⊎ (count_matches identity_of identity rules ≡ 1))
    × (c ≡ done i)
EndsAtRow identity_of identity rules index done (merge_error message) =
    (count_matches identity_of identity rules ≡ 0)
    ⊎ ((2 ≤ count_matches identity_of identity rules)
        × (¬ (IsRow identity_of identity rules index)))
EndsAtRow identity_of identity rules index done skipped = ⊥

at_row-EndsAtRow :
    {C : Type 0} (identity_of : Rule → String) (identity what : String) (rules : List Rule)
    (index : ℕ) (done : ℕ → C)
    → EndsAtRow identity_of identity rules index done (
        at_row what
          (resolve_list_index identity_of identity (some rules) index)
          (λ i. changed (done i)))
at_row-EndsAtRow identity_of identity what rules index done =
    by_found (resolve_list_index identity_of identity (some rules) index)
      (resolve_list_index-Resolves identity_of identity rules index)
  where
    by_found :
        (f : Found)
        → Resolves identity_of identity rules index f
        → EndsAtRow identity_of identity rules index done (at_row what f (λ i. changed (done i)))
    by_found (at i) r = (i, r.0, r.1, refl)
    by_found missing r = inl r
    by_found ambiguous r = inr r

placed_rule_lem :
    (o : Option Rule) (j : ℕ) (r : Rule) (i : ℕ)
    → placed_rule o j ≡ some (r, i)
    → (j ≡ i) × (o ≡ some r)
placed_rule_lem none j r i e = cc e
placed_rule_lem (some x) j r i e = (cc e, cc e)

abbrev pub listing : {R : Type 0} → R → List Rule → Config R
listing rest rs = record { input_allows = some rs; rest = rest }

module _ {R : Type 0} (lower trim : String → String) (json_of : Rule → String) (rules : List Rule)
    (rest : R) where
  -- Over the rules of any config, turning a rule on or off, removing it, and saving the form of one
  -- that was opened: each changes one rule and no other. That rule has the identity of the one that the
  -- operator acted on, which leaves out whether it is disabled, or for the form the whole rule as it
  -- was when it was opened; and it is the one at the index of the time or the only one like it. Or the
  -- edit is refused, and there is no such rule, or there are several and none at that index.
  pub edits_end_at_row :
      (index : ℕ) (identity base : String) (disabled : Bool) (rule : Rule)
      → EndsAtRow
          (inbound_rule_identity lower trim)
          identity
          rules
          index
          (λ i. listing rest (update_at i (λ r. record r { disabled = some disabled }) rules))
          (edit_disabled lower trim index identity disabled (listing rest rules))
        × EndsAtRow
            (inbound_rule_identity lower trim)
            identity
            rules
            index
            (λ i. listing rest (remove_at i rules))
            (edit_remove lower trim index identity (listing rest rules))
        × EndsAtRow json_of base rules index
            (λ i. listing rest (set rules i rule))
            (edit_save json_of (some index) base rule (listing rest rules))
  unfolding edit_disabled edit_remove edit_save
  edits_end_at_row index identity base disabled rule = (
    at_row-EndsAtRow (inbound_rule_identity lower trim) identity "inbound rule" rules index
        (λ i. listing rest (update_at i (λ r. record r { disabled = some disabled }) rules)),
    at_row-EndsAtRow (inbound_rule_identity lower trim) identity "inbound rule" rules index
        (λ i. listing rest (remove_at i rules)),
    at_row-EndsAtRow json_of base "inbound rule" rules index (λ i. listing rest (set rules i rule)),
  )

  -- A removal and its undo give the rules back, in their order, if no other rule is the same as a whole.
  pub edit_restore-edit_remove :
      (index : ℕ) (identity : String) (r : Rule) (i : ℕ)
      → removed_by lower trim index identity (listing rest rules) ≡ some (r, i)
      → is_listed json_of (json_of r) (remove_at i rules) ≡ false
      → (c : Config R) × (edit_remove lower trim index identity (listing rest rules) ≡ changed c)
        × (edit_restore json_of r i c ≡ changed (listing rest rules))
  unfolding edit_remove removed_by edit_restore
  edit_restore-edit_remove index identity r i found alone =
      by_found (resolve_list_index (inbound_rule_identity lower trim) identity (some rules) index)
        found
    where
      by_found :
          (f : Found)
          → place_at f rules ≡ some (r, i)
          → (c : Config R) × (at_row "inbound rule" f
                (λ j. changed (listing rest (remove_at j rules)))
              ≡ changed c)
            × (edit_restore json_of r i c ≡ changed (listing rest rules))
      by_found (at j) e =
          let (same, at_j) = placed_rule_lem (get_elem? rules j) j r i e in
          let here = subst (λ n. get_elem? rules n ≡ some r) same at_j in
          let room : i ≤ length (remove_at i rules) = le-length-remove_at i rules r here in
          let fits : leb i (length (remove_at i rules)) ≡ true = ground arith in
          let back : changed (listing rest (insert_at i r (remove_at i rules)))
              ≡ changed (listing rest rules) =
            ap (λ rs. changed (listing rest rs)) (insert_at-remove_at i rules r here) in
          (
            listing rest (remove_at i rules),
            ap (λ n. changed (listing rest (remove_at n rules))) same,
            rw alone rw fits back,
          )
      by_found missing e = cc e
      by_found ambiguous e = cc e
