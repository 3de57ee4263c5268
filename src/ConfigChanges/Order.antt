-- ===== src/ConfigChanges/Order.antt =====
-- `setRowOrder`: putting the named rows in an order, in the slots that they occupy.
use evuproxy.Common.{
  ℕ, Bool, false, not, ◌||◌, Option, none, some, List, [], ◌∷◌, map, leb, set, get_elem?,
  if◌then◌else◌,
}
use evuproxy.ConfigChanges.Rows.{next_row}

-- The rows that were found, in the wanted order, and the slots that they were found at.
pub record Claim (A : Type 0) : Type 0 where
  pub order : List A
  pub slots : List ℕ

-- `slots.sort((a, b) => a - b)`
unfoldable pub insert_slot : ℕ → List ℕ → List ℕ
insert_slot i [] = i ∷ []
insert_slot i (j ∷ slots) = if leb i j then i ∷ j ∷ slots else j ∷ insert_slot i slots

unfoldable pub sort_slots : List ℕ → List ℕ
unfolding insert_slot
sort_slots [] = []
sort_slots (i ∷ slots) = insert_slot i (sort_slots slots)

module _ {A K : Type 0} (key : A → K) (key_eq : K → K → Bool) where
  -- A claimed entry is null, which is no key.
  abbrev pub holds : K → Option K → Bool
  holds k none = false
  holds k (some j) = key_eq j k

  -- `unclaimed.indexOf(canonical(row))`
  unfoldable pub find_slot : K → List (Option K) → Option ℕ
  find_slot k [] = none
  find_slot k (u ∷ unclaimed) = next_row (holds k u) (find_slot k unclaimed)

  unfoldable pub claim_at : (List (Option K) → Claim A) → A → List (Option K) → Option ℕ → Claim A
  claim_at go row unclaimed none = go unclaimed
  claim_at go row unclaimed (some i) =
      let rest = go (set unclaimed i none) in
      record { order = row ∷ rest.order; slots = i ∷ rest.slots }

  unfoldable pub claim : List A → List (Option K) → Claim A
  unfolding claim_at find_slot
  claim [] unclaimed = record { order = []; slots = [] }
  claim (row ∷ wanted) unclaimed =
      claim_at (claim wanted) row unclaimed (find_slot (key row) unclaimed)

  abbrev same_at : Option A → A → Bool
  same_at none row = false
  same_at (some r) row = key_eq (key r) (key row)

  -- The loop that writes the slots; the flag says whether any row moved.
  unfoldable pub write_slots : List ℕ → List A → List A → Bool → List A × Bool
  write_slots (i ∷ slots) (row ∷ order) rows moved =
      write_slots slots order (set rows i row) (moved || not (same_at (get_elem? rows i) row))
  write_slots _ _ rows moved = (rows, moved)

  unfoldable pub set_row_order : List A → List A → List A × Bool
  unfolding sort_slots claim write_slots
  set_row_order rows wanted =
      let c = claim wanted (map (λ r. some (key r)) rows) in
      write_slots (sort_slots c.slots) c.order rows false
