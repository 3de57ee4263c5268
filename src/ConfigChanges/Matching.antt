-- ===== src/ConfigChanges/Matching.antt =====
-- `matchRows`: pairing the rows of two lists, identical rows first, then by each key in turn.
use evuproxy.Common.{ℕ, ◌+◌, Bool, true, false, Option, none, some, List, [], ◌∷◌, ◌++◌}

-- Rows that are not paired yet, each with its index.
abbrev pub Free : Type 0 → Type 0
Free A = List (ℕ × A)

abbrev pub Pairs : Type 0 → Type 0
Pairs A = List ((ℕ × A) × (ℕ × A))

pub record Matching (A : Type 0) : Type 0 where
  pub pairs : Pairs A
  pub before : Free A
  pub after : Free A

pub record Matched (A : Type 0) : Type 0 where
  pub kept : Pairs A
  pub edited : Pairs A
  pub removed : Free A
  pub added : Free A

abbrev pub indexed_from : {A : Type 0} → ℕ → List A → Free A
indexed_from i [] = []
indexed_from i (a ∷ as') = (i, a) ∷ indexed_from (i + 1) as'

-- The inner loop meets a free row: it takes the row, or goes on behind it.
unfoldable pub take_first :
    {A : Type 0} → Bool → ℕ × A → Free A → Option ((ℕ × A) × Free A) → Option ((ℕ × A) × Free A)
take_first true x free later = some (x, free)
take_first false x free none = none
take_first false x free (some (found, rest)) = some (found, x ∷ rest)

-- The outer loop: the row stays free, or is paired with what the inner loop found.
unfoldable pub pass_row :
    {A : Type 0} → (Free A → Matching A) → ℕ × A → Free A → Option ((ℕ × A) × Free A) → Matching A
pass_row go x after none = let m = go after in record m { before = x ∷ m.before }
pass_row go x after (some (a, rest)) = let m = go rest in record m { pairs = (x, a) ∷ m.pairs }

abbrev pub has_key : {K : Type 0} → (K → K → Bool) → K → Option K → Bool
has_key key_eq k none = false
has_key key_eq k (some j) = key_eq j k

module _ {K A : Type 0} (key_eq : K → K → Bool) where
  unfoldable pub take_key : (A → ℕ → Option K) → K → Free A → Option ((ℕ × A) × Free A)
  unfolding take_first
  take_key key_of k [] = none
  take_key key_of k ((i, a) ∷ free) =
      take_first (has_key key_eq k (key_of a i)) (i, a) free (take_key key_of k free)

  -- A row whose key is null or empty is skipped.
  abbrev pub find_for : (A → ℕ → Option K) → Option K → Free A → Option ((ℕ × A) × Free A)
  find_for key_of none after = none
  find_for key_of (some k) after = take_key key_of k after

  -- One `pass` over the free rows.
  unfoldable pub pass : (A → ℕ → Option K) → Free A → Free A → Matching A
  unfolding take_key pass_row
  pass key_of [] after = record { pairs = []; before = []; after = after }
  pass key_of ((i, b) ∷ before) after =
      pass_row (pass key_of before) (i, b) after (find_for key_of (key_of b i) after)

  -- The passes of the keys, each over what the ones before it left.
  unfoldable pub passes : List (A → ℕ → Option K) → Free A → Free A → Matching A
  unfolding pass
  passes [] before after = record { pairs = []; before = before; after = after }
  passes (key_of ∷ keys) before after =
      let first = pass key_of before after in
      let rest = passes keys first.before first.after in
      record rest { pairs = first.pairs ++ rest.pairs }

module _ {C K A : Type 0} (canonical_eq : C → C → Bool) (key_eq : K → K → Bool) where
  unfoldable pub match_rows : (A → C) → List (A → ℕ → Option K) → List A → List A → Matched A
  unfolding pass passes
  match_rows canonical keys before after =
      let first =
        pass canonical_eq (λ a _. some (canonical a)) (indexed_from 0 before)
          (indexed_from 0 after) in
      let rest = passes key_eq keys first.before first.after in
      record { kept = first.pairs; edited = rest.pairs; removed = rest.before; added = rest.after }
