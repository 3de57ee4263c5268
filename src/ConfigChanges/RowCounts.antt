-- ===== src/ConfigChanges/RowCounts.antt =====
-- A row step moves the rows that it names, and no other.
use evuproxy.Common.{
  ℕ, zero, suc, ◌+◌, ◌≡◌, ◌↔◌, refl, ap, inl, inr, String, Bool, true, false, Option, none, some,
  List, [], ◌∷◌, any, set, leb, arith, Bool-cases, get_elem?, if◌then◌else◌,
}
use evuproxy.ConfigChanges.Rows.{
  Moved, moved, count_of, next_row, is_back, find_row, insert_at, erase_idx, restore_row,
  remove_row, removed_at, replaced_at, move_row,
}

-- Rows are the same when their keys are, as `same` compares canonical texts.
module _ {A K : Type 0} (key : A → K) (key_eq : K → K → Bool)
    (key_eq_iff : (j k : K) → (key_eq j k ≡ true) ↔ (j ≡ k)) where
  abbrev pub same_key : A → A → Bool
  same_key a b = key_eq (key a) (key b)

  abbrev pub hits : K → A → ℕ
  hits c a = if key_eq (key a) c then 1 else 0

  -- How many rows have the key.
  abbrev pub count : K → List A → ℕ
  count c [] = 0
  count c (a ∷ rows) = hits c a + count c rows

  abbrev pub hits_option : K → Option A → ℕ
  hits_option c none = 0
  hits_option c (some a) = hits c a

  pub count-insert_at :
      (c : K) (i : ℕ) (row : A) (rows : List A)
      → count c (insert_at same_key i row rows) ≡ hits c row + count c rows
  unfolding insert_at
  count-insert_at c zero row rows = refl
  count-insert_at c (suc i) row [] = refl
  count-insert_at c (suc i) row (r ∷ rows) = omega (arith, count-insert_at c i row rows)

  -- The row that a search finds has the key.
  abbrev pub Finds : K → A → List A → Option ℕ → Type 0
  Finds c have rows none = Unit {0}
  Finds c have rows (some i) = (r : A) × (get_elem? rows i ≡ some r) × (hits c r ≡ hits c have)

  next_row-Finds :
      (c : K) (have r : A) (rows : List A) (b : Bool) (later : Option ℕ)
      → same_key r have ≡ b
      → Finds c have rows later
      → Finds c have (r ∷ rows) (next_row b later)
  next_row-Finds c have r rows true later e f =
      (r, refl, ap (λ k. if key_eq k c then 1 else 0) ((key_eq_iff (key r) (key have)).0 e))
  next_row-Finds c have r rows false none e f = tt
  next_row-Finds c have r rows false (some i) e f = f

  pub find_row-Finds :
      (c : K) (have : A) (rows : List A) → Finds c have rows (find_row same_key have rows)
  unfolding find_row
  find_row-Finds c have [] = tt
  find_row-Finds c have (r ∷ rows) =
      next_row-Finds c have r rows (same_key r have) _ refl (find_row-Finds c have rows)

  pub count-erase_idx :
      (c : K) (i : ℕ) (r : A) (rows : List A)
      → get_elem? rows i ≡ some r
      → hits c r + count c (erase_idx same_key i rows) ≡ count c rows
  unfolding erase_idx
  count-erase_idx c i r [] e = absurd (cc)
  count-erase_idx c zero r (a ∷ rows) e = ground arith
  count-erase_idx c (suc i) r (a ∷ rows) e = omega (arith, count-erase_idx c i r rows e)

  pub count-set :
      (c : K) (i : ℕ) (r row : A) (rows : List A)
      → get_elem? rows i ≡ some r
      → hits c r + count c (set rows i row) ≡ hits c row + count c rows
  count-set c i r row [] e = absurd (cc)
  count-set c zero r row (a ∷ rows) e = ground arith
  count-set c (suc i) r row (a ∷ rows) e = omega (arith, count-set c i r row rows e)

  -- What the step names changes places, and every other row stays as often as it was.
  abbrev pub Trades : K → Option A → Option A → List A → Moved A → Type 0
  Trades c have want rows (moved rows') =
      hits_option c have + count c rows' ≡ hits_option c want + count c rows
  Trades c have want rows _ = Unit {0}

  restore_row-Trades :
      (public_key : A → String) (c : K) (want : A) (want_at : ℕ) (want_rows rows : List A)
      → Trades c none (some want) rows (restore_row same_key public_key want want_at want_rows rows)
  unfolding restore_row
  restore_row-Trades public_key c want want_at want_rows rows =
      elim (Bool-cases (leb (count_of same_key want_rows want) (count_of same_key rows want))) [
        | inl y ↦ rw y tt
        | inr n ↦ elim (Bool-cases (is_back same_key public_key want rows)) [
          | inl y ↦ rw (n, y) tt
          | inr m ↦ rw (n, m) (omega (arith, count-insert_at c want_at want rows))
        ]
      ]

  removed_at-Trades :
      (public_key : A → String) (c : K) (have : A) (rows : List A) (found : Option ℕ)
      → Finds c have rows found
      → Trades c (some have) none rows (removed_at same_key public_key found rows)
  removed_at-Trades public_key c have rows none f = tt
  removed_at-Trades public_key c have rows (some i) (r, at_i, same) =
      omega (arith, same, count-erase_idx c i r rows at_i)

  remove_row-Trades :
      (public_key : A → String) (c : K) (have : A) (want_rows rows : List A)
      → Trades c (some have) none rows (remove_row same_key public_key have want_rows rows)
  unfolding remove_row
  remove_row-Trades public_key c have want_rows rows =
      elim (Bool-cases (leb (count_of same_key rows have) (count_of same_key want_rows have))) [
        | inl y ↦ rw y tt
        | inr n ↦ rw n (removed_at-Trades public_key c have rows _ (find_row-Finds c have rows))
      ]

  replaced_at-Trades :
      (public_key : A → String) (c : K) (have want : A) (rows : List A) (found : Option ℕ)
      → Finds c have rows found
      → Trades c (some have) (some want) rows (replaced_at same_key public_key want found rows)
  replaced_at-Trades public_key c have want rows none f =
      elim (Bool-cases (any (λ r. same_key r want) rows)) [ inl y ↦ rw y tt | inr n ↦ rw n tt ]
  replaced_at-Trades public_key c have want rows (some i) (r, at_i, same) =
      omega (arith, same, count-set c i r want rows at_i)

-- A step that changes the rows takes out one row like the one that it found, puts in the one that it
-- wants, and leaves every other row as often as it was.
pub move_row-Trades :
    {A K : Type 0} (key : A → K) (key_eq : K → K → Bool)
    (key_eq_iff : (j k : K) → (key_eq j k ≡ true) ↔ (j ≡ k)) (public_key : A → String) (c : K)
    (have want : Option A) (want_at : ℕ) (want_rows rows : List A)
    → Trades key key_eq key_eq_iff c have want rows
        (move_row (same_key key key_eq key_eq_iff) public_key have want want_at want_rows rows)
unfolding move_row
move_row-Trades key key_eq iff public_key c none none want_at want_rows rows = tt
move_row-Trades key key_eq iff public_key c none (some want) want_at want_rows rows =
    restore_row-Trades key key_eq iff public_key c want want_at want_rows rows
move_row-Trades key key_eq iff public_key c (some have) none want_at want_rows rows =
    remove_row-Trades key key_eq iff public_key c have want_rows rows
move_row-Trades key key_eq iff public_key c (some have) (some want) want_at want_rows rows =
    replaced_at-Trades key key_eq iff public_key c have want rows _
      (find_row-Finds key key_eq iff c have rows)
