-- ===== src/ConfigSave/Rows.antt =====
-- web/static/js/core/config_save.js: finding again the row that the operator acted on.
use mathlib.Core.Path.{subst}
use evuproxy.Common.{
  ℕ, suc, ◌+◌, ◌≤◌, ◌≡◌, ◌⊎◌, refl, ap, inl, inr, String, Bool, true, false, Option, none, some,
  List, [], ◌∷◌, str_eq, str_eq_iff, arith, Bool-cases, Option-cases, if◌then◌else◌, get_elem?,
  length,
}

-- An index, -1, or -2.
pub data Found : Type 0 where
  at : ℕ → Found
  missing ambiguous : Found

module _ {A : Type 0} (identity_of : A → String) (identity : String) where
  abbrev is_match : A → Bool
  is_match a = str_eq (identity_of a) identity

  -- The loop over all rows, from index `i`.
  unfoldable pub matches_from : ℕ → List A → List ℕ
  matches_from i [] = []
  matches_from i (a ∷ as') =
      if is_match a then i ∷ matches_from (i + 1) as' else matches_from (i + 1) as'

  abbrev pick : List ℕ → Found
  pick [] = missing
  pick (i ∷ []) = at i
  pick (_ ∷ _ ∷ _) = ambiguous

  abbrev still_there : Option A → Bool
  still_there none = false
  still_there (some a) = is_match a

  -- The open-time index wins while it still matches; no list at all has no row.
  unfoldable pub resolve_list_index : Option (List A) → ℕ → Found
  unfolding matches_from
  resolve_list_index none open_index = missing
  resolve_list_index (some rows) open_index =
      if still_there (get_elem? rows open_index) then at open_index else pick (matches_from 0 rows)

  abbrev pub IsRow : List A → ℕ → Type 0
  IsRow rows i = (a : A) × (get_elem? rows i ≡ some a) × (identity_of a ≡ identity)

  -- How many rows have the identity.
  abbrev pub count_matches : List A → ℕ
  count_matches [] = 0
  count_matches (a ∷ rows) = if is_match a then suc (count_matches rows) else count_matches rows

  length-matches_from : (i : ℕ) (rows : List A) → length (matches_from i rows) ≡ count_matches rows
  unfolding matches_from
  length-matches_from i [] = refl
  length-matches_from i (a ∷ rows) = elim (Bool-cases (is_match a)) [
    | inl y ↦ rw (y, matches_from) (omega (arith, length-matches_from (i + 1) rows))
    | inr n ↦ rw (n, matches_from) (omega (arith, length-matches_from (i + 1) rows))
  ]

  abbrev head_of : List ℕ → ℕ
  head_of [] = 0
  head_of (x ∷ _) = x

  -- A lone match is a row of the list.
  IsRow-matches_from :
      (i j : ℕ) (rows : List A)
      → matches_from i rows ≡ j ∷ []
      → (m : ℕ) × (j ≡ i + m) × IsRow rows m
  unfolding matches_from
  IsRow-matches_from i j [] e = absurd (cc)
  IsRow-matches_from i j (a ∷ rows) e = elim (Bool-cases (is_match a)) [
    | inl y ↦
        let heads : i ∷ matches_from (i + 1) rows ≡ j ∷ [] = rw (y, matches_from) at e in
        (0, omega (arith, ap head_of heads), (a, refl, (str_eq_iff _ _).0 y))
    | inr n ↦
        let (m, at_m, row) = IsRow-matches_from (i + 1) j rows (rw (n, matches_from) at e) in
        (suc m, omega (arith, at_m), row)
  ]

  still_there-IsRow : (rows : List A) (i : ℕ) → still_there (get_elem? rows i) ≡ true → IsRow rows i
  still_there-IsRow rows i h = elim (Option-cases (get_elem? rows i)) [
    | inl e ↦ absurd (cc e)
    | inr (a, e) ↦ (a, e, (str_eq_iff _ _).0 (rw e at h))
  ]

  not-IsRow : (rows : List A) (i : ℕ) → still_there (get_elem? rows i) ≡ false → ¬ (IsRow rows i)
  not-IsRow rows i h (a, e, same) = cc ((str_eq_iff (identity_of a) identity).1 same, rw e at h)

  abbrev pub Resolves : List A → ℕ → Found → Type 0
  Resolves rows open_index (at i) = IsRow rows i × ((i ≡ open_index) ⊎ (count_matches rows ≡ 1))
  Resolves rows open_index missing = count_matches rows ≡ 0
  Resolves rows open_index ambiguous = (2 ≤ count_matches rows) × (¬ (IsRow rows open_index))

  pick-Resolves :
      (rows : List A) (open_index : ℕ) (is : List ℕ)
      → ¬ (IsRow rows open_index)
      → matches_from 0 rows ≡ is
      → Resolves rows open_index (pick is)
  pick-Resolves rows open_index [] gone e =
      omega (arith, length-matches_from 0 rows, ap (length {0}) e)
  pick-Resolves rows open_index (j ∷ []) gone e =
      let (m, at_m, row) = IsRow-matches_from 0 j rows e in
      let same : m ≡ j = omega (arith, at_m) in
      (
        subst (IsRow rows) same row,
        inr (omega (arith, length-matches_from 0 rows, ap (length {0}) e)),
      )
  pick-Resolves rows open_index (j ∷ l ∷ is) gone e =
      (omega (arith, length-matches_from 0 rows, ap (length {0}) e), gone)

-- The row that an edit finds is one with the identity that the operator acted on: the one at the
-- index of the time, or the only one. No row is found exactly when there is none, and the search is
-- ambiguous only when at least two others match and the index does not.
pub resolve_list_index-Resolves :
    {A : Type 0} (identity_of : A → String) (identity : String) (rows : List A) (open_index : ℕ)
    → Resolves identity_of identity rows open_index
        (resolve_list_index identity_of identity (some rows) open_index)
unfolding resolve_list_index
resolve_list_index-Resolves identity_of identity rows open_index =
    elim (Bool-cases (still_there identity_of identity (get_elem? rows open_index))) [
      | inl y ↦ rw y (still_there-IsRow identity_of identity rows open_index y, inl refl)
      | inr n ↦ rw n (
          pick-Resolves identity_of identity rows open_index
            (matches_from identity_of identity 0 rows)
            (not-IsRow identity_of identity rows open_index n) refl)
    ]
