-- ===== src/ConfigChanges/MatchingLaws.antt =====
-- `matchRows` loses no row, invents none, and leaves no identical rows apart.
use mathlib.Core.List.{Perm, perm_middle, append_assoc}
use mathlib.Core.List.Perm
use mathlib.Core.Path.{subst}
use evuproxy.Common.{
  ℕ, ◌≡◌, refl, ap, Bool, true, false, Option, none, some, List, [], ◌∷◌, ◌++◌, All, All-map,
}
use evuproxy.ConfigChanges.Matching.{
  Free, Pairs, Matching, Matched, indexed_from, take_first, pass_row, has_key, take_key, find_for,
  pass, passes, match_rows,
}

module _ {A : Type 0} where
  -- The rows of a matching, paired ones first.
  abbrev pub befores : Pairs A → Free A
  befores [] = []
  befores ((b, a) ∷ ps) = b ∷ befores ps

  abbrev pub afters : Pairs A → Free A
  afters [] = []
  afters ((b, a) ∷ ps) = a ∷ afters ps

  befores-append : (ps qs : Pairs A) → befores (ps ++ qs) ≡ befores ps ++ befores qs
  befores-append [] qs = refl
  befores-append ((b, a) ∷ ps) qs = ap (b ∷◌) (befores-append ps qs)

  afters-append : (ps qs : Pairs A) → afters (ps ++ qs) ≡ afters ps ++ afters qs
  afters-append [] qs = refl
  afters-append ((b, a) ∷ ps) qs = ap (a ∷◌) (afters-append ps qs)

  -- Both lists are split into paired and free rows.
  pub record Splits (before after : Free A) (m : Matching A) : Type 0 where
    pub of_before : Perm before (befores m.pairs ++ m.before)
    pub of_after : Perm after (afters m.pairs ++ m.after)

module _ {K A : Type 0} (key_eq : K → K → Bool) (key_of : A → ℕ → Option K) where
  abbrev Fits : K → ℕ × A → Type 0
  Fits k (i, a) = has_key key_eq k (key_of a i) ≡ true

  abbrev pub Misses : K → ℕ × A → Type 0
  Misses k (i, a) = has_key key_eq k (key_of a i) ≡ false

  -- What the inner loop returns.
  abbrev Takes : K → Free A → Option ((ℕ × A) × Free A) → Type 0
  Takes k free none = All (Misses k) free
  Takes k free (some (found, rest)) = Perm free (found ∷ rest) × Fits k found

  take_first-Takes :
      (k : K) (b : Bool) (i : ℕ) (a : A) (free : Free A) (later : Option ((ℕ × A) × Free A))
      → has_key key_eq k (key_of a i) ≡ b
      → Takes k free later
      → Takes k ((i, a) ∷ free) (take_first b (i, a) free later)
  unfolding take_first
  take_first-Takes k true i a free later e t = (Perm.refl _, e)
  take_first-Takes k false i a free none e t = (e, t)
  take_first-Takes k false i a free (some (found, rest)) e (p, fit) =
      (Perm.trans (Perm.cons (i, a) p) (Perm.swap found (i, a) rest), fit)

  take_key-Takes : (k : K) (free : Free A) → Takes k free (take_key key_eq key_of k free)
  unfolding take_key
  take_key-Takes k [] = tt
  take_key-Takes k ((i, a) ∷ free) =
      take_first-Takes k (has_key key_eq k (key_of a i)) i a free (take_key key_eq key_of k free)
        refl (take_key-Takes k free)

  abbrev Splitting : Free A → (Free A → Matching A) → Type 0
  Splitting before go = (after : Free A) → Splits before after (go after)

  pass_row-Splits :
      (go : Free A → Matching A) (x : ℕ × A) (before after : Free A)
      (found : Option ((ℕ × A) × Free A))
      → ((y : ℕ × A) (rest : Free A) → found ≡ some (y, rest) → Perm after (y ∷ rest))
      → Splitting before go
      → Splits (x ∷ before) after (pass_row go x after found)
  unfolding pass_row
  pass_row-Splits go x before after none taken rec =
      let r = rec after in
      record {
        of_before = Perm.trans (Perm.cons x r.of_before) (Perm.symm (perm_middle _ _));
        of_after = r.of_after;
      }
  pass_row-Splits go x before after (some (y, rest)) taken rec =
      let r = rec rest in
      record {
        of_before = Perm.cons x r.of_before;
        of_after = Perm.trans (taken y rest refl) (Perm.cons y r.of_after);
      }

  find_for-taken :
      (k : Option K) (after : Free A) (y : ℕ × A) (rest : Free A)
      → find_for key_eq key_of k after ≡ some (y, rest)
      → Perm after (y ∷ rest)
  find_for-taken none after y rest e = absurd (cc)
  find_for-taken (some k) after y rest e = (subst (Takes k after) e (take_key-Takes k after)).0

  pass-Splits : (before after : Free A) → Splits before after (pass key_eq key_of before after)
  unfolding pass
  pass-Splits [] after = record { of_before = Perm.refl []; of_after = Perm.refl after }
  pass-Splits ((i, b) ∷ before) after =
      pass_row-Splits (pass key_eq key_of before) (i, b) before after _
        (find_for-taken (key_of b i) after) (pass-Splits before)

  -- The keys of a pair are there and agree.
  abbrev pub Agree : (ℕ × A) × (ℕ × A) → Type 0
  Agree ((i, b), (j, a)) = (k : K) × (key_of b i ≡ some k) × (has_key key_eq k (key_of a j) ≡ true)

  -- No free row of the other list has the key.
  abbrev pub Apart : Free A → ℕ × A → Type 0
  Apart after (i, b) = (k : K) → key_of b i ≡ some k → All (Misses k) after

  module _ (P : ℕ × A → Type 0) where
    abbrev Leaves : Option ((ℕ × A) × Free A) → Type 0
    Leaves none = Unit {0}
    Leaves (some (found, rest)) = All P rest

    take_first-Leaves :
        (b : Bool) (x : ℕ × A) (free : Free A) (later : Option ((ℕ × A) × Free A))
        → P x
        → All P free
        → Leaves later
        → Leaves (take_first b x free later)
    unfolding take_first
    take_first-Leaves true x free later p h l = h
    take_first-Leaves false x free none p h l = tt
    take_first-Leaves false x free (some (found, rest)) p h l = (p, l)

    take_key-Leaves : (k : K) (free : Free A) → All P free → Leaves (take_key key_eq key_of k free)
    unfolding take_key
    take_key-Leaves k [] h = tt
    take_key-Leaves k ((i, a) ∷ free) h =
        take_first-Leaves _ (i, a) free _ h.0 h.1 (take_key-Leaves k free h.1)

    find_for-Leaves :
        (k : Option K) (free : Free A) → All P free → Leaves (find_for key_eq key_of k free)
    find_for-Leaves none free h = tt
    find_for-Leaves (some k) free h = take_key-Leaves k free h

    pass_row-All :
        (go : Free A → Matching A) (x : ℕ × A) (after : Free A) (found : Option ((ℕ × A) × Free A))
        → ((free : Free A) → All P free → All P (go free).after)
        → All P after
        → Leaves found
        → All P (pass_row go x after found).after
    unfolding pass_row
    pass_row-All go x after none rec h l = rec after h
    pass_row-All go x after (some (y, rest)) rec h l = rec rest l

    pub pass-All :
        (before after : Free A) → All P after → All P (pass key_eq key_of before after).after
    unfolding pass
    pass-All [] after h = h
    pass-All ((i, b) ∷ before) after h =
        pass_row-All (pass key_eq key_of before) (i, b) after _ (pass-All before) h
          (find_for-Leaves (key_of b i) after h)

  find_for-Apart :
      (o : Option K) (k : K) (after : Free A)
      → find_for key_eq key_of o after ≡ none
      → o ≡ some k
      → All (Misses k) after
  find_for-Apart none k after e s = absurd (cc)
  find_for-Apart (some j) k after e s =
      subst (λ (o : Option K). elim o [ none ↦ Unit | some l ↦ All (Misses l) after ]) s
        (subst (Takes j after) e (take_key-Takes j after))

  find_for-Agree :
      (o : Option K) (after : Free A) (y : ℕ × A) (rest : Free A)
      → find_for key_eq key_of o after ≡ some (y, rest)
      → (k : K) × (o ≡ some k) × Fits k y
  find_for-Agree none after y rest e = absurd (cc)
  find_for-Agree (some k) after y rest e =
      (k, refl, (subst (Takes k after) e (take_key-Takes k after)).1)

  abbrev Sorted : Matching A → Type 0
  Sorted m = All Agree m.pairs × All (Apart m.after) m.before

  pass_row-Sorted :
      (before : Free A) (i : ℕ) (b : A) (after : Free A) (found : Option ((ℕ × A) × Free A))
      → find_for key_eq key_of (key_of b i) after ≡ found
      → ((free : Free A) → Sorted (pass key_eq key_of before free))
      → Sorted (pass_row (pass key_eq key_of before) (i, b) after found)
  unfolding pass_row
  pass_row-Sorted before i b after none e rec = (
    (rec after).0,
    (
      (λ k s. pass-All (Misses k) before after (find_for-Apart (key_of b i) k after e s)),
      (rec after).1,
    ),
  )
  pass_row-Sorted before i b after (some (y, rest)) e rec =
      ((find_for-Agree (key_of b i) after y rest e, (rec rest).0), (rec rest).1)

  pub pass-Sorted : (before after : Free A) → Sorted (pass key_eq key_of before after)
  unfolding pass
  pass-Sorted [] after = (tt, tt)
  pass-Sorted ((i, b) ∷ before) after = pass_row-Sorted before i b after _ refl (pass-Sorted before)

  module _ (P : ℕ × A → Type 0) where
    pass_row-All_before :
        (go : Free A → Matching A) (x : ℕ × A) (after : Free A) (found : Option ((ℕ × A) × Free A))
        → ((free : Free A) → All P (go free).before)
        → P x
        → All P (pass_row go x after found).before
    unfolding pass_row
    pass_row-All_before go x after none rec p = (p, rec after)
    pass_row-All_before go x after (some (y, rest)) rec p = rec rest

    pub pass-All_before :
        (before : Free A)
        → All P before
        → (after : Free A) → All P (pass key_eq key_of before after).before
    unfolding pass
    pass-All_before [] h after = tt
    pass-All_before ((i, b) ∷ before) h after =
        pass_row-All_before (pass key_eq key_of before) (i, b) after _ (pass-All_before before h.1)
          h.0

module _ {K A : Type 0} (key_eq : K → K → Bool) where
  passes-Splits :
      (keys : List (A → ℕ → Option K)) (before after : Free A)
      → Splits before after (passes key_eq keys before after)
  unfolding passes
  passes-Splits [] before after = record { of_before = Perm.refl _; of_after = Perm.refl _ }
  passes-Splits (key_of ∷ keys) before after =
      let first = pass key_eq key_of before after in
      let one = pass-Splits key_eq key_of before after in
      let more = passes-Splits keys first.before first.after in
      record {
        of_before =
            rw (befores-append, append_assoc)
              (Perm.trans one.of_before (Perm.append_left (befores first.pairs) more.of_before));
        of_after =
            rw (afters-append, append_assoc)
              (Perm.trans one.of_after (Perm.append_left (afters first.pairs) more.of_after));
      }

  module _ (P : ℕ × A → Type 0) where
    passes-All :
        (keys : List (A → ℕ → Option K)) (before after : Free A)
        → All P after
        → All P (passes key_eq keys before after).after
    unfolding passes
    passes-All [] before after h = h
    passes-All (key_of ∷ keys) before after h =
        passes-All keys _ _ (pass-All key_eq key_of P before after h)

    passes-All_before :
        (keys : List (A → ℕ → Option K)) (before after : Free A)
        → All P before
        → All P (passes key_eq keys before after).before
    unfolding passes
    passes-All_before [] before after h = h
    passes-All_before (key_of ∷ keys) before after h =
        passes-All_before keys _ _ (pass-All_before key_eq key_of P before h after)

abbrev pub canonical_key : {C A : Type 0} → (A → C) → A → ℕ → Option C
canonical_key canonical a _ = some (canonical a)

module _ {C A : Type 0} (canonical_eq : C → C → Bool) (canonical : A → C) where
  -- What a pairing of two lists of rows owes its reader.
  pub record Accounts (before after : List A) (m : Matched A) : Type 0 where
    pub all_before :
        Perm (indexed_from 0 before) (befores m.kept ++ (befores m.edited ++ m.removed))
    pub all_after : Perm (indexed_from 0 after) (afters m.kept ++ (afters m.edited ++ m.added))
    pub kept_same : All (Agree canonical_eq (canonical_key canonical)) m.kept
    pub none_missed : All (Apart canonical_eq (canonical_key canonical) m.added) m.removed

Apart-passes :
    {C K A : Type 0} (canonical_eq : C → C → Bool) (key_eq : K → K → Bool) (key : A → ℕ → Option C)
    (keys : List (A → ℕ → Option K)) (before after : Free A) (x : ℕ × A)
    → Apart canonical_eq key after x
    → Apart canonical_eq key (passes key_eq keys before after).after x
Apart-passes canonical_eq key_eq key keys before after (i, b) apart =
    λ k s. passes-All key_eq (Misses canonical_eq key k) keys before after (apart k s)

-- Every row of either list, with its index, stands in exactly one place: kept, edited, or removed or
-- added. Kept rows are the same up to the canonical form, and no removed row is the same as an
-- added one.
pub match_rows-Accounts :
    {C K A : Type 0} (canonical_eq : C → C → Bool) (key_eq : K → K → Bool) (canonical : A → C)
    (keys : List (A → ℕ → Option K)) (before after : List A)
    → Accounts canonical_eq canonical before after
        (match_rows canonical_eq key_eq canonical keys before after)
unfolding match_rows
match_rows-Accounts canonical_eq key_eq canonical keys before after =
    let bs = indexed_from 0 before in
    let as' = indexed_from 0 after in
    let key = canonical_key canonical in
    let first = pass canonical_eq key bs as' in
    let one = pass-Splits canonical_eq key bs as' in
    let more = passes-Splits key_eq keys first.before first.after in
    let rest = passes key_eq keys first.before first.after in
    let sorted = pass-Sorted canonical_eq key bs as' in
    record {
      all_before = Perm.trans one.of_before (Perm.append_left (befores first.pairs) more.of_before);
      all_after = Perm.trans one.of_after (Perm.append_left (afters first.pairs) more.of_after);
      kept_same = sorted.0;
      none_missed =
          passes-All_before key_eq (Apart canonical_eq key rest.after) keys first.before first.after
            (All-map (Apart canonical_eq key first.after) (Apart canonical_eq key rest.after)
              first.before (Apart-passes canonical_eq key_eq key keys first.before first.after)
              sorted.1);
    }
