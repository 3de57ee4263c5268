-- ===== src/ConfigChanges/OrderCounts.antt =====
-- Reordering keeps every row as often as it was.
use evuproxy.Common.{
  ℕ, zero, suc, ◌+◌, ◌≡◌, ◌↔◌, ◌≢◌, refl, ap, sym, ◌∙◌, inl, inr, Bool, true, false, Option, none,
  some, List, [], ◌∷◌, map, leb, set, get_elem?, length, All, All-map, arith, Bool-cases,
  if◌then◌else◌,
}
use evuproxy.ConfigChanges.Rows.{next_row}
use evuproxy.ConfigChanges.RowCounts.{hits_option, count, count-set}
use evuproxy.ConfigChanges.Order.{
  Claim, insert_slot, sort_slots, holds, find_slot, claim_at, claim, write_slots, set_row_order,
}

-- No slot stands twice.
abbrev pub IsDistinct : List ℕ → Type 0
IsDistinct [] = Unit {0}
IsDistinct (i ∷ slots) = All (λ j. i ≢ j) slots × IsDistinct slots

module _ (P : ℕ → Type 0) where
  All-insert_slot : (i : ℕ) (slots : List ℕ) → P i → All P slots → All P (insert_slot i slots)
  unfolding insert_slot
  All-insert_slot i [] p h = (p, tt)
  All-insert_slot i (j ∷ slots) p h = elim (Bool-cases (leb i j)) [
    | inl y ↦ rw y (p, h)
    | inr n ↦ rw n (h.0, All-insert_slot i slots p h.1)
  ]

  All-sort_slots : (slots : List ℕ) → All P slots → All P (sort_slots slots)
  unfolding sort_slots
  All-sort_slots [] h = tt
  All-sort_slots (i ∷ slots) h = All-insert_slot i _ h.0 (All-sort_slots slots h.1)

insert_slot-IsDistinct :
    (i : ℕ) (slots : List ℕ)
    → All (λ j. i ≢ j) slots
    → IsDistinct slots
    → IsDistinct (insert_slot i slots)
unfolding insert_slot
insert_slot-IsDistinct i [] h d = (tt, tt)
insert_slot-IsDistinct i (j ∷ slots) h d = elim (Bool-cases (leb i j)) [
  | inl y ↦ rw y (h, d)
  | inr n ↦ rw n (
    All-insert_slot (λ k. j ≢ k) i slots (λ e. h.0 (sym e)) d.0,
    insert_slot-IsDistinct i slots h.1 d.1,
  )
]

sort_slots-IsDistinct : (slots : List ℕ) → IsDistinct slots → IsDistinct (sort_slots slots)
unfolding sort_slots
sort_slots-IsDistinct [] d = tt
sort_slots-IsDistinct (i ∷ slots) d =
    insert_slot-IsDistinct i _ (All-sort_slots (λ j. i ≢ j) slots d.0)
      (sort_slots-IsDistinct slots d.1)

length-insert_slot : (i : ℕ) (slots : List ℕ) → length (insert_slot i slots) ≡ suc (length slots)
unfolding insert_slot
length-insert_slot i [] = refl
length-insert_slot i (j ∷ slots) = elim (Bool-cases (leb i j)) [
  | inl y ↦ rw y
  | inr n ↦ rw n (omega (arith, length-insert_slot i slots))
]

length-sort_slots : (slots : List ℕ) → length (sort_slots slots) ≡ length slots
unfolding sort_slots
length-sort_slots [] = refl
length-sort_slots (i ∷ slots) =
    omega (arith, length-insert_slot i (sort_slots slots), length-sort_slots slots)

module _ {A K : Type 0} (key : A → K) (key_eq : K → K → Bool)
    (key_eq_iff : (j k : K) → (key_eq j k ≡ true) ↔ (j ≡ k)) where
  -- The rows at the slots that have the key.
  abbrev slot_hits : K → List A → List ℕ → ℕ
  slot_hits c rows [] = 0
  slot_hits c rows (i ∷ slots) =
      hits_option key key_eq key_eq_iff c (get_elem? rows i) + slot_hits c rows slots

  slot_hits-insert_slot :
      (c : K) (rows : List A) (i : ℕ) (slots : List ℕ)
      → slot_hits c rows (insert_slot i slots) ≡ slot_hits c rows (i ∷ slots)
  unfolding insert_slot
  slot_hits-insert_slot c rows i [] = refl
  slot_hits-insert_slot c rows i (j ∷ slots) = elim (Bool-cases (leb i j)) [
    | inl y ↦ rw y
    | inr n ↦ rw n (omega (arith, slot_hits-insert_slot c rows i slots))
  ]

  slot_hits-sort_slots :
      (c : K) (rows : List A) (slots : List ℕ)
      → slot_hits c rows (sort_slots slots) ≡ slot_hits c rows slots
  unfolding sort_slots
  slot_hits-sort_slots c rows [] = refl
  slot_hits-sort_slots c rows (i ∷ slots) =
      omega (
        arith,
        slot_hits-insert_slot c rows i (sort_slots slots),
        slot_hits-sort_slots c rows slots,
      )

  get_elem?-set_ne :
      (rows : List A) (i j : ℕ) (row : A) → i ≢ j → get_elem? (set rows i row) j ≡ get_elem? rows j
  get_elem?-set_ne [] i j row ne = refl
  get_elem?-set_ne (r ∷ rows) zero zero row ne = absurd (ne refl)
  get_elem?-set_ne (r ∷ rows) zero (suc j) row ne = refl
  get_elem?-set_ne (r ∷ rows) (suc i) zero row ne = refl
  get_elem?-set_ne (r ∷ rows) (suc i) (suc j) row ne =
      get_elem?-set_ne rows i j row (λ e. ne (ap suc e))

  slot_hits-set :
      (c : K) (rows : List A) (i : ℕ) (row : A) (slots : List ℕ)
      → All (λ j. i ≢ j) slots
      → slot_hits c (set rows i row) slots ≡ slot_hits c rows slots
  slot_hits-set c rows i row [] h = refl
  slot_hits-set c rows i row (j ∷ slots) h =
      rw (get_elem?-set_ne rows i j row h.0) (omega (arith, slot_hits-set c rows i row slots h.1))

  -- There is a row at the slot.
  abbrev IsSlot : List A → ℕ → Type 0
  IsSlot rows i = (r : A) × (get_elem? rows i ≡ some r)

  IsSlot-set :
      (rows : List A) (i : ℕ) (row : A) (slots : List ℕ)
      → All (λ j. i ≢ j) slots
      → All (IsSlot rows) slots
      → All (IsSlot (set rows i row)) slots
  IsSlot-set rows i row [] h k = tt
  IsSlot-set rows i row (j ∷ slots) h ((r, at_j), k) =
      ((r, get_elem?-set_ne rows i j row h.0 ∙ at_j), IsSlot-set rows i row slots h.1 k)

  abbrev order_hits : K → List A → ℕ
  order_hits = count key key_eq key_eq_iff

  count-write_slots :
      (c : K) (slots : List ℕ) (order rows : List A) (moved : Bool)
      → length slots ≡ length order
      → IsDistinct slots
      → All (IsSlot rows) slots
      → slot_hits c rows slots
          + count key key_eq key_eq_iff c (write_slots key key_eq slots order rows moved).0
        ≡ order_hits c order + count key key_eq key_eq_iff c rows
  unfolding write_slots
  count-write_slots c [] [] rows moved m d s = refl
  count-write_slots c [] (_ ∷ _) rows moved m d s = absurd (omega arith)
  count-write_slots c (_ ∷ _) [] rows moved m d s = absurd (omega arith)
  count-write_slots c (i ∷ slots) (row ∷ order) rows moved m (ne, d) ((r, at_i), s) = omega (
    arith,
    count-write_slots c slots order (set rows i row) _ (omega arith) d
        (IsSlot-set rows i row slots ne s),
    count-set key key_eq key_eq_iff c i r row rows at_i,
    slot_hits-set c rows i row slots ne,
    ap (hits_option key key_eq key_eq_iff c) at_i,
  )

  -- An entry that is not claimed is the key of its row.
  abbrev Tells : List A → List (Option K) → Type 0
  Tells rows u =
      (i : ℕ) (k : K)
      → get_elem? u i ≡ some (some k)
      → (r : A) × (get_elem? rows i ≡ some r) × (key r ≡ k)

  Tells-keys_of : (rows : List A) → Tells rows (map (λ r. some (key r)) rows)
  Tells-keys_of [] i k e = absurd (cc)
  Tells-keys_of (r ∷ rows) zero k e = (r, refl, cc)
  Tells-keys_of (r ∷ rows) (suc i) k e = Tells-keys_of rows i k e

  get_elem?-set-none :
      (u : List (Option K)) (i j : ℕ) (k : K)
      → get_elem? (set u i none) j ≡ some (some k)
      → (i ≢ j) × (get_elem? u j ≡ some (some k))
  get_elem?-set-none [] i j k e = absurd (cc)
  get_elem?-set-none (v ∷ u) zero zero k e = absurd (cc)
  get_elem?-set-none (v ∷ u) zero (suc j) k e = (omega arith, e)
  get_elem?-set-none (v ∷ u) (suc i) zero k e = (omega arith, e)
  get_elem?-set-none (v ∷ u) (suc i) (suc j) k e =
      let (ne, at_j) = get_elem?-set-none u i j k e in (omega (arith, ne), at_j)

  Tells-set :
      (rows : List A) (u : List (Option K)) (i : ℕ) → Tells rows u → Tells rows (set u i none)
  Tells-set rows u i t j k e = t j k (get_elem?-set-none u i j k e).1

  abbrev IsOpen : List (Option K) → ℕ → Type 0
  IsOpen u i = (k : K) × (get_elem? u i ≡ some (some k))

  abbrev FindsKey : K → List (Option K) → Option ℕ → Type 0
  FindsKey k u none = Unit {0}
  FindsKey k u (some i) = get_elem? u i ≡ some (some k)

  next_row-FindsKey :
      (k : K) (v : Option K) (u : List (Option K)) (b : Bool) (later : Option ℕ)
      → holds key key_eq k v ≡ b
      → FindsKey k u later
      → FindsKey k (v ∷ u) (next_row b later)
  next_row-FindsKey k none u true later e f = absurd (cc)
  next_row-FindsKey k (some j) u true later e f = ap (λ l. some (some l)) ((key_eq_iff j k).0 e)
  next_row-FindsKey k v u false none e f = tt
  next_row-FindsKey k v u false (some i) e f = f

  find_slot-FindsKey : (k : K) (u : List (Option K)) → FindsKey k u (find_slot key key_eq k u)
  unfolding find_slot
  find_slot-FindsKey k [] = tt
  find_slot-FindsKey k (v ∷ u) =
      next_row-FindsKey k v u (holds key key_eq k v) _ refl (find_slot-FindsKey k u)

  record Claims (c : K) (rows : List A) (u : List (Option K)) (cl : Claim A) : Type 0 where
    opened : All (IsOpen u) cl.slots
    distinct : IsDistinct cl.slots
    as_many : length cl.slots ≡ length cl.order
    hits_same : slot_hits c rows cl.slots ≡ order_hits c cl.order

  claim_at-Claims :
      (c : K) (rows : List A) (u : List (Option K)) (go : List (Option K) → Claim A) (row : A)
      (found : Option ℕ)
      → FindsKey (key row) u found
      → Tells rows u
      → ((v : List (Option K)) → Tells rows v → Claims c rows v (go v))
      → Claims c rows u (claim_at key key_eq go row u found)
  unfolding claim_at
  claim_at-Claims c rows u go row none f t rec = rec u t
  claim_at-Claims c rows u go row (some i) f t rec =
      let r = rec (set u i none) (Tells-set rows u i t) in
      let (at_slot, is_row, same) = t i (key row) f in
      record {
        opened = (
          (key row, f),
          All-map (IsOpen (set u i none)) (IsOpen u) (go (set u i none)).slots
              (λ j o. (o.0, (get_elem?-set-none u i j o.0 o.1).1)) r.opened,
        );
        distinct = (
          All-map (IsOpen (set u i none)) (λ j. i ≢ j) (go (set u i none)).slots
              (λ j o. (get_elem?-set-none u i j o.0 o.1).0) r.opened,
          r.distinct,
        );
        as_many = omega (arith, r.as_many);
        hits_same = omega (
          arith,
          r.hits_same,
          ap (hits_option key key_eq key_eq_iff c) is_row,
          ap {B = ℕ} (λ k. if key_eq k c then 1 else 0) same,
        );
      }

  claim-Claims :
      (c : K) (rows : List A) (wanted : List A) (u : List (Option K))
      → Tells rows u
      → Claims c rows u (claim key key_eq wanted u)
  unfolding claim
  claim-Claims c rows [] u t = record {
    opened = tt;
    distinct = tt;
    as_many = refl;
    hits_same = refl;
  }
  claim-Claims c rows (row ∷ wanted) u t =
      claim_at-Claims c rows u (claim key key_eq wanted) row _ (find_slot-FindsKey (key row) u) t
        (claim-Claims c rows wanted)

  count-reordered :
      (c : K) (rows wanted : List A)
      → count key key_eq key_eq_iff c (set_row_order key key_eq rows wanted).0
        ≡ count key key_eq key_eq_iff c rows
  unfolding set_row_order
  count-reordered c rows wanted =
      let u = map (λ r. some (key r)) rows in
      let cl = claim key key_eq wanted u in
      let k = claim-Claims c rows wanted u (Tells-keys_of rows) in
      let opened =
        All-map (IsOpen u) (IsSlot rows) cl.slots
          (λ i o. ((Tells-keys_of rows i o.0 o.1).0, (Tells-keys_of rows i o.0 o.1).1)) k.opened in
      omega (
        arith,
        count-write_slots c (sort_slots cl.slots) cl.order rows false
            (length-sort_slots cl.slots ∙ k.as_many) (sort_slots-IsDistinct cl.slots k.distinct)
            (All-sort_slots (IsSlot rows) cl.slots opened),
        slot_hits-sort_slots c rows cl.slots,
        k.hits_same,
      )

-- Putting rows in order keeps every row as often as it was, whatever order is wanted: rows that it
-- does not name, names twice, or that are gone by now.
pub count-set_row_order :
    {A K : Type 0} (key : A → K) (key_eq : K → K → Bool)
    (key_eq_iff : (j k : K) → (key_eq j k ≡ true) ↔ (j ≡ k)) (c : K) (rows wanted : List A)
    → count key key_eq key_eq_iff c (set_row_order key key_eq rows wanted).0
      ≡ count key key_eq key_eq_iff c rows
count-set_row_order key key_eq key_eq_iff c rows wanted =
    count-reordered key key_eq key_eq_iff c rows wanted
