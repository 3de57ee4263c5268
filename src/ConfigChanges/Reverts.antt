-- ===== src/ConfigChanges/Reverts.antt =====
-- A change of one setting, taken back and made again (`revertChange`, `reapplyChange`).
use mathlib.Core.Path.{subst}
use evuproxy.Common.{
  ◌≡◌, refl, sym, ◌∙◌, ap, inl, inr, String, true, false, Option, none, some, List, [], ◌∷◌, str_eq,
  str_eq_iff, Bool-cases,
}
use evuproxy.Json.{Json, null, bool, num, str, arr, obj, Fields, end, field, find_field, property}
use evuproxy.ConfigSave.{changed}
use evuproxy.ConfigChanges.{same, same_iff}
use evuproxy.ConfigChanges.Steps.{
  get_path, put_field, delete_field, assign, child, set_path, value, done, apply_value, apply_step,
  apply_steps, and_then, edited, revert_change, reapply_change,
}

-- Every setting on the way is an object, or empty and so made one.
abbrev pub Reaches : List String → Json → Type 0
Reaches [] o = ⊥
Reaches (k ∷ []) (obj fs) = Unit {0}
Reaches (k ∷ j ∷ path) (obj fs) = Reaches (j ∷ path) (child k (obj fs))
Reaches _ _ = ⊥

find_field-put_field :
    (k : String) (v : Json) (fs : Fields) → find_field k (put_field k v fs) ≡ some v
unfolding put_field
find_field-put_field k v end = rw ((str_eq_iff k k).1 refl) refl
find_field-put_field k v (field j w fs) = elim (Bool-cases (str_eq j k)) [
  | inl y ↦ rw y rw y refl
  | inr n ↦ rw n rw n (find_field-put_field k v fs)
]

find_field-delete_field : (k : String) (fs : Fields) → find_field k (delete_field k fs) ≡ none
unfolding delete_field
find_field-delete_field k end = refl
find_field-delete_field k (field j w fs) = elim (Bool-cases (str_eq j k)) [
  | inl y ↦ rw y (find_field-delete_field k fs)
  | inr n ↦ rw n rw n (find_field-delete_field k fs)
]

property-assign :
    (k : String) (v : Option Json) (fs : Fields) → property k (assign k v (obj fs)) ≡ v
unfolding assign
property-assign k none fs = find_field-delete_field k fs
property-assign k (some v) fs = find_field-put_field k v fs

get_path-set_path :
    (path : List String) (v : Option Json) (draft : Json)
    → Reaches path draft
    → get_path (some (set_path path v draft)) path ≡ v
unfolding get_path set_path
get_path-set_path (k ∷ []) v (obj fs) r = property-assign k v fs
get_path-set_path (k ∷ j ∷ path) v (obj fs) r =
    ap (λ o. get_path o (j ∷ path))
      (property-assign k (some (set_path (j ∷ path) v (child k (obj fs)))) fs)
    ∙ get_path-set_path (j ∷ path) v (child k (obj fs)) r
get_path-set_path [] v o r = elim r [ ]
get_path-set_path (k ∷ []) v null r = elim r [ ]
get_path-set_path (k ∷ []) v (bool _) r = elim r [ ]
get_path-set_path (k ∷ []) v (num _) r = elim r [ ]
get_path-set_path (k ∷ []) v (str _) r = elim r [ ]
get_path-set_path (k ∷ []) v (arr _) r = elim r [ ]
get_path-set_path (k ∷ j ∷ path) v null r = elim r [ ]
get_path-set_path (k ∷ j ∷ path) v (bool _) r = elim r [ ]
get_path-set_path (k ∷ j ∷ path) v (num _) r = elim r [ ]
get_path-set_path (k ∷ j ∷ path) v (str _) r = elim r [ ]
get_path-set_path (k ∷ j ∷ path) v (arr _) r = elim r [ ]

child-assign :
    (path : List String) (k : String) (v : Json) (fs : Fields)
    → Reaches path v
    → child k (assign k (some v) (obj fs)) ≡ v
child-assign (j ∷ path) k (obj gs) fs r = rw (child, property-assign k (some (obj gs)) fs) refl
child-assign [] k o fs r = elim r [ ]
child-assign (j ∷ []) k null fs r = elim r [ ]
child-assign (j ∷ []) k (bool _) fs r = elim r [ ]
child-assign (j ∷ []) k (num _) fs r = elim r [ ]
child-assign (j ∷ []) k (str _) fs r = elim r [ ]
child-assign (j ∷ []) k (arr _) fs r = elim r [ ]
child-assign (j ∷ i ∷ path) k null fs r = elim r [ ]
child-assign (j ∷ i ∷ path) k (bool _) fs r = elim r [ ]
child-assign (j ∷ i ∷ path) k (num _) fs r = elim r [ ]
child-assign (j ∷ i ∷ path) k (str _) fs r = elim r [ ]
child-assign (j ∷ i ∷ path) k (arr _) fs r = elim r [ ]

Reaches-set_path :
    (path : List String) (v : Option Json) (draft : Json)
    → Reaches path draft
    → Reaches path (set_path path v draft)
unfolding set_path assign
Reaches-set_path (k ∷ []) none (obj fs) r = tt
Reaches-set_path (k ∷ []) (some v) (obj fs) r = tt
Reaches-set_path (k ∷ j ∷ path) v (obj fs) r =
    let inner = Reaches-set_path (j ∷ path) v (child k (obj fs)) r in
    subst (Reaches (j ∷ path))
      (sym (child-assign (j ∷ path) k (set_path (j ∷ path) v (child k (obj fs))) fs inner)) inner
Reaches-set_path [] v o r = elim r [ ]
Reaches-set_path (k ∷ []) v null r = elim r [ ]
Reaches-set_path (k ∷ []) v (bool _) r = elim r [ ]
Reaches-set_path (k ∷ []) v (num _) r = elim r [ ]
Reaches-set_path (k ∷ []) v (str _) r = elim r [ ]
Reaches-set_path (k ∷ []) v (arr _) r = elim r [ ]
Reaches-set_path (k ∷ j ∷ path) v null r = elim r [ ]
Reaches-set_path (k ∷ j ∷ path) v (bool _) r = elim r [ ]
Reaches-set_path (k ∷ j ∷ path) v (num _) r = elim r [ ]
Reaches-set_path (k ∷ j ∷ path) v (str _) r = elim r [ ]
Reaches-set_path (k ∷ j ∷ path) v (arr _) r = elim r [ ]

apply_value-done :
    (path : List String) (have want : Option Json) (draft : Json)
    → same (get_path (some draft) path) have ≡ true
    → same (get_path (some draft) path) want ≡ false
    → apply_value path have want draft ≡ done (set_path path want draft) true
unfolding apply_value
apply_value-done path have want draft here elsewhere = rw elsewhere rw here refl

-- One setting that stands as the change left it, at a path that leads through objects, and whose two
-- values differ: taking the change back succeeds and gives the setting the applied value; making it
-- again from there succeeds too and gives it the saved value.
pub reapply_change-revert_change :
    (path : List String) (before after : Option Json) (draft : Json)
    → Reaches path draft
    → same (get_path (some draft) path) after ≡ true
    → same (get_path (some draft) path) before ≡ false
    → same before after ≡ false
    → (reverted : Json) × (again : Json) × (revert_change (value path before after ∷ []) draft
        ≡ changed reverted)
      × (get_path (some reverted) path ≡ before)
      × (reapply_change (value path before after ∷ []) reverted ≡ changed again)
      × (get_path (some again) path ≡ after)
unfolding revert_change reapply_change apply_steps apply_step
reapply_change-revert_change path before after draft reaches here elsewhere differ =
    let reverted = set_path path before draft in
    let there = get_path-set_path path before draft reaches in
    let back =
      subst (λ cur. same cur before ≡ true) (sym there) ((same_iff before before).1 refl) in
    let apart = subst (λ cur. same cur after ≡ false) (sym there) differ in
    (
      reverted,
      set_path path after reverted,
      ap (λ a. edited (and_then done false a))
          (apply_value-done path after before draft here elsewhere),
      there,
      ap (λ a. edited (and_then done false a))
          (apply_value-done path before after reverted back apart),
      get_path-set_path path after reverted (Reaches-set_path path before draft reaches),
    )
