-- ===== src/Dirty/Tracker.antt =====
-- What saving, typing and reverting do to the answer of `isDirty`.
use evuproxy.Common.{
  ◌≡◌, refl, ◌∙◌, ap, String, Bool, true, false, not, ◌&&◌, ◌||◌, Option, none, some, List, [], ◌∷◌,
  any, str_eq, str_eq_iff, if◌then◌else◌,
}
use evuproxy.Dirty.{Values, mem, differs, assign_each, mark, is_dirty, revert}

or_true : (b : Bool) → b || true ≡ true
or_true true = refl
or_true false = refl

-- A control that is named has the new value, and any other keeps its own.
assign_each-value :
    (ids : List String) (now base : Values) (j : String)
    → assign_each ids now base j ≡ (if mem j ids then now j else base j)
unfolding assign_each
assign_each-value [] now base j = refl
assign_each-value (id ∷ ids) now base j =
    assign_each-value ids now (λ k. if str_eq id k then now k else base k) j
    ∙ if_if (str_eq id j) (mem j ids)
  where
    if_if :
        (b c : Bool)
        → (if c then now j else (if b then now j else base j)) ≡ (if b || c then now j else base j)
    if_if true true = refl
    if_if true false = refl
    if_if false c = refl

any_same :
    (p q : String → Bool) (ids : List String)
    → ((j : String) → mem j ids ≡ true → p j ≡ q j)
    → any p ids ≡ any q ids
any_same p q [] e = refl
any_same p q (id ∷ ids) e =
    ap (λ b. b || any p ids) (e id (ap (λ b. b || mem id ids) ((str_eq_iff id id).1 refl)))
    ∙ ap (λ b. q id || b)
        (any_same p q ids (λ j m. e j (ap (λ b. str_eq id j || b) m ∙ or_true (str_eq id j))))

-- When a save ends, of the controls that it sent: the form is dirty exactly where what they hold now
-- is not what was sent, whatever was typed during the request and whatever the baseline was.
pub is_dirty-mark_sent :
    (controls ids : List String) (sent now base : Values)
    → is_dirty controls (some ids) now (mark (some ids) (some sent) now (some base))
      ≡ any (differs now sent) ids
unfolding is_dirty mark
is_dirty-mark_sent controls ids sent now base =
    any_same (differs now (assign_each ids sent base)) (differs now sent) ids (λ j m.
      ap (λ v. not (str_eq (now j) v))
        (assign_each-value ids sent base j ∙ ap (λ b. if b then sent j else base j) m))

none_differs : (now : Values) (ids : List String) → any (differs now now) ids ≡ false
none_differs now [] = refl
none_differs now (id ∷ ids) =
    ap (λ b. not b || any (differs now now) ids) ((str_eq_iff (now id) (now id)).1 refl)
    ∙ none_differs now ids

-- Reverting a form whose controls all have an id that the baseline knows leaves it clean.
pub is_dirty-revert :
    (has_id : String → Bool) (controls : List String) (now : Values) (base : Option Values)
    → ((j : String) → mem j controls ≡ true → has_id j ≡ true)
    → is_dirty controls none (revert has_id controls now base) base ≡ false
unfolding is_dirty revert
is_dirty-revert has_id controls now none named = refl
is_dirty-revert has_id controls now (some base) named =
    any_same (differs (λ id. if has_id id && mem id controls then base id else now id) base)
      (differs base base) controls
      (λ j m.
        ap (λ b. not (str_eq (if b then base j else now j) (base j)))
          (ap (λ b. b && mem j controls) (named j m) ∙ m))
    ∙ none_differs base controls
