-- ===== src/Json/Equality.antt =====
-- Equality of JSON values as a test, which is how two texts of `JSON.stringify` compare.
use evuproxy.Common.{
  ◌≡◌, ◌↔◌, refl, ap, String, Bool, true, false, ◌&&◌, ◌==◌, ==_iff, str_eq, str_eq_iff, arith,
}
use mathlib.Core.Path.{ap₂}
use evuproxy.Json.{Json, null, bool, num, str, arr, obj, Items, nil, cons, Fields, end, field}

abbrev bool_eq : Bool → Bool → Bool
bool_eq true true = true
bool_eq false false = true
bool_eq _ _ = false

unfoldable mutual
  pub json_eq : Json → Json → Bool
  json_eq null null = true
  json_eq (bool a) (bool b) = bool_eq a b
  json_eq (num a) (num b) = a == b
  json_eq (str a) (str b) = str_eq a b
  json_eq (arr a) (arr b) = items_eq a b
  json_eq (obj a) (obj b) = fields_eq a b
  json_eq _ _ = false

  pub items_eq : Items → Items → Bool
  items_eq nil nil = true
  items_eq (cons a as') (cons b bs) = json_eq a b && items_eq as' bs
  items_eq _ _ = false

  pub fields_eq : Fields → Fields → Bool
  fields_eq end end = true
  fields_eq (field k a as') (field j b bs) = str_eq k j && (json_eq a b && fields_eq as' bs)
  fields_eq _ _ = false

both : {a b : Bool} → (a && b) ≡ true → (a ≡ true) × (b ≡ true)
both h = (ground arith, ground arith)

field_path :
    {k j : String} {a b : Json} {as' bs : Fields}
    → k ≡ j
    → a ≡ b
    → as' ≡ bs
    → field k a as' ≡ field j b bs
field_path p q r = λ i. field (p i) (q i) (r i)

bool_eq_sound : (a b : Bool) → bool_eq a b ≡ true → a ≡ b
bool_eq_sound a b h = ground arith

mutual
  unfolding json_eq items_eq fields_eq

  json_eq_sound : (a b : Json) → json_eq a b ≡ true → a ≡ b
  json_eq_sound null null h = refl
  json_eq_sound (bool a) (bool b) h = ap bool (bool_eq_sound a b h)
  json_eq_sound (num a) (num b) h = ap num ((==_iff a b).0 h)
  json_eq_sound (str a) (str b) h = ap str ((str_eq_iff a b).0 h)
  json_eq_sound (arr a) (arr b) h = ap arr (items_eq_sound a b h)
  json_eq_sound (obj a) (obj b) h = ap obj (fields_eq_sound a b h)
  json_eq_sound _ _ h = absurd (cc)

  items_eq_sound : (a b : Items) → items_eq a b ≡ true → a ≡ b
  items_eq_sound nil nil h = refl
  items_eq_sound (cons a as') (cons b bs) h =
      let (values, others) = both {a = json_eq a b} {b = items_eq as' bs} h in
      ap₂ cons (json_eq_sound a b values) (items_eq_sound as' bs others)
  items_eq_sound _ _ h = absurd (cc)

  fields_eq_sound : (a b : Fields) → fields_eq a b ≡ true → a ≡ b
  fields_eq_sound end end h = refl
  fields_eq_sound (field k a as') (field j b bs) h =
      let (keys, rest) = both {a = str_eq k j} {b = json_eq a b && fields_eq as' bs} h in
      let (values, others) = both {a = json_eq a b} {b = fields_eq as' bs} rest in
      field_path ((str_eq_iff k j).0 keys) (json_eq_sound a b values)
        (fields_eq_sound as' bs others)
  fields_eq_sound _ _ h = absurd (cc)

mutual
  unfolding json_eq items_eq fields_eq

  json_eq_complete : (a : Json) → json_eq a a ≡ true
  json_eq_complete null = refl
  json_eq_complete (bool a) = ground arith
  json_eq_complete (num a) = (==_iff a a).1 refl
  json_eq_complete (str a) = (str_eq_iff a a).1 refl
  json_eq_complete (arr a) = items_eq_complete a
  json_eq_complete (obj a) = fields_eq_complete a

  items_eq_complete : (a : Items) → items_eq a a ≡ true
  items_eq_complete nil = refl
  items_eq_complete (cons a as') = rw (json_eq_complete a) (items_eq_complete as')

  fields_eq_complete : (a : Fields) → fields_eq a a ≡ true
  fields_eq_complete end = refl
  fields_eq_complete (field k a as') =
      rw ((str_eq_iff k k).1 refl, json_eq_complete a) (fields_eq_complete as')

pub json_eq_iff : (a b : Json) → (json_eq a b ≡ true) ↔ (a ≡ b)
json_eq_iff a b = (json_eq_sound a b, λ e. rw (← e) (json_eq_complete a))
