-- ===== src/Json.antt =====
-- JSON values as the browser holds them after `JSON.parse`: an object keeps the order of its keys.
-- Numbers are naturals, which covers the ports, counts and seconds that the API sends. A missing
-- property (`undefined`) is `none`.
pub mod Equality
use Prim.Native.String
use evuproxy.Common.{
  ℕ, zero, suc, ◌/◌, ◌%◌, ◌≡◌, refl, String, Bool, true, false, not, Option, none, some, List, [],
  ◌∷◌, str_eq, ◌==◌, ltb, if◌then◌else◌,
}

mutual
  pub data Json : Type 0 where
    null : Json
    bool : Bool → Json
    num : ℕ → Json
    str : String → Json
    arr : Items → Json
    obj : Fields → Json

  pub data Items : Type 0 where
    nil : Items
    cons : Json → Items → Items

  pub data Fields : Type 0 where
    end : Fields
    field : String → Json → Fields → Fields

abbrev pub items_list : Items → List Json
items_list nil = []
items_list (cons v vs) = v ∷ items_list vs

-- A key that stands twice in the text has its last value; `JSON.parse` leaves each key once.
abbrev pub find_field : String → Fields → Option Json
find_field k end = none
find_field k (field j v fs) = if str_eq j k then some v else find_field k fs

-- `v.k`; what is no object has no such property.
abbrev pub property : String → Json → Option Json
property k (obj fs) = find_field k fs
property k _ = none

-- `!!v`, `undefined` included.
abbrev pub is_truthy : Option Json → Bool
is_truthy none = false
is_truthy (some null) = false
is_truthy (some (bool b)) = b
is_truthy (some (num n)) = not (n == 0)
is_truthy (some (str s)) = not (str_eq s "")
is_truthy (some (arr _)) = true
is_truthy (some (obj _)) = true

-- The decimal digits of a number, with a digit for each round of fuel.
abbrev digit : ℕ → String
digit d =
    if d == 0
    then "0"
    else if d == 1
    then "1"
    else if d == 2
    then "2"
    else if d == 3
    then "3"
    else if d == 4
    then "4"
    else if d == 5
    then "5"
    else if d == 6
    then "6"
    else if d == 7
    then "7"
    else if d == 8
    then "8"
    else "9"

decimal_from : ℕ → ℕ → String → String
decimal_from zero n acc = acc
decimal_from (suc f) n acc =
    let rest = decimal_from f (n / 10) (String.◌++◌ (digit (n % 10)) acc) in
    if ltb n 10 then String.◌++◌ (digit n) acc else rest

unfoldable pub decimal : ℕ → String
unfolding decimal_from
decimal n = decimal_from (suc n) n ""

-- `String(v)`; an array joins its elements by commas, and null is empty there.
unfoldable mutual
  pub to_text : Json → String
  to_text null = "null"
  to_text (bool b) = if b then "true" else "false"
  to_text (num n) = decimal n
  to_text (str s) = s
  to_text (arr nil) = ""
  to_text (arr (cons v vs)) = String.◌++◌ (element_text v) (rest_text vs)
  to_text (obj _) = "[object Object]"

  pub element_text : Json → String
  element_text null = ""
  element_text (bool b) = if b then "true" else "false"
  element_text (num n) = decimal n
  element_text (str s) = s
  element_text (arr nil) = ""
  element_text (arr (cons v vs)) = String.◌++◌ (element_text v) (rest_text vs)
  element_text (obj _) = "[object Object]"

  pub rest_text : Items → String
  rest_text nil = ""
  rest_text (cons v vs) = String.◌++◌ "," (String.◌++◌ (element_text v) (rest_text vs))

-- `String(v || "")`
unfoldable pub text_or_empty : Option Json → String
unfolding to_text
text_or_empty none = ""
text_or_empty (some v) = if is_truthy (some v) then to_text v else ""

abbrev nested : Json
nested = arr (cons (num 120) (cons (arr (cons (str "a") (cons null nil))) nil))

nested_text : text_or_empty (some nested) ≡ "120,a,"
unfolding text_or_empty decimal
nested_text = refl
