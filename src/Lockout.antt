-- ===== src/Lockout.antt =====
-- web/static/js/core/lockout.js: what of a /v1/validate answer a safety decision may rest on.
use Prim.Native.String
use text.Mathlib.Text.{starts_with}
use evuproxy.Common.{
  String, Bool, true, false, not, ◌&&◌, Option, none, some, List, [], ◌∷◌, map, keep, text_leb,
}
use evuproxy.Json.{Json, null, bool, str, arr, obj, items_list, property, is_truthy, text_or_empty}

-- `v != null && !Array.isArray(v)`
abbrev is_bad_list : Option Json → Bool
is_bad_list none = false
is_bad_list (some null) = false
is_bad_list (some (arr _)) = false
is_bad_list _ = true

-- `v != null && typeof v !== "string"`
abbrev is_bad_text : Option Json → Bool
is_bad_text none = false
is_bad_text (some null) = false
is_bad_text (some (str _)) = false
is_bad_text _ = true

abbrev is_bool : Option Json → Bool
is_bool (some (bool _)) = true
is_bool _ = false

-- `!!body && typeof body === "object"`
abbrev is_object : Option Json → Bool
is_object (some (obj _)) = true
is_object (some (arr _)) = true
is_object _ = false

-- A property of a value that may be missing itself; the caller has tested that it is not.
abbrev pub property_of : String → Option Json → Option Json
property_of k none = none
property_of k (some v) = property k v

unfoldable pub is_validate_shape : Option Json → Bool
is_validate_shape body =
    is_object body
    && is_bool (property_of "ok" body)
    && not (is_bad_list (property_of "warnings" body))
    && not (is_bad_list (property_of "errors" body))
    && not (is_bad_text (property_of "config_hash" body))

abbrev pub list_of : Option Json → List Json
list_of (some (arr vs)) = items_list vs
list_of _ = []

abbrev lockout_code_prefix : String
lockout_code_prefix = "lockout_risk_"

abbrev has_lockout_code : Option Json → Bool
has_lockout_code (some (str code)) = starts_with code lockout_code_prefix
has_lockout_code _ = false

unfoldable pub is_lockout_risk : Json → Bool
is_lockout_risk w = is_truthy (some w) && has_lockout_code (property "code" w)

unfoldable pub lockout_risks : Json → List Json
lockout_risks res = keep is_lockout_risk (list_of (property "warnings" res))

insert_text : String → List String → List String
insert_text x [] = x ∷ []
insert_text x (y ∷ ys) = elim (text_leb x y) [ true ↦ x ∷ y ∷ ys | false ↦ y ∷ insert_text x ys ]

sort_texts : List String → List String
sort_texts [] = []
sort_texts (x ∷ xs) = insert_text x (sort_texts xs)

join_bar : List String → String
join_bar [] = ""
join_bar (x ∷ []) = x
join_bar (x ∷ y ∷ ys) = String.◌++◌ x (String.◌++◌ "|" (join_bar (y ∷ ys)))

-- `String(w.code)`: every risk has a code, by `is_lockout_risk`.
unfoldable pub risk_text : Json → String
unfolding text_or_empty
risk_text w =
    String.◌++◌ (text_or_empty (property "code" w))
      (String.◌++◌ ":" (text_or_empty (property "message" w)))

-- The order is by code points; the source's `sort` compares UTF-16 units, which orders the same texts
-- differently only where characters beyond the 16-bit range meet ones from U+E000 on. What matters is
-- that equal lists of texts have equal signatures.
unfoldable pub lockout_signature : List Json → String
unfolding insert_text sort_texts join_bar risk_text
lockout_signature risks = join_bar (sort_texts (map risk_text risks))

-- How a request ended: a body, or an error with the body behind it, if it had one.
pub data Answer : Type 0 where
  answered : Json → Answer
  failed : String → Option Json → Answer

-- `{ res }` or `{ error }`
pub data CheckOutcome : Type 0 where
  result : Json → CheckOutcome
  error : String → CheckOutcome

abbrev accept : Option Json → String → CheckOutcome
accept none message = error message
accept (some body) message = elim (is_validate_shape (some body)) [
  | true ↦ result body
  | false ↦ error message
]

unfoldable pub fetch_validate_result : Answer → CheckOutcome
unfolding is_validate_shape
fetch_validate_result (answered body) =
    accept (some body) "Config check returned an unexpected response; not applying."
fetch_validate_result (failed message body) = accept body message
