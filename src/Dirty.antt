-- ===== src/Dirty.antt =====
-- web/static/js/core/dirty.js: whether a form holds edits that are not saved. A form is told by what
-- each of its controls holds, as a text; a toggle holds one of two. The keys stand for the ids that
-- `readControls` gives.
pub mod Tracker
mod Examples
use evuproxy.Common.{
  String, Bool, true, false, not, ◌&&◌, Option, none, some, List, [], ◌∷◌, any, str_eq,
  if◌then◌else◌,
}

abbrev pub Values : Type 0
Values = String → String

abbrev pub mem : String → List String → Bool
mem id ids = any (λ j. str_eq j id) ids

abbrev pub differs : Values → Values → String → Bool
differs now then' id = not (str_eq (now id) (then' id))

-- `for (const id of ids) baseline[id] = now[id]`
unfoldable pub assign_each : List String → Values → Values → Values
assign_each [] now base = base
assign_each (id ∷ ids) now base = assign_each ids now (λ j. if str_eq id j then now j else base j)

-- `mark`: with `sent`, a tracker that was cleared in the meantime stays cleared.
unfoldable pub mark : Option (List String) → Option Values → Values → Option Values → Option Values
unfolding assign_each
mark ids (some sent) now none = none
mark ids none now none = some now
mark none none now (some base) = some now
mark none (some sent) now (some base) = some sent
mark (some ids) none now (some base) = some (assign_each ids now base)
mark (some ids) (some sent) now (some base) = some (assign_each ids sent base)

-- `isDirty`, of a form with these controls.
unfoldable pub is_dirty : List String → Option (List String) → Values → Option Values → Bool
is_dirty controls ids now none = false
is_dirty controls none now (some base) = any (differs now base) controls
is_dirty controls (some ids) now (some base) = any (differs now base) ids

-- `revert`: the controls' values after it. `has_id` is the test `el.id && el.id in baseline`; a control
-- that fails it is left alone. A toggle takes the value into `checked`, any other into `value`, which is
-- where `readControls` finds them: here both are the value of the control's key.
unfoldable pub revert : (String → Bool) → List String → Values → Option Values → Values
revert has_id controls now none = now
revert has_id controls now (some base) =
    λ id. if has_id id && mem id controls then base id else now id
