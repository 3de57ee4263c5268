-- ===== src/Dirty/Examples.antt =====
-- A form of two controls, one of them typed into during its save.
use evuproxy.Common.{
  ◌≡◌, refl, String, true, false, none, some, List, [], ◌∷◌, any, str_eq, if◌then◌else◌,
}
use evuproxy.Dirty.{Values, differs, mark, is_dirty, revert}
use evuproxy.Dirty.Tracker.{is_dirty-mark_sent, is_dirty-revert}

abbrev loaded : Values
loaded id = ""

abbrev sent : Values
sent id = if str_eq id "name" then "home" else ""

abbrev now : Values
now id = if str_eq id "name" then "home2" else ""

abbrev controls : List String
controls = "name" ∷ "note" ∷ []

is_dirty-mark_sent_example :
    is_dirty controls (some controls) now (mark (some controls) (some sent) now (some loaded))
    ≡ any (differs now sent) controls
is_dirty-mark_sent_example = is_dirty-mark_sent controls controls sent now loaded

is_dirty-revert_example :
    is_dirty controls none (revert (λ id. true) controls now (some loaded)) (some loaded) ≡ false
is_dirty-revert_example = is_dirty-revert (λ id. true) controls now (some loaded) (λ j m. refl)
