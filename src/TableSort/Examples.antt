-- ===== src/TableSort/Examples.antt =====
-- A table of three peers, one of them without a ping.
use evuproxy.Common.{
  ℕ, ◌≡◌, refl, String, false, Option, none, some, [], ◌∷◌, str_eq, ◌==◌, if◌then◌else◌,
}
use evuproxy.TableSort.{
  Value, empty, num, Sort, Compared, same, column_of, sorted_rows, on_header_click,
}
use evuproxy.TableSort.Order.{ShowsAll, sorted_rows-ShowsAll}

abbrev collate : Value → Value → Compared
collate x y = same

abbrev ping : ℕ → Value
ping n = if n == 0 then empty else num n

abbrev columns : String → Option (ℕ → Value)
columns col = if str_eq col "ping" then some ping else none

abbrev by_ping : Option Sort
by_ping = some (record { col = "ping"; descending = false })

pings_in_order :
    sorted_rows collate by_ping (30 ∷ 0 ∷ 12 ∷ []) columns ≡ (12, 2) ∷ (30, 0) ∷ (0, 1) ∷ []
unfolding sorted_rows
pings_in_order = refl

sorted_rows-ShowsAll_example :
    ShowsAll collate
      (30 ∷ 0 ∷ 12 ∷ [])
      (column_of collate columns by_ping)
      (sorted_rows collate by_ping (30 ∷ 0 ∷ 12 ∷ []) columns)
sorted_rows-ShowsAll_example = sorted_rows-ShowsAll collate by_ping (30 ∷ 0 ∷ 12 ∷ []) columns

third_click : on_header_click "ping" (on_header_click "ping" by_ping) ≡ none
unfolding on_header_click
third_click = refl
