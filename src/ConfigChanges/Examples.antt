-- ===== src/ConfigChanges/Examples.antt =====
-- Two configs with a few rows, their pairing, and changes that are taken back.
use evuproxy.Common.{◌≡◌, refl, String, true, false, none, some, List, [], ◌∷◌}
use evuproxy.Json.{Json, num, str, obj, end, field}
use evuproxy.Json.Equality.{json_eq, json_eq_iff}
use evuproxy.ConfigSave.{changed}
use evuproxy.ConfigChanges.{canonical, same}
use evuproxy.ConfigChanges.Matching.{match_rows}
use evuproxy.ConfigChanges.MatchingLaws.{Accounts, match_rows-Accounts}
use evuproxy.ConfigChanges.Rows.{move_row}
use evuproxy.ConfigChanges.RowCounts.{count, Trades, move_row-Trades}
use evuproxy.ConfigChanges.Order.{set_row_order}
use evuproxy.ConfigChanges.OrderCounts.{count-set_row_order}
use evuproxy.ConfigChanges.Steps.{value, get_path, revert_change, reapply_change}
use evuproxy.ConfigChanges.Reverts.{reapply_change-revert_change}

abbrev peer : String → Json
peer name = obj (field "name" (str name) end)

abbrev row_form : Json → Json
row_form r = canonical (some r)

match_rows-Accounts_example :
    Accounts json_eq row_form
      (peer "a" ∷ peer "b" ∷ [])
      (peer "b" ∷ peer "c" ∷ [])
      (match_rows json_eq json_eq row_form [] (peer "a" ∷ peer "b" ∷ []) (peer "b" ∷ peer "c" ∷ []))
match_rows-Accounts_example =
    match_rows-Accounts json_eq json_eq row_form [] (peer "a" ∷ peer "b" ∷ [])
      (peer "b" ∷ peer "c" ∷ [])

move_row-Trades_example :
    Trades row_form json_eq json_eq_iff
      (row_form (peer "b"))
      none
      (some (peer "b"))
      (peer "a" ∷ [])
      (move_row
        (λ r s. json_eq (row_form r) (row_form s))
        (λ r. "")
        none
        (some (peer "b"))
        1
        (peer "a" ∷ peer "b" ∷ [])
        (peer "a" ∷ []))
move_row-Trades_example =
    move_row-Trades row_form json_eq json_eq_iff (λ r. "") (row_form (peer "b")) none
      (some (peer "b")) 1 (peer "a" ∷ peer "b" ∷ []) (peer "a" ∷ [])

count-set_row_order_example :
    count row_form json_eq json_eq_iff
      (row_form (peer "a"))
      (set_row_order row_form json_eq (peer "a" ∷ peer "b" ∷ []) (peer "b" ∷ peer "a" ∷ [])).0
    ≡ count row_form json_eq json_eq_iff (row_form (peer "a")) (peer "a" ∷ peer "b" ∷ [])
count-set_row_order_example =
    count-set_row_order row_form json_eq json_eq_iff (row_form (peer "a"))
      (peer "a" ∷ peer "b" ∷ []) (peer "b" ∷ peer "a" ∷ [])

abbrev draft : Json
draft = obj (field "wireguard" (obj (field "mtu" (num 1420) end)) end)

abbrev mtu : List String
mtu = "wireguard" ∷ "mtu" ∷ []

here : same (get_path (some draft) mtu) (some (num 1420)) ≡ true
unfolding same canonical get_path json_eq
here = refl

elsewhere : same (get_path (some draft) mtu) none ≡ false
unfolding same canonical get_path json_eq
elsewhere = refl

differ : same none (some (num 1420)) ≡ false
unfolding same canonical json_eq
differ = refl

reapply_change-revert_change_example :
    (reverted : Json) × (again : Json) × (revert_change
        (value mtu none (some (num 1420)) ∷ [])
        draft
      ≡ changed reverted)
    × (get_path (some reverted) mtu ≡ none)
    × (reapply_change (value mtu none (some (num 1420)) ∷ []) reverted ≡ changed again)
    × (get_path (some again) mtu ≡ some (num 1420))
reapply_change-revert_change_example =
    reapply_change-revert_change mtu none (some (num 1420)) draft tt here elsewhere differ
