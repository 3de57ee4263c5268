-- ===== src/Tabs/Examples.antt =====
-- A dialog's tabs with the selection on one that is behind the Advanced gate.
use evuproxy.Common.{ℕ, ◌≡◌, refl, true, false, some, [], ◌∷◌, any, get_elem?}
use evuproxy.Tabs.{
  Tab, is_selectable, selectable_at, sync_tab_stops, arrow_left, arrow_right, next_place,
}
use evuproxy.Tabs.Stops.{count_stops, sync_tab_stops-HasOne}

abbrev plain : Tab
plain = record { disabled = false; aria_disabled = false; aria_selected = false }

abbrev gated : Tab
gated = record { disabled = false; aria_disabled = true; aria_selected = true }

stops : sync_tab_stops (gated ∷ plain ∷ plain ∷ []) ≡ false ∷ true ∷ false ∷ []
unfolding sync_tab_stops
stops = refl

wraps : (next_place arrow_left 0 3 ≡ some 2) × (next_place arrow_right 2 3 ≡ some 0)
unfolding next_place
wraps = (refl, refl)

sync_tab_stops-HasOne_example :
    (count_stops (sync_tab_stops (gated ∷ plain ∷ [])) ≡ 1)
    × (i : ℕ) × (get_elem? (sync_tab_stops (gated ∷ plain ∷ [])) i ≡ some true)
    × (any is_selectable (gated ∷ plain ∷ []) ≡ true
        → selectable_at (get_elem? (gated ∷ plain ∷ []) i) ≡ true)
sync_tab_stops-HasOne_example = sync_tab_stops-HasOne gated (plain ∷ [])
