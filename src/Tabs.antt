-- ===== src/Tabs.antt =====
-- web/static/js/core/tabs.js: one tab stop for each list of tabs, and the keys that move in it. A tab
-- is told by its place in the list.
pub mod Stops
mod Examples
use evuproxy.Common.{
  ℕ, zero, suc, ◌+◌, ◌-◌, ◌%◌, Bool, true, false, not, ◌&&◌, Option, none, some, List, [], ◌∷◌,
  ◌==◌, length, get_elem?, if◌then◌else◌,
}

pub record Tab : Type 0 where
  pub disabled : Bool
  pub aria_disabled : Bool
  pub aria_selected : Bool

abbrev pub is_selectable : Tab → Bool
is_selectable t = not t.disabled && not t.aria_disabled

abbrev pub is_selected : Tab → Bool
is_selected t = t.aria_selected

-- `find`, as a place.
unfoldable pub find_place : (Tab → Bool) → ℕ → List Tab → Option ℕ
find_place p i [] = none
find_place p i (t ∷ tabs) = let rest = find_place p (suc i) tabs in if p t then some i else rest

abbrev pub or_first : Option ℕ → ℕ
or_first none = 0
or_first (some i) = i

abbrev pub selectable_at : Option Tab → Bool
selectable_at none = false
selectable_at (some t) = is_selectable t

abbrev pub stop_for : List Tab → Option ℕ → ℕ
stop_for tabs none = or_first (find_place is_selectable 0 tabs)
stop_for tabs (some i) =
    if selectable_at (get_elem? tabs i) then i else or_first (find_place is_selectable 0 tabs)

-- `syncTabStops`: the tab that is the stop, and each tab's `tabIndex`, true for 0 and false for -1.
unfoldable pub tab_stop : List Tab → ℕ
unfolding find_place
tab_stop tabs = stop_for tabs (find_place is_selected 0 tabs)

unfoldable pub tab_indices : ℕ → ℕ → List Tab → List Bool
tab_indices stop i [] = []
tab_indices stop i (t ∷ tabs) = (i == stop) ∷ tab_indices stop (suc i) tabs

unfoldable pub sync_tab_stops : List Tab → List Bool
unfolding tab_stop tab_indices
sync_tab_stops tabs = tab_indices (tab_stop tabs) 0 tabs

pub data Key : Type 0 where
  arrow_right arrow_down arrow_left arrow_up home end other : Key

-- The places of the selectable tabs.
unfoldable pub selectable_places : ℕ → List Tab → List ℕ
selectable_places i [] = []
selectable_places i (t ∷ tabs) =
    let rest = selectable_places (suc i) tabs in if is_selectable t then i ∷ rest else rest

-- `onKeydown`: from the place `i` among `n` selectable tabs to another one.
unfoldable pub next_place : Key → ℕ → ℕ → Option ℕ
next_place arrow_right i n = some ((i + 1) % n)
next_place arrow_down i n = some ((i + 1) % n)
next_place arrow_left i n = some (((i + n) - 1) % n)
next_place arrow_up i n = some (((i + n) - 1) % n)
next_place home i n = some 0
next_place end i n = some (n - 1)
next_place other i n = none
