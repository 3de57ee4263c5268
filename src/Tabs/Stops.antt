-- ===== src/Tabs/Stops.antt =====
-- Each list of tabs has exactly one tab stop, and it can be reached.
use evuproxy.Common.{
  ℕ, zero, suc, ◌+◌, ◌≤◌, ◌<◌, ◌≡◌, refl, ap, ◌∙◌, Bool, true, false, Option, none, some, List, [],
  ◌∷◌, ◌==◌, any, length, get_elem?, if◌then◌else◌, if-either, eq_sound, arith,
}
use evuproxy.Tabs.{
  Tab, is_selectable, is_selected, find_place, or_first, selectable_at, stop_for, tab_stop,
  tab_indices, sync_tab_stops,
}

abbrev pub count_stops : List Bool → ℕ
count_stops [] = 0
count_stops (b ∷ bs) = if b then suc (count_stops bs) else count_stops bs

no_stops : (stop i : ℕ) (tabs : List Tab) → stop < i → count_stops (tab_indices stop i tabs) ≡ 0
unfolding tab_indices
no_stops stop i [] past = refl
no_stops stop i (t ∷ tabs) past =
    if-either (λ n. n ≡ 0) (i == stop) (λ y. let e = eq_sound i stop y in omega (arith, e, past))
      (λ _. no_stops stop (suc i) tabs (omega (arith, past)))

further : (i stop : ℕ) → (i == stop) ≡ false → i ≤ stop → suc i ≤ stop
further i stop n from = ground arith

one_stop :
    (stop i : ℕ) (tabs : List Tab)
    → i ≤ stop
    → stop < i + length tabs
    → count_stops (tab_indices stop i tabs) ≡ 1
unfolding tab_indices
one_stop stop i [] from to = omega (arith, from, to)
one_stop stop i (t ∷ tabs) from to =
    if-either (λ n. n ≡ 1) (i == stop)
      (λ y.
        let e = eq_sound i stop y in
        ap {B = ℕ} (λ k. suc k) (no_stops stop (suc i) tabs (omega (arith, e))))
      (λ n. one_stop stop (suc i) tabs (further i stop n from) (omega (arith, to)))

-- A place that was found is in the list, and what was looked for stands there.
abbrev Found : (Tab → Bool) → ℕ → List Tab → Option ℕ → Type 0
Found p i tabs none = any p tabs ≡ false
Found p i tabs (some j) =
    (k : ℕ) × (j ≡ i + k)
    × (k < length tabs)
    × (t : Tab) × (get_elem? tabs k ≡ some t)
    × (p t ≡ true)

find_place-Found : (p : Tab → Bool) (i : ℕ) (tabs : List Tab) → Found p i tabs (find_place p i tabs)
unfolding find_place
find_place-Found p i [] = refl
find_place-Found p i (t ∷ tabs) =
    if-either (Found p i (t ∷ tabs)) (p t) (λ y. (0, omega arith, omega arith, t, refl, y))
      (λ n. one_on n (find_place p (suc i) tabs) (find_place-Found p (suc i) tabs))
  where
    one_on : p t ≡ false → (o : Option ℕ) → Found p (suc i) tabs o → Found p i (t ∷ tabs) o
    one_on n none f = rw n f
    one_on n (some j) (k, at, within, u, here, holds) =
        (suc k, omega (arith, at), omega (arith, within), u, here, holds)

-- A place in the list, of a tab that can be reached if there is one.
abbrev IsReachable : List Tab → ℕ → Type 0
IsReachable tabs s =
    (s < length tabs) × (any is_selectable tabs ≡ true → selectable_at (get_elem? tabs s) ≡ true)

first-IsReachable :
    (t : Tab) (tabs : List Tab) (o : Option ℕ)
    → Found is_selectable 0 (t ∷ tabs) o
    → IsReachable (t ∷ tabs) (or_first o)
first-IsReachable t tabs none f = (omega arith, λ y. ground arith)
first-IsReachable t tabs (some j) (k, at, within, u, here, holds) =
    let j_is_k : j ≡ k = omega (arith, at) in
    (
      omega (arith, at, within),
      λ _. ap (λ i. selectable_at (get_elem? (t ∷ tabs) i)) j_is_k ∙ ap selectable_at here ∙ holds,
    )

stop_for-IsReachable :
    (t : Tab) (tabs : List Tab) (o : Option ℕ)
    → Found is_selected 0 (t ∷ tabs) o
    → IsReachable (t ∷ tabs) (stop_for (t ∷ tabs) o)
stop_for-IsReachable t tabs none f =
    first-IsReachable t tabs _ (find_place-Found is_selectable 0 (t ∷ tabs))
stop_for-IsReachable t tabs (some j) (k, at, within, u, here, holds) =
    if-either (IsReachable (t ∷ tabs)) (selectable_at (get_elem? (t ∷ tabs) j))
      (λ y. (omega (arith, at, within), λ _. y))
      (λ _. first-IsReachable t tabs _ (find_place-Found is_selectable 0 (t ∷ tabs)))

-- The place of the stop is the one that is marked.
marked :
    (stop i : ℕ) (tabs : List Tab) (k : ℕ)
    → stop ≡ i + k
    → k < length tabs
    → get_elem? (tab_indices stop i tabs) k ≡ some true
unfolding tab_indices
marked stop i [] k e h = absurd (omega (arith, h))
marked stop i (t ∷ tabs) zero e h =
    let same : (i == stop) ≡ true = ground (arith, e) in ap (λ b. some b) same
marked stop i (t ∷ tabs) (suc k) e h =
    marked stop (suc i) tabs k (omega (arith, e)) (omega (arith, h))

-- A list with a tab in it has exactly one tab whose `tabIndex` is 0. If some tab can be reached, that
-- one can.
pub sync_tab_stops-HasOne :
    (t : Tab) (tabs : List Tab)
    → (count_stops (sync_tab_stops (t ∷ tabs)) ≡ 1)
      × (i : ℕ) × (get_elem? (sync_tab_stops (t ∷ tabs)) i ≡ some true)
      × (any is_selectable (t ∷ tabs) ≡ true → selectable_at (get_elem? (t ∷ tabs) i) ≡ true)
unfolding sync_tab_stops tab_stop
sync_tab_stops-HasOne t tabs =
    let good = stop_for-IsReachable t tabs _ (find_place-Found is_selected 0 (t ∷ tabs)) in
    let stop = tab_stop (t ∷ tabs) in
    (
      one_stop stop 0 (t ∷ tabs) (omega arith) (omega (arith, good.0)),
      stop,
      marked stop 0 (t ∷ tabs) stop (omega arith) good.0,
      good.1,
    )
