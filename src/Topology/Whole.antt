-- ===== src/Topology/Whole.antt =====
-- Every route that matches the filter is drawn in the group of its peer, and nowhere else.
use mathlib.Core.Path.{subst}
use evuproxy.Common.{
  ◌+◌, ◌≤◌, ◌≡◌, ◌⊎◌, refl, sym, ◌∙◌, ap, String, Bool, true, false, ◌&&◌, List, [], ◌∷◌, ◌++◌,
  length, keep, str_eq, str_eq_iff, if◌then◌else◌, if-either, Bool-cases, inl, inr, All, All-map,
  arith,
}
use evuproxy.Topology.{
  Peer, Route, Group, is_filled, key_of, is_shown, add_routes, sort_groups, build_topology_groups,
  Drawn, drawn_each, topology_scale_rows,
}
use evuproxy.Topology.Groups.{
  count_key, count_drawn, count_routes, keep_yes, keep_no, is_own, Holds,
}
use evuproxy.Topology.Grouping.{add_routes-Grouped, All-sort_groups, count_key-sort_groups}

-- Leaving out the empty groups.
All-keep :
    (P : Group → Type 0) (p : Group → Bool) (groups : List Group)
    → All P groups
    → All P (keep p groups)
All-keep P p [] a = tt
All-keep P p (g ∷ groups) a = elim (Bool-cases (p g)) [
  | inl e ↦ subst (λ gs. All P gs) (sym (keep_yes p g groups e)) (a.0, All-keep P p groups a.1)
  | inr e ↦ subst (λ gs. All P gs) (sym (keep_no p g groups e)) (All-keep P p groups a.1)
]

keep-IsFilled :
    (groups : List Group) → All (λ (g : Group). is_filled g ≡ true) (keep is_filled groups)
keep-IsFilled [] = tt
keep-IsFilled (g ∷ groups) = elim (Bool-cases (is_filled g)) [
  | inl e ↦
      subst (λ gs. All (λ (g : Group). is_filled g ≡ true) gs) (sym (keep_yes is_filled g groups e))
        (e, keep-IsFilled groups)
  | inr e ↦
      subst (λ gs. All (λ (g : Group). is_filled g ≡ true) gs) (sym (keep_no is_filled g groups e))
        (keep-IsFilled groups)
]

count_key-keep :
    (k : String) (groups : List Group) → count_key k (keep is_filled groups) ≤ count_key k groups
count_key-keep k [] = omega arith
count_key-keep k (g ∷ groups) = elim (Bool-cases (is_filled g)) [
  | inl e ↦ omega (arith, ap (count_key k) (keep_yes is_filled g groups e), count_key-keep k groups)
  | inr e ↦ omega (arith, ap (count_key k) (keep_no is_filled g groups e), count_key-keep k groups)
]

module _ (lower : String → String) (peers : List Peer) (q : String) where
  -- A route with the key that matches.
  abbrev Matches : String → List Route → Type 0
  Matches k [] = ⊥
  Matches k (r ∷ routes) = (is_own lower peers q k r ≡ true) ⊎ Matches k routes

  keep-Matches :
      (k : String) (routes : List Route)
      → Matches k routes
      → keep (is_own lower peers q k) routes ≡ []
      → ⊥
  keep-Matches k [] m e = m
  keep-Matches k (r ∷ routes) (inl y) e = cc (e, keep_yes (is_own lower peers q k) r routes y)
  keep-Matches k (r ∷ routes) (inr m) e = elim (Bool-cases (is_own lower peers q k r)) [
    | inl y ↦ cc (e, keep_yes (is_own lower peers q k) r routes y)
    | inr n ↦ keep-Matches k routes m (sym (keep_no (is_own lower peers q k) r routes n) ∙ e)
  ]

  not_filled :
      (rs : List Route) → is_filled (record { key = ""; label = ""; routes = rs }) ≡ false → rs ≡ []
  not_filled [] e = refl
  not_filled (r ∷ rs) e = cc e

  -- A group with a route that matches is not left out.
  count_key-filled :
      (k : String) (routes : List Route) (groups : List Group)
      → Matches k routes
      → All (Holds lower peers q routes) groups
      → count_key k (keep is_filled groups) ≡ count_key k groups
  count_key-filled k routes [] m h = refl
  count_key-filled k routes (g ∷ groups) m h = elim (Bool-cases (is_filled g)) [
    | inl e ↦
        ap (count_key k) (keep_yes is_filled g groups e)
        ∙ ap (λ n. (if str_eq g.key k then 1 else 0) + n) (count_key-filled k routes groups m h.1)
    | inr e ↦
        let empty_here : g.routes ≡ [] = not_filled g.routes e in
        let other : str_eq g.key k ≡ false = elim (Bool-cases (str_eq g.key k)) [
          | inl same ↦ absurd (
              keep-Matches k routes m (
                ap (λ j. keep (is_own lower peers q j) routes) (sym ((str_eq_iff g.key k).0 same))
                ∙ sym h.0
                ∙ empty_here))
          | inr n ↦ n
        ] in
        ap (count_key k) (keep_no is_filled g groups e)
        ∙ count_key-filled k routes groups m h.1
        ∙ (ground (arith, other))
  ]

  both :
      (P Q : Route → Type 0) (rs : List Route)
      → All P rs
      → All Q rs
      → All (λ (r : Route). P r × Q r) rs
  both P Q [] a b = tt
  both P Q (r ∷ rs) a b = ((a.0, b.0), both P Q rs a.1 b.1)

  and_true : (a b : Bool) → a ≡ true → b ≡ true → (a && b) ≡ true
  and_true true b e f = f
  and_true false b e f = e

  All-Matches :
      (rs : List Route)
      → All
          (λ (r : Route). is_shown lower peers q r ≡ true → Matches (key_of lower peers q r) rs)
          rs
  All-Matches [] = tt
  All-Matches (r ∷ rs) =
      let k = key_of lower peers q r in
      (
        λ s. inl (and_true _ _ ((str_eq_iff k k).1 refl) s),
        All-map _ _ rs (λ x m s. inr (m s)) (All-Matches rs),
      )

  -- The groups that are drawn, and the rows.
  pub record IsGrouping (routes : List Route) (groups : List Group) : Type 0 where
    -- A group has the matching routes of its key, in the order of the config, and one at least.
    pub whole : All (Holds lower peers q routes) groups
    pub filled : All (λ (g : Group). is_filled g ≡ true) groups
    -- No two groups have the same key, and each matching route has a group.
    pub once : (k : String) → count_key k groups ≤ 1
    pub found :
        All
          (λ (r : Route).
            is_shown lower peers q r ≡ true → count_key (key_of lower peers q r) groups ≡ 1)
          routes
    -- The rows stand for all routes of the groups, whichever are expanded.
    pub drawn :
        (expanded : String → Bool)
        → count_drawn (topology_scale_rows expanded groups) ≡ count_routes groups

count_drawn-each :
    (rs : List Route) (rows : List Drawn)
    → count_drawn (drawn_each rs ++ rows) ≡ length rs + count_drawn rows
count_drawn-each [] rows = omega arith
count_drawn-each (r ∷ rs) rows = omega (arith, count_drawn-each rs rows)

count_drawn-topology_scale_rows :
    (expanded : String → Bool) (groups : List Group)
    → count_drawn (topology_scale_rows expanded groups) ≡ count_routes groups
unfolding topology_scale_rows
count_drawn-topology_scale_rows expanded [] = refl
count_drawn-topology_scale_rows expanded (g ∷ groups) =
    let rest = count_drawn-topology_scale_rows expanded groups in
    if-either (λ (rows : List Drawn). count_drawn rows ≡ count_routes (g ∷ groups)) (expanded g.key)
      (λ _. omega (arith, count_drawn-each g.routes (topology_scale_rows expanded groups), rest))
      (λ _. omega (arith, rest))

-- For any peers, routes and filter: each group that is drawn has exactly the matching routes of its
-- peer, in the order of the config, and one at least; no two groups are for the same peer; every
-- matching route has its group; and the rows stand for all routes of the groups, whichever of them are
-- expanded.
pub build_topology_groups-IsGrouping :
    (lower : String → String) (peers : List Peer) (q : String) (not_after : String → String → Bool)
    (routes : List Route)
    → IsGrouping lower peers q routes (build_topology_groups lower peers q not_after routes)
unfolding build_topology_groups
build_topology_groups-IsGrouping lower peers q not_after routes =
    let all = add_routes lower peers q [] routes in
    let g =
      add_routes-Grouped lower peers q [] routes []
        (record { whole = tt; once = λ k. omega arith; found = tt }) in
    let left = keep is_filled all in
    let sorted = λ (k : String). count_key-sort_groups not_after k left in
    record {
      whole = All-sort_groups _ not_after left (All-keep _ is_filled all g.whole);
      filled = All-sort_groups _ not_after left (keep-IsFilled all);
      once = λ k. omega (arith, sorted k, count_key-keep k all, g.once k);
      found =
          All-map _ _ routes
            (λ r h s.
              let k = key_of lower peers q r in
              omega (
                arith,
                sorted k,
                count_key-filled lower peers q k routes all (h.1 s) g.whole,
                g.once k,
                h.0,
              ))
            (both lower peers q _ _ routes g.found (All-Matches lower peers q routes));
      drawn = λ expanded. count_drawn-topology_scale_rows expanded (sort_groups not_after left);
    }
