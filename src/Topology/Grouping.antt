-- ===== src/Topology/Grouping.antt =====
-- Adding the routes one by one, and sorting the groups.
use mathlib.Core.Path.{subst}
use mathlib.Core.List.{append_assoc, append-nil}
use evuproxy.Common.{
  ◌≤◌, ◌≡◌, refl, sym, ◌∙◌, ap, String, Bool, false, List, [], ◌∷◌, ◌++◌, keep, str_eq, str_eq_iff,
  if-either, Bool-cases, inl, inr, All, All-append, All-map, arith,
}
use evuproxy.Topology.{
  Peer, Route, Group, group_label, topology_peer_for_host, has_key, key_of, add_route, add_routes,
  insert_group, sort_groups,
}
use evuproxy.Topology.Groups.{
  count_key, keep-append, has_key-count_key, no_key-count_key, count_key-append,
  count_key-push_route, is_own, Holds, Grouped, no_key-keep, shown_route, own_kept, other_kept,
  Holds-push_route, str_eq-sym,
}

once_new :
    (j k label : String) (rs : List Route) (groups : List Group)
    → count_key j groups ≤ 1
    → count_key k groups ≡ 0
    → count_key j (groups ++ record { key = k; label = label; routes = rs } ∷ []) ≤ 1
once_new j k label rs groups once none_here =
    let sum = count_key-append j groups (record { key = k; label = label; routes = rs } ∷ []) in
    elim (Bool-cases (str_eq k j)) [
      | inl e ↦
          let here = subst (λ i. count_key i groups ≡ 0) ((str_eq_iff k j).0 e) none_here in
          ground (arith, sum, here, e)
      | inr e ↦ ground (arith, sum, once, e)
    ]

found_new :
    (k label : String) (rs : List Route) (groups : List Group)
    → 1 ≤ count_key k (groups ++ record { key = k; label = label; routes = rs } ∷ [])
found_new k label rs groups =
    let sum = count_key-append k groups (record { key = k; label = label; routes = rs } ∷ []) in
    let same = (str_eq_iff k k).1 refl in ground (arith, sum, same)

module _ (lower : String → String) (peers : List Peer) (q : String) where
  -- A new group has the route, if it matches, and no other.
  Holds-new :
      (routes : List Route) (r : Route) (label : String) (groups : List Group)
      → Grouped lower peers q routes groups
      → count_key (key_of lower peers q r) groups ≡ 0
      → Holds lower peers q (routes ++ r ∷ []) (record {
        key = key_of lower peers q r;
        label = label;
        routes = shown_route lower peers q r;
      })
  Holds-new routes r label groups g none_here =
      let k = key_of lower peers q r in
      sym (
        keep-append (is_own lower peers q k) routes (r ∷ [])
        ∙ ap (λ rs. rs ++ keep (is_own lower peers q k) (r ∷ []))
            (no_key-keep lower peers q k routes groups none_here g.found)
        ∙ own_kept lower peers q k r ((str_eq_iff k k).1 refl))

  Holds-old :
      (routes : List Route) (r : Route) (groups : List Group)
      → count_key (key_of lower peers q r) groups ≡ 0
      → All (Holds lower peers q routes) groups
      → All (Holds lower peers q (routes ++ r ∷ [])) groups
  Holds-old routes r [] n h = tt
  Holds-old routes r (g ∷ groups) n h =
      let other : str_eq (key_of lower peers q r) g.key ≡ false =
        str_eq-sym g.key (key_of lower peers q r) (ground (arith, n)) in
      (
        h.0
            ∙ sym (append-nil (keep (is_own lower peers q g.key) routes))
            ∙ ap (λ rs. keep (is_own lower peers q g.key) routes ++ rs)
                (sym (other_kept lower peers q g.key r other))
            ∙ sym (keep-append (is_own lower peers q g.key) routes (r ∷ [])),
        Holds-old routes r groups (omega (arith, n)) h.1,
      )

  add_route-Grouped :
      (routes : List Route) (r : Route) (groups : List Group)
      → Grouped lower peers q routes groups
      → Grouped lower peers q (routes ++ r ∷ []) (add_route lower peers q groups r)
  unfolding add_route
  add_route-Grouped routes r groups g =
      let k = key_of lower peers q r in
      if-either (λ (gs : List Group). Grouped lower peers q (routes ++ r ∷ []) gs)
        (has_key k groups)
        (λ e.
          let same =
            λ (j : String). count_key-push_route k j (shown_route lower peers q r) groups in
          record {
            whole = Holds-push_route lower peers q routes r groups g.whole;
            once = λ j. omega (arith, same j, g.once j);
            found =
                All-append _ routes (r ∷ [])
                  (All-map _ _ routes (λ x f. omega (arith, f, same (key_of lower peers q x)))
                    g.found)
                  (omega (arith, same k, has_key-count_key k groups e), tt);
          })
        (λ e.
          let zero_here = no_key-count_key k groups e in
          let label = group_label (topology_peer_for_host peers r.target_ip) r.target_ip in
          record {
            whole =
                All-append _ groups (_ ∷ []) (Holds-old routes r groups zero_here g.whole)
                  (Holds-new routes r label groups g zero_here, tt);
            once = λ j. once_new j k label _ groups (g.once j) zero_here;
            found =
                All-append _ routes (r ∷ [])
                  (All-map _ _ routes
                    (λ x f.
                      omega (arith, f, count_key-append (key_of lower peers q x) groups (_ ∷ [])))
                    g.found)
                  (found_new k label _ groups, tt);
          })

  pub add_routes-Grouped :
      (done routes : List Route) (groups : List Group)
      → Grouped lower peers q done groups
      → Grouped lower peers q (done ++ routes) (add_routes lower peers q groups routes)
  unfolding add_routes
  add_routes-Grouped done [] groups g =
      subst (λ rs. Grouped lower peers q rs groups) (sym (append-nil done)) g
  add_routes-Grouped done (r ∷ routes) groups g =
      subst
        (λ rs.
          Grouped lower peers q rs
            (add_routes lower peers q (add_route lower peers q groups r) routes))
        (append_assoc done (r ∷ []) routes)
        (add_routes-Grouped (done ++ r ∷ []) routes (add_route lower peers q groups r)
          (add_route-Grouped done r groups g))

-- What the order of the groups does not matter for, and leaving out empty ones.
module _ (P : Group → Type 0) (not_after : String → String → Bool) where
  All-insert_group :
      (g : Group) (groups : List Group)
      → P g
      → All P groups
      → All P (insert_group not_after g groups)
  All-insert_group g [] h a = (h, tt)
  All-insert_group g (k ∷ groups) h a =
      if-either (λ (gs : List Group). All P gs) (not_after g.label k.label) (λ _. (h, a))
        (λ _. (a.0, All-insert_group g groups h a.1))

  pub All-sort_groups : (groups : List Group) → All P groups → All P (sort_groups not_after groups)
  All-sort_groups [] a = tt
  All-sort_groups (g ∷ groups) a =
      All-insert_group g (sort_groups not_after groups) a.0 (All-sort_groups groups a.1)

module _ (not_after : String → String → Bool) (k : String) where
  count_key-insert_group :
      (g : Group) (groups : List Group)
      → count_key k (insert_group not_after g groups) ≡ count_key k (g ∷ groups)
  count_key-insert_group g [] = refl
  count_key-insert_group g (h ∷ groups) =
      if-either (λ (gs : List Group). count_key k gs ≡ count_key k (g ∷ h ∷ groups))
        (not_after g.label h.label) (λ _. refl)
        (λ _. omega (arith, count_key-insert_group g groups))

  pub count_key-sort_groups :
      (groups : List Group) → count_key k (sort_groups not_after groups) ≡ count_key k groups
  count_key-sort_groups [] = refl
  count_key-sort_groups (g ∷ groups) =
      omega (
        arith,
        count_key-insert_group g (sort_groups not_after groups),
        count_key-sort_groups groups,
      )
