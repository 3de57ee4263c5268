-- ===== src/Topology/Groups.antt =====
-- The groups by their keys, and what a group holds.
use mathlib.Core.Path.{subst}
use mathlib.Core.List.{append-nil}
use evuproxy.Common.{
  ℕ, ◌+◌, ◌≤◌, ◌≡◌, refl, sym, ◌∙◌, ap, String, Bool, true, false, ◌&&◌, List, [], ◌∷◌, ◌++◌,
  length, keep, map, str_eq, str_eq_iff, if◌then◌else◌, if-either, Bool-cases, inl, inr, All, arith,
}
use evuproxy.Topology.{
  Peer, Route, Group, has_key, push_route, key_of, is_shown, Drawn, route, stand_in,
}

abbrev pub count_key : String → List Group → ℕ
count_key k [] = 0
count_key k (g ∷ groups) = (if str_eq g.key k then 1 else 0) + count_key k groups

-- How many routes the drawn rows stand for, and the groups have.
abbrev pub count_drawn : List Drawn → ℕ
count_drawn [] = 0
count_drawn (route r ∷ rows) = 1 + count_drawn rows
count_drawn (stand_in n ports target off ∷ rows) = n + count_drawn rows

abbrev pub count_routes : List Group → ℕ
count_routes [] = 0
count_routes (g ∷ groups) = length g.routes + count_routes groups

pub keep_yes :
    {A : Type 0} (p : A → Bool) (x : A) (xs : List A) → p x ≡ true → keep p (x ∷ xs) ≡ x ∷ keep p xs
keep_yes p x xs e = rw (e, keep) refl

pub keep_no :
    {A : Type 0} (p : A → Bool) (x : A) (xs : List A) → p x ≡ false → keep p (x ∷ xs) ≡ keep p xs
keep_no p x xs e = rw (e, keep) refl

pub keep-append :
    {A : Type 0} (p : A → Bool) (xs ys : List A) → keep p (xs ++ ys) ≡ keep p xs ++ keep p ys
keep-append p [] ys = refl
keep-append p (x ∷ xs) ys = elim (Bool-cases (p x)) [
  | inl e ↦
      keep_yes p x (xs ++ ys) e
      ∙ ap (λ zs. x ∷ zs) (keep-append p xs ys)
      ∙ ap (λ zs. zs ++ keep p ys) (sym (keep_yes p x xs e))
  | inr e ↦
      keep_no p x (xs ++ ys) e
      ∙ keep-append p xs ys
      ∙ ap (λ zs. zs ++ keep p ys) (sym (keep_no p x xs e))
]

pub str_eq-sym : (a b : String) → str_eq a b ≡ false → str_eq b a ≡ false
str_eq-sym a b e = elim (Bool-cases (str_eq b a)) [
  | inl same ↦ absurd (cc ((str_eq_iff a b).1 (sym ((str_eq_iff b a).0 same)), e))
  | inr other ↦ other
]

no_and : (a b : Bool) → a ≡ false → (a && b) ≡ false
no_and true b e = cc e
no_and false b e = refl

pub has_key-count_key :
    (k : String) (groups : List Group) → has_key k groups ≡ true → 1 ≤ count_key k groups
has_key-count_key k [] e = cc e
has_key-count_key k (g ∷ groups) e = let later = has_key-count_key k groups in ground (arith, later)

pub no_key-count_key :
    (k : String) (groups : List Group) → has_key k groups ≡ false → count_key k groups ≡ 0
no_key-count_key k [] e = refl
no_key-count_key k (g ∷ groups) e = let later = no_key-count_key k groups in ground (arith, later)

pub count_key-append :
    (k : String) (xs ys : List Group) → count_key k (xs ++ ys) ≡ count_key k xs + count_key k ys
count_key-append k [] ys = omega arith
count_key-append k (x ∷ xs) ys = omega (arith, count_key-append k xs ys)

pub count_key-push_route :
    (k j : String) (rs : List Route) (groups : List Group)
    → count_key j (map (push_route k rs) groups) ≡ count_key j groups
count_key-push_route k j rs [] = refl
count_key-push_route k j rs (g ∷ groups) =
    if-either
      (λ (h : Group).
        (if str_eq h.key j then 1 else 0) + count_key j (map (push_route k rs) groups)
        ≡ (if str_eq g.key j then 1 else 0) + count_key j groups)
      (str_eq g.key k)
      (λ _. ap (λ n. (if str_eq g.key j then 1 else 0) + n) (count_key-push_route k j rs groups))
      (λ _. ap (λ n. (if str_eq g.key j then 1 else 0) + n) (count_key-push_route k j rs groups))

module _ (lower : String → String) (peers : List Peer) (q : String) where
  -- The routes of a group: those with its key that match, in their order.
  abbrev pub is_own : String → Route → Bool
  is_own k r = str_eq (key_of lower peers q r) k && is_shown lower peers q r

  abbrev pub Holds : List Route → Group → Type 0
  Holds routes g = g.routes ≡ keep (is_own g.key) routes

  pub record Grouped (routes : List Route) (groups : List Group) : Type 0 where
    pub whole : All (Holds routes) groups
    pub once : (k : String) → count_key k groups ≤ 1
    pub found : All (λ (r : Route). 1 ≤ count_key (key_of lower peers q r) groups) routes

  pub no_key-keep :
      (k : String) (routes : List Route) (groups : List Group)
      → count_key k groups ≡ 0
      → All (λ (r : Route). 1 ≤ count_key (key_of lower peers q r) groups) routes
      → keep (is_own k) routes ≡ []
  no_key-keep k [] groups none_here f = refl
  no_key-keep k (r ∷ routes) groups none_here f =
      elim (Bool-cases (str_eq (key_of lower peers q r) k)) [
        | inl e ↦
            let here =
              subst (λ j. 1 ≤ count_key j groups) ((str_eq_iff (key_of lower peers q r) k).0 e)
                f.0 in
            absurd (omega (arith, here, none_here))
        | inr e ↦
            keep_no (is_own k) r routes (no_and _ _ e) ∙ no_key-keep k routes groups none_here f.1
      ]

  abbrev pub shown_route : Route → List Route
  shown_route r = if is_shown lower peers q r then r ∷ [] else []

  pub own_kept :
      (k : String) (r : Route)
      → str_eq (key_of lower peers q r) k ≡ true
      → keep (is_own k) (r ∷ []) ≡ shown_route r
  own_kept k r e = elim (Bool-cases (is_shown lower peers q r)) [
    | inl s ↦ keep_yes (is_own k) r [] (rw e s) ∙ (rw s refl)
    | inr s ↦ keep_no (is_own k) r [] (rw e s) ∙ (rw s refl)
  ]

  pub other_kept :
      (k : String) (r : Route)
      → str_eq (key_of lower peers q r) k ≡ false
      → keep (is_own k) (r ∷ []) ≡ []
  other_kept k r e = keep_no (is_own k) r [] (no_and _ _ e)

  pub Holds-push_route :
      (routes : List Route) (r : Route) (groups : List Group)
      → All (Holds routes) groups
      → All
          (Holds (routes ++ r ∷ []))
          (map (push_route (key_of lower peers q r) (shown_route r)) groups)
  Holds-push_route routes r [] h = tt
  Holds-push_route routes r (g ∷ groups) h =
      let k = key_of lower peers q r in
      let split = keep-append (is_own g.key) routes (r ∷ []) in
      (
        if-either (λ (x : Group). Holds (routes ++ r ∷ []) x) (str_eq g.key k)
            (λ e.
              let same =
                own_kept g.key r ((str_eq_iff k g.key).1 (sym ((str_eq_iff g.key k).0 e))) in
              ap (λ rs. rs ++ shown_route r) h.0
              ∙ ap (λ rs. keep (is_own g.key) routes ++ rs) (sym same)
              ∙ sym split)
            (λ e.
              let other = other_kept g.key r (str_eq-sym g.key k e) in
              h.0
              ∙ sym (append-nil (keep (is_own g.key) routes))
              ∙ ap (λ rs. keep (is_own g.key) routes ++ rs) (sym other)
              ∙ sym split),
        Holds-push_route routes r groups h.1,
      )
