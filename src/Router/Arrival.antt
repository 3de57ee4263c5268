-- ===== src/Router/Arrival.antt =====
-- What holds of the router between two events, and that setting out for a page keeps it.
use mathlib.Core.Path.{subst}
use evuproxy.Common.{
  ℕ, suc, ◌+◌, ◌≤◌, ◌≡◌, refl, sym, ◌∙◌, ap, String, Bool, true, false, not, ◌&&◌, Option, none,
  some, List, [], ◌∷◌, str_eq, str_eq_iff, length, if◌then◌else◌, if-either, All, arith,
}
use evuproxy.Router.{
  Hash, Wait, Dialog, Nav, Router, eq_hash, or_overview, first_segment, hash_to, pages, is_in,
  is_route, show_page, page_needs_write_token, close_confirm,
}
use evuproxy.Router.Enter.{
  known_page, without_token, page_for, stays_open, close_editors, leave, stop_polls, enter,
}

-- The newest navigation is for the page on screen; the others have been overtaken.
abbrev pub IsTold : ℕ → Option String → Nav → Type 0
IsTold seq route nav = (nav.seq ≤ seq) × (nav.seq ≡ seq → route ≡ some nav.name)

-- A dialog that the page on screen keeps open: its own.
abbrev pub Fits : Option String → Dialog × Bool → Type 0
Fits none entry = ⊥
Fits (some route) (d, dirty) = stays_open route d ≡ true

-- `extra` loads are shown for navigations that run.
pub record IsValid (extra : ℕ) (s : Router) : Type 0 where
  -- A navigation that still counts is for the page on screen.
  pub told : All (IsTold s.nav_seq s.current_route) s.waiting
  -- A page that was refreshed was on screen.
  pub shown : All (λ (r : String × Option String). r.1 ≡ some r.0) s.refreshed
  -- A page is polled only while it is on screen.
  pub overview_polls : s.overview_polling ≡ true → s.current_route ≡ some "overview"
  pub routes_polls : s.routes_polling ≡ true → s.current_route ≡ some "routes"
  pub topology_polls : s.topology_polling ≡ true → s.current_route ≡ some "topology"
  -- The hash to go back to is the page's.
  pub committed :
      (route : String) → s.current_route ≡ some route → first_segment s.committed_hash.path ≡ route
  -- Each navigation that waits or runs shows its page as loading, and no other.
  pub loads : s.loading ≡ extra + length s.waiting

-- A page that is known has a segment of its own.
known-or_overview : (name : String) → is_in name pages ≡ true → or_overview name ≡ name
known-or_overview name known =
    if-either (λ (n : String). n ≡ name) (str_eq name "")
      (λ e. absurd (empty_name ((str_eq_iff name "").0 e) known)) (λ _. refl)
  where
    empty_name : name ≡ "" → is_in name pages ≡ true → ⊥
    empty_name e k = let bad = subst (λ n. is_in n pages ≡ true) e k in cc bad

pub is_in-known_page : (name : String) → is_in (known_page name) pages ≡ true
is_in-known_page name =
    if-either (λ (n : String). is_in n pages ≡ true) (is_in name pages) (λ e. e) (λ _. refl)

pub is_in-page_for : (name : String) (s : Router) → is_in (page_for name s) pages ≡ true
unfolding page_for
is_in-page_for name s =
    let asked_for = is_in-known_page name in
    let with_token : is_in (without_token (known_page name) s) pages ≡ true =
      if-either (λ (n : String). is_in n pages ≡ true)
        (not (str_eq (known_page name) "token") && not s.has_token) (λ _. refl) (λ _. asked_for) in
    if-either (λ (n : String). is_in n pages ≡ true)
      (page_needs_write_token (without_token (known_page name) s) s) (λ _. refl) (λ _. with_token)

pub is_route_sound :
    (name : String) (route : Option String) → is_route name route ≡ true → route ≡ some name
is_route_sound name none e = cc e
is_route_sound name (some route) e = ap (λ r. some r) (sym ((str_eq_iff name route).0 e))

and_left : (a b : Bool) → (a && b) ≡ true → a ≡ true
and_left true b e = refl
and_left false b e = e

-- What a navigation finds when it has begun: every other one is overtaken.
record Ready (extra : ℕ) (s : Router) : Type 0 where
  overtaken : All (λ (nav : Nav). suc nav.seq ≤ s.nav_seq) s.waiting
  shown : All (λ (r : String × Option String). r.1 ≡ some r.0) s.refreshed
  loads : s.loading ≡ extra + length s.waiting

IsTold-overtaken :
    (seq : ℕ) (route : Option String) (navs : List Nav)
    → All (IsTold seq route) navs
    → All (λ (nav : Nav). suc nav.seq ≤ suc seq) navs
IsTold-overtaken seq route [] t = tt
IsTold-overtaken seq route (nav ∷ navs) t =
    (omega (arith, t.0.0), IsTold-overtaken seq route navs t.1)

overtaken-IsTold :
    (seq : ℕ) (route : Option String) (navs : List Nav)
    → All (λ (nav : Nav). suc nav.seq ≤ seq) navs
    → All (IsTold seq route) navs
overtaken-IsTold seq route [] o = tt
overtaken-IsTold seq route (nav ∷ navs) o =
    ((omega (arith, o.0), λ e. absurd (omega (arith, o.0, e))), overtaken-IsTold seq route navs o.1)

close_confirm-Ready : (extra : ℕ) (s : Router) → Ready extra s → Ready extra (close_confirm s)
close_confirm-Ready extra s r = by_question s.asked
  where
    by_question : (o : Option String) → Ready extra (close_confirm (record s { asked = o }))
    by_question none = record { overtaken = r.overtaken; shown = r.shown; loads = r.loads }
    by_question (some target) =
        if-either (λ (t : Router). Ready extra t) (eq_hash s.hash s.committed_hash)
          (λ _. record { overtaken = r.overtaken; shown = r.shown; loads = r.loads })
          (λ _. record { overtaken = r.overtaken; shown = r.shown; loads = r.loads })

pub leave_route : (name : String) (s : Router) → (leave name s).current_route ≡ some name
leave_route name s =
    if-either (λ (t : Router). t.current_route ≡ some name) (is_route name s.current_route)
      (λ e. is_route_sound name s.current_route e) (λ _. refl)

leave-Ready : (extra : ℕ) (name : String) (s : Router) → Ready extra s → Ready extra (leave name s)
leave-Ready extra name s r =
    if-either (λ (t : Router). Ready extra t) (is_route name s.current_route) (λ _. r)
      (λ _. record { overtaken = r.overtaken; shown = r.shown; loads = r.loads })

-- The page is shown, and its navigation waits.
abbrev set_out : String → Wait → Router → Router
set_out name wait shown = record shown {
  waiting = record { seq = shown.nav_seq; name = name; wait = wait } ∷ shown.waiting;
  loading = suc shown.loading;
}

set_out-IsValid :
    (extra : ℕ) (name : String) (wait : Wait) (s : Router)
    → is_in name pages ≡ true
    → s.current_route ≡ some name
    → Ready extra s
    → IsValid extra (set_out name wait (show_page name (stop_polls name s)))
unfolding show_page
set_out-IsValid extra name wait s known at r =
    if-either (λ (t : Router). IsValid extra (set_out name wait t))
      (str_eq (first_segment s.hash.path) name)
      (λ e. valid s.hash s.self_set_hash s.hash ((str_eq_iff (first_segment s.hash.path) name).0 e))
      (λ _.
        valid (hash_to name) (some (hash_to name)) (hash_to name) (known-or_overview name known))
  where
    valid :
        (h : Hash) (own : Option Hash) (c : Hash)
        → first_segment c.path ≡ name
        → IsValid extra (
            set_out name wait
              (record (stop_polls name s) { hash = h; self_set_hash = own; committed_hash = c }))
    valid h own c e = record {
      told = (
        (omega arith, λ _. at),
        overtaken-IsTold s.nav_seq s.current_route s.waiting r.overtaken,
      );
      shown = r.shown;
      overview_polls = λ p. at ∙ ap (λ n. some n) ((str_eq_iff name "overview").0 (and_left _ _ p));
      routes_polls = λ p. at ∙ ap (λ n. some n) ((str_eq_iff name "routes").0 (and_left _ _ p));
      topology_polls = λ p. cc p;
      committed = λ route on. cc (e, at, on);
      loads = omega (arith, r.loads);
    }

pub enter-IsValid :
    (extra : ℕ) (name : String) (keep_view : Bool) (s : Router)
    → is_in name pages ≡ true
    → IsValid extra s
    → IsValid extra (enter name keep_view s)
unfolding enter
enter-IsValid extra name keep_view s known v =
    let begun = record s { nav_seq = suc s.nav_seq } in
    let begun_ready : Ready extra begun = record {
      overtaken = IsTold-overtaken s.nav_seq s.current_route s.waiting v.told;
      shown = v.shown;
      loads = v.loads;
    } in
    let closed = if keep_view then begun else close_confirm begun in
    let closed_ready : Ready extra closed =
      if-either (λ (t : Router). Ready extra t) keep_view (λ _. begun_ready)
        (λ _. close_confirm-Ready extra begun begun_ready) in
    let gone = record closed { dialogs = close_editors name closed.dialogs } in
    set_out-IsValid extra name _ (leave name gone) known (leave_route name gone) (
      leave-Ready extra name gone (record {
        overtaken = closed_ready.overtaken;
        shown = closed_ready.shown;
        loads = closed_ready.loads;
      }))
