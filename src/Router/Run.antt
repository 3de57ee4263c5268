-- ===== src/Router/Run.antt =====
-- Loads and polls stay with the page on screen, whatever happens.
use mathlib.Core.Path.{subst}
use evuproxy.Common.{
  remove_at, ℕ, zero, suc, ◌≡◌, refl, String, Bool, true, false, Option, none, some, List, [], ◌∷◌,
  get_elem?, length, if-either, Option-cases, inl, inr, All, arith,
}
use evuproxy.Router.{Hash, Nav, Router, first_segment, has_unsaved_edits}
use evuproxy.Router.Enter.{
  navigate, on_hash, is_own_hash, reload_at, reload_current_page, refresh_after_undo,
}
use evuproxy.Router.Steps.{
  Event, go, moved, hash_change, confirmed, kept_editing, reloaded, undone, resumed, token_is,
  read_only_is, page_work, check_passed, resume_with, step, run, opened,
}
use evuproxy.Router.Arrival.{IsTold, IsValid}
use evuproxy.Router.Current.{
  elsewhere, page_work-IsValid, navigate-IsValid, confirm_leaving-IsValid, keep_editing-IsValid,
  resume-IsValid,
}

on_hash-IsValid : (s : Router) → IsValid 0 s → IsValid 0 (on_hash s)
unfolding on_hash
on_hash-IsValid s v =
    let seen = record s { self_set_hash = none } in
    let seen_valid : IsValid 0 seen =
      elsewhere 0 s s.hash none s.asked s.has_token s.read_only s.passed_check v in
    if-either (λ (t : Router). IsValid 0 t) (is_own_hash s) (λ _. seen_valid)
      (λ _. navigate-IsValid 0 (first_segment s.hash.path) false seen seen_valid)

reload_at-IsValid :
    (keep_view : Bool) (route : Option String) (s : Router)
    → IsValid 0 s
    → IsValid 0 (reload_at keep_view route s)
unfolding navigate
reload_at-IsValid keep_view none s v = v
reload_at-IsValid keep_view (some route) s v =
    if-either (λ (t : Router). IsValid 0 t) (has_unsaved_edits route s) (λ _. v)
      (λ _. navigate-IsValid 0 route keep_view s v)

All-remove_at :
    (P : Nav → Type 0) (i : ℕ) (navs : List Nav) (nav : Nav)
    → get_elem? navs i ≡ some nav
    → All P navs
    → P nav × All P (remove_at i navs) × (length navs ≡ suc (length (remove_at i navs)))
All-remove_at P i [] nav e a = cc e
All-remove_at P zero (n ∷ navs) nav e a = (subst (λ o. holds o) e a.0, a.1, refl)
  where
    holds : Option Nav → Type 0
    holds none = Unit {0}
    holds (some m) = P m
All-remove_at P (suc i) (n ∷ navs) nav e a =
    let (here, rest, len) = All-remove_at P i navs nav e a.1 in
    (here, (a.0, rest), omega (arith, len))

resume_with-IsValid :
    (i : ℕ) (ok : Bool) (s : Router)
    → IsValid 0 s
    → IsValid 0 (resume_with (get_elem? s.waiting i) i ok s)
resume_with-IsValid i ok s v = elim (Option-cases (get_elem? s.waiting i)) [
  | inl e ↦ rw e v
  | inr (nav, e) ↦
      let (told, rest, len) =
        All-remove_at (IsTold s.nav_seq s.current_route) i s.waiting nav e v.told in
      rw e (
        resume-IsValid nav ok (record s { waiting = remove_at i s.waiting }) told
          (record {
            told = rest;
            shown = v.shown;
            overview_polls = v.overview_polls;
            routes_polls = v.routes_polls;
            topology_polls = v.topology_polls;
            committed = v.committed;
            loads = omega (arith, v.loads, len);
          }))
]

step-IsValid : (e : Event) (s : Router) → IsValid 0 s → IsValid 0 (step e s)
unfolding step reload_current_page refresh_after_undo
step-IsValid (go name) s v = navigate-IsValid 0 name false s v
step-IsValid (moved h) s v =
    elsewhere 0 s h s.self_set_hash s.asked s.has_token s.read_only s.passed_check v
step-IsValid hash_change s v = on_hash-IsValid s v
step-IsValid confirmed s v = confirm_leaving-IsValid s v
step-IsValid kept_editing s v = keep_editing-IsValid s v
step-IsValid reloaded s v = reload_at-IsValid true s.current_route s v
step-IsValid undone s v = reload_at-IsValid false s.current_route s v
step-IsValid (resumed i ok) s v = resume_with-IsValid i ok s v
step-IsValid (token_is b) s v =
    elsewhere 0 s s.hash s.self_set_hash s.asked b s.read_only s.passed_check v
step-IsValid (read_only_is b) s v =
    elsewhere 0 s s.hash s.self_set_hash s.asked s.has_token b s.passed_check v
step-IsValid (page_work forms dialogs) s v = page_work-IsValid 0 s forms dialogs v
step-IsValid check_passed s v =
    elsewhere 0 s s.hash s.self_set_hash s.asked s.has_token s.read_only true v

run-IsValid : (events : List Event) (s : Router) → IsValid 0 s → IsValid 0 (run events s)
unfolding run
run-IsValid [] s v = v
run-IsValid (e ∷ events) s v = run-IsValid events (step e s) (step-IsValid e s v)

-- From any start and after any events: a navigation that was not overtaken is for the page on screen;
-- each page that was refreshed was on screen at the time; overview, routes and topology are polled only
-- while they are; the hash to go back to names the page; and a page
-- is shown as loading once for each navigation that waits.
pub stays_current :
    (h : Hash) (token : Bool) (events : List Event) → IsValid 0 (run events (opened h token))
stays_current h token events = run-IsValid events (opened h token) (record {
  told = tt;
  shown = tt;
  overview_polls = λ e. cc e;
  routes_polls = λ e. cc e;
  topology_polls = λ e. cc e;
  committed = λ route e. cc e;
  loads = refl;
})
