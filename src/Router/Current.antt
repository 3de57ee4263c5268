-- ===== src/Router/Current.antt =====
-- Loads and polls stay with the page on screen: each way to navigate, and the answers to the
-- question.
use evuproxy.Common.{
  ℕ, ◌≡◌, refl, ◌∙◌, ap, String, Bool, true, false, not, ◌||◌, Option, none, some, List, [], ◌⊎◌,
  ◌==◌, str_eq, str_eq_iff, if◌then◌else◌, if-either, inl, inr, arith,
}
use evuproxy.Router.{
  Hash, Wait, Dialog, at_gate, at_prefs, at_load, Nav, Router, eq_hash, is_in, is_route,
  page_needs_write_token, clear_at, has_unsaved_edits, discard_edits_for,
}
use evuproxy.Router.Enter.{
  known_page, page_for, navigate, navigate_discarding, confirm_leaving, keep_editing, finish,
  wait_on, refresh_page, start_polls, after_gate, after_prefs, after_load, awaited_pages, resume,
}
use evuproxy.Router.Arrival.{IsTold, IsValid, enter-IsValid, is_in-page_for}

or_cases : (a b : Bool) → (a || b) ≡ true → (a ≡ true) ⊎ (b ≡ true)
or_cases true b e = inl refl
or_cases false b e = inr e

finish-IsValid : (s : Router) → IsValid 1 s → IsValid 0 (finish s)
finish-IsValid s v = record {
  told = v.told;
  shown = v.shown;
  overview_polls = v.overview_polls;
  routes_polls = v.routes_polls;
  topology_polls = v.topology_polls;
  committed = v.committed;
  loads = omega (arith, v.loads);
}

-- The hash, the question, the token and the check have no part in it.
pub elsewhere :
    (extra : ℕ) (s : Router) (h : Hash) (own : Option Hash) (q : Option String)
    (token read check : Bool)
    → IsValid extra s
    → IsValid extra (record s {
      hash = h;
      self_set_hash = own;
      asked = q;
      has_token = token;
      read_only = read;
      passed_check = check;
    })
elsewhere extra s h own q token read check v = record {
  told = v.told;
  shown = v.shown;
  overview_polls = v.overview_polls;
  routes_polls = v.routes_polls;
  topology_polls = v.topology_polls;
  committed = v.committed;
  loads = v.loads;
}

pub page_work-IsValid :
    (extra : ℕ) (s : Router) (forms : List (String × Bool)) (dialogs : List (Dialog × Bool))
    → IsValid extra s
    → IsValid extra (record s { forms = forms; dialogs = dialogs })
page_work-IsValid extra s forms dialogs v = record {
  told = v.told;
  shown = v.shown;
  overview_polls = v.overview_polls;
  routes_polls = v.routes_polls;
  topology_polls = v.topology_polls;
  committed = v.committed;
  loads = v.loads;
}

pub navigate-IsValid :
    (extra : ℕ) (name : String) (keep_view : Bool) (s : Router)
    → IsValid extra s
    → IsValid extra (navigate name keep_view s)
unfolding navigate
navigate-IsValid extra name keep_view s v =
    if-either (λ (t : Router). IsValid extra t) (has_unsaved_edits (known_page name) s)
      (λ _.
        elsewhere extra s s.hash s.self_set_hash (some (known_page name)) s.has_token s.read_only
          s.passed_check v)
      (λ _. enter-IsValid extra (page_for name s) keep_view s (is_in-page_for name s) v)

pub confirm_leaving-IsValid : (s : Router) → IsValid 0 s → IsValid 0 (confirm_leaving s)
unfolding confirm_leaving navigate_discarding discard_edits_for
confirm_leaving-IsValid s v = by_question s.asked
  where
    answered : (target : String) → IsValid 0 (discard_edits_for target (record s { asked = none }))
    answered target =
        page_work-IsValid 0 (record s { asked = none }) (clear_at s.current_route s.forms)
          (if is_route target s.current_route then s.dialogs else [])
          (elsewhere 0 s s.hash s.self_set_hash none s.has_token s.read_only s.passed_check v)

    by_question : (o : Option String) → IsValid 0 (confirm_leaving (record s { asked = o }))
    by_question none =
        elsewhere 0 s s.hash s.self_set_hash none s.has_token s.read_only s.passed_check v
    by_question (some target) =
        let s' = discard_edits_for target (record s { asked = none }) in
        enter-IsValid 0 (page_for target s') false s' (is_in-page_for target s') (answered target)

pub keep_editing-IsValid : (s : Router) → IsValid 0 s → IsValid 0 (keep_editing s)
unfolding keep_editing
keep_editing-IsValid s v = by_question s.asked
  where
    by_question : (o : Option String) → IsValid 0 (keep_editing (record s { asked = o }))
    by_question none =
        elsewhere 0 s s.hash s.self_set_hash none s.has_token s.read_only s.passed_check v
    by_question (some target) =
        if-either (λ (t : Router). IsValid 0 t) (eq_hash s.hash s.committed_hash)
          (λ _. elsewhere 0 s s.hash s.self_set_hash none s.has_token s.read_only s.passed_check v)
          (λ _.
            elsewhere 0 s s.committed_hash s.self_set_hash none s.has_token s.read_only
              s.passed_check v)

-- The navigation that goes on is for the page on screen, unless it was overtaken.
wait_on-IsValid :
    (nav : Nav) (w : Wait) (s : Router)
    → IsTold s.nav_seq s.current_route nav
    → IsValid 1 s
    → IsValid 0 (wait_on nav w s)
wait_on-IsValid nav w s t v = record {
  told = (t, v.told);
  shown = v.shown;
  overview_polls = v.overview_polls;
  routes_polls = v.routes_polls;
  topology_polls = v.topology_polls;
  committed = v.committed;
  loads = omega (arith, v.loads);
}

poll_lem :
    (name page : String) (old : Bool) (route : Option String)
    → route ≡ some name
    → (old ≡ true → route ≡ some page)
    → (str_eq name page || old) ≡ true
    → route ≡ some page
poll_lem name page old route at kept e = elim (or_cases (str_eq name page) old e) [
  | inl same ↦ at ∙ ap (λ n. some n) ((str_eq_iff name page).0 same)
  | inr on ↦ kept on
]

refresh_page-IsValid :
    (name : String) (s : Router)
    → s.current_route ≡ some name
    → IsValid 1 s
    → IsValid 1 (refresh_page name s)
refresh_page-IsValid name s at v = record {
  told = v.told;
  shown = (at, v.shown);
  overview_polls = v.overview_polls;
  routes_polls = v.routes_polls;
  topology_polls = poll_lem name "topology" s.topology_polling s.current_route at v.topology_polls;
  committed = v.committed;
  loads = v.loads;
}

start_polls-IsValid :
    (name : String) (s : Router)
    → s.current_route ≡ some name
    → IsValid 1 s
    → IsValid 1 (start_polls name s)
start_polls-IsValid name s at v = record {
  told = v.told;
  shown = v.shown;
  overview_polls = poll_lem name "overview" s.overview_polling s.current_route at v.overview_polls;
  routes_polls = poll_lem name "routes" s.routes_polling s.current_route at v.routes_polls;
  topology_polls = v.topology_polls;
  committed = v.committed;
  loads = v.loads;
}

pub resume-IsValid :
    (nav : Nav) (ok : Bool) (s : Router)
    → IsTold s.nav_seq s.current_route nav
    → IsValid 1 s
    → IsValid 0 (resume nav ok s)
unfolding resume after_gate after_prefs after_load
resume-IsValid nav ok s t v = by_wait nav.wait
  where
    at_page : not (nav.seq == s.nav_seq) ≡ false → s.current_route ≡ some nav.name
    at_page e = t.1 (ground arith)

    by_wait : (w : Wait) → IsValid 0 (resume (record nav { wait = w }) ok s)
    by_wait at_gate =
        if-either (λ (r : Router). IsValid 0 r) (not (nav.seq == s.nav_seq))
          (λ _. finish-IsValid s v)
          (λ _.
            if-either (λ (r : Router). IsValid 0 r) (not ok) (λ _. finish-IsValid s v)
              (λ _.
                if-either (λ (r : Router). IsValid 0 r) (page_needs_write_token nav.name s)
                  (λ _.
                    finish-IsValid (navigate "overview" false s)
                      (navigate-IsValid 1 "overview" false s v))
                  (λ _. wait_on-IsValid nav at_prefs s t v)))
    by_wait at_prefs =
        if-either (λ (r : Router). IsValid 0 r) (not (nav.seq == s.nav_seq))
          (λ _. finish-IsValid s v)
          (λ e.
            let more = refresh_page-IsValid nav.name s (at_page e) v in
            if-either (λ (r : Router). IsValid 0 r) (is_in nav.name awaited_pages)
              (λ _. wait_on-IsValid nav at_load (refresh_page nav.name s) t more)
              (λ _. finish-IsValid (refresh_page nav.name s) more))
    by_wait at_load =
        if-either (λ (r : Router). IsValid 0 r) (not (nav.seq == s.nav_seq))
          (λ _. finish-IsValid s v)
          (λ e.
            finish-IsValid (start_polls nav.name s) (start_polls-IsValid nav.name s (at_page e) v))
