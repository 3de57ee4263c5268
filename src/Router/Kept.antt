-- ===== src/Router/Kept.antt =====
-- No event loses unsaved edits before the operator has agreed to it.
use evuproxy.Common.{
  remove_at, ℕ, ◌≡◌, refl, ◌∙◌, ap, String, Bool, true, false, not, Option, none, some, List, ◌==◌,
  get_elem?, if-either, All,
}
use evuproxy.Router.{
  Hash, first_segment, is_in, Wait, at_gate, at_prefs, at_load, Nav, Router, form_dirty,
  has_unsaved_edits, page_needs_write_token,
}
use evuproxy.Router.Enter.{
  page_for, navigate, keep_editing, after_gate, after_prefs, after_load, awaited_pages, resume,
  on_hash, is_own_hash, reload_at, reload_current_page, refresh_after_undo,
}
use evuproxy.Router.Steps.{
  Event, go, moved, hash_change, confirmed, kept_editing, reloaded, undone, resumed, token_is,
  read_only_is, page_work, check_passed, resume_with, step, run, opened,
}
use evuproxy.Router.Arrival.{Fits}
use evuproxy.Router.Guard.{LosesNothing, IsAllowed, close_confirm-Leaves, navigate-LosesNothing}
use evuproxy.Router.Goes.{GoesOrAsks, step-GoesOrAsks}

-- All but the operator's agreement, and what a page does to its own edits.
abbrev pub IsUnasked : Event → Type 0
IsUnasked confirmed = ⊥
IsUnasked (page_work forms dialogs) = ⊥
IsUnasked _ = Unit {0}

kept_all : (s : Router) → LosesNothing s s
kept_all s = record { forms_kept = λ r d. d; dialogs_kept = λ _. refl }

resume-LosesNothing :
    (nav : Nav) (ok : Bool) (s : Router)
    → All (Fits s.current_route) s.dialogs
    → IsAllowed s
    → LosesNothing s (resume nav ok s)
unfolding resume after_gate after_prefs after_load
resume-LosesNothing nav ok s fits allowed = by_wait nav.wait
  where
    unchanged : {t : Router} → t.forms ≡ s.forms → t.dialogs ≡ s.dialogs → LosesNothing s t
    unchanged f d = record {
      forms_kept = λ r e. ap (λ fs. form_dirty r fs) f ∙ e;
      dialogs_kept = λ _. d;
    }

    by_wait : (w : Wait) → LosesNothing s (resume (record nav { wait = w }) ok s)
    by_wait at_gate =
        if-either (λ (t : Router). LosesNothing s t) (not (nav.seq == s.nav_seq))
          (λ _. unchanged refl refl)
          (λ _.
            if-either (λ (t : Router). LosesNothing s t) (not ok) (λ _. unchanged refl refl)
              (λ _.
                if-either (λ (t : Router). LosesNothing s t) (page_needs_write_token nav.name s)
                  (λ _.
                    let l = navigate-LosesNothing "overview" false s fits allowed in
                    record { forms_kept = l.forms_kept; dialogs_kept = l.dialogs_kept })
                  (λ _. unchanged refl refl)))
    by_wait at_prefs =
        if-either (λ (t : Router). LosesNothing s t) (not (nav.seq == s.nav_seq))
          (λ _. unchanged refl refl)
          (λ _.
            if-either (λ (t : Router). LosesNothing s t) (is_in nav.name awaited_pages)
              (λ _. unchanged refl refl) (λ _. unchanged refl refl))
    by_wait at_load =
        if-either (λ (t : Router). LosesNothing s t) (not (nav.seq == s.nav_seq))
          (λ _. unchanged refl refl) (λ _. unchanged refl refl)

reload_at-LosesNothing :
    (keep_view : Bool) (route : Option String) (s : Router)
    → All (Fits s.current_route) s.dialogs
    → IsAllowed s
    → LosesNothing s (reload_at keep_view route s)
unfolding navigate has_unsaved_edits
reload_at-LosesNothing keep_view none s fits allowed = kept_all s
reload_at-LosesNothing keep_view (some route) s fits allowed =
    if-either (λ (t : Router). LosesNothing s t) (has_unsaved_edits route s) (λ _. kept_all s)
      (λ _. navigate-LosesNothing route keep_view s fits allowed)

on_hash-LosesNothing :
    (s : Router) → All (Fits s.current_route) s.dialogs → IsAllowed s → LosesNothing s (on_hash s)
unfolding on_hash page_for
on_hash-LosesNothing s fits allowed =
    let seen = record s { self_set_hash = none } in
    if-either (λ (t : Router). LosesNothing s t) (is_own_hash s)
      (λ _. record { forms_kept = λ r d. d; dialogs_kept = λ _. refl })
      (λ _.
        let l = navigate-LosesNothing (first_segment s.hash.path) false seen fits allowed in
        record { forms_kept = l.forms_kept; dialogs_kept = l.dialogs_kept })

resume_with-LosesNothing :
    (o : Option Nav) (i : ℕ) (ok : Bool) (s : Router)
    → All (Fits s.current_route) s.dialogs
    → IsAllowed s
    → LosesNothing s (resume_with o i ok s)
unfolding page_for
resume_with-LosesNothing none i ok s fits allowed = kept_all s
resume_with-LosesNothing (some nav) i ok s fits allowed =
    let l =
      resume-LosesNothing nav ok (record s { waiting = remove_at i s.waiting }) fits allowed in
    record { forms_kept = l.forms_kept; dialogs_kept = l.dialogs_kept }

step-LosesNothing :
    (e : Event) (s : Router)
    → IsUnasked e
    → All (Fits s.current_route) s.dialogs
    → IsAllowed s
    → LosesNothing s (step e s)
unfolding step reload_current_page refresh_after_undo keep_editing
step-LosesNothing (go name) s u fits allowed = navigate-LosesNothing name false s fits allowed
step-LosesNothing (moved h) s u fits allowed = record {
  forms_kept = λ r d. d;
  dialogs_kept = λ _. refl;
}
step-LosesNothing hash_change s u fits allowed = on_hash-LosesNothing s fits allowed
step-LosesNothing confirmed s u fits allowed = absurd u
step-LosesNothing kept_editing s u fits allowed =
    let c = close_confirm-Leaves s in
    record {
      forms_kept = λ r d. ap (λ fs. form_dirty r fs) c.forms ∙ d;
      dialogs_kept = λ _. c.dialogs;
    }
step-LosesNothing reloaded s u fits allowed =
    reload_at-LosesNothing true s.current_route s fits allowed
step-LosesNothing undone s u fits allowed =
    reload_at-LosesNothing false s.current_route s fits allowed
step-LosesNothing (resumed i ok) s u fits allowed =
    resume_with-LosesNothing (get_elem? s.waiting i) i ok s fits allowed
step-LosesNothing (token_is b) s u fits allowed = record {
  forms_kept = λ r d. d;
  dialogs_kept = λ _. refl;
}
step-LosesNothing (read_only_is b) s u fits allowed = record {
  forms_kept = λ r d. d;
  dialogs_kept = λ _. refl;
}
step-LosesNothing (page_work forms dialogs) s u fits allowed = absurd u
step-LosesNothing check_passed s u fits allowed = record {
  forms_kept = λ r d. d;
  dialogs_kept = λ _. refl;
}

-- After any events, while the page on screen is one that the router would still open and the dialogs
-- that are open are that page's own: no event but the operator's agreement, and the page's own work, leaves a dirty form clean or closes a dialog while one
-- is dirty. A click on a link goes to the page that its name stands for if nothing would be lost by it,
-- and else asks and stays.
pub asks_first :
    (h : Hash) (token : Bool) (events : List Event) (e : Event)
    → IsUnasked e
    → All (Fits (run events (opened h token)).current_route) (run events (opened h token)).dialogs
    → IsAllowed (run events (opened h token))
    → LosesNothing (run events (opened h token)) (step e (run events (opened h token)))
      × GoesOrAsks e (run events (opened h token)) (step e (run events (opened h token)))
asks_first h token events e unasked fits allowed = (
  step-LosesNothing e (run events (opened h token)) unasked fits allowed,
  step-GoesOrAsks e (run events (opened h token)),
)
