-- ===== src/Router/Goes.antt =====
-- A click on a link goes to its page, or asks.
use evuproxy.Common.{
  suc, ◌≡◌, refl, String, Bool, true, false, some, str_eq, if◌then◌else◌, if-either,
}
use evuproxy.Router.{first_segment, Router, close_confirm, has_unsaved_edits, show_page}
use evuproxy.Router.Enter.{known_page, page_for, close_editors, leave, enter, navigate}
use evuproxy.Router.Steps.{
  Event, go, moved, hash_change, confirmed, kept_editing, reloaded, undone, resumed, token_is,
  read_only_is, page_work, check_passed, step,
}
use evuproxy.Router.Arrival.{leave_route}

enter_route :
    (name : String) (keep_view : Bool) (s : Router)
    → (enter name keep_view s).current_route ≡ some name
unfolding enter show_page
enter_route name keep_view s =
    let begun = record s { nav_seq = suc s.nav_seq } in
    let closed = if keep_view then begun else close_confirm begun in
    let gone = record closed { dialogs = close_editors name closed.dialogs } in
    if-either (λ (t : Router). t.current_route ≡ some name)
      (str_eq (first_segment (leave name gone).hash.path) name) (λ _. leave_route name gone)
      (λ _. leave_route name gone)

-- A click on a link goes to its page where nothing would be lost, and asks where something would.
abbrev pub GoesOrAsks : Event → Router → Router → Type 0
GoesOrAsks (go name) s t =
    (has_unsaved_edits (known_page name) s ≡ false → t.current_route ≡ some (page_for name s))
    × (has_unsaved_edits (known_page name) s ≡ true
        → (t.asked ≡ some (known_page name)) × (t.current_route ≡ s.current_route))
GoesOrAsks _ s t = Unit {0}

navigate-GoesOrAsks : (name : String) (s : Router) → GoesOrAsks (go name) s (navigate name false s)
unfolding navigate
navigate-GoesOrAsks name s =
    (λ e. rw e (enter_route (page_for name s) false s), λ e. (rw e refl, rw e refl))

pub step-GoesOrAsks : (e : Event) (s : Router) → GoesOrAsks e s (step e s)
unfolding step
step-GoesOrAsks (go name) s = navigate-GoesOrAsks name s
step-GoesOrAsks (moved h) s = tt
step-GoesOrAsks hash_change s = tt
step-GoesOrAsks confirmed s = tt
step-GoesOrAsks kept_editing s = tt
step-GoesOrAsks reloaded s = tt
step-GoesOrAsks undone s = tt
step-GoesOrAsks (resumed i ok) s = tt
step-GoesOrAsks (token_is b) s = tt
step-GoesOrAsks (read_only_is b) s = tt
step-GoesOrAsks (page_work forms dialogs) s = tt
step-GoesOrAsks check_passed s = tt
