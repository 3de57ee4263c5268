-- ===== src/Router/Guard.antt =====
-- The question before unsaved edits are lost.
use mathlib.Core.Path.{subst}
use evuproxy.Common.{
  suc, ◌≡◌, refl, sym, ◌∙◌, ap, String, Bool, true, false, not, ◌&&◌, ◌||◌, Option, none, some,
  List, [], ◌∷◌, str_eq, if◌then◌else◌, if-either, All,
}
use evuproxy.Router.{
  eq_hash, first_segment, pages, is_in, Dialog, Router, form_dirty, clear_form, is_dirty_at,
  clear_at, is_route, any_dirty, has_unsaved_edits, close_confirm, show_page,
}
use evuproxy.Router.Enter.{
  known_page, without_token, allowed_page, page_for, close_editors, leave, enter, navigate,
}
use evuproxy.Router.Arrival.{Fits, is_route_sound, is_in-known_page}

-- Dirty forms stay dirty, and if a dialog is dirty all dialogs stay open.
pub record LosesNothing (s t : Router) : Type 0 where
  pub forms_kept :
      (route : String) → form_dirty route s.forms ≡ true → form_dirty route t.forms ≡ true
  pub dialogs_kept : any_dirty s.dialogs ≡ true → t.dialogs ≡ s.dialogs

-- The page on screen is one that the router would still open.
abbrev pub IsAllowed : Router → Type 0
IsAllowed s = (route : String) → s.current_route ≡ some route → page_for route s ≡ route

form_dirty-clear_form :
    (route left : String) (forms : List (String × Bool))
    → form_dirty left forms ≡ false
    → form_dirty route forms ≡ true
    → form_dirty route (clear_form left forms) ≡ true
form_dirty-clear_form route left [] clean dirty = dirty
form_dirty-clear_form route left ((r, d) ∷ forms) clean dirty =
    let later = form_dirty-clear_form route left forms in
    if-either (λ (fs : List (String × Bool)). form_dirty route fs ≡ true) (str_eq r left)
      (λ a.
        cleared (str_eq r route)
          (subst (λ b. (if b then d else form_dirty left forms) ≡ false) a clean) dirty)
      (λ a.
        kept (str_eq r route) dirty
          (later (subst (λ b. (if b then d else form_dirty left forms) ≡ false) a clean)))
  where
    cleared :
        (b : Bool)
        → d ≡ false
        → (if b then d else form_dirty route forms) ≡ true
        → (if b then false else form_dirty route forms) ≡ true
    cleared true c e = cc (c, e)
    cleared false c e = e

    kept :
        (b : Bool)
        → (if b then d else form_dirty route forms) ≡ true
        → (form_dirty route forms ≡ true → form_dirty route (clear_form left forms) ≡ true)
        → (if b then d else form_dirty route (clear_form left forms)) ≡ true
    kept true e later = e
    kept false e later = later e

form_dirty-clear_at :
    (route : String) (current : Option String) (forms : List (String × Bool))
    → is_dirty_at current forms ≡ false
    → form_dirty route forms ≡ true
    → form_dirty route (clear_at current forms) ≡ true
form_dirty-clear_at route none forms clean dirty = dirty
form_dirty-clear_at route (some left) forms clean dirty =
    form_dirty-clear_form route left forms clean dirty

close_editors-fitting :
    (route : String) (dialogs : List (Dialog × Bool))
    → All (Fits (some route)) dialogs
    → close_editors route dialogs ≡ dialogs
close_editors-fitting route [] f = refl
close_editors-fitting route ((d, dirty) ∷ dialogs) f =
    rw f.0 (ap (λ ds. (d, dirty) ∷ ds) (close_editors-fitting route dialogs f.1))

-- What entering a page keeps, of what it starts from.
pub record Leaves (s t : Router) : Type 0 where
  pub forms : t.forms ≡ s.forms
  pub dialogs : t.dialogs ≡ s.dialogs
  pub route : t.current_route ≡ s.current_route

pub close_confirm-Leaves : (s : Router) → Leaves s (close_confirm s)
close_confirm-Leaves s = by_question s.asked
  where
    by_question : (o : Option String) → Leaves s (close_confirm (record s { asked = o }))
    by_question none = record { forms = refl; dialogs = refl; route = refl }
    by_question (some target) =
        if-either (λ (t : Router). Leaves s t) (eq_hash s.hash s.committed_hash)
          (λ _. record { forms = refl; dialogs = refl; route = refl })
          (λ _. record { forms = refl; dialogs = refl; route = refl })

leave_lem :
    (name : String) (s : Router)
    → is_dirty_at s.current_route s.forms ≡ false
    → ((r : String) → form_dirty r s.forms ≡ true → form_dirty r (leave name s).forms ≡ true)
      × ((leave name s).dialogs ≡ s.dialogs)
leave_lem name s clean =
    if-either
      (λ (t : Router).
        ((r : String) → form_dirty r s.forms ≡ true → form_dirty r t.forms ≡ true)
        × (t.dialogs ≡ s.dialogs))
      (is_route name s.current_route) (λ _. (λ r d. d, refl))
      (λ _. (λ r d. form_dirty-clear_at r s.current_route s.forms clean d, refl))

enter_lem :
    (name : String) (keep_view : Bool) (s : Router)
    → is_dirty_at s.current_route s.forms ≡ false
    → ((r : String)
        → form_dirty r s.forms ≡ true
        → form_dirty r (enter name keep_view s).forms ≡ true)
      × ((enter name keep_view s).dialogs ≡ close_editors name s.dialogs)
unfolding enter show_page
enter_lem name keep_view s clean =
    let begun = record s { nav_seq = suc s.nav_seq } in
    let closed = if keep_view then begun else close_confirm begun in
    let l : Leaves s closed =
      if-either (λ (t : Router). Leaves s t) keep_view
        (λ _. record { forms = refl; dialogs = refl; route = refl })
        (λ _.
          let c = close_confirm-Leaves begun in
          record { forms = c.forms; dialogs = c.dialogs; route = c.route }) in
    let gone = record closed { dialogs = close_editors name closed.dialogs } in
    let (kept, same) = leave_lem name gone (
      ap (λ o. is_dirty_at o closed.forms) l.route
      ∙ ap (λ fs. is_dirty_at s.current_route fs) l.forms
      ∙ clean) in
    if-either
      (λ (t : Router).
        ((r : String) → form_dirty r s.forms ≡ true → form_dirty r t.forms ≡ true)
        × (t.dialogs ≡ close_editors name s.dialogs))
      (str_eq (first_segment (leave name gone).hash.path) name)
      (λ _. (
        λ r d. kept r (ap (λ fs. form_dirty r fs) l.forms ∙ d),
        same ∙ ap (λ ds. close_editors name ds) l.dialogs,
      ))
      (λ _. (
        λ r d. kept r (ap (λ fs. form_dirty r fs) l.forms ∙ d),
        same ∙ ap (λ ds. close_editors name ds) l.dialogs,
      ))

page_for-known_page : (name : String) (s : Router) → page_for (known_page name) s ≡ page_for name s
unfolding page_for
page_for-known_page name s =
    let known = is_in-known_page name in
    ap (λ n. allowed_page (without_token n s) s)
      (if-either (λ (n : String). n ≡ known_page name) (is_in (known_page name) pages) (λ _. refl)
        (λ e. absurd (cc (known, e))))

or_false : (a b : Bool) → (a || b) ≡ false → (a ≡ false) × (b ≡ false)
or_false true b e = cc e
or_false false b e = (refl, e)

and_false : (a b : Bool) → (not a && b) ≡ false → b ≡ true → a ≡ true
and_false true b e t = refl
and_false false b e t = cc (e, t)

pub navigate-LosesNothing :
    (name : String) (keep_view : Bool) (s : Router)
    → All (Fits s.current_route) s.dialogs
    → IsAllowed s
    → LosesNothing s (navigate name keep_view s)
unfolding navigate has_unsaved_edits
navigate-LosesNothing name keep_view s fits allowed =
    let target = known_page name in
    if-either (λ (t : Router). LosesNothing s t) (has_unsaved_edits target s)
      (λ _. record { forms_kept = λ r d. d; dialogs_kept = λ _. refl })
      (λ e.
        let (clean, closed) = or_false (is_dirty_at s.current_route s.forms) _ e in
        let (forms, dialogs) = enter_lem (page_for name s) keep_view s clean in
        record {
          forms_kept = forms;
          dialogs_kept = λ dirty.
              let here = is_route_sound target s.current_route (and_false _ _ closed dirty) in
              let page = sym (page_for-known_page name s) ∙ allowed target here in
              dialogs
              ∙ ap (λ n. close_editors n s.dialogs) page
              ∙ close_editors-fitting target s.dialogs
                  (subst (λ o. All (Fits o) s.dialogs) here fits);
        })
