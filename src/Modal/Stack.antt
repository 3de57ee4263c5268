-- ===== src/Modal/Stack.antt =====
-- The stack of open dialogs: who is on it after each operation, and closing all of them.
use evuproxy.Common.{
  ℕ, ◌≡◌, refl, sym, ◌∙◌, ap, Bool, true, false, not, ◌||◌, Option, none, some, List, [], ◌∷◌, ◌==◌,
  length, if◌then◌else◌, if-either, eq_sound, eq_same, not-true, arith,
}
use evuproxy.Modal.{
  Entry, Modals, confirm_modal, mark, inert_each, is_open, clear_background_inert, without,
  entry_of, refocus, is_top, sync_background, close_modal, close_confirm, run_cancel, run_closer,
  close_confirm_modal, run_modal_closer, close_all_modals,
}

stack-mark : (e : ℕ) (s : Modals) → (mark e s).stack ≡ s.stack
unfolding mark
stack-mark e s = if-either (λ (t : Modals). t.stack ≡ s.stack) (s.inert e) (λ _. refl) (λ _. refl)

pub stack-inert_each : (es : List ℕ) (s : Modals) → (inert_each es s).stack ≡ s.stack
unfolding inert_each
stack-inert_each [] s = refl
stack-inert_each (e ∷ es) s = stack-inert_each es (mark e s) ∙ stack-mark e s

pub stack-sync_background :
    (around : ℕ → List ℕ) (stack : List Entry) (s : Modals)
    → (sync_background around stack s).stack ≡ s.stack
unfolding sync_background clear_background_inert
stack-sync_background around [] s = refl
stack-sync_background around (e ∷ stack) s = stack-inert_each (around e.modal) _

stack-refocus :
    (top : Bool) (entry : Option Entry) (s : Modals) → (refocus top entry s).stack ≡ s.stack
stack-refocus true (some e) s = refl
stack-refocus true none s = refl
stack-refocus false entry s = refl

absent-step :
    (here further : Bool) {stack rest : List Entry} (e : Entry)
    → here || further ≡ false
    → (further ≡ false → rest ≡ stack)
    → (if here then stack else e ∷ rest) ≡ e ∷ stack
absent-step true further e out absent = ground arith
absent-step false further e out absent = ap (λ st. e ∷ st) (absent out)

without-absent : (m : ℕ) (stack : List Entry) → is_open m stack ≡ false → without m stack ≡ stack
unfolding without
without-absent m [] out = refl
without-absent m (e ∷ stack) out =
    absent-step (e.modal == m) (is_open m stack) e out (without-absent m stack)

pub stack-close_modal :
    (around : ℕ → List ℕ) (m : ℕ) (s : Modals) → (close_modal around m s).stack ≡ without m s.stack
unfolding close_modal
stack-close_modal around m s =
    if-either (λ (t : Modals). t.stack ≡ without m s.stack) (not (is_open m s.stack))
      (λ out. sym (without-absent m s.stack (not-true (is_open m s.stack) out)))
      (λ _.
        stack-refocus (is_top m s.stack) (entry_of m s.stack) _
        ∙ stack-sync_background around (without m s.stack) _)

stack-run_cancel :
    (around : ℕ → List ℕ) (f : Option ℕ) (s : Modals) → (run_cancel around f s).stack ≡ s.stack
stack-run_cancel around none s = refl
stack-run_cancel around (some f) s = refl

pub stack-close_confirm_modal :
    (around : ℕ → List ℕ) (confirmed : Bool) (s : Modals)
    → (close_confirm_modal around confirmed s).stack ≡ without confirm_modal s.stack
unfolding close_confirm_modal close_confirm
stack-close_confirm_modal around confirmed s =
    let plain = record s { confirm_callback = none; cancel_callback = none } in
    let closed = stack-close_modal around confirm_modal plain in
    if-either (λ (t : Modals). t.stack ≡ without confirm_modal s.stack) confirmed (λ _. closed)
      (λ _. stack-run_cancel around s.cancel_callback _ ∙ closed)

-- A page's closer closes its own dialog and leaves the others.
abbrev pub Closes : (ℕ → Option (Modals → Modals)) → Type 0
Closes page_closer =
    (m : ℕ) (close : Modals → Modals) (s : Modals)
    → page_closer m ≡ some close
    → (close s).stack ≡ without m s.stack

pub stack-run_modal_closer :
    (around : ℕ → List ℕ) (page_closer : ℕ → Option (Modals → Modals))
    → Closes page_closer
    → (m : ℕ) (s : Modals) → (run_modal_closer around page_closer m s).stack ≡ without m s.stack
unfolding run_modal_closer
stack-run_modal_closer around page_closer closes m s =
    if-either (λ (t : Modals). t.stack ≡ without m s.stack) (m == confirm_modal)
      (λ y.
        stack-close_confirm_modal around false s
        ∙ ap (λ k. without k s.stack) (sym (eq_sound m confirm_modal y)))
      (λ _. by_closer (page_closer m) refl)
  where
    by_closer :
        (o : Option (Modals → Modals))
        → page_closer m ≡ o
        → (run_closer around o m s).stack ≡ without m s.stack
    by_closer none e = stack-close_modal around m s
    by_closer (some close) e = closes m close s e

ends_from :
    (around : ℕ → List ℕ) (page_closer : ℕ → Option (Modals → Modals))
    → Closes page_closer
    → (stack : List Entry) (s : Modals) → s.stack ≡ stack
    → (close_all_modals around page_closer (length stack) s).stack ≡ []
unfolding close_all_modals without
ends_from around page_closer closes [] s at_stack = at_stack
ends_from around page_closer closes (e ∷ stack) s at_stack =
    let closed = run_modal_closer around page_closer e.modal s in
    let left : closed.stack ≡ stack =
      stack-run_modal_closer around page_closer closes e.modal s
      ∙ ap (without e.modal) at_stack
      ∙ ap (λ b. if b then stack else e ∷ without e.modal stack) (eq_same e.modal) in
    rw at_stack (ends_from around page_closer closes stack closed left)

-- `closeAllModals` ends, after one closer for each open dialog, with none open.
pub close_all_modals-ends :
    (around : ℕ → List ℕ) (page_closer : ℕ → Option (Modals → Modals)) (s : Modals)
    → Closes page_closer
    → (close_all_modals around page_closer (length s.stack) s).stack ≡ []
unfolding close_all_modals
close_all_modals-ends around page_closer s closes =
    ends_from around page_closer closes s.stack s refl
