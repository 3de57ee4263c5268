-- ===== src/Modal/Discard.antt =====
-- Escape on an editor with unsaved edits, and the answers to the question that it asks.
use mathlib.Core.Path.{subst}
use evuproxy.Common.{
  ℕ, ◌≡◌, refl, sym, ◌∙◌, ap, Bool, true, false, Option, none, some, List, [], ◌∷◌, if◌then◌else◌,
  eq_same, if-either,
}
use evuproxy.Modal.{
  Entry, discard, Modals, confirm_modal, put, mark, inert_each, clear_background_inert,
  run_callback, is_open, without, open_modal, sync_background, close_confirm_modal,
  run_modal_closer, open_confirm_modal, on_ok, dismiss_modal, escape, close_top_modal,
}
use evuproxy.Modal.Stack.{
  Closes, stack-sync_background, stack-close_confirm_modal, stack-run_modal_closer,
}

if_false {ℓ ℓ'} :
    {A : Type ℓ} (P : A → Type ℓ') {b : Bool} (x y : A) → b ≡ false → P y → P (if b then x else y)
if_false P x y out p = subst (λ b. P (if b then x else y)) (sym out) p

stack-open_modal :
    (around : ℕ → List ℕ) (m first_in : ℕ) (s : Modals)
    → is_open m s.stack ≡ false
    → (open_modal around m first_in s).stack
      ≡ record { modal = m; previously_focused = s.focused } ∷ s.stack
unfolding open_modal
stack-open_modal around m first_in s out =
    let stack = record { modal = m; previously_focused = s.focused } ∷ s.stack in
    let shown = record s { visible = put s.visible m true; stack = stack } in
    if_false (λ (t : Modals). t.stack ≡ stack) _ _ out (stack-sync_background around stack shown)

confirm_callback-mark : (e : ℕ) (s : Modals) → (mark e s).confirm_callback ≡ s.confirm_callback
unfolding mark
confirm_callback-mark e s =
    if-either (λ (t : Modals). t.confirm_callback ≡ s.confirm_callback) (s.inert e) (λ _. refl)
      (λ _. refl)

confirm_callback-inert_each :
    (es : List ℕ) (s : Modals) → (inert_each es s).confirm_callback ≡ s.confirm_callback
unfolding inert_each
confirm_callback-inert_each [] s = refl
confirm_callback-inert_each (e ∷ es) s =
    confirm_callback-inert_each es (mark e s) ∙ confirm_callback-mark e s

confirm_callback-open_modal :
    (around : ℕ → List ℕ) (m first_in : ℕ) (s : Modals)
    → (open_modal around m first_in s).confirm_callback ≡ s.confirm_callback
unfolding open_modal sync_background clear_background_inert
confirm_callback-open_modal around m first_in s =
    if-either (λ (t : Modals). t.confirm_callback ≡ s.confirm_callback) (is_open m s.stack)
      (λ _. refl) (λ _. confirm_callback-inert_each (around m) _)

without-first : (e : Entry) (stack : List Entry) → without e.modal (e ∷ stack) ≡ stack
unfolding without
without-first e stack = ap (λ b. if b then stack else e ∷ without e.modal stack) (eq_same e.modal)

on_ok-asked :
    (around : ℕ → List ℕ) (page_closer : ℕ → Option (Modals → Modals)) (m : ℕ) (asked : Modals)
    → Closes page_closer
    → asked.confirm_callback ≡ some (discard m)
    → (on_ok around page_closer asked).stack ≡ without m (without confirm_modal asked.stack)
unfolding on_ok
on_ok-asked around page_closer m asked closes callback =
    ap (λ f. (run_callback around page_closer f (close_confirm_modal around true asked)).stack)
      callback
    ∙ stack-run_modal_closer around page_closer closes m (close_confirm_modal around true asked)
    ∙ ap (without m) (stack-close_confirm_modal around true asked)

-- The question, once it is up over a dialog, and its two answers.
pub record Asks (around : ℕ → List ℕ) (page_closer : ℕ → Option (Modals → Modals))
    (stack : List Entry) (s asked : Modals) : Type 0 where
  pub asks :
      asked.stack ≡ record { modal = confirm_modal; previously_focused = s.focused } ∷ s.stack
  pub keeps : (close_confirm_modal around false asked).stack ≡ s.stack
  pub discards : (on_ok around page_closer asked).stack ≡ stack

open_confirm_modal-Asks :
    (around : ℕ → List ℕ) (page_closer : ℕ → Option (Modals → Modals)) (cancel_button : ℕ)
    (e : Entry) (stack : List Entry) (s : Modals)
    → Closes page_closer
    → s.stack ≡ e ∷ stack
    → is_open confirm_modal s.stack ≡ false
    → Asks around page_closer stack s
        (open_confirm_modal around page_closer (some (discard e.modal)) none cancel_button s)
unfolding open_confirm_modal
open_confirm_modal-Asks around page_closer cancel_button e stack s closes at_stack out =
    let asking = record s { confirm_callback = some (discard e.modal); cancel_callback = none } in
    let asked = open_modal around confirm_modal cancel_button asking in
    let top : Entry = record { modal = confirm_modal; previously_focused = s.focused } in
    let up = stack-open_modal around confirm_modal cancel_button asking out in
    let callback = confirm_callback-open_modal around confirm_modal cancel_button asking in
    let under = ap (without confirm_modal) up ∙ without-first top s.stack in
    record {
      asks = up;
      keeps = stack-close_confirm_modal around false asked ∙ under;
      discards =
          on_ok-asked around page_closer e.modal asked closes callback
          ∙ ap (without e.modal) (under ∙ at_stack)
          ∙ without-first e stack;
    }

top_is :
    (dismiss : ℕ → Modals → Modals) {e : Entry} {stack : List Entry} (s : Modals)
    → s.stack ≡ e ∷ stack
    → escape dismiss s s.stack ≡ (dismiss e.modal s, true)
top_is dismiss s at_stack = ap (escape dismiss s) at_stack

-- Escape on a dirty editor, while the confirm dialog is not up: the key is handled, and the editor
-- stays open with the question above it. "Keep editing" brings back the same dialogs; "Discard
-- changes" closes the editor alone. The pages' closers are taken to close their own dialogs.
pub close_top_modal-Asks :
    (around : ℕ → List ℕ) (page_closer : ℕ → Option (Modals → Modals)) (is_dirty : ℕ → Bool)
    (cancel_button : ℕ) (e : Entry) (stack : List Entry) (s : Modals)
    → Closes page_closer
    → s.stack ≡ e ∷ stack
    → is_dirty e.modal ≡ true
    → is_open confirm_modal s.stack ≡ false
    → ((close_top_modal around page_closer is_dirty cancel_button s).1 ≡ true)
      × Asks around page_closer stack s
          (close_top_modal around page_closer is_dirty cancel_button s).0
unfolding close_top_modal dismiss_modal
close_top_modal-Asks around page_closer is_dirty cancel_button e stack s closes at_stack dirty out =
    let asked =
      open_confirm_modal around page_closer (some (discard e.modal)) none cancel_button s in
    let asks =
      open_confirm_modal-Asks around page_closer cancel_button e stack s closes at_stack out in
    let dismissed : dismiss_modal around page_closer is_dirty cancel_button e.modal s ≡ asked =
      ap (λ b. if b then asked else run_modal_closer around page_closer e.modal s) dirty in
    let handled : close_top_modal around page_closer is_dirty cancel_button s ≡ (asked, true) =
      top_is (dismiss_modal around page_closer is_dirty cancel_button) s at_stack
      ∙ ap (λ t. (t, true)) dismissed in
    (ap (λ r. r.1) handled, subst (λ r. Asks around page_closer stack s r.0) (sym handled) asks)
