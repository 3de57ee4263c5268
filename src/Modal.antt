-- ===== src/Modal.antt =====
-- web/static/js/core/modal.js: the stack of open dialogs, what is inert behind the top one, and the
-- confirm dialog. Elements and dialogs are told apart by numbers. The page's tree is an argument:
-- `around m` lists the siblings of `m` and of each of its ancestors below the body. So are the forms'
-- `isDirty` and the closers that the pages register.
pub mod Stack
pub mod Inert
pub mod Discard
mod Examples
use evuproxy.Common.{
  ℕ, zero, suc, Bool, true, false, not, Option, none, some, is_some, List, [], ◌∷◌, any, ◌==◌,
  if◌then◌else◌,
}

pub record Entry : Type 0 where
  pub modal : ℕ
  pub previously_focused : ℕ

-- What `onConfirm` runs: a dialog's closer, for `dismissModal`, or a page's function.
pub data Callback : Type 0 where
  discard call : ℕ → Callback

pub record Modals : Type 0 where
  pub stack : List Entry
  pub visible : ℕ → Bool
  pub focused : ℕ
  pub inert : ℕ → Bool
  pub inerted_by_us : List ℕ
  pub scroll_locked : Bool
  pub confirm_callback : Option Callback
  pub cancel_callback : Option ℕ
  -- The pages' functions that the confirm dialog ran, the last one first.
  pub called : List ℕ

abbrev pub confirm_modal : ℕ
confirm_modal = 0

abbrev pub mem : ℕ → List ℕ → Bool
mem e es = any (λ x. x == e) es

abbrev pub put : (ℕ → Bool) → ℕ → Bool → ℕ → Bool
put f e b x = if e == x then b else f x

abbrev pub is_open : ℕ → List Entry → Bool
is_open m stack = any (λ e. e.modal == m) stack

-- `clearBackgroundInert`: what was inert before is left so.
unfoldable pub clear_each : List ℕ → (ℕ → Bool) → ℕ → Bool
clear_each [] inert = inert
clear_each (e ∷ es) inert = clear_each es (put inert e false)

unfoldable pub clear_background_inert : Modals → Modals
unfolding clear_each
clear_background_inert s = record s {
  inert = clear_each s.inerted_by_us s.inert;
  inerted_by_us = [];
}

-- The inner loop of `applyBackgroundInert`; an element that is inert already is left alone.
unfoldable pub mark : ℕ → Modals → Modals
mark e s =
    if s.inert e
    then s
    else record s { inert = put s.inert e true; inerted_by_us = e ∷ s.inerted_by_us }

unfoldable pub inert_each : List ℕ → Modals → Modals
unfolding mark
inert_each [] s = s
inert_each (e ∷ es) s = inert_each es (mark e s)

-- `splice` at the entry of a dialog.
unfoldable pub without : ℕ → List Entry → List Entry
without m [] = []
without m (e ∷ stack) = let rest = without m stack in if e.modal == m then stack else e ∷ rest

abbrev pub entry_of : ℕ → List Entry → Option Entry
entry_of m [] = none
entry_of m (e ∷ stack) = let rest = entry_of m stack in if e.modal == m then some e else rest

-- Only the topmost dialog hands the focus back.
abbrev pub refocus : Bool → Option Entry → Modals → Modals
refocus true (some e) s = record s { focused = e.previously_focused }
refocus _ _ s = s

abbrev pub is_top : ℕ → List Entry → Bool
is_top m [] = false
is_top m (e ∷ stack) = e.modal == m

-- Escape with these dialogs open: the new state, and whether the key was handled.
abbrev pub escape : (ℕ → Modals → Modals) → Modals → List Entry → Modals × Bool
escape dismiss s [] = (s, false)
escape dismiss s (e ∷ stack) = (dismiss e.modal s, true)

module _ (around : ℕ → List ℕ) where
  -- The first entry of the list is the topmost dialog.
  unfoldable pub sync_background : List Entry → Modals → Modals
  unfolding clear_background_inert inert_each
  sync_background [] s = record (clear_background_inert s) { scroll_locked = false }
  sync_background (e ∷ stack) s = record (inert_each (around e.modal) (clear_background_inert s)) {
    scroll_locked = true;
  }

  -- The focus moves into the dialog a frame later, to `first_in`.
  unfoldable pub open_modal : ℕ → ℕ → Modals → Modals
  unfolding sync_background
  open_modal m first_in s =
      let shown = record s { visible = put s.visible m true } in
      if is_open m s.stack
      then shown
      else let stack = record { modal = m; previously_focused = s.focused } ∷ s.stack in
        record (sync_background stack (record shown { stack = stack })) { focused = first_in }

  unfoldable pub close_modal : ℕ → Modals → Modals
  unfolding sync_background without
  close_modal m s =
      let hidden = record s { visible = put s.visible m false } in
      if not (is_open m s.stack)
      then hidden
      else let stack = without m s.stack in
        refocus (is_top m s.stack) (entry_of m s.stack)
          (sync_background stack (record hidden { stack = stack }))

  -- The callbacks are dropped before the dialog closes, so neither can run twice.
  unfoldable pub close_confirm : Modals → Modals
  unfolding close_modal
  close_confirm s =
      close_modal confirm_modal (record s { confirm_callback = none; cancel_callback = none })

  abbrev pub run_cancel : Option ℕ → Modals → Modals
  run_cancel none s = s
  run_cancel (some f) s = record s { called = f ∷ s.called }

  -- `closeConfirmModal`
  unfoldable pub close_confirm_modal : Bool → Modals → Modals
  unfolding close_confirm
  close_confirm_modal confirmed s =
      let closed = close_confirm s in
      if confirmed then closed else run_cancel s.cancel_callback closed

  abbrev pub run_closer : Option (Modals → Modals) → ℕ → Modals → Modals
  run_closer (some close) m s = close s
  run_closer none m s = close_modal m s

  module _ (page_closer : ℕ → Option (Modals → Modals)) where
    -- `runModalCloser`; the confirm dialog registers `closeConfirmModal`.
    unfoldable pub run_modal_closer : ℕ → Modals → Modals
    unfolding close_modal close_confirm_modal
    run_modal_closer m s =
        if m == confirm_modal then close_confirm_modal false s else run_closer (page_closer m) m s

    abbrev pub run_callback : Option Callback → Modals → Modals
    run_callback none s = s
    run_callback (some (discard m)) s = run_modal_closer m s
    run_callback (some (call f)) s = record s { called = f ∷ s.called }

    unfoldable pub open_confirm_modal : Option Callback → Option ℕ → ℕ → Modals → Modals
    unfolding open_modal
    open_confirm_modal on_confirm on_cancel cancel_button s =
        open_modal confirm_modal cancel_button
          (record s { confirm_callback = on_confirm; cancel_callback = on_cancel })

    -- The OK button.
    unfoldable pub on_ok : Modals → Modals
    unfolding close_confirm_modal run_modal_closer
    on_ok s = run_callback s.confirm_callback (close_confirm_modal true s)

    -- `closeAllModals`, for so many dialogs.
    unfoldable pub close_all_modals : ℕ → Modals → Modals
    unfolding run_modal_closer
    close_all_modals zero s = s
    close_all_modals (suc n) s = elim s.stack [
      | [] ↦ s
      | e ∷ stack ↦ close_all_modals n (run_modal_closer e.modal s)
    ]

    module _ (is_dirty : ℕ → Bool) (cancel_button : ℕ) where
      -- `anyOpenModalDirty`
      abbrev pub any_open_modal_dirty : Modals → Bool
      any_open_modal_dirty s = any (λ e. is_dirty e.modal) s.stack

      unfoldable pub dismiss_modal : ℕ → Modals → Modals
      unfolding open_confirm_modal run_modal_closer
      dismiss_modal m s =
          if is_dirty m
          then open_confirm_modal (some (discard m)) none cancel_button s
          else run_modal_closer m s

      unfoldable pub close_top_modal : Modals → Modals × Bool
      unfolding dismiss_modal
      close_top_modal s = escape dismiss_modal s s.stack
