-- ===== src/Modal/Examples.antt =====
-- Two dialogs over a page with a sidebar, a header that is inert already, and a footer.
use evuproxy.Common.{
  ℕ, ◌≡◌, refl, Bool, true, false, ◌||◌, Option, none, List, [], ◌∷◌, ◌==◌, length, arith,
}
use evuproxy.Modal.{Modals, close_all_modals, close_top_modal}
use evuproxy.Modal.Inert.{IsIsolated, Action, opens, closes, act_all, act_all-IsIsolated}
use evuproxy.Modal.Stack.{Closes, close_all_modals-ends}
use evuproxy.Modal.Discard.{Asks, close_top_modal-Asks}

abbrev around : ℕ → List ℕ
around m = 20 ∷ 21 ∷ 22 ∷ []

abbrev own : ℕ → Bool
own x = x == 21

abbrev page : Modals
page = record {
  stack = [];
  visible = λ m. false;
  focused = 30;
  inert = own;
  inerted_by_us = [];
  scroll_locked = false;
  confirm_callback = none;
  cancel_callback = none;
  called = [];
}

or_false : (b : Bool) → b ≡ b || false
or_false true = refl
or_false false = refl

page-IsIsolated : IsIsolated around own page
page-IsIsolated = record {
  outside = λ x. or_false (own x);
  locked = refl;
  marked = record { as_is = λ x _. refl; ours = λ x e. ground arith };
}

abbrev twice : List Action
twice = opens 5 31 ∷ opens 6 32 ∷ closes 5 ∷ []

act_all-IsIsolated_example : IsIsolated around own (act_all around page twice)
act_all-IsIsolated_example = act_all-IsIsolated around own twice page page-IsIsolated

abbrev no_closers : ℕ → Option (Modals → Modals)
no_closers m = none

no_closers-Closes : Closes no_closers
no_closers-Closes m close s e = ground arith

abbrev two_open : Modals
two_open = record page {
  stack =
      record { modal = 6; previously_focused = 31 }
      ∷ record { modal = 5; previously_focused = 30 }
      ∷ [];
}

close_all_modals-ends_example :
    (close_all_modals around no_closers (length two_open.stack) two_open).stack ≡ []
close_all_modals-ends_example = close_all_modals-ends around no_closers two_open no_closers-Closes

close_top_modal-Asks_example :
    ((close_top_modal around no_closers (λ m. m == 6) 33 two_open).1 ≡ true)
    × Asks around no_closers
        (record { modal = 5; previously_focused = 30 } ∷ [])
        two_open
        (close_top_modal around no_closers (λ m. m == 6) 33 two_open).0
close_top_modal-Asks_example =
    close_top_modal-Asks around no_closers (λ m. m == 6) 33
      (record { modal = 6; previously_focused = 31 })
      (record { modal = 5; previously_focused = 30 } ∷ []) two_open no_closers-Closes refl refl refl
