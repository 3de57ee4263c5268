-- ===== src/Modal/Inert.antt =====
-- What is inert behind the dialogs.
use mathlib.Core.Path.{subst}
use evuproxy.Common.{
  ℕ, ◌≡◌, refl, sym, ◌∙◌, ap, inl, inr, Bool, true, false, not, ◌||◌, Option, none, some, List, [],
  ◌∷◌, ◌==◌, if◌then◌else◌, if-either, Bool-cases, eq_sound, arith,
}
use evuproxy.Modal.Stack.{stack-inert_each}
use evuproxy.Modal.{
  Entry, Modals, mem, put, is_open, clear_each, clear_background_inert, mark, inert_each, without,
  sync_background, open_modal, close_modal, is_top, entry_of, refocus,
}

-- An element that this module did not mark is as the page made it, and no other was marked.
pub record IsMarked (own : ℕ → Bool) (s : Modals) : Type 0 where
  pub as_is : (x : ℕ) → mem x s.inerted_by_us ≡ false → s.inert x ≡ own x
  pub ours : (x : ℕ) → mem x s.inerted_by_us ≡ true → own x ≡ false

abbrev behind : (ℕ → List ℕ) → List Entry → ℕ → Bool
behind around [] x = false
behind around (e ∷ stack) x = mem x (around e.modal)

abbrev is_empty : List Entry → Bool
is_empty [] = true
is_empty (e ∷ stack) = false

-- Exactly what stands around the topmost dialog is inert, next to what the page itself made inert.
pub record IsIsolated (around : ℕ → List ℕ) (own : ℕ → Bool) (s : Modals) : Type 0 where
  pub outside : (x : ℕ) → s.inert x ≡ own x || behind around s.stack x
  pub locked : s.scroll_locked ≡ not (is_empty s.stack)
  pub marked : IsMarked own s

or_right : (a : Bool) {b : Bool} → b ≡ true → a || b ≡ true
or_right true e = refl
or_right false e = e

or_assoc : (a b c : Bool) → (a || b) || c ≡ a || (b || c)
or_assoc true b c = refl
or_assoc false b c = refl

or_false : (a : Bool) → a || false ≡ a
or_false true = refl
or_false false = refl

clear_each-own :
    (own : ℕ → Bool) (es : List ℕ) (inert : ℕ → Bool)
    → ((x : ℕ) → mem x es ≡ false → inert x ≡ own x)
    → ((x : ℕ) → mem x es ≡ true → own x ≡ false)
    → (x : ℕ) → clear_each es inert x ≡ own x
unfolding clear_each
clear_each-own own [] inert as_is ours x = as_is x refl
clear_each-own own (e ∷ es) inert as_is ours x =
    clear_each-own own es (put inert e false)
      (λ y out. elim (Bool-cases (e == y)) [
        | inl same ↦ rw same (sym (ours y (rw same refl)))
        | inr n ↦ rw n (as_is y (rw n out))
      ])
      (λ y m. ours y (or_right (e == y) m)) x

mark-inert : (e : ℕ) (s : Modals) (x : ℕ) → (mark e s).inert x ≡ s.inert x || (e == x)
unfolding mark
mark-inert e s x =
    if-either (λ (t : Modals). t.inert x ≡ s.inert x || (e == x)) (s.inert e)
      (λ already. elim (Bool-cases (e == x)) [
        | inl same ↦
            let here = subst (λ z. s.inert z ≡ true) (eq_sound e x same) already in
            rw same rw here refl
        | inr n ↦ rw n (sym (or_false (s.inert x)))
      ])
      (λ _. elim (Bool-cases (e == x)) [
        | inl same ↦ rw same (sym (or_right (s.inert x) refl))
        | inr n ↦ rw n (sym (or_false (s.inert x)))
      ])

put_true-own :
    (b inert own more : Bool)
    → b || more ≡ false
    → (more ≡ false → inert ≡ own)
    → (if b then true else inert) ≡ own
put_true-own true inert own more out as_is = ground arith
put_true-own false inert own more out as_is = as_is out

mark-IsMarked : (own : ℕ → Bool) (e : ℕ) (s : Modals) → IsMarked own s → IsMarked own (mark e s)
unfolding mark
mark-IsMarked own e s m =
    if-either (IsMarked own) (s.inert e) (λ _. m)
      (λ n. record {
        as_is = λ x out.
            put_true-own (e == x) (s.inert x) (own x) (mem x s.inerted_by_us) out (m.as_is x);
        ours = λ x within. elim (Bool-cases (mem x s.inerted_by_us)) [
          | inl y ↦ m.ours x y
          | inr k ↦
              let same =
                eq_sound e x (sym (or_false (e == x)) ∙ ap (λ b. (e == x) || b) (sym k) ∙ within) in
              sym (m.as_is x k) ∙ subst (λ z. s.inert z ≡ false) same n
        ];
      })

inert_each-IsMarked :
    (own : ℕ → Bool) (es : List ℕ) (s : Modals) → IsMarked own s → IsMarked own (inert_each es s)
unfolding inert_each
inert_each-IsMarked own [] s m = m
inert_each-IsMarked own (e ∷ es) s m =
    inert_each-IsMarked own es (mark e s) (mark-IsMarked own e s m)

inert_each-inert :
    (es : List ℕ) (s : Modals) (x : ℕ) → (inert_each es s).inert x ≡ s.inert x || mem x es
unfolding inert_each
inert_each-inert [] s x = sym (or_false (s.inert x))
inert_each-inert (e ∷ es) s x =
    inert_each-inert es (mark e s) x
    ∙ ap (λ b. b || mem x es) (mark-inert e s x)
    ∙ or_assoc (s.inert x) (e == x) (mem x es)

clear-inert :
    (own : ℕ → Bool) (s : Modals)
    → IsMarked own s
    → (x : ℕ) → (clear_background_inert s).inert x ≡ own x
unfolding clear_background_inert
clear-inert own s m = clear_each-own own s.inerted_by_us s.inert m.as_is m.ours

clear-IsMarked :
    (own : ℕ → Bool) (s : Modals) → IsMarked own s → IsMarked own (clear_background_inert s)
unfolding clear_background_inert
clear-IsMarked own s m = record { as_is = λ x _. clear-inert own s m x; ours = λ x e. ground arith }

sync_background-IsIsolated :
    (around : ℕ → List ℕ) (own : ℕ → Bool) (stack : List Entry) (s : Modals)
    → s.stack ≡ stack
    → IsMarked own s
    → IsIsolated around own (sync_background around stack s)
unfolding sync_background clear_background_inert
sync_background-IsIsolated around own [] s at_stack m =
    let k = clear-IsMarked own s m in
    record {
      outside = λ x.
          clear-inert own s m x
          ∙ sym (or_false (own x))
          ∙ ap (λ st. own x || behind around st x) (sym at_stack);
      locked = ap (λ st. not (is_empty st)) (sym at_stack);
      marked = record { as_is = k.as_is; ours = k.ours };
    }
sync_background-IsIsolated around own (e ∷ stack) s at_stack m =
    let cleared = clear_background_inert s in
    let k = inert_each-IsMarked own (around e.modal) cleared (clear-IsMarked own s m) in
    let kept = sym (stack-inert_each (around e.modal) cleared ∙ at_stack) in
    record {
      outside = λ x.
          inert_each-inert (around e.modal) cleared x
          ∙ ap (λ b. b || mem x (around e.modal)) (clear-inert own s m x)
          ∙ ap (λ st. own x || behind around st x) kept;
      locked = ap (λ st. not (is_empty st)) kept;
      marked = record { as_is = k.as_is; ours = k.ours };
    }

open_modal-IsIsolated :
    (around : ℕ → List ℕ) (own : ℕ → Bool) (m first_in : ℕ) (s : Modals)
    → IsIsolated around own s
    → IsIsolated around own (open_modal around m first_in s)
unfolding open_modal
open_modal-IsIsolated around own m first_in s i =
    let stack = record { modal = m; previously_focused = s.focused } ∷ s.stack in
    let k =
      sync_background-IsIsolated around own stack
        (record s { visible = put s.visible m true; stack = stack }) refl
        (record { as_is = i.marked.as_is; ours = i.marked.ours }) in
    if-either (IsIsolated around own) (is_open m s.stack)
      (λ _. record {
        outside = i.outside;
        locked = i.locked;
        marked = record { as_is = i.marked.as_is; ours = i.marked.ours };
      })
      (λ _. record {
        outside = k.outside;
        locked = k.locked;
        marked = record { as_is = k.marked.as_is; ours = k.marked.ours };
      })

refocus-IsIsolated :
    (around : ℕ → List ℕ) (own : ℕ → Bool) (top : Bool) (entry : Option Entry) (s : Modals)
    → IsIsolated around own s
    → IsIsolated around own (refocus top entry s)
refocus-IsIsolated around own true (some e) s i = record {
  outside = i.outside;
  locked = i.locked;
  marked = record { as_is = i.marked.as_is; ours = i.marked.ours };
}
refocus-IsIsolated around own true none s i = i
refocus-IsIsolated around own false entry s i = i

close_modal-IsIsolated :
    (around : ℕ → List ℕ) (own : ℕ → Bool) (m : ℕ) (s : Modals)
    → IsIsolated around own s
    → IsIsolated around own (close_modal around m s)
unfolding close_modal
close_modal-IsIsolated around own m s i =
    let stack = without m s.stack in
    let k =
      sync_background-IsIsolated around own stack
        (record s { visible = put s.visible m false; stack = stack }) refl
        (record { as_is = i.marked.as_is; ours = i.marked.ours }) in
    if-either (IsIsolated around own) (not (is_open m s.stack))
      (λ _. record {
        outside = i.outside;
        locked = i.locked;
        marked = record { as_is = i.marked.as_is; ours = i.marked.ours };
      })
      (λ _. refocus-IsIsolated around own (is_top m s.stack) (entry_of m s.stack) _ k)

pub data Action : Type 0 where
  opens : ℕ → ℕ → Action
  closes : ℕ → Action

abbrev pub act_all : (ℕ → List ℕ) → Modals → List Action → Modals
act_all around s [] = s
act_all around s (opens m first_in ∷ actions) =
    act_all around (open_modal around m first_in s) actions
act_all around s (closes m ∷ actions) = act_all around (close_modal around m s) actions

-- Whatever dialogs are opened and closed, in any order: exactly what stands around the topmost one is
-- inert, next to what the page itself made inert, and the page scrolls only while none is open.
pub act_all-IsIsolated :
    (around : ℕ → List ℕ) (own : ℕ → Bool) (actions : List Action) (s : Modals)
    → IsIsolated around own s
    → IsIsolated around own (act_all around s actions)
act_all-IsIsolated around own [] s i = i
act_all-IsIsolated around own (opens m first_in ∷ actions) s i =
    act_all-IsIsolated around own actions _ (open_modal-IsIsolated around own m first_in s i)
act_all-IsIsolated around own (closes m ∷ actions) s i =
    act_all-IsIsolated around own actions _ (close_modal-IsIsolated around own m s i)
