-- ===== src/Router/Examples.antt =====
-- An editor of a peer with unsaved edits, and where the operator goes from there.
use mathlib.Core.Path.{subst}
use evuproxy.Common.{◌≡◌, refl, String, true, false, none, some, List, [], ◌∷◌, All}
use evuproxy.Router.{peer_editor, hash_to}
use evuproxy.Router.Enter.{page_for}
use evuproxy.Router.Steps.{
  Event, go, hash_change, reloaded, resumed, token_is, page_work, step, run, opened,
}
use evuproxy.Router.Arrival.{Fits, IsValid}
use evuproxy.Router.Run.{stays_current}
use evuproxy.Router.Guard.{LosesNothing, IsAllowed}
use evuproxy.Router.Goes.{GoesOrAsks}
use evuproxy.Router.Kept.{asks_first}

abbrev editing : List Event
editing =
    go "peers"
    ∷ hash_change
    ∷ resumed 0 true
    ∷ resumed 0 true
    ∷ resumed 0 true
    ∷ page_work [] ((peer_editor, true) ∷ [])
    ∷ []

stays_current_example : IsValid 0 (run editing (opened (hash_to "overview") true))
stays_current_example = stays_current (hash_to "overview") true editing

on_screen :
    (run editing (opened (hash_to "overview") true)).refreshed ≡ ("peers", some "peers") ∷ []
unfolding run
on_screen = refl

asked_for : (run editing (step (go "routes") (opened (hash_to "overview") true))).asked ≡ none
unfolding run
asked_for = refl

question :
    (step (go "routes") (run editing (opened (hash_to "overview") true))).asked ≡ some "routes"
unfolding run
question = refl

still-IsAllowed : IsAllowed (run editing (opened (hash_to "overview") true))
unfolding page_for run
still-IsAllowed route e =
    subst (λ r. page_for r (run editing (opened (hash_to "overview") true)) ≡ r) (peers route e)
      refl
  where
    peers : (r : String) → some "peers" ≡ some r → "peers" ≡ r
    peers r e = cc e

own_dialogs :
    All
      (Fits (run editing (opened (hash_to "overview") true)).current_route)
      (run editing (opened (hash_to "overview") true)).dialogs
unfolding run
own_dialogs = (refl, tt)

asks_first_example :
    LosesNothing
      (run editing (opened (hash_to "overview") true))
      (step (go "routes") (run editing (opened (hash_to "overview") true)))
    × GoesOrAsks
        (go "routes")
        (run editing (opened (hash_to "overview") true))
        (step (go "routes") (run editing (opened (hash_to "overview") true)))
asks_first_example =
    asks_first (hash_to "overview") true editing (go "routes") tt own_dialogs still-IsAllowed

-- Without a token the reload of the page on screen goes to the token's page, and the editor closes
-- with its edits.
editor_lost :
    (run (token_is false ∷ reloaded ∷ []) (run editing (opened (hash_to "overview") true))).dialogs
    ≡ []
unfolding run
editor_lost = refl

-- A peer's editor that opens after an await, when the operator has gone on to the routes, closes with
-- its edits, unasked, when the routes are opened again.
abbrev late : List Event
late = go "routes" ∷ page_work [] ((peer_editor, true) ∷ []) ∷ go "routes" ∷ []

late_editor_lost :
    ((run late (opened (hash_to "overview") true)).dialogs ≡ [])
    × ((run late (opened (hash_to "overview") true)).asked ≡ none)
unfolding run
late_editor_lost = (refl, refl)
