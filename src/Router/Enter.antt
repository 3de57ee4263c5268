-- ===== src/Router/Enter.antt =====
-- `navigate`: what runs on the click, and the stretches after each of its awaits.
use evuproxy.Common.{
  suc, ◌-◌, String, Bool, true, false, not, ◌&&◌, ◌||◌, Option, none, some, List, [], ◌∷◌, ◌==◌,
  str_eq, if◌then◌else◌,
}
use evuproxy.Router.{
  eq_hash, first_segment, pages, is_in, Dialog, probe, route_editor, inbound_editor, peer_editor,
  other_dialog, Wait, at_gate, at_prefs, at_load, Nav, Router, clear_at, is_route,
  has_unsaved_edits, discard_edits_for, close_confirm, show_page, page_needs_write_token,
}

abbrev pub known_page : String → String
known_page name = if is_in name pages then name else "overview"

abbrev pub without_token : String → Router → String
without_token name s = if not (str_eq name "token") && not s.has_token then "token" else name

abbrev pub allowed_page : String → Router → String
allowed_page name s = if page_needs_write_token name s then "overview" else name

-- Which page a navigation to `name` ends on.
unfoldable pub page_for : String → Router → String
page_for name s = allowed_page (without_token (known_page name) s) s

-- Whether a dialog stays open on the way to `name`.
abbrev pub stays_open : String → Dialog → Bool
stays_open name probe = str_eq name "routes"
stays_open name route_editor = str_eq name "routes"
stays_open name inbound_editor = str_eq name "inbound"
stays_open name peer_editor = str_eq name "peers"
stays_open name other_dialog = true

abbrev pub close_editors : String → List (Dialog × Bool) → List (Dialog × Bool)
close_editors name [] = []
close_editors name ((d, dirty) ∷ dialogs) =
    let rest = close_editors name dialogs in if stays_open name d then (d, dirty) ∷ rest else rest

abbrev pub leave : String → Router → Router
leave name s = if is_route name s.current_route then s else record s {
  forms = clear_at s.current_route s.forms;
  passed_check = false;
  current_route = some name;
}

-- The polls that stop: topology's on every navigation.
abbrev pub stop_polls : String → Router → Router
stop_polls name s = record s {
  routes_polling = str_eq name "routes" && s.routes_polling;
  topology_polling = false;
  overview_polling = str_eq name "overview" && s.overview_polling;
}

-- Up to the first await. `wait` is where the navigation goes on from.
unfoldable pub enter : String → Bool → Router → Router
unfolding show_page
enter name keep_view s =
    let begun = record s { nav_seq = suc s.nav_seq } in
    let closed = if keep_view then begun else close_confirm begun in
    let gone = leave name (record closed { dialogs = close_editors name closed.dialogs }) in
    let shown = show_page name (stop_polls name gone) in
    let wait =
      if not (str_eq name "overview") && not (str_eq name "token") then at_gate else at_prefs in
    record shown {
      waiting = record { seq = shown.nav_seq; name = name; wait = wait } ∷ shown.waiting;
      loading = suc shown.loading;
    }

-- `navigate` with `discard` set: nothing is asked.
unfoldable pub navigate_discarding : String → Router → Router
unfolding page_for enter
navigate_discarding name s = enter (page_for name s) false s

unfoldable pub navigate : String → Bool → Router → Router
unfolding has_unsaved_edits page_for enter
navigate name keep_view s =
    let target = known_page name in
    if has_unsaved_edits target s
    then record s { asked = some target }
    else enter (page_for name s) keep_view s

-- The answers to the question.
unfoldable pub confirm_leaving : Router → Router
unfolding discard_edits_for navigate_discarding
confirm_leaving s = elim s.asked [
  | none ↦ s
  | some target ↦ navigate_discarding target (discard_edits_for target (record s { asked = none }))
]

unfoldable pub keep_editing : Router → Router
keep_editing s = close_confirm s

-- The pages that are awaited before the navigation goes on.
abbrev pub awaited_pages : List String
awaited_pages = "overview" ∷ "settings" ∷ "token" ∷ "peers" ∷ "routes" ∷ "geoblocking" ∷ []

abbrev pub finish : Router → Router
finish s = record s { loading = s.loading - 1 }

abbrev pub wait_on : Nav → Wait → Router → Router
wait_on nav w s = record s { waiting = record nav { wait = w } ∷ s.waiting }

-- The page's own refresh starts.
abbrev pub refresh_page : String → Router → Router
refresh_page name s = record s {
  refreshed = (name, s.current_route) ∷ s.refreshed;
  topology_polling = str_eq name "topology" || s.topology_polling;
}

abbrev pub start_polls : String → Router → Router
start_polls name s = record s {
  overview_polling = str_eq name "overview" || s.overview_polling;
  routes_polling = str_eq name "routes" || s.routes_polling;
}

-- A navigation goes on, `ok` being what the gate answered. It is no longer among those that wait.
unfoldable pub after_gate : Nav → Bool → Router → Router
unfolding navigate
after_gate nav ok s =
    if not (nav.seq == s.nav_seq)
    then finish s
    else if not ok
    then finish s
    else if page_needs_write_token nav.name s
    then finish (navigate "overview" false s)
    else wait_on nav at_prefs s

unfoldable pub after_prefs : Nav → Router → Router
after_prefs nav s =
    if not (nav.seq == s.nav_seq)
    then finish s
    else if is_in nav.name awaited_pages
    then wait_on nav at_load (refresh_page nav.name s)
    else finish (refresh_page nav.name s)

unfoldable pub after_load : Nav → Router → Router
after_load nav s = if not (nav.seq == s.nav_seq) then finish s else finish (start_polls nav.name s)

unfoldable pub resume : Nav → Bool → Router → Router
unfolding after_gate after_prefs after_load
resume nav ok s = elim nav.wait [
  | at_gate ↦ after_gate nav ok s
  | at_prefs ↦ after_prefs nav s
  | at_load ↦ after_load nav s
]

abbrev pub is_own_hash : Router → Bool
is_own_hash s = elim s.self_set_hash [ none ↦ false | some h ↦ eq_hash s.hash h ]

unfoldable pub on_hash : Router → Router
unfolding navigate
on_hash s =
    let seen = record s { self_set_hash = none } in
    if is_own_hash s then seen else navigate (first_segment s.hash.path) false seen

-- The page on screen loads again, unless that would lose edits.
abbrev pub reload_at : Bool → Option String → Router → Router
unfolding navigate has_unsaved_edits
reload_at keep_view none s = s
reload_at keep_view (some route) s =
    if has_unsaved_edits route s then s else navigate route keep_view s

unfoldable pub reload_current_page : Router → Router
reload_current_page s = reload_at true s.current_route s

-- What an undo runs, as `setUndoPageRefresh` has it.
unfoldable pub refresh_after_undo : Router → Router
refresh_after_undo s = reload_at false s.current_route s
