-- ===== src/Router.antt =====
-- web/static/js/core/router.js: which page is on screen, the question before unsaved edits are lost,
-- the location's hash, and the loads of a page, which a later navigation overtakes. Of the pages' own
-- work the model keeps that they are refreshed and polled. A hash is held split at its slashes and at
-- its question mark.
pub mod Enter
pub mod Steps
pub mod Arrival
pub mod Run
pub mod Guard
pub mod Goes
mod Kept
pub mod Current
mod Examples
use evuproxy.Common.{
  ℕ, String, Bool, true, false, not, ◌&&◌, ◌||◌, Option, none, some, List, [], ◌∷◌, any, str_eq,
  if◌then◌else◌,
}

-- `raw` without its `#`: whether a slash comes first, the segments, and what follows the `?`.
pub record Hash : Type 0 where
  pub slash : Bool
  pub path : List String
  pub query : Option String

abbrev eq_path : List String → List String → Bool
eq_path [] [] = true
eq_path [] (q ∷ qs) = false
eq_path (p ∷ ps) [] = false
eq_path (p ∷ ps) (q ∷ qs) = str_eq p q && eq_path ps qs

abbrev eq_query : Option String → Option String → Bool
eq_query none none = true
eq_query none (some b) = false
eq_query (some a) none = false
eq_query (some a) (some b) = str_eq a b

abbrev pub eq_hash : Hash → Hash → Bool
eq_hash h k =
    (if h.slash then k.slash else not k.slash) && eq_path h.path k.path && eq_query h.query k.query

abbrev pub or_overview : String → String
or_overview name = if str_eq name "" then "overview" else name

abbrev pub first_segment : List String → String
first_segment [] = "overview"
first_segment (name ∷ rest) = or_overview name

-- `"#/" + name`
abbrev pub hash_to : String → Hash
hash_to name = record { slash = true; path = name ∷ []; query = none }

abbrev pub pages : List String
pages =
    "overview" ∷ "settings" ∷ "token" ∷ "peers" ∷ "routes" ∷ "topology" ∷ "inbound" ∷ "geoblocking"
    ∷ "pending" ∷ "stats" ∷ "logs" ∷ []

abbrev pub is_in : String → List String → Bool
is_in name names = any (λ n. str_eq n name) names

-- The dialogs that the router closes by name, and the others.
pub data Dialog : Type 0 where
  probe route_editor inbound_editor peer_editor other_dialog : Dialog

-- Where a navigation waits: for the gate, the preferences, or what its page loads.
pub data Wait : Type 0 where
  at_gate at_prefs at_load : Wait

pub record Nav : Type 0 where
  pub seq : ℕ
  pub name : String
  pub wait : Wait

pub record Router : Type 0 where
  pub nav_seq : ℕ
  pub current_route : Option String
  pub committed_hash : Hash
  pub self_set_hash : Option Hash
  pub hash : Hash
  -- The pages' forms and the open dialogs, each with whether it is dirty.
  pub forms : List (String × Bool)
  pub dialogs : List (Dialog × Bool)
  -- The target of the question that is open.
  pub asked : Option String
  pub has_token : Bool
  pub read_only : Bool
  pub passed_check : Bool
  pub overview_polling : Bool
  pub routes_polling : Bool
  pub topology_polling : Bool
  -- The navigations that wait, and those that show their page as loading.
  pub waiting : List Nav
  pub loading : ℕ
  -- Each refresh of a page, with the route that was on screen.
  pub refreshed : List (String × Option String)

abbrev pub form_dirty : String → List (String × Bool) → Bool
form_dirty route [] = false
form_dirty route ((r, dirty) ∷ forms) =
    let rest = form_dirty route forms in if str_eq r route then dirty else rest

abbrev pub clear_form : String → List (String × Bool) → List (String × Bool)
clear_form route [] = []
clear_form route ((r, dirty) ∷ forms) =
    let rest = clear_form route forms in
    if str_eq r route then (r, false) ∷ forms else (r, dirty) ∷ rest

abbrev pub is_dirty_at : Option String → List (String × Bool) → Bool
is_dirty_at none forms = false
is_dirty_at (some route) forms = form_dirty route forms

abbrev pub clear_at : Option String → List (String × Bool) → List (String × Bool)
clear_at none forms = forms
clear_at (some route) forms = clear_form route forms

abbrev pub is_route : String → Option String → Bool
is_route name none = false
is_route name (some route) = str_eq name route

abbrev pub any_dirty : List (Dialog × Bool) → Bool
any_dirty [] = false
any_dirty ((d, dirty) ∷ dialogs) = dirty || any_dirty dialogs

unfoldable pub has_unsaved_edits : String → Router → Bool
has_unsaved_edits target s =
    is_dirty_at s.current_route s.forms
    || (not (is_route target s.current_route) && any_dirty s.dialogs)

-- The hash is put back, whether or not it had moved.
abbrev pub restore_committed_hash : Router → Router
restore_committed_hash s =
    if eq_hash s.hash s.committed_hash then s else record s { hash = s.committed_hash }

unfoldable pub discard_edits_for : String → Router → Router
discard_edits_for target s = record s {
  forms = clear_at s.current_route s.forms;
  dialogs = if is_route target s.current_route then s.dialogs else [];
}

-- `closeConfirmModal` counts as staying when the router's question is open.
abbrev pub close_confirm : Router → Router
close_confirm s = elim s.asked [
  | none ↦ s
  | some _ ↦ restore_committed_hash (record s { asked = none })
]

-- `parseHashNavParams` is left out: `query` has what it reads.
unfoldable pub show_page : String → Router → Router
show_page name s =
    if str_eq (first_segment s.hash.path) name
    then record s { committed_hash = s.hash }
    else record s {
      self_set_hash = some (hash_to name);
      hash = hash_to name;
      committed_hash = hash_to name;
    }

abbrev read_only_pages : List String
read_only_pages = "overview" ∷ "stats" ∷ "logs" ∷ "token" ∷ []

abbrev pub page_needs_write_token : String → Router → Bool
page_needs_write_token name s = s.read_only && not (is_in name read_only_pages)
