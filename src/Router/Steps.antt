-- ===== src/Router/Steps.antt =====
-- What happens to the router, one event after another.
use evuproxy.Common.{
  ℕ, String, Bool, true, false, Option, none, some, List, [], ◌∷◌, get_elem?, remove_at,
}
use evuproxy.Router.{Hash, Dialog, Nav, Router}
use evuproxy.Router.Enter.{
  navigate, confirm_leaving, keep_editing, resume, on_hash, reload_current_page, refresh_after_undo,
}

-- `moved` is a new hash, for which `hash_change` comes later. `resumed` is the end of an await, by the
-- place of the navigation among those that wait. `page_work` is what pages do to forms and
-- dialogs, at any time and to any of them: one that waited for the host before it opens a dialog does so
-- also after it was left.
pub data Event : Type 0 where
  go : String → Event
  moved : Hash → Event
  hash_change confirmed kept_editing reloaded undone : Event
  resumed : ℕ → Bool → Event
  token_is read_only_is : Bool → Event
  page_work : List (String × Bool) → List (Dialog × Bool) → Event
  check_passed : Event

abbrev pub resume_with : Option Nav → ℕ → Bool → Router → Router
resume_with none i ok s = s
resume_with (some nav) i ok s = resume nav ok (record s { waiting = remove_at i s.waiting })

unfoldable pub step : Event → Router → Router
unfolding navigate on_hash confirm_leaving keep_editing reload_current_page refresh_after_undo
    resume
step (go name) s = navigate name false s
step (moved h) s = record s { hash = h }
step hash_change s = on_hash s
step confirmed s = confirm_leaving s
step kept_editing s = keep_editing s
step reloaded s = reload_current_page s
step undone s = refresh_after_undo s
step (resumed i ok) s = resume_with (get_elem? s.waiting i) i ok s
step (token_is b) s = record s { has_token = b }
step (read_only_is b) s = record s { read_only = b }
step (page_work forms dialogs) s = record s { forms = forms; dialogs = dialogs }
step check_passed s = record s { passed_check = true }

unfoldable pub run : List Event → Router → Router
unfolding step
run [] s = s
run (e ∷ events) s = run events (step e s)

-- When the page was opened, at a hash.
abbrev pub opened : Hash → Bool → Router
opened h token = record {
  nav_seq = 0;
  current_route = none;
  committed_hash = record { slash = false; path = []; query = none };
  self_set_hash = none;
  hash = h;
  forms = [];
  dialogs = [];
  asked = none;
  has_token = token;
  read_only = false;
  passed_check = false;
  overview_polling = false;
  routes_polling = false;
  topology_polling = false;
  waiting = [];
  loading = 0;
  refreshed = [];
}
