-- ===== src/Connection.antt =====
-- web/static/js/core/connection.js: whether the page can talk to the API. One function for each
-- stretch of `probe` between awaits, and for the timers and listeners that run in between. The clock
-- is an argument, in milliseconds. The answers of `api` are arguments too.
pub mod Contact
pub mod Recovery
mod Examples
use evuproxy.Common.{
  ℕ, suc, ◌+◌, String, Bool, true, false, not, ◌&&◌, ◌||◌, Option, none, some, is_some, List, [],
  ◌∷◌, any, str_eq, ltb, if◌then◌else◌,
}

abbrev pub retry_ms : ℕ
retry_ms = 5000

-- `connectionKind`, and "error" for a failure that has none.
pub data Kind : Type 0 where
  unreachable auth failing : Kind

pub record Failure : Type 0 where
  pub connection_kind : Option Kind
  pub message : String

pub record Lost : Type 0 where
  pub kind : Kind
  pub detail : String
  pub since : ℕ

-- What the banner shows. The two times are put into words by the browser's locale.
pub record Banner : Type 0 where
  pub hidden : Bool
  pub title : String
  pub detail : String
  pub lost_contact_at : Option ℕ
  pub page_text : String
  pub token_hidden : Bool
  pub note : Option ℕ

pub record Connection : Type 0 where
  pub lost : Option Lost
  pub ever_answered : Bool
  pub loaded_pages : List String
  pub probing : Bool
  pub probe_again : Bool
  pub retrying : Bool
  pub retry_timer : Bool
  pub last_reload_at : ℕ
  pub reload_timer : Bool
  pub api_connection_ok : Bool
  pub has_token : Bool
  pub page : String
  pub banner : Banner
  pub toasts : List String
  -- Probes sent, probes that came back, and the times of `onRecovered`, the last one first.
  pub sent : ℕ
  pub ended : ℕ
  pub reloads : List ℕ

abbrev pub title_of : Kind → String
title_of unreachable = "Can't reach the EvuProxy API"
title_of auth = "The API rejected this browser's token"
title_of failing = "The API is returning errors"

abbrev pub is_auth : Kind → Bool
is_auth auth = true
is_auth _ = false

abbrev pub is_loaded : String → List String → Bool
is_loaded name pages = any (λ p. str_eq p name) pages

-- `pageStateText`
abbrev page_state_text : String → List String → String
page_state_text name pages =
    if str_eq name "token"
    then ""
    else if is_loaded name pages
    then "What's on screen was loaded before then and may be out of date. "
    else "This page hasn't loaded yet. It fills in as soon as the API answers. "

-- `markPages`: the stale tag and the not-loaded tag of a page.
unfoldable pub page_tags : Connection → String → Bool × Bool
page_tags c name =
    let outage = is_some c.lost in
    let loaded = is_loaded name c.loaded_pages in
    if str_eq name "token"
    then (false, false)
    else (outage && loaded, outage && not loaded && not (str_eq name "overview"))

abbrev pub shown_banner : Connection → Option Lost → Banner
shown_banner c none = record c.banner { hidden = true }
shown_banner c (some l) = record c.banner {
  hidden = false;
  title = title_of l.kind;
  detail = l.detail;
  lost_contact_at = if c.ever_answered then some l.since else none;
  page_text = page_state_text c.page c.loaded_pages;
  token_hidden = not (is_auth l.kind);
}

unfoldable pub render_connection_state : Connection → Connection
render_connection_state c = record c { banner = shown_banner c c.lost }

abbrev pub kind_of : Option Kind → Kind
kind_of none = failing
kind_of (some k) = k

abbrev pub detail_for : Kind → Failure → String
detail_for auth e = "The token is wrong or missing. Enter the right one on the API token page."
detail_for _ e = e.message

abbrev pub since_of : ℕ → Option Lost → ℕ
since_of now none = now
since_of now (some l) = l.since

unfoldable pub mark_lost : ℕ → Failure → Connection → Connection
unfolding render_connection_state
mark_lost now e c =
    let kind = kind_of e.connection_kind in
    render_connection_state (record c {
      lost = some (record { kind = kind; detail = detail_for kind e; since = since_of now c.lost });
      api_connection_ok = false;
    })

-- `reloadAfterRecovery`: at most once per retry interval.
unfoldable pub reload_after_recovery : ℕ → Connection → Connection
reload_after_recovery now c =
    let cleared = record c { reload_timer = false } in
    if is_some c.lost
    then cleared
    else if ltb now (c.last_reload_at + retry_ms)
    then record cleared { reload_timer = true }
    else record cleared { last_reload_at = now; reloads = now ∷ c.reloads }

unfoldable pub mark_answering : ℕ → Connection → Connection
unfolding render_connection_state reload_after_recovery
mark_answering now c =
    let was_lost = is_some c.lost in
    let was_restricted = not c.api_connection_ok in
    let back = render_connection_state (record c {
      lost = none;
      ever_answered = true;
      banner = record c.banner { note = none };
      api_connection_ok = true;
    }) in
    let told =
      if was_lost then record back { toasts = "Connection restored" ∷ back.toasts } else back in
    if was_lost || was_restricted then reload_after_recovery now told else told

unfoldable pub finish_retry : ℕ → Connection → Connection
finish_retry now c =
    if not c.retrying
    then c
    else if is_some c.lost
    then record c { retrying = false; banner = record c.banner { note = some now } }
    else record c { retrying = false }

-- `probe` up to its request.
unfoldable pub probe : ℕ → Connection → Connection
unfolding render_connection_state finish_retry
probe now c =
    if c.probing
    then record c { probe_again = true }
    else if not c.has_token
    then finish_retry now (render_connection_state (record c { retry_timer = false; lost = none }))
    else record c { retry_timer = false; probing = true; sent = suc c.sent }

abbrev pub mark_outcome : ℕ → Option Failure → Connection → Connection
mark_outcome now none c = mark_answering now c
mark_outcome now (some e) c = mark_lost now e c

-- The rest of `probe`. An answer from before a change is dropped, and the API is asked again.
unfoldable pub on_probe_end : ℕ → Option Failure → Connection → Connection
unfolding probe mark_lost mark_answering finish_retry
on_probe_end now failure c =
    let back = record c { probing = false; ended = suc c.ended } in
    if c.probe_again
    then probe now (record back { probe_again = false })
    else let told = finish_retry now (mark_outcome now failure back) in
      if is_some told.lost then record told { retry_timer = true } else told

pub data Outcome : Type 0 where
  answered no_answer check : Outcome

abbrev pub is_answered : Outcome → Bool
is_answered answered = true
is_answered _ = false

abbrev pub is_check : Outcome → Bool
is_check check = true
is_check _ = false

-- How another request went.
unfoldable pub on_api_outcome : ℕ → Outcome → Connection → Connection
unfolding probe
on_api_outcome now outcome c =
    let yes = is_answered outcome in
    let seen = if yes then record c { ever_answered = true } else c in
    if not c.has_token
    then c
    else if is_check outcome || (if is_some c.lost then yes else not yes)
    then probe now seen
    else seen

-- The retry timer: a hidden tab waits for another round.
unfoldable pub on_retry_timer : ℕ → Bool → Connection → Connection
unfolding probe
on_retry_timer now hidden c =
    if not c.retry_timer
    then c
    else if hidden
    then c
    else probe now (record c { retry_timer = false })

unfoldable pub on_reload_timer : ℕ → Connection → Connection
unfolding reload_after_recovery
on_reload_timer now c = if c.reload_timer then reload_after_recovery now c else c

unfoldable pub on_retry_click : ℕ → Connection → Connection
unfolding probe
on_retry_click now c = if c.retrying then c else probe now (record c { retrying = true })

-- The tab comes back, or the browser goes online.
unfoldable pub probe_if_lost : ℕ → Bool → Connection → Connection
unfolding probe
probe_if_lost now hidden c = if is_some c.lost && not hidden then probe now c else c

pub data Event : Type 0 where
  probe_end : Option Failure → Event
  api_outcome : Outcome → Event
  retry_timer_fires : Bool → Event
  reload_timer_fires : Event
  retry_click : Event
  back_on_screen : Bool → Event
  page_shown : String → Event
  page_loaded : String → Event
  -- What other modules do: the nav gate, and the API token page.
  gate_read : Bool → Event
  token_stored : Bool → Event

unfoldable pub handle : ℕ → Event → Connection → Connection
unfolding on_probe_end on_api_outcome on_retry_timer on_reload_timer on_retry_click probe_if_lost
handle now (probe_end failure) c = if c.probing then on_probe_end now failure c else c
handle now (api_outcome outcome) c = on_api_outcome now outcome c
handle now (retry_timer_fires hidden) c = on_retry_timer now hidden c
handle now reload_timer_fires c = on_reload_timer now c
handle now retry_click c = on_retry_click now c
handle now (back_on_screen hidden) c = probe_if_lost now hidden c
handle now (page_shown name) c = render_connection_state (record c { page = name })
handle now (page_loaded name) c = record c { loaded_pages = name ∷ c.loaded_pages }
handle now (gate_read ok) c = record c { api_connection_ok = ok }
handle now (token_stored kept) c = record c { has_token = kept }

unfoldable pub start : Bool → Connection
start has_token = record {
  lost = none;
  ever_answered = false;
  loaded_pages = [];
  probing = false;
  probe_again = false;
  retrying = false;
  retry_timer = false;
  last_reload_at = 0;
  reload_timer = false;
  api_connection_ok = false;
  has_token = has_token;
  page = "overview";
  banner = record {
    hidden = true;
    title = "";
    detail = "";
    lost_contact_at = none;
    page_text = "";
    token_hidden = true;
    note = none;
  };
  toasts = [];
  sent = 0;
  ended = 0;
  reloads = [];
}

-- A run of the page: each event with its time.
abbrev pub run : Connection → List (ℕ × Event) → Connection
run c [] = c
run c ((now, e) ∷ es) = run (handle now e c) es
