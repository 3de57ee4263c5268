-- ===== src/Lib.antt =====
-- EvuProxy's browser client, as a verification library.
--
-- EvuProxy is a host program in Go (internal/, cmd/) with a browser client in JavaScript
-- (web/static/js). The client edits the host's config over an HTTP API, checks it, applies it, and
-- keeps a confirmation timer from locking the operator out. These files model the client's core
-- logic. A function that awaits is split at its awaits: one function for each stretch in between,
-- and every other handler may run between two stretches. What the browser and the host answer is an
-- argument, and so is the clock.
--
-- Parts, and how they interact:
--   Json           JSON values as the client holds them after `JSON.parse`.
--   Lockout        web/static/js/core/lockout.js: the risks in a check's result, and their signature.
--   ApplySession   web/static/js/core/apply_session.js: the panel of a running confirmation. `render`,
--                  `tick`, `adopt` and `act` keep their names.
--   ApplyBar       web/static/js/core/apply_bar.js: the Apply flow, from the click through the mode, the
--                  check (Lockout) and POST /v1/reload to the session that it opens (ApplySession).
--                  ApplyBar.Steps has the handlers, and `step` sends an event to its handler.
--                  ApplyBar.Host has how internal/api/reload_handlers.go takes the request.
--   ConfigSave     web/static/js/core/config_save.js: `saveConfigEdit` against the config handlers of
--                  internal/api/config_handlers.go, with other writers and lost requests between any
--                  two of its requests. ConfigSave.Rows has `resolveListIndex`, and
--                  ConfigSave.Atomic the host that saves are compared with.
--   ConfigChanges  web/static/js/core/config_changes.js: comparing two configs, pairing their rows, and
--                  the edits (for ConfigSave) that take one change back or make it again.
--   Connection     web/static/js/core/connection.js: the probe, the banner and the reload after an
--                  outage, driven by the outcomes that web/static/js/core/api.js reports.
--   Modal          web/static/js/core/modal.js: the stack of dialogs, what is inert behind them, and
--                  the question before unsaved edits are dropped.
--   Toast          web/static/js/core/toast.js: the timer of the one toast, its pauses, and leaving.
--   Tabs           web/static/js/core/tabs.js: the tab stop of a list of tabs, and the arrow keys.
--   Loading        web/static/js/core/loading.js: overlapping loads of one region.
--   Dirty          web/static/js/core/dirty.js: the tracker of a form's unsaved edits.
--   Inbound        web/static/js/pages/inbound.js: the edits (for ConfigSave) of the inbound rules, the
--                  undo of a removal, and the checks of the form.
--   Net            web/static/js/core/net.js: IPv4 addresses and their ranges, as texts and as 32-bit
--                  numbers.
--   Diff           web/static/js/pages/pending.js: the line diff of the rules on the host and the rules
--                  to apply, its rows in both views, and how many places it changes.
--   Router         web/static/js/core/router.js: the page on screen, the question before unsaved edits
--                  are lost, the hash, and the loads that a later navigation overtakes. Router.Enter
--                  has `navigate` by its awaits, and Router.Steps the events.
--   Topology       web/static/js/pages/topology.js: the routes of a large config, grouped by peer.
--   TableSort      web/static/js/core/table_sort.js: the rows of a sorted table, and the header clicks.
--   Common         what the parts share: Boolean tests, lists, and the library's names.
-- In each part the files below it hold its proofs, and Examples holds the tests and witnesses.
--
-- Bounds. A save makes three attempts, as `MAX_SAVE_ATTEMPTS` says. `decimal` prints a number
-- with one round of fuel more than the number, which is more than its digits. `closeAllModals`
-- loops while a dialog is open; its model takes the number of rounds, and as many as there are
-- dialogs are enough. The way back through the table of a diff takes one round for each line of
-- both texts at most. Numbers are natural: times in milliseconds, ports, counts.
--
-- Assumed. A GET of the config takes its revision and its config from one file: handleConfigGet hashes
-- and then loads it, and a write in between, taken back again before the save, is left out.
--
-- Parameters. The host's hash, parser and validator (ConfigSave.Backend) with the law that the
-- hash tells two files apart; the page's tree around a dialog; the closers that pages register,
-- with the law that each closes its own dialog; a row's key and the test of its equality; the
-- collator; the equality of lines and characters; an inbound rule's lower-case and trimmed texts
-- and its JSON; the lower case of a filtered text.
--
-- Not modelled: drawing, focus within a page, markup, the other modules of web/static/js/core,
-- the other code of the pages, and the host program in Go other than its two config handlers and how
-- it takes the body of POST /v1/reload. The descriptions that config_changes.js gives of a change, and
-- the Tab trap and extra button of modal.js, are not modelled either. The locale's wording of times is
-- left to the browser: times stay numbers.
mod Common
pub mod Json
pub mod Lockout
pub mod Modal
pub mod Toast
pub mod Net
pub mod Inbound
pub mod Router
pub mod Topology
pub mod Tabs
pub mod Dirty
pub mod Diff
pub mod Loading
pub mod TableSort
pub mod ApplySession
pub mod ApplyBar
pub mod ConfigSave
pub mod Connection
pub mod ConfigChanges
