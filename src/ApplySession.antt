-- ===== src/ApplySession.antt =====
-- web/static/js/core/apply_session.js: the countdown panel of an Apply that reverts unless kept.
-- `Panel` holds the module's variables and what the panel shows; `now` is `performance.now()` in
-- milliseconds. A handler is one function for each stretch between two awaits.
pub mod Events
pub mod Shown
pub mod Settling
mod Examples
use Prim.Native.String
use evuproxy.Common.{
  ℕ, ◌+◌, ◌-◌, ◌*◌, ◌/◌, String, Bool, true, false, not, ◌&&◌, ◌||◌, Option, none, some, is_some,
  str_eq, ◌==◌, leb, ltb, if◌then◌else◌,
}
use evuproxy.Json.{decimal}

-- The phases that the host sends.
pub data Phase : Type 0 where
  active rolling_back failed : Phase

abbrev phase_text : Phase → String
phase_text active = "active"
phase_text rolling_back = "rolling_back"
phase_text failed = "failed"

pub record Session : Type 0 where
  pub phase : Phase
  pub deadline : String
  pub remaining_seconds : ℕ
  pub timeout_seconds : ℕ
  pub failure : String

pub record Revert : Type 0 where
  pub at : String
  pub reason : String
  pub config_available : Bool

-- The body of GET /v1/apply/session.
pub record Status : Type 0 where
  pub session : Option Session
  pub last_revert : Option Revert
  pub confirm_enabled : Bool
  pub confirm_timeout_seconds : ℕ

pub record Note : Type 0 where
  pub text : String
  pub is_err : Bool

pub record View : Type 0 where
  pub hidden : Bool
  pub warning : Bool
  pub danger : Bool
  pub info : Bool
  pub title : String
  pub detail : String
  pub check_hidden : Bool
  pub keep_hidden : Bool
  pub revert_hidden : Bool
  pub revert_label : String
  pub restore_hidden : Bool
  pub dismiss_hidden : Bool

-- `settled` counts the calls of `onSettled`, `announcement` is what screen readers hear.
pub record Panel : Type 0 where
  pub status : Option Status
  pub unreachable : Bool
  pub ends_at : ℕ
  pub warned : Bool
  pub busy : Bool
  pub last_seen_session : Bool
  pub note : Note
  pub announcement : String
  pub view : View
  pub settled : ℕ

infixr 65 ◌+++◌
abbrev ◌+++◌ : String → String → String
◌+++◌ = String.◌++◌

abbrev pub session_of : Option Status → Option Session
session_of none = none
session_of (some s) = s.session

abbrev pub revert_of : Option Status → Option Revert
revert_of none = none
revert_of (some s) = s.last_revert

abbrev pub phase_of : Option Session → Option Phase
phase_of none = none
phase_of (some s) = some s.phase

abbrev pub is_phase_active : Option Phase → Bool
is_phase_active (some active) = true
is_phase_active _ = false

abbrev pub is_phase_failed : Option Phase → Bool
is_phase_failed (some failed) = true
is_phase_failed _ = false

abbrev is_phase_rolling_back : Option Phase → Bool
is_phase_rolling_back (some rolling_back) = true
is_phase_rolling_back _ = false

-- `Math.max(0, Math.ceil((endsAt - now) / 1000))`
unfoldable pub remaining_seconds : ℕ → ℕ → ℕ
remaining_seconds ends_at now = (ends_at - now + 999) / 1000

abbrev set_note : String → Bool → Panel → Panel
set_note text is_err p = record p { note = record { text = text; is_err = is_err } }

unfoldable pub note_subject : Option Status → String
note_subject s = elim (session_of s) [
  | some session ↦ phase_text session.phase +++ session.deadline
  | none ↦ elim (revert_of s) [ some revert ↦ revert.at | none ↦ "" ]
]

abbrev no_answer : String
no_answer = "No answer from the host over a new connection."

unfoldable pub no_answer_note : Option Status → String
no_answer_note s = elim (phase_of (session_of s)) [
  | some active ↦
      no_answer
      +++ " If this change locked you out, the host reverts by itself when the time runs out."
  | some failed ↦ no_answer +++ " The host has no timer left to revert this, so fix it on the host."
  | _ ↦ no_answer
]

abbrev revert_reason : String → String
revert_reason r =
    if str_eq r "timeout"
    then "It wasn't confirmed in time."
    else if str_eq r "manual"
    then "You chose to revert it."
    else if str_eq r "interrupted"
    then "The host or its timer restarted before it was confirmed."
    else if str_eq r "failed_apply"
    then "The Apply failed, and the revert only finished later."
    else ""

abbrev countdown : ℕ → String
countdown left = if ltb 0 left then "Reverting in " +++ decimal left +++ "s" else "Reverting now…"

title_of : Option Phase → String
title_of (some active) = "Applied. Keep these changes?"
title_of (some rolling_back) = "Reverting to the last confirmed config…"
title_of (some failed) = "The revert failed, so this host may still be running the rejected config."
title_of none = "Reverted to the last confirmed config."

detail_of : ℕ → Option Session → Option Revert → String
detail_of left none none = ""
detail_of left none (some revert) =
    revert_reason revert.reason
    +++ (if revert.config_available then " The rejected config has been kept." else "")
detail_of left (some session) _ = elim session.phase [
  | active ↦ countdown left
  | rolling_back ↦ ""
  | failed ↦ session.failure
]

abbrev pub is_available : Option Revert → Bool
is_available none = false
is_available (some revert) = revert.config_available

-- The panel's second half, once there is a session or a revert to show.
unfoldable pub shown_view : ℕ → Option Session → Option Revert → View
unfolding title_of detail_of
shown_view left session revert =
    let is_active = is_phase_active (phase_of session) in
    let is_failed = is_phase_failed (phase_of session) in
    record {
      hidden = false;
      warning = is_active || is_phase_rolling_back (phase_of session);
      danger = is_failed;
      info = not (is_some session);
      title = title_of (phase_of session);
      detail = detail_of left session revert;
      check_hidden = not is_active;
      keep_hidden = not is_active;
      revert_hidden = not is_active && not is_failed;
      revert_label = if is_failed then "Retry revert" else "Revert now";
      restore_hidden = is_some session || not (is_available revert);
      dismiss_hidden = is_some session;
    }

-- The note at the end of `render`: a button's error stays.
unfoldable pub render_note : Bool → Panel → Note
render_note is_active p =
    if not p.busy && is_active && p.unreachable && not p.note.is_err
    then record {
      text =
          "The API isn't answering. If this change locked you out, the host reverts by itself when the time runs out.";
      is_err = false;
    }
    else if not p.busy && not p.note.is_err
    then record { text = ""; is_err = false }
    else p.note

unfoldable pub render : ℕ → Panel → Panel
unfolding shown_view render_note remaining_seconds
render now p =
    let session = session_of p.status in
    let revert = revert_of p.status in
    let view = p.view in
    if not (is_some session) && not (is_some revert)
    then record p { view = record view { hidden = true } }
    else record p {
      view = shown_view (remaining_seconds p.ends_at now) session revert;
      note = render_note (is_phase_active (phase_of session)) p;
    }

abbrev warn_at_seconds : ℕ
warn_at_seconds = 10

unfoldable pub tick : ℕ → Panel → Panel
unfolding remaining_seconds
tick now p =
    if not (is_phase_active (phase_of (session_of p.status)))
    then p
    else let left = remaining_seconds p.ends_at now in
      let view = p.view in
      let warns = leb left warn_at_seconds && not p.warned in
      record p {
        warned = p.warned || warns;
        announcement =
            if warns
            then "Reverting in 10 seconds unless you keep these changes."
            else p.announcement;
        view = record view { detail = countdown left };
      }
