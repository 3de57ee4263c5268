-- ===== src/ApplySession/Events.antt =====
-- web/static/js/core/apply_session.js: what a poll, a button and an Apply do with an answer.
use Prim.Native.String
use evuproxy.Common.{
  ℕ, ◌+◌, ◌*◌, String, Bool, true, false, not, ◌&&◌, ◌||◌, Option, none, some, is_some, str_eq,
  ◌==◌, if◌then◌else◌,
}
use evuproxy.Json.{decimal}
use evuproxy.ApplySession.{
  Session, Status, Panel, session_of, revert_of, phase_of, is_phase_active, set_note, note_subject,
  no_answer_note, render,
}

abbrev deadline_differs : Option Session → Session → Bool
deadline_differs none session = true
deadline_differs (some old) session = not (str_eq old.deadline session.deadline)

abbrev is_new_session : Option Status → Option Session → Bool
is_new_session status none = false
is_new_session status (some session) =
    is_phase_active (phase_of (some session)) && deadline_differs (session_of status) session

-- The part of `adopt` that a session in the answer brings.
adopt_times : ℕ → Option Status → Option Session → Panel → Panel
adopt_times now old none p = p
adopt_times now old (some session) p =
    let is_new = is_new_session old (some session) in
    record p {
      ends_at = now + session.remaining_seconds * 1000;
      warned = if is_new then false else p.warned;
      announcement =
          if is_new
          then String.◌++◌ "Applied. Keep these changes? Reverting in "
              (String.◌++◌ (decimal session.remaining_seconds) " seconds.")
          else p.announcement;
    }

abbrev adopt_note : Option Status → Panel → Panel
adopt_note next p =
    if not p.busy && not (str_eq (note_subject p.status) (note_subject next))
    then set_note "" false p
    else p

abbrev ended_announcement : Option Status → Panel → String
ended_announcement next p =
    if is_some (session_of next)
    then p.announcement
    else if is_some (revert_of next)
    then "Reverted to the last confirmed config."
    else ""

unfoldable pub adopt : ℕ → Option Status → Panel → Panel
unfolding adopt_times
adopt now next p =
    let had_session = p.last_seen_session in
    let noted = adopt_note next p in
    let known = record noted { status = next; unreachable = false } in
    let timed = adopt_times now p.status (session_of next) known in
    let seen = record timed {
      last_seen_session = is_some (session_of next);
      announcement = ended_announcement next timed;
    } in
    let shown = render now seen in
    if had_session && not (is_some (session_of next))
    then record shown { settled = shown.settled + 1 }
    else shown

-- How GET /v1/apply/session ended.
pub data SessionAnswer : Type 0 where
  body : Status → SessionAnswer
  http_error : ℕ → String → SessionAnswer
  no_answer : String → SessionAnswer

-- `fetchStatus`: a value to adopt, or an error that is thrown on, with its message.
pub data Read : Type 0 where
  clear : Option Status → Read
  thrown : String → Read

unfoldable pub fetch_status : SessionAnswer → Read
fetch_status (body s) = clear (some s)
fetch_status (http_error code message) =
    if code == 404 || code == 403 then clear none else thrown message
fetch_status (no_answer message) = thrown message

-- A poll asks only while no button's request is out and there is a token.
abbrev pub poll_asks : Bool → Panel → Bool
poll_asks has_token p = not (p.busy || not has_token)

unfoldable pub poll_answered : ℕ → Read → Panel → Panel
poll_answered now (clear next) p = adopt now next p
poll_answered now (thrown _) p = render now (record p { unreachable = true })

abbrev pub poll_interval_ms : Panel → ℕ
poll_interval_ms p = if is_some (session_of p.status) then 3000 else 30000

-- What the next Apply should do.
pub record Mode : Type 0 where
  pub confirm : Bool
  pub timeout_seconds : ℕ
  pub failed_revert : Bool

-- `(session && session.timeout_seconds) || next.confirm_timeout_seconds`
abbrev mode_timeout : Option Session → ℕ → ℕ
mode_timeout none default = default
mode_timeout (some session) default =
    if session.timeout_seconds == 0 then default else session.timeout_seconds

unfoldable pub mode_of : Option Status → Mode
mode_of none = record { confirm = false; timeout_seconds = 0; failed_revert = false }
mode_of (some next) = record {
  confirm = next.confirm_enabled || is_some next.session;
  timeout_seconds = mode_timeout next.session next.confirm_timeout_seconds;
  failed_revert = is_some next.session && not (is_phase_active (phase_of next.session));
}

-- `readApplyMode`: the panel, and the mode unless the read throws.
unfoldable pub read_apply_mode : ℕ → Read → Panel → Panel × Option Mode
unfolding mode_of
read_apply_mode now (clear next) p = (adopt now next p, some (mode_of next))
read_apply_mode now (thrown _) p = (p, none)

unfoldable pub confirm_mode_known : Panel → Bool
confirm_mode_known p = elim p.status [
  | none ↦ false
  | some s ↦ s.confirm_enabled || is_some s.session
]

-- `{ ...(status || {}), session, last_revert: null }`
abbrev pub with_session : Option Session → Option Status → Status
with_session session none = record {
  session = session;
  last_revert = none;
  confirm_enabled = false;
  confirm_timeout_seconds = 0;
}
with_session session (some s) = record s { session = session; last_revert = none }

unfoldable pub adopt_applied_session : ℕ → Option Session → Panel → Panel
adopt_applied_session now none p = p
adopt_applied_session now (some session) p =
    adopt now (some (with_session (some session) p.status)) p

-- A button's click, up to its request: whether the request goes out.
unfoldable pub act : Panel → Panel × Bool
act p = if p.busy then (p, false) else (set_note "…" false (record p { busy = true }), true)

-- The request failed: an HTTP answer has a message of its own. A poll follows.
unfoldable pub act_failed : Option String → Panel → Panel
act_failed none p = set_note (no_answer_note p.status) true (record p { busy = false })
act_failed (some message) p = set_note message true (record p { busy = false })

-- The host said yes, up to the re-read.
unfoldable pub act_accepted : Panel → Panel
act_accepted p = set_note "" false (record p { last_seen_session = false })

-- The re-read answered, and the action is over.
unfoldable pub act_settled : ℕ → Read → Panel → Panel
act_settled now answer p =
    let next : Option Status = elim answer [
      | clear next ↦ next
      | thrown _ ↦ some (with_session none p.status)
    ] in
    let adopted = adopt now next p in record adopted { busy = false; settled = adopted.settled + 1 }
