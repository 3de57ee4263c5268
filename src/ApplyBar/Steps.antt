-- ===== src/ApplyBar/Steps.antt =====
-- web/static/js/core/apply_bar.js: one function for each stretch of the Apply flow between awaits,
-- and for the other handlers that may run in between.
use evuproxy.Common.{
  ℕ, String, Bool, true, false, not, ◌&&◌, ◌||◌, Option, none, some, is_some, str_eq, ltb,
  if◌then◌else◌,
}
use evuproxy.Json.{Json, is_truthy, property, text_or_empty}
use evuproxy.Lockout.{lockout_risks, lockout_signature, CheckOutcome, result, error}
use evuproxy.ApplySession.{Session}
use evuproxy.ApplySession.Events.{Mode}
use evuproxy.ApplyBar.{
  Step, validate, firewall, done, step_index, send_reload, toast, focus_ack, adopt_session,
  after_apply, Flow, idle, reading, checking, reloading, resyncing, Bar, set_msg, show_progress,
  hide_progress, emit, is_empty_list, is_ok, invalidate_check, run_check_begin, run_check_end,
}

-- How POST /v1/reload ended: `e.errorCode === CONFIG_HASH_MISMATCH`, or any other failure.
pub data ReloadAnswer : Type 0 where
  applied : Option Session → ReloadAnswer
  hash_mismatch : ReloadAnswer
  refused : String → ReloadAnswer

pub data Event : Type 0 where
  click : Event
  mode_read : Option Mode → String → Event
  check_read : Bool → CheckOutcome → Event
  progress_read : Option Step → Event
  reload_read : ReloadAnswer → Event
  resynced : Event
  check_click : Event
  lone_check_read : Bool → CheckOutcome → Event
  ack_change : Bool → Event
  dismiss : Event
  session_settled : Event
  revision : String → Event
  page_left : Event
  done_timeout : Event

-- `applyErrorText`
abbrev pub apply_error_text : String → String
apply_error_text text = if str_eq text "reload failed" then "Apply failed" else text

-- The flow ends without an Apply: `finally` in `onApplyClick`.
abbrev finish : Bar → Bar
finish b = record b { busy = false; flow = idle }

unfoldable pub on_apply_click : Bar → Bar
on_apply_click b =
    if b.busy
    then b
    else show_progress validate false (record b { busy = true; done_timer = false; flow = reading })

unfoldable pub on_mode : Option Mode → String → Bar → Bar
on_mode none message b = finish (set_msg message true (show_progress validate true b))
on_mode (some mode) message b =
    if mode.failed_revert
    then finish (
        set_msg "The last Apply hasn't finished reverting. Retry the revert before applying again."
          true (hide_progress b))
    else record (run_check_begin b) { flow = checking mode }

-- `configHash ? { config_hash: configHash } : {}`
abbrev pub hash_of : Json → Option String
hash_of res =
    if is_truthy (property "config_hash" res)
    then some (text_or_empty (property "config_hash" res))
    else none

-- `runReload` up to its request.
unfoldable pub run_reload_begin : Option String → ℕ → Bool → Bar → Bar
run_reload_begin hash seconds keep_warnings b =
    let sent =
      emit (send_reload (record { config_hash = hash; confirm_seconds = seconds }))
        (set_msg "" false (show_progress firewall false b)) in
    record sent { flow = reloading firewall keep_warnings }

-- The end of `applyWithCheck`, once the check has passed and is on screen.
unfoldable pub apply_passed : Mode → Json → Bar → Bar
unfolding run_reload_begin
apply_passed mode res b =
    let risks = lockout_risks res in
    if mode.confirm
    then run_reload_begin (hash_of res) mode.timeout_seconds (not (is_empty_list risks)) b
    else if not (is_empty_list risks)
        && (not b.ack_checked || not (str_eq b.ack_sig (lockout_signature risks)))
    then finish (
        emit focus_ack (
          set_msg
            "This config may lock you out. Read the warnings below, then tick the box and apply again."
            true (hide_progress b)))
    else run_reload_begin (hash_of res) 0 false b

unfoldable pub on_check : Mode → Bool → CheckOutcome → Bar → Bar
on_check mode known (error message) b =
    finish (show_progress validate true (run_check_end known (error message) b))
on_check mode known (result res) b =
    let checked = run_check_end known (result res) b in
    if is_ok res
    then apply_passed mode res checked
    else finish (show_progress validate true checked)

-- A progress poll that answers while the reload is out; other texts have index -1.
unfoldable pub on_progress : Step → Bool → Option Step → Bar → Bar
on_progress step keep_warnings none b = b
on_progress step keep_warnings (some at) b =
    if ltb (step_index step) (step_index at)
    then record (show_progress at false b) { flow = reloading at keep_warnings }
    else b

unfoldable pub on_reload : Step → Bool → ReloadAnswer → Bar → Bar
on_reload step keep_warnings (applied session) b =
    let cleared = if keep_warnings then b else invalidate_check b in
    let shown = record (show_progress done false cleared) { done_timer = true } in
    let told = if is_some session then shown else emit (toast "Applied to host") shown in
    let free = finish (record told { pending_session = session }) in
    emit after_apply
      (record (emit (adopt_session free.pending_session) free) { pending_session = none })
on_reload step keep_warnings hash_mismatch b =
    let shown = show_progress validate true (invalidate_check b) in
    let told =
      set_msg
        "The saved config changed after this check, so nothing was applied. Review it, then Apply again."
        true shown in
    record (emit after_apply told) { flow = resyncing }
on_reload step keep_warnings (refused message) b =
    finish (set_msg (apply_error_text message) true (show_progress step true b))

unfoldable pub check_config : Bar → Bar
check_config b = if b.busy then b else run_check_begin b

unfoldable pub drop_passed_check : Bar → Bar
unfolding invalidate_check
drop_passed_check b =
    if not b.busy && b.showing_clean_check && not b.msg_err then invalidate_check b else b

unfoldable pub note_config_revision : String → Bar → Bar
unfolding invalidate_check
note_config_revision rev b =
    let retired =
      if not (str_eq b.known_revision "") && not (str_eq rev b.known_revision) && not b.busy
      then invalidate_check b
      else b in
    if str_eq rev "" then b else record retired { known_revision = rev }

-- The listeners that `initApplyBar` sets up.
unfoldable pub on_ack_change : Bool → Bar → Bar
on_ack_change checked b = record b {
  ack_checked = checked;
  ack_sig = if checked then b.validate_sig else "";
}

unfoldable pub on_dismiss : Bar → Bar
unfolding invalidate_check
on_dismiss b = hide_progress (invalidate_check b)

unfoldable pub on_settled : Bar → Bar
unfolding invalidate_check
on_settled b = emit after_apply (invalidate_check b)

-- An event meets the flow where it stands; an answer that no await waits for cannot come.
unfoldable pub step : Event → Flow → Bar → Bar
unfolding on_apply_click on_mode on_check on_progress on_reload check_config drop_passed_check
    note_config_revision on_ack_change on_dismiss on_settled
step click flow b = on_apply_click b
step (mode_read mode message) reading b = on_mode mode message b
step (check_read known outcome) (checking mode) b = on_check mode known outcome b
step (progress_read at) (reloading s k) b = on_progress s k at b
step (reload_read answer) (reloading s k) b = on_reload s k answer b
step resynced resyncing b = finish b
step check_click flow b = check_config b
step (lone_check_read known outcome) flow b = run_check_end known outcome b
step (ack_change checked) flow b = on_ack_change checked b
step dismiss flow b = on_dismiss b
step session_settled flow b = on_settled b
step (revision r) flow b = note_config_revision r b
step page_left flow b = drop_passed_check b
step done_timeout flow b = if b.done_timer then hide_progress b else b
step _ _ b = b

unfoldable pub handle : Bar → Event → Bar
unfolding step
handle b e = step e b.flow b
