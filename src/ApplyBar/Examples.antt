-- ===== src/ApplyBar/Examples.antt =====
-- The Apply bar on small answers of the host.
use evuproxy.Common.{◌≡◌, ◌≤◌, refl, true, false, none, some, List, [], ◌∷◌, length, arith}
use evuproxy.Json.{Json, bool, str, arr, obj, nil, cons, end, field, decimal}
use evuproxy.Lockout.{
  answered, fetch_validate_result, lockout_signature, is_lockout_risk, lockout_risks, result, error,
}
use evuproxy.ApplySession.Events.{Mode}
use evuproxy.ApplyBar.{Bar, run_check_end}
use evuproxy.ApplyBar.Steps.{
  Event, click, mode_read, check_read, ack_change, reload_read, applied, apply_passed, handle,
}
use evuproxy.ApplyBar.Gate.{sent, HasTime, Sends, handle-sent}
use evuproxy.ApplyBar.Host.{reload_with_confirm, handle_reload}
use evuproxy.ApplyBar.Acknowledgement.{run, start, IsValid, run-IsValid}
use evuproxy.ApplyBar.Budget.{clicks, length-sent-le-clicks}

abbrev one_way : Mode
one_way = record { confirm = false; timeout_seconds = 0; failed_revert = false }

-- A valid config that may lock the operator out.
abbrev risky : Json
risky = obj (
    field "ok" (bool true) (
      field "warnings"
        (arr (
          cons
            (obj
              (field "code" (str "lockout_risk_ssh") (field "message" (str "SSH is closed") end)))
            nil))
        (field "config_hash" (str "abc") end)))

shape_risky : fetch_validate_result (answered risky) ≡ result risky
unfolding fetch_validate_result
shape_risky = refl

-- A body without `ok` is no result.
shape_html :
    fetch_validate_result (answered (obj (field "raw" (str "<html>") end)))
    ≡ error "Config check returned an unexpected response; not applying."
unfolding fetch_validate_result
shape_html = refl

signature_risky : lockout_signature (lockout_risks risky) ≡ "lockout_risk_ssh:SSH is closed"
unfolding lockout_signature lockout_risks is_lockout_risk decimal
signature_risky = refl

abbrev checked : List Event
checked = click ∷ mode_read (some one_way) "" ∷ check_read false (result risky) ∷ []

abbrev ticked : List Event
ticked =
    click
    ∷ mode_read (some one_way) ""
    ∷ check_read false (result risky)
    ∷ ack_change true
    ∷ click
    ∷ mode_read (some one_way) ""
    ∷ check_read false (result risky)
    ∷ reload_read (applied none)
    ∷ []

bar_definitions : Unit {0}
unfolding handle start run_check_end lockout_signature lockout_risks is_lockout_risk decimal
bar_definitions = tt

-- Without a tick nothing is sent; with one, the Apply names the config that was checked.
sent_unticked : sent (run start checked).effects ≡ []
unfolding bar_definitions apply_passed
sent_unticked = refl

sent_ticked :
    sent (run start ticked).effects ≡ record { config_hash = some "abc"; confirm_seconds = 0 } ∷ []
unfolding bar_definitions apply_passed
sent_ticked = refl

-- With confirmation the same risks go out without a tick, since the host reverts.
abbrev confirming : Mode
confirming = record { confirm = true; timeout_seconds = 60; failed_revert = false }

abbrev waiting : Bar
waiting = run start (click ∷ mode_read (some confirming) "" ∷ [])

sent_confirming :
    sent (handle waiting (check_read false (result risky))).effects
    ≡ record { config_hash = some "abc"; confirm_seconds = 60 } ∷ []
unfolding bar_definitions apply_passed
sent_confirming = refl

taken_with_timer :
    handle_reload (record { config_hash = some "abc"; confirm_seconds = 60 }) ≡ reload_with_confirm
unfolding handle_reload
taken_with_timer = refl

waiting-HasTime : HasTime waiting.flow
unfolding bar_definitions
waiting-HasTime c = omega arith

handle-sent_example :
    Sends waiting
      (check_read false (result risky))
      (handle waiting (check_read false (result risky)))
handle-sent_example = handle-sent waiting (check_read false (result risky)) waiting-HasTime

run-IsValid_example : IsValid (run start ticked)
run-IsValid_example = run-IsValid ticked

length-sent-le-clicks_example : length (sent (run start ticked).effects) ≤ clicks ticked
length-sent-le-clicks_example = length-sent-le-clicks ticked
