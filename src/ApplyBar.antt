-- ===== src/ApplyBar.antt =====
-- web/static/js/core/apply_bar.js: the pre-apply check, its result panel and the one Apply flow.
-- `Bar` holds the module's variables, the acknowledgement of the shared `state`, what the result
-- panel shows, and a log of effects. `flow` says at which await the Apply flow stands.
pub mod Steps
pub mod Host
pub mod Gate
pub mod Acknowledgement
pub mod Budget
mod Examples
use Prim.Native.String
use evuproxy.Common.{
  ℕ, String, Bool, true, false, not, ◌&&◌, ◌||◌, Option, none, some, is_some, List, [], ◌∷◌, ◌++◌,
  str_eq, if◌then◌else◌,
}
use evuproxy.Json.{Json, str, is_truthy, property, text_or_empty}
use evuproxy.Lockout.{lockout_risks, lockout_signature, list_of, CheckOutcome, result, error}
use evuproxy.ApplySession.{Session}
use evuproxy.ApplySession.Events.{Mode}

pub data Step : Type 0 where
  validate firewall wireguard done : Step

-- `STEPS.indexOf(step)`
abbrev pub step_index : Step → ℕ
step_index validate = 0
step_index firewall = 1
step_index wireguard = 2
step_index done = 3

-- The progress list: where it stands, and whether that step failed.
pub record Progress : Type 0 where
  pub step : Step
  pub failed : Bool

pub data Severity : Type 0 where
  success warning danger : Severity

-- The panel under the bar. `items` are the findings, errors first.
pub record Result : Type 0 where
  pub hidden : Bool
  pub severity : Severity
  pub client_ip : String
  pub items : List Json

-- The body of POST /v1/reload: no hash, or no seconds, where the field is left out.
pub record Reload : Type 0 where
  pub config_hash : Option String
  pub confirm_seconds : ℕ

pub data Effect : Type 0 where
  send_reload : Reload → Effect
  toast : String → Effect
  focus_ack : Effect
  adopt_session : Option Session → Effect
  after_apply : Effect

-- The awaits of the flow: `readApplyMode`, the check, the reload with its progress polls, and the
-- refresh after a config that changed in between.
pub data Flow : Type 0 where
  idle : Flow
  reading : Flow
  checking : Mode → Flow
  reloading : Step → Bool → Flow
  resyncing : Flow

pub record Bar : Type 0 where
  pub flow : Flow
  pub busy : Bool
  pub known_revision : String
  pub showing_clean_check : Bool
  pub pending_session : Option Session
  pub ack_checked : Bool
  pub ack_hidden : Bool
  pub validate_sig : String
  pub ack_sig : String
  pub panel : Result
  pub progress : Option Progress
  pub done_timer : Bool
  pub msg : String
  pub msg_err : Bool
  pub effects : List Effect

-- The region under the bar is shown while any of its three parts is.
unfoldable pub result_hidden : Bar → Bool
result_hidden b = not (is_some b.progress) && b.panel.hidden && str_eq b.msg ""

abbrev set_msg : String → Bool → Bar → Bar
set_msg text is_err b = record b { msg = text; msg_err = is_err }

abbrev show_progress : Step → Bool → Bar → Bar
show_progress step failed b = record b { progress = some (record { step = step; failed = failed }) }

abbrev hide_progress : Bar → Bar
hide_progress b = record b { progress = none; done_timer = false }

abbrev emit : Effect → Bar → Bar
emit e b = record b { effects = e ∷ b.effects }

abbrev infix_text : String → String → String
infix_text = String.◌++◌

client_ip_source_label : Option Json → String
client_ip_source_label (some (str s)) =
    if str_eq s "direct" then "direct" else if str_eq s "xff" then "via proxy header" else "unknown"
client_ip_source_label _ = "unknown"

unfoldable pub client_ip_line : Json → String
unfolding client_ip_source_label
client_ip_line res =
    let ip =
      if is_truthy (property "detected_client_ip" res)
      then text_or_empty (property "detected_client_ip" res)
      else "unknown" in
    let line = infix_text "Your connection appears as: " (
      infix_text ip (
        infix_text " ("
          (infix_text (client_ip_source_label (property "ip_detection_source" res)) ")"))) in
    if is_truthy (property "ip_detection_note" res)
    then infix_text line (infix_text ". " (text_or_empty (property "ip_detection_note" res)))
    else line

abbrev is_empty_list : List Json → Bool
is_empty_list [] = true
is_empty_list (_ ∷ _) = false

abbrev pub is_ok : Json → Bool
is_ok res = is_truthy (property "ok" res)

-- `renderCheckResult`; `confirm_known` is what the countdown panel last heard.
unfoldable pub render_check_result : Bool → Json → Bar → Bar
unfolding client_ip_line
render_check_result confirm_known res b =
    let risks = lockout_risks res in
    let warnings = list_of (property "warnings" res) in
    let errors = list_of (property "errors" res) in
    let signature = lockout_signature risks in
    let moved = not (str_eq b.ack_sig signature) in
    record b {
      panel = record {
        hidden = false;
        severity =
            if not (is_ok res) then danger else if is_empty_list warnings then success else warning;
        client_ip = client_ip_line res;
        items = errors ++ warnings;
      };
      validate_sig = signature;
      ack_sig = if moved then "" else b.ack_sig;
      ack_checked = if moved then false else b.ack_checked;
      ack_hidden = is_empty_list risks || confirm_known;
      showing_clean_check = is_ok res && is_empty_list warnings;
    }

unfoldable pub invalidate_check : Bar → Bar
invalidate_check b =
    let panel = b.panel in
    record b {
      validate_sig = "";
      ack_sig = "";
      showing_clean_check = false;
      ack_checked = false;
      ack_hidden = true;
      panel = record panel { hidden = true };
      progress = if b.busy then b.progress else none;
      done_timer = if b.busy then b.done_timer else false;
      msg = "";
      msg_err = false;
    }

-- `runCheck` up to its request, and with the outcome.
abbrev pub run_check_begin : Bar → Bar
run_check_begin b = set_msg "Checking config…" false b

unfoldable pub run_check_end : Bool → CheckOutcome → Bar → Bar
unfolding render_check_result invalidate_check
run_check_end confirm_known (error message) b = set_msg message true (invalidate_check b)
run_check_end confirm_known (result res) b =
    set_msg
      (if is_ok res
        then "Config check passed (nft -c)."
        else "Config check failed; fix the errors below.")
      (not (is_ok res)) (render_check_result confirm_known res b)
