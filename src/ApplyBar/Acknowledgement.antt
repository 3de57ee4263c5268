-- ===== src/ApplyBar/Acknowledgement.antt =====
-- Invariants of the Apply bar over any sequence of events.
use evuproxy.Common.{
  ◌≡◌, refl, inl, inr, Bool-cases, ◌∙◌, Bool, true, false, not, none, some, List, [], ◌∷◌,
  str_eq_iff, arith,
}
use evuproxy.Json.{Json}
use evuproxy.Lockout.{lockout_risks, lockout_signature, CheckOutcome, result, error}
use evuproxy.ApplySession.Events.{Mode}
use evuproxy.ApplyBar.{success, Flow, idle, reading, checking, reloading, Bar, run_check_end, is_ok}
use evuproxy.ApplyBar.Steps.{
  applied, hash_mismatch, refused, Event, mode_read, check_read, progress_read, reload_read,
  lone_check_read, on_check, step, handle, apply_passed,
}

abbrev pub is_idle : Flow → Bool
is_idle idle = true
is_idle _ = false

abbrev pub AllowsApply : Flow → Type 0
AllowsApply (checking mode) = mode.failed_revert ≡ false
AllowsApply _ = Unit {0}

-- `busy` is up exactly while a flow runs, a tick belongs to the check on screen, a box without one
-- holds no acknowledgement, and no flow goes on after a revert that failed.
pub record IsValid (b : Bar) : Type 0 where
  pub busy : b.busy ≡ not (is_idle b.flow)
  pub ticked : b.ack_checked ≡ true → b.ack_sig ≡ b.validate_sig
  pub unticked : b.ack_checked ≡ false → b.ack_sig ≡ ""
  pub allowed : AllowsApply b.flow
  pub adopted : b.pending_session ≡ none

run_check_end-IsValid :
    (known : Bool) (outcome : CheckOutcome) (b : Bar)
    → IsValid b
    → IsValid (run_check_end known outcome b)
unfolding run_check_end
run_check_end-IsValid known (result res) b v =
    ground (arith, str_eq_iff b.ack_sig (lockout_signature (lockout_risks res)))
run_check_end-IsValid known (error m) b v = ground arith

busy-run_check_end :
    (known : Bool) (res : Json) (b : Bar) → (run_check_end known (result res) b).busy ≡ b.busy
unfolding run_check_end
busy-run_check_end known res b = refl

apply_passed-IsValid :
    (mode : Mode) (res : Json) (b : Bar)
    → b.busy ≡ true
    → IsValid b
    → IsValid (apply_passed mode res b)
unfolding apply_passed
apply_passed-IsValid mode res b busy v = ground arith

on_check-IsValid :
    (mode : Mode) (known : Bool) (outcome : CheckOutcome) (b : Bar)
    → b.busy ≡ true
    → IsValid b
    → IsValid (on_check mode known outcome b)
unfolding on_check
on_check-IsValid mode known (error m) b busy v =
    let w = run_check_end-IsValid known (error m) b v in ground arith
on_check-IsValid mode known (result res) b busy v =
    let w = run_check_end-IsValid known (result res) b v in
    elim (Bool-cases (is_ok res)) [
      | inl ok ↦ rw ok (apply_passed-IsValid mode res _ (busy-run_check_end known res b ∙ busy) w)
      | inr bad ↦ rw bad (ground arith)
    ]

step-IsValid :
    (e : Event) (flow : Flow) (b : Bar) → b.flow ≡ flow → IsValid b → IsValid (step e flow b)
unfolding step
step-IsValid (check_read known outcome) (checking mode) b e v =
    on_check-IsValid mode known outcome b (ground arith) v
step-IsValid (mode_read none m) reading b e v = ground arith
step-IsValid (mode_read (some mode) m) reading b e v = ground arith
step-IsValid (reload_read (applied s)) (reloading at k) b e v = ground arith
step-IsValid (reload_read hash_mismatch) (reloading at k) b e v = ground arith
step-IsValid (reload_read (refused m)) (reloading at k) b e v = ground arith
step-IsValid (lone_check_read known outcome) flow b e v = run_check_end-IsValid known outcome b v
step-IsValid (progress_read none) (reloading s k) b e v = v
step-IsValid (progress_read (some at)) (reloading s k) b e v = ground arith
step-IsValid _ _ b e v = ground arith

-- A session of the page: events, the first one first.
abbrev pub run : Bar → List Event → Bar
run b [] = b
run b (e ∷ es) = run (handle b e) es

unfoldable pub start : Bar
start = record {
  flow = idle;
  busy = false;
  known_revision = "";
  showing_clean_check = false;
  pending_session = none;
  ack_checked = false;
  ack_hidden = true;
  validate_sig = "";
  ack_sig = "";
  panel = record { hidden = true; severity = success; client_ip = ""; items = [] };
  progress = none;
  done_timer = false;
  msg = "";
  msg_err = false;
  effects = [];
}

run-IsValid_from : (es : List Event) (b : Bar) → IsValid b → IsValid (run b es)
unfolding handle
run-IsValid_from [] b v = v
run-IsValid_from (e ∷ es) b v = run-IsValid_from es (handle b e) (step-IsValid e b.flow b refl v)

-- After any events: `busy` is up exactly while a flow runs, a tick stands for the very check on
-- screen, an empty box acknowledges nothing, no flow goes on after a revert that failed, and no
-- session is left over from an Apply.
pub run-IsValid : (es : List Event) → IsValid (run start es)
unfolding start
run-IsValid es = run-IsValid_from es start (ground arith)
