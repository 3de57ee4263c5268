-- ===== src/ApplyBar/Gate.antt =====
-- The gate: when an Apply is sent.
use mathlib.Core.Path.{subst}
use evuproxy.Common.{
  ℕ, ◌≤◌, ◌≢◌, ◌≡◌, ◌⊎◌, refl, inl, inr, ap, ◌∙◌, Bool, true, false, not, ◌&&◌, ◌||◌, none, some,
  List, [], ◌∷◌, str_eq, str_eq_iff, arith, if◌then◌else◌, Bool-cases,
}
use evuproxy.Json.{Json}
use evuproxy.Lockout.{lockout_risks, lockout_signature, CheckOutcome, result, error}
use evuproxy.ApplySession.Events.{Mode}
use evuproxy.ApplyBar.{
  Reload, Effect, send_reload, Flow, reading, checking, reloading, Bar, is_empty_list, is_ok,
  run_check_end,
}
use evuproxy.ApplyBar.Host.{reload, handle_reload}
use evuproxy.ApplyBar.Steps.{
  applied, hash_mismatch, refused, Event, mode_read, check_read, progress_read, reload_read,
  lone_check_read, hash_of, apply_passed, on_check, step, handle,
}

-- The requests in the log, the last one first.
abbrev pub sent : List Effect → List Reload
sent [] = []
sent (send_reload r ∷ es) = r ∷ sent es
sent (_ ∷ es) = sent es

-- What the gate's tests leave when `r` is sent.
abbrev IsGuarded : Mode → Json → Reload → Bar → Type 0
IsGuarded mode res r b =
    (is_ok res ≡ true)
    × (r.config_hash ≡ hash_of res)
    × (((mode.confirm ≡ true) × (r.confirm_seconds ≡ mode.timeout_seconds))
        ⊎ ((mode.confirm ≡ false)
            × (r.confirm_seconds ≡ 0)
            × ((lockout_risks res ≡ [])
                ⊎ ((b.ack_checked ≡ true) × (b.ack_sig ≡ lockout_signature (lockout_risks res))))))

abbrev pub reload_of : Mode → Json → Reload
reload_of mode res = record {
  config_hash = hash_of res;
  confirm_seconds = if mode.confirm then mode.timeout_seconds else 0;
}

pub sent-run_check_end :
    (known : Bool) (outcome : CheckOutcome) (b : Bar)
    → (run_check_end known outcome b).effects ≡ b.effects
unfolding run_check_end
sent-run_check_end known (result res) b = refl
sent-run_check_end known (error m) b = refl

-- The one-way Apply is stopped: there are risks, and no tick for them.
abbrev is_blocked : Json → Bar → Bool
is_blocked res b =
    not (is_empty_list (lockout_risks res))
    && (not b.ack_checked || not (str_eq b.ack_sig (lockout_signature (lockout_risks res))))

one_way_cases :
    (res : Json) (b : Bar)
    → is_blocked res b ≡ false
    → (lockout_risks res ≡ [])
      ⊎ ((b.ack_checked ≡ true) × (b.ack_sig ≡ lockout_signature (lockout_risks res)))
one_way_cases res b h = elim (Bool-cases (is_empty_list (lockout_risks res))) [
  | inl e ↦ inl (ground arith)
  | inr e ↦
      inr
        (ground arith, ground (arith, str_eq_iff b.ack_sig (lockout_signature (lockout_risks res))))
]

pub apply_passed-sent :
    (mode : Mode) (res : Json) (b : Bar)
    → (sent (apply_passed mode res b).effects ≡ sent b.effects)
      ⊎ ((sent (apply_passed mode res b).effects ≡ reload_of mode res ∷ sent b.effects)
          × (is_ok res ≡ true → IsGuarded mode res (reload_of mode res) b))
unfolding apply_passed
apply_passed-sent mode res b = elim (Bool-cases mode.confirm) [
  | inl c ↦ inr (rw c, λ o. (o, refl, inl (c, rw c)))
  | inr c ↦ elim (Bool-cases (is_blocked res b)) [
    | inl blocked ↦ inl (rw (c, blocked))
    | inr free ↦ inr (rw (c, free), λ o. (o, refl, inr (c, rw c, one_way_cases res b free)))
  ]
]

-- What the painted result leaves of a tick was there before, and for the same risks.
IsGuarded-run_check_end :
    (mode : Mode) (known : Bool) (res : Json) (r : Reload) (b : Bar)
    → IsGuarded mode res r (run_check_end known (result res) b)
    → IsGuarded mode res r b
unfolding run_check_end
IsGuarded-run_check_end mode known res r b (ok, hash, inl confirmed) = (ok, hash, inl confirmed)
IsGuarded-run_check_end mode known res r b (ok, hash, inr (c, z, inl none_at_risk)) =
    (ok, hash, inr (c, z, inl none_at_risk))
IsGuarded-run_check_end mode known res r b (ok, hash, inr (c, z, inr (tick, sig))) =
    (ok, hash, inr (c, z, inr (ground arith, ground arith)))

-- One event sends at most one Apply, and only the answer of a flow's own check does.
abbrev SendsGuarded : Bar → Event → Flow → Bar → Type 0
SendsGuarded b e flow b' =
    (sent b'.effects ≡ sent b.effects)
    ⊎ ((mode : Mode) × (known : Bool) × (res : Json) × (flow ≡ checking mode)
        × (e ≡ check_read known (result res))
        × (sent b'.effects ≡ reload_of mode res ∷ sent b.effects)
        × IsGuarded mode res (reload_of mode res) b)

on_check-sent :
    (mode : Mode) (known : Bool) (outcome : CheckOutcome) (b : Bar)
    → SendsGuarded b (check_read known outcome) (checking mode) (on_check mode known outcome b)
unfolding on_check
on_check-sent mode known (error m) b = inl (ap sent (sent-run_check_end known (error m) b))
on_check-sent mode known (result res) b = elim (Bool-cases (is_ok res)) [
  | inr bad ↦ inl (rw bad (ap sent (sent-run_check_end known (result res) b)))
  | inl ok ↦ elim (apply_passed-sent mode res (run_check_end known (result res) b)) [
    | inl same ↦ inl (rw ok (same ∙ ap sent (sent-run_check_end known (result res) b)))
    | inr (more, safe) ↦ inr (
      mode,
      known,
      res,
      refl,
      refl,
      rw ok (
          more ∙ ap (λ es. reload_of mode res ∷ sent es) (sent-run_check_end known (result res) b)),
      IsGuarded-run_check_end mode known res (reload_of mode res) b (safe ok),
    )
  ]
]

step-sent : (e : Event) (flow : Flow) (b : Bar) → SendsGuarded b e flow (step e flow b)
unfolding step
step-sent (check_read known outcome) (checking mode) b = on_check-sent mode known outcome b
step-sent (mode_read none m) reading b = inl refl
step-sent (mode_read (some mode) m) reading b = inl (ground arith)
step-sent (reload_read (applied s)) (reloading at k) b = inl (ground arith)
step-sent (reload_read hash_mismatch) (reloading at k) b = inl refl
step-sent (reload_read (refused m)) (reloading at k) b = inl refl
step-sent (lone_check_read known outcome) flow b =
    inl (ap sent (sent-run_check_end known outcome b))
step-sent (progress_read none) (reloading s k) b = inl refl
step-sent (progress_read (some at)) (reloading s k) b = inl (ground arith)
step-sent _ _ b = inl (ground arith)

-- The mode that the running check goes by has a time to confirm in, if it asks for confirmation.
abbrev pub HasTime : Flow → Type 0
HasTime (checking mode) = mode.confirm ≡ true → 1 ≤ mode.timeout_seconds
HasTime _ = Unit {0}

-- What must hold when `r` is sent: the check has just answered that the config is valid, `r` has the hash
-- of that answer, and either `r` asks for confirmation and the host does not take it as final, or it
-- does not ask, and nothing is at risk or the operator has ticked the box for exactly these risks.
abbrev pub IsSafe : Mode → Json → Reload → Bar → Type 0
IsSafe mode res r b =
    (is_ok res ≡ true)
    × (r.config_hash ≡ hash_of res)
    × (((mode.confirm ≡ true)
          × (r.confirm_seconds ≡ mode.timeout_seconds)
          × (handle_reload r ≢ reload))
        ⊎ ((mode.confirm ≡ false)
            × (r.confirm_seconds ≡ 0)
            × ((lockout_risks res ≡ [])
                ⊎ ((b.ack_checked ≡ true) × (b.ack_sig ≡ lockout_signature (lockout_risks res))))))

-- At most one Apply is added, by the answer to the running flow's own check, and it is safe.
abbrev pub Sends : Bar → Event → Bar → Type 0
Sends b e b' =
    (sent b'.effects ≡ sent b.effects)
    ⊎ ((mode : Mode) × (known : Bool) × (res : Json) × (r : Reload) × (b.flow ≡ checking mode)
        × (e ≡ check_read known (result res))
        × (sent b'.effects ≡ r ∷ sent b.effects)
        × IsSafe mode res r b)

timed-handle_reload :
    (r : Reload) (seconds : ℕ)
    → r.confirm_seconds ≡ seconds
    → 1 ≤ seconds
    → handle_reload r ≢ reload
unfolding handle_reload
timed-handle_reload r seconds e some_time = ground arith

IsGuarded-IsSafe :
    (mode : Mode) (res : Json) (r : Reload) (b : Bar)
    → HasTime (checking mode)
    → IsGuarded mode res r b
    → IsSafe mode res r b
IsGuarded-IsSafe mode res r b timed (ok, hash, inl (c, seconds)) =
    (ok, hash, inl (c, seconds, timed-handle_reload r mode.timeout_seconds seconds (timed c)))
IsGuarded-IsSafe mode res r b timed (ok, hash, inr free) = (ok, hash, inr free)

-- The gate. In every state whose running check, if it goes by a mode that asks for confirmation, has a
-- time for that: an event adds no Apply to what was sent, or it is the answer to the check that the
-- running flow asked for and adds one. That check passed, the Apply carries the hash in its answer, if
-- there is one, and it is one that the host would not make final at once, or there are no risks, or the
-- operator has ticked the box for exactly these.
pub handle-sent : (b : Bar) (e : Event) → HasTime b.flow → Sends b e (handle b e)
unfolding handle
handle-sent b e timed = elim (step-sent e b.flow b) [
  | inl same ↦ inl same
  | inr (mode, known, res, flow, event, more, guarded) ↦ inr (
    mode,
    known,
    res,
    reload_of mode res,
    flow,
    event,
    more,
    IsGuarded-IsSafe mode res (reload_of mode res) b (subst HasTime flow timed) guarded,
  )
]
