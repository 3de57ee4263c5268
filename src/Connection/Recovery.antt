-- ===== src/Connection/Recovery.antt =====
-- Coming back: the end of an outage, the reload of the page on screen, and how often it runs.
use evuproxy.Common.{
  ℕ, suc, ◌+◌, ◌≤◌, ◌≡◌, refl, Bool, true, false, not, ◌&&◌, ◌||◌, Option, none, some, is_some,
  List, [], ◌∷◌, ltb, if◌then◌else◌, if-either, Bool-cases, inl, inr, arith,
}
use evuproxy.Connection.Contact.{run-Watches}
use evuproxy.Connection.{
  retry_ms, Failure, Lost, Connection, render_connection_state, mark_lost, mark_answering,
  mark_outcome, reload_after_recovery, finish_retry, probe, on_probe_end, on_api_outcome,
  is_answered, is_check, on_retry_timer, on_reload_timer, on_retry_click, probe_if_lost, Event,
  probe_end, api_outcome, retry_timer_fires, reload_timer_fires, retry_click, back_on_screen,
  page_shown, page_loaded, gate_read, token_stored, handle, start, run,
}

-- Times, the last one first, with at least `gap` between them.
abbrev pub Spaced : ℕ → List ℕ → Type 0
Spaced gap [] = Unit {0}
Spaced gap (t ∷ []) = Unit {0}
Spaced gap (t ∷ u ∷ ts) = (u + gap ≤ t) × Spaced gap (u ∷ ts)

abbrev IsLast : ℕ → List ℕ → Type 0
IsLast t [] = Unit {0}
IsLast t (u ∷ ts) = t ≡ u

abbrev Paced : Connection → Type 0
Paced c = Spaced retry_ms c.reloads × IsLast c.last_reload_at c.reloads

Spaced-reload :
    (now last : ℕ) (ts : List ℕ)
    → ltb now (last + retry_ms) ≡ false
    → Spaced retry_ms ts
    → IsLast last ts
    → Spaced retry_ms (now ∷ ts)
Spaced-reload now last [] due s l = tt
Spaced-reload now last (t ∷ ts) due s l = (ground arith, s)

reload_after_recovery-Paced :
    (now : ℕ) (c : Connection) → Paced c → Paced (reload_after_recovery now c)
unfolding reload_after_recovery
reload_after_recovery-Paced now c p =
    if-either Paced (is_some c.lost) (λ _. p)
      (λ _.
        if-either Paced (ltb now (c.last_reload_at + retry_ms)) (λ _. p)
          (λ due. (Spaced-reload now c.last_reload_at c.reloads due p.0 p.1, refl)))

finish_retry-Paced : (now : ℕ) (c : Connection) → Paced c → Paced (finish_retry now c)
unfolding finish_retry
finish_retry-Paced now c p =
    if-either Paced (not c.retrying) (λ _. p)
      (λ _. if-either Paced (is_some c.lost) (λ _. p) (λ _. p))

probe-Paced : (now : ℕ) (c : Connection) → Paced c → Paced (probe now c)
unfolding probe render_connection_state
probe-Paced now c p =
    if-either Paced c.probing (λ _. p)
      (λ _. if-either Paced (not c.has_token) (λ _. finish_retry-Paced now _ p) (λ _. p))

mark_outcome-Paced :
    (now : ℕ) (failure : Option Failure) (c : Connection)
    → Paced c
    → Paced (mark_outcome now failure c)
unfolding mark_lost mark_answering render_connection_state
mark_outcome-Paced now (some e) c p = p
mark_outcome-Paced now none c p =
    let back = render_connection_state (record c {
      lost = none;
      ever_answered = true;
      banner = record c.banner { note = none };
      api_connection_ok = true;
    }) in
    let told =
      if is_some c.lost
      then record back { toasts = "Connection restored" ∷ back.toasts }
      else back in
    let told_p : Paced told = if-either Paced (is_some c.lost) (λ _. p) (λ _. p) in
    if-either Paced (is_some c.lost || not c.api_connection_ok)
      (λ _. reload_after_recovery-Paced now told told_p) (λ _. told_p)

on_probe_end-Paced :
    (now : ℕ) (failure : Option Failure) (c : Connection)
    → Paced c
    → Paced (on_probe_end now failure c)
unfolding on_probe_end
on_probe_end-Paced now failure c p =
    let back = record c { probing = false; ended = suc c.ended } in
    let told = finish_retry now (mark_outcome now failure back) in
    let told_p = finish_retry-Paced now _ (mark_outcome-Paced now failure back p) in
    if-either Paced c.probe_again (λ _. probe-Paced now (record back { probe_again = false }) p)
      (λ _. if-either Paced (is_some told.lost) (λ _. told_p) (λ _. told_p))

handle-Paced : (now : ℕ) (e : Event) (c : Connection) → Paced c → Paced (handle now e c)
unfolding handle on_api_outcome on_retry_timer on_reload_timer on_retry_click probe_if_lost
    render_connection_state
handle-Paced now (probe_end failure) c p =
    if-either Paced c.probing (λ _. on_probe_end-Paced now failure c p) (λ _. p)
handle-Paced now (api_outcome outcome) c p =
    let seen = if is_answered outcome then record c { ever_answered = true } else c in
    let asks =
      is_check outcome
      || (if is_some c.lost then is_answered outcome else not (is_answered outcome)) in
    let seen_p : Paced seen = if-either Paced (is_answered outcome) (λ _. p) (λ _. p) in
    if-either Paced (not c.has_token) (λ _. p)
      (λ _. if-either Paced asks (λ _. probe-Paced now seen seen_p) (λ _. seen_p))
handle-Paced now (retry_timer_fires hidden) c p =
    if-either Paced (not c.retry_timer) (λ _. p)
      (λ _.
        if-either Paced hidden (λ _. p) (λ _. probe-Paced now (record c { retry_timer = false }) p))
handle-Paced now reload_timer_fires c p =
    if-either Paced c.reload_timer (λ _. reload_after_recovery-Paced now c p) (λ _. p)
handle-Paced now retry_click c p =
    if-either Paced c.retrying (λ _. p) (λ _. probe-Paced now (record c { retrying = true }) p)
handle-Paced now (back_on_screen hidden) c p =
    if-either Paced (is_some c.lost && not hidden) (λ _. probe-Paced now c p) (λ _. p)
handle-Paced now (page_shown name) c p = p
handle-Paced now (page_loaded name) c p = p
handle-Paced now (gate_read ok) c p = p
handle-Paced now (token_stored kept) c p = p

run-Paced : (es : List (ℕ × Event)) (c : Connection) → Paced c → Paced (run c es)
run-Paced [] c p = p
run-Paced ((now, e) ∷ es) c p = run-Paced es (handle now e c) (handle-Paced now e c p)

-- However the API flaps, the page on screen is reloaded at most once per retry interval.
pub reloads-Spaced :
    (has_token : Bool) (es : List (ℕ × Event)) → Spaced retry_ms (run (start has_token) es).reloads
unfolding start
reloads-Spaced has_token es = (run-Paced es (start has_token) (tt, tt)).0

-- No outage, and no probe that could find one.
abbrev pub IsBack : Connection → Type 0
IsBack c =
    (c.lost ≡ none) × (c.banner.hidden ≡ true) × (c.api_connection_ok ≡ true) × (c.probing ≡ false)

reload_after_recovery-IsBack :
    (now : ℕ) (c : Connection) → IsBack c → IsBack (reload_after_recovery now c)
unfolding reload_after_recovery
reload_after_recovery-IsBack now c back = ground arith

mark_answering-IsBack :
    (now : ℕ) (c : Connection) → c.probing ≡ false → IsBack (mark_answering now c)
unfolding mark_answering render_connection_state
mark_answering-IsBack now c idle =
    let told_back : IsBack (told_of c) =
      if-either IsBack (is_some c.lost) (λ _. (refl, refl, refl, idle))
        (λ _. (refl, refl, refl, idle)) in
    if-either IsBack (is_some c.lost || not c.api_connection_ok)
      (λ _. reload_after_recovery-IsBack now (told_of c) told_back) (λ _. told_back)
  where
    told_of : Connection → Connection
    told_of c =
        let back = render_connection_state (record c {
          lost = none;
          ever_answered = true;
          banner = record c.banner { note = none };
          api_connection_ok = true;
        }) in
        if is_some c.lost
        then record back { toasts = "Connection restored" ∷ back.toasts }
        else back

finish_retry-IsBack : (now : ℕ) (c : Connection) → IsBack c → IsBack (finish_retry now c)
unfolding finish_retry
finish_retry-IsBack now c back =
    if-either IsBack (not c.retrying) (λ _. back)
      (λ _. if-either IsBack (is_some c.lost) (λ _. back) (λ _. back))

found_no_outage : (lost : Option Lost) → lost ≡ none → is_some lost ≡ true → ⊥
found_no_outage none e found = cc found
found_no_outage (some l) e found = cc e

last_probe-IsBack :
    (now : ℕ) (c : Connection)
    → c.probing ≡ true
    → c.probe_again ≡ false
    → IsBack (handle now (probe_end none) c)
unfolding handle on_probe_end
last_probe-IsBack now c busy fresh =
    let told =
      finish_retry now (mark_answering now (record c { probing = false; ended = suc c.ended })) in
    let told_back =
      finish_retry-IsBack now _
        (mark_answering-IsBack now (record c { probing = false; ended = suc c.ended }) refl) in
    if-either IsBack c.probing
      (λ _.
        if-either IsBack c.probe_again (λ again. absurd (cc (again, fresh)))
          (λ _.
            if-either IsBack (is_some told.lost)
              (λ e. absurd (found_no_outage told.lost told_back.0 e)) (λ _. told_back)))
      (λ idle. absurd (cc (idle, busy)))

idle_probe_end : (now : ℕ) (c : Connection) → IsBack c → IsBack (handle now (probe_end none) c)
unfolding handle
idle_probe_end now c back =
    if-either IsBack c.probing (λ busy. absurd (cc (busy, back.3))) (λ _. back)

asked_again :
    (now : ℕ) (c : Connection)
    → c.probing ≡ true
    → c.probe_again ≡ true
    → c.has_token ≡ true
    → ((handle now (probe_end none) c).probing ≡ true)
      × ((handle now (probe_end none) c).probe_again ≡ false)
unfolding handle on_probe_end probe
asked_again now c busy again token = rw (busy, again, token) (refl, refl)

retry_fires :
    (now : ℕ) (c : Connection)
    → (c.probing || c.retry_timer) ≡ true
    → c.has_token ≡ true
    → ((handle now (retry_timer_fires false) c).probing ≡ true)
      × ((handle now (retry_timer_fires false) c).has_token ≡ true)
unfolding handle on_retry_timer probe finish_retry render_connection_state
retry_fires now c watched token = ground arith

two_probes-IsBack :
    (second third : ℕ) (c : Connection)
    → c.probing ≡ true
    → c.has_token ≡ true
    → IsBack (handle third (probe_end none) (handle second (probe_end none) c))
two_probes-IsBack second third c busy token = elim (Bool-cases c.probe_again) [
  | inl again ↦
      let asked = asked_again second c busy again token in
      last_probe-IsBack third (handle second (probe_end none) c) asked.0 asked.1
  | inr fresh ↦
      idle_probe_end third (handle second (probe_end none) c)
        (last_probe-IsBack second c busy fresh)
]

-- Whatever happened before, and whatever the page is waiting for: once the API is lost and there is a
-- token, the next round of the retry timer in a visible tab and two probes that find the API answering
-- end the outage. The banner is gone, the nav gate is open, and no probe is out.
pub run-Recovers :
    (has_token : Bool) (es : List (ℕ × Event)) (first second third : ℕ)
    → (run (start has_token) es).has_token ≡ true
    → is_some (run (start has_token) es).lost ≡ true
    → IsBack (
        run (run (start has_token) es) (
          (first, retry_timer_fires false)
          ∷ (second, probe_end none)
          ∷ (third, probe_end none)
          ∷ []))
run-Recovers has_token es first second third token lost =
    let c = run (start has_token) es in
    let fired = retry_fires first c ((run-Watches has_token es).watched lost) token in
    two_probes-IsBack second third (handle first (retry_timer_fires false) c) fired.0 fired.1
