-- ===== src/Connection/Contact.antt =====
-- While contact is lost, something is always under way that finds out when it is back.
use evuproxy.Common.{
  ℕ, suc, ◌+◌, ◌≡◌, refl, ◌∙◌, ap, Bool, true, false, not, ◌||◌, Option, none, some, is_some, List,
  [], ◌∷◌, if◌then◌else◌, Bool-cases, if-either, inl, inr, arith,
}
use evuproxy.Connection.{
  Failure, Lost, Banner, Connection, title_of, is_auth, render_connection_state, mark_lost,
  mark_answering, mark_outcome, reload_after_recovery, finish_retry, probe, on_probe_end,
  on_api_outcome, Outcome, is_answered, on_retry_timer, on_reload_timer, on_retry_click,
  probe_if_lost, Event, probe_end, api_outcome, retry_timer_fires, reload_timer_fires, retry_click,
  back_on_screen, page_shown, page_loaded, gate_read, token_stored, handle, start, run,
}

-- What the banner says of an outage.
abbrev pub Says : Option Lost → Banner → Type 0
Says none b = b.hidden ≡ true
Says (some l) b =
    (b.hidden ≡ false)
    × (b.title ≡ title_of l.kind)
    × (b.detail ≡ l.detail)
    × (b.token_hidden ≡ not (is_auth l.kind))

abbrev in_flight : Bool → ℕ
in_flight true = 1
in_flight false = 0

pub record IsValid (c : Connection) : Type 0 where
  pub one_probe : c.sent ≡ in_flight c.probing + c.ended
  pub retry_runs : c.retrying ≡ true → c.probing ≡ true
  pub again_runs : c.probe_again ≡ true → c.probing ≡ true
  pub watched : is_some c.lost ≡ true → (c.probing || c.retry_timer) ≡ true
  pub says : Says c.lost c.banner

-- What a probe may start from.
record IsReady (c : Connection) : Type 0 where
  one_probe : c.sent ≡ in_flight c.probing + c.ended
  again_runs : c.probe_again ≡ true → c.probing ≡ true
  says : Says c.lost c.banner

is_ready : (c : Connection) → IsValid c → IsReady c
is_ready c v = record { one_probe = v.one_probe; again_runs = v.again_runs; says = v.says }

probe-IsValid : (now : ℕ) (c : Connection) → IsReady c → IsValid (probe now c)
unfolding probe render_connection_state finish_retry
probe-IsValid now c r = elim (Bool-cases c.probing) [
  | inl y ↦ rw y (ground arith)
  | inr n ↦ elim (Bool-cases c.has_token) [
    | inl y ↦ rw n rw y (ground arith)
    | inr m ↦ elim (Bool-cases c.retrying) [
      | inl y ↦ rw n rw m rw y (ground arith)
      | inr k ↦ rw n rw m rw k (ground arith)
    ]
  ]
]

-- A probe came back: `finish_retry` and the retry timer leave the page ready, whatever was found.
record IsTold (c : Connection) : Type 0 where
  one_probe : c.sent ≡ c.ended
  idle : (c.probing ≡ false) × (c.probe_again ≡ false)
  says : Says c.lost c.banner

mark_lost-IsTold :
    (now : ℕ) (e : Failure) (c : Connection)
    → c.sent ≡ c.ended
    → (c.probing ≡ false) × (c.probe_again ≡ false)
    → IsTold (mark_lost now e c)
unfolding mark_lost render_connection_state
mark_lost-IsTold now e c one idle = record {
  one_probe = one;
  idle = idle;
  says = (refl, refl, refl, refl);
}

reload_after_recovery-IsTold :
    (now : ℕ) (c : Connection) → IsTold c → IsTold (reload_after_recovery now c)
unfolding reload_after_recovery
reload_after_recovery-IsTold now c t = ground arith

mark_answering-IsTold :
    (now : ℕ) (c : Connection)
    → c.sent ≡ c.ended
    → (c.probing ≡ false) × (c.probe_again ≡ false)
    → IsTold (mark_answering now c)
unfolding mark_answering render_connection_state
mark_answering-IsTold now c one idle = ground arith

mark_outcome-IsTold :
    (now : ℕ) (failure : Option Failure) (c : Connection)
    → c.sent ≡ c.ended
    → (c.probing ≡ false) × (c.probe_again ≡ false)
    → IsTold (mark_outcome now failure c)
mark_outcome-IsTold now none c one idle = mark_answering-IsTold now c one idle
mark_outcome-IsTold now (some e) c one idle = mark_lost-IsTold now e c one idle

finish-IsValid :
    (now : ℕ) (c : Connection)
    → IsTold c
    → IsValid (
        let told = finish_retry now c in
        if is_some told.lost then record told { retry_timer = true } else told)
unfolding finish_retry
finish-IsValid now c t = ground arith

on_probe_end-IsValid :
    (now : ℕ) (failure : Option Failure) (c : Connection)
    → c.probing ≡ true
    → IsValid c
    → IsValid (on_probe_end now failure c)
unfolding on_probe_end
on_probe_end-IsValid now failure c busy v =
    let back : c.sent ≡ suc c.ended =
      v.one_probe ∙ ap (λ b. in_flight b + c.ended) busy ∙ omega arith in
    if-either IsValid c.probe_again
      (λ _.
        probe-IsValid now (record c { probing = false; probe_again = false; ended = suc c.ended })
          (record { one_probe = back ∙ omega arith; again_runs = λ e. e; says = v.says }))
      (λ n. finish-IsValid now _ (mark_outcome-IsTold now failure _ back (refl, n)))

on_api_outcome-IsValid :
    (now : ℕ) (outcome : Outcome) (c : Connection)
    → IsValid c
    → IsValid (on_api_outcome now outcome c)
unfolding on_api_outcome
on_api_outcome-IsValid now outcome c v =
    let seen : IsValid (if is_answered outcome then record c { ever_answered = true } else c) =
      if-either IsValid (is_answered outcome)
        (λ _. record {
          one_probe = v.one_probe;
          retry_runs = v.retry_runs;
          again_runs = v.again_runs;
          watched = v.watched;
          says = v.says;
        })
        (λ _. v) in
    if-either IsValid (not c.has_token) (λ _. v)
      (λ _. if-either IsValid _ (λ _. probe-IsValid now _ (is_ready _ seen)) (λ _. seen))

on_retry_timer-IsValid :
    (now : ℕ) (hidden : Bool) (c : Connection) → IsValid c → IsValid (on_retry_timer now hidden c)
unfolding on_retry_timer
on_retry_timer-IsValid now hidden c v =
    if-either IsValid (not c.retry_timer) (λ _. v)
      (λ _.
        if-either IsValid hidden (λ _. v)
          (λ _.
            probe-IsValid now _
              (record { one_probe = v.one_probe; again_runs = v.again_runs; says = v.says })))

on_reload_timer-IsValid : (now : ℕ) (c : Connection) → IsValid c → IsValid (on_reload_timer now c)
unfolding on_reload_timer reload_after_recovery
on_reload_timer-IsValid now c v = ground arith

on_retry_click-IsValid : (now : ℕ) (c : Connection) → IsValid c → IsValid (on_retry_click now c)
unfolding on_retry_click
on_retry_click-IsValid now c v =
    if-either IsValid c.retrying (λ _. v)
      (λ _.
        probe-IsValid now _
          (record { one_probe = v.one_probe; again_runs = v.again_runs; says = v.says }))

probe_if_lost-IsValid :
    (now : ℕ) (hidden : Bool) (c : Connection) → IsValid c → IsValid (probe_if_lost now hidden c)
unfolding probe_if_lost
probe_if_lost-IsValid now hidden c v =
    if-either IsValid _ (λ _. probe-IsValid now c (is_ready c v)) (λ _. v)

render-IsValid : (c : Connection) → IsValid c → IsValid (render_connection_state c)
unfolding render_connection_state
render-IsValid c v = ground arith

handle-IsValid : (now : ℕ) (e : Event) (c : Connection) → IsValid c → IsValid (handle now e c)
unfolding handle
handle-IsValid now (probe_end failure) c v =
    if-either IsValid c.probing (λ y. on_probe_end-IsValid now failure c y v) (λ _. v)
handle-IsValid now (api_outcome outcome) c v = on_api_outcome-IsValid now outcome c v
handle-IsValid now (retry_timer_fires hidden) c v = on_retry_timer-IsValid now hidden c v
handle-IsValid now reload_timer_fires c v = on_reload_timer-IsValid now c v
handle-IsValid now retry_click c v = on_retry_click-IsValid now c v
handle-IsValid now (back_on_screen hidden) c v = probe_if_lost-IsValid now hidden c v
handle-IsValid now (page_shown name) c v = render-IsValid _ (record {
  one_probe = v.one_probe;
  retry_runs = v.retry_runs;
  again_runs = v.again_runs;
  watched = v.watched;
  says = v.says;
})
handle-IsValid now (page_loaded name) c v = record {
  one_probe = v.one_probe;
  retry_runs = v.retry_runs;
  again_runs = v.again_runs;
  watched = v.watched;
  says = v.says;
}
handle-IsValid now (gate_read ok) c v = record {
  one_probe = v.one_probe;
  retry_runs = v.retry_runs;
  again_runs = v.again_runs;
  watched = v.watched;
  says = v.says;
}
handle-IsValid now (token_stored kept) c v = record {
  one_probe = v.one_probe;
  retry_runs = v.retry_runs;
  again_runs = v.again_runs;
  watched = v.watched;
  says = v.says;
}

run-IsValid_from : (es : List (ℕ × Event)) (c : Connection) → IsValid c → IsValid (run c es)
run-IsValid_from [] c v = v
run-IsValid_from ((now, e) ∷ es) c v =
    run-IsValid_from es (handle now e c) (handle-IsValid now e c v)

-- After any events: at most one probe is out and every other one came back, a "busy" Retry button and
-- a request to probe again both mean that one is out, lost contact always has a probe or the retry
-- timer under way, and the banner shows the outage and nothing else.
pub run-Watches : (has_token : Bool) (es : List (ℕ × Event)) → IsValid (run (start has_token) es)
unfolding start
run-Watches has_token es = run-IsValid_from es (start has_token) (ground arith)
