-- ===== src/Connection/Examples.antt =====
-- An outage of a few seconds, seen from a page that has a token.
use evuproxy.Common.{ℕ, ◌≡◌, refl, true, false, none, some, is_some, List, [], ◌∷◌}
use evuproxy.Connection.{
  retry_ms, unreachable, Failure, no_answer, handle, Event, probe_end, api_outcome,
  retry_timer_fires, start, run,
}
use evuproxy.Connection.Contact.{IsValid, run-Watches}
use evuproxy.Connection.Recovery.{Spaced, reloads-Spaced, IsBack, run-Recovers}

abbrev gone : Failure
gone = record { connection_kind = some unreachable; message = "No answer from the EvuProxy API." }

abbrev outage : List (ℕ × Event)
outage =
    (9000, api_outcome no_answer)
    ∷ (9100, probe_end (some gone))
    ∷ (14100, retry_timer_fires false)
    ∷ []

abbrev flapping : List (ℕ × Event)
flapping =
    (9000, api_outcome no_answer)
    ∷ (9100, probe_end (some gone))
    ∷ (14100, retry_timer_fires false)
    ∷ (14200, probe_end none)
    ∷ (14300, api_outcome no_answer)
    ∷ (14400, probe_end (some gone))
    ∷ (19400, retry_timer_fires false)
    ∷ (19500, probe_end none)
    ∷ []

reloads_of_flapping : (run (start true) flapping).reloads ≡ 19500 ∷ 14200 ∷ []
unfolding start handle
reloads_of_flapping = refl

run-Watches_example : IsValid (run (start true) outage)
run-Watches_example = run-Watches true outage

reloads-Spaced_example : Spaced retry_ms (run (start true) flapping).reloads
reloads-Spaced_example = reloads-Spaced true flapping

abbrev quiet : List (ℕ × Event)
quiet = (9000, api_outcome no_answer) ∷ (9100, probe_end (some gone)) ∷ []

quiet_token : (run (start true) quiet).has_token ≡ true
unfolding start handle
quiet_token = refl

was_lost : is_some (run (start true) quiet).lost ≡ true
unfolding start handle
was_lost = refl

run-Recovers_example : IsBack (
    run
      (run (start true) quiet)
      ((14100, retry_timer_fires false) ∷ (14200, probe_end none) ∷ (19300, probe_end none) ∷ []))
run-Recovers_example = run-Recovers true quiet 14100 14200 19300 quiet_token was_lost
