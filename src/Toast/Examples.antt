-- ===== src/Toast/Examples.antt =====
-- A toast that the pointer rests on for a while.
use evuproxy.Common.{ℕ, ◌-◌, ◌&&◌, not, arith, ◌≡◌, refl, true, false, some, List, [], ◌∷◌}
use evuproxy.Toast.{toast_duration_ms, Event, shows, pointer, action_click, handle, start, run}
use evuproxy.Toast.Timing.{IsTimed, run-IsTimed}
use evuproxy.Toast.Pauses.{unwatched, watch_all, Rising, left_at, watch_all-Pauses}

abbrev rested : List (ℕ × Event)
rested = (1000, shows "Saved" (some 7) false) ∷ (4000, pointer true) ∷ (9000, pointer false) ∷ []

rested_remaining : (run start rested).remaining_ms ≡ 7000
unfolding start handle
rested_remaining = refl

abbrev twice : List (ℕ × Event)
twice = (1000, shows "Saved" (some 7) false) ∷ (1500, action_click) ∷ (1600, action_click) ∷ []

called_once : (run start twice).called ≡ 7 ∷ []
unfolding start handle
called_once = refl

run-IsTimed_example : IsTimed (run start rested)
run-IsTimed_example = run-IsTimed rested

rested-Rising : Rising 0 rested
rested-Rising = (omega arith, (omega arith, (omega arith, tt)))

watched_ran : ((watch_all unwatched rested).ran ≡ 3000) × ((watch_all unwatched rested).last ≡ 9000)
unfolding start handle
watched_ran = (refl, refl)

still_up :
    (watch_all unwatched rested).toast.shown && not (watch_all unwatched rested).toast.leaving
    ≡ true
unfolding start handle
still_up = refl

watch_all-Pauses_example :
    left_at
      (watch_all unwatched rested).last
      (watch_all unwatched rested).toast.timer
      (watch_all unwatched rested).toast.remaining_ms
    ≡ toast_duration_ms - (watch_all unwatched rested).ran
watch_all-Pauses_example = watch_all-Pauses rested rested-Rising still_up
