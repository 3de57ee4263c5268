-- ===== src/Loading/Examples.antt =====
-- Two loads that overlap, the first of them slow.
use evuproxy.Common.{◌≡◌, refl, true, List, [], ◌∷◌}
use evuproxy.Loading.{Event, begins, ends, timer_fires, handle, run, start}
use evuproxy.Loading.Nesting.{loads_out, IsMarked, run-IsMarked}

abbrev overlapping : List Event
overlapping = begins ∷ begins ∷ timer_fires true ∷ ends ∷ []

still_dimmed : (run start overlapping).is_loading ≡ true
unfolding handle
still_dimmed = refl

run-IsMarked_example : IsMarked (loads_out 0 overlapping) (run start overlapping)
run-IsMarked_example = run-IsMarked overlapping
