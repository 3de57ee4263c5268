-- ===== src/Loading/Nesting.antt =====
-- A region is busy exactly while a load of it is out.
use evuproxy.Common.{
  ℕ, zero, suc, ◌-◌, ◌≡◌, refl, Bool, true, false, ◌&&◌, ◌||◌, List, [], ◌∷◌, ltb, if-either, arith,
}
use evuproxy.Loading.{
  Region, begin_region, ended, end_at, end_region, show_loading_visual, Event, begins, ends,
  timer_fires, handle, run, start,
}

-- The loads that are out after the events, `n` being out before: one more for each begin, one fewer for
-- each end of a load that is out.
abbrev pub loads_out : ℕ → List Event → ℕ
loads_out n [] = n
loads_out n (begins ∷ es) = loads_out (suc n) es
loads_out n (ends ∷ es) = loads_out (n - 1) es
loads_out n (timer_fires has_text ∷ es) = loads_out n es

-- How a region is marked while `n` loads of it are out.
pub record IsMarked (n : ℕ) (r : Region) : Type 0 where
  pub busy : r.aria_busy ≡ ltb 0 n
  pub counted : r.count ≡ n
  pub timed : r.timer ≡ true → r.aria_busy ≡ true
  pub shown : r.skeleton || r.is_loading ≡ true → (r.aria_busy ≡ true) × (r.timer ≡ false)
  pub one_visual : r.skeleton && r.is_loading ≡ false

begin_region-IsMarked : (n : ℕ) (r : Region) → IsMarked n r → IsMarked (suc n) (begin_region r)
unfolding begin_region
begin_region-IsMarked n r m = ground arith

ended-IsMarked : (n : ℕ) (r : Region) → IsMarked (suc n) r → IsMarked n (ended n r)
ended-IsMarked n r m = ground arith

end_region-IsMarked : (n : ℕ) (r : Region) → IsMarked n r → IsMarked (n - 1) (end_region r)
unfolding end_region
end_region-IsMarked n r m = by_count r.count refl
  where
    by_count : (c : ℕ) → r.count ≡ c → IsMarked (n - 1) (end_at c r)
    by_count zero e = let none_out = m.counted in ground arith
    by_count (suc k) e = let counted = m.counted in ground arith

show_loading_visual-IsMarked :
    (n : ℕ) (has_text : Bool) (r : Region)
    → r.timer ≡ true
    → IsMarked n r
    → IsMarked n (show_loading_visual has_text r)
unfolding show_loading_visual
show_loading_visual-IsMarked n has_text r on m = ground arith

run-IsMarked_from :
    (es : List Event) (n : ℕ) (r : Region) → IsMarked n r → IsMarked (loads_out n es) (run r es)
unfolding handle
run-IsMarked_from [] n r m = m
run-IsMarked_from (begins ∷ es) n r m =
    run-IsMarked_from es (suc n) (begin_region r) (begin_region-IsMarked n r m)
run-IsMarked_from (ends ∷ es) n r m =
    run-IsMarked_from es (n - 1) (end_region r) (end_region-IsMarked n r m)
run-IsMarked_from (timer_fires has_text ∷ es) n r m =
    run-IsMarked_from es n (handle (timer_fires has_text) r)
      (if-either (IsMarked n) r.timer (λ y. show_loading_visual-IsMarked n has_text r y m) (λ _. m))

-- However the loads of a region overlap: it is busy exactly while more of them have begun than ended,
-- the delay and what is drawn after it come only then and never together, and it is never both dimmed
-- and a skeleton.
pub run-IsMarked : (es : List Event) → IsMarked (loads_out 0 es) (run start es)
run-IsMarked es = run-IsMarked_from es 0 start (ground arith)
