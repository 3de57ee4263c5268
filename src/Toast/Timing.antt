-- ===== src/Toast/Timing.antt =====
-- When the timer of a toast runs, and for how long.
use evuproxy.Common.{
  ℕ, ◌≡◌, refl, ap, String, Bool, true, false, not, ◌&&◌, ◌||◌, Option, none, some, is_some, List,
  [], ◌∷◌, if-either, arith,
}
use evuproxy.Toast.{
  toast_duration_ms, Toast, timer_should_run, stop_at, start_at, sync_timer, reset_timer,
  remove_toast_el, show_toast, dismiss_toast, run_action, Event, shows, pointer, focus_in,
  focus_out, next_frame, tab_hides, timer_fires, close_click, escape, action_click, transition_ends,
  fallback_fires, handle, start, run,
}

-- A toast on screen that is not leaving: its timer runs exactly while nothing keeps it, up to the frame
-- that is waiting; and a toast that leaves has its way out.
pub record IsTimed (t : Toast) : Type 0 where
  pub runs_only :
      t.shown && not t.leaving ≡ true
      → is_some t.timer ≡ true
      → (t.sticky ≡ false) × (t.hovered ≡ false) × (t.focus_within ≡ false) × (t.tab_hidden ≡ false)
  pub runs_then :
      t.shown && not t.leaving ≡ true
      → t.sticky ≡ false
      → t.hovered ≡ false
      → t.focus_within ≡ false
      → t.tab_hidden ≡ false
      → is_some t.timer || t.frame ≡ true
  pub has_way_out : t.leaving ≡ true → t.leave_fallback ≡ true
  pub gone : t.shown ≡ false → (t.leaving ≡ false) × (t.leave_fallback ≡ false)

sync_timer-IsTimed :
    (now : ℕ) (t : Toast)
    → (t.leaving ≡ true → t.leave_fallback ≡ true)
    → (t.shown ≡ false → (t.leaving ≡ false) × (t.leave_fallback ≡ false))
    → IsTimed (sync_timer now t)
unfolding sync_timer timer_should_run
sync_timer-IsTimed now t out gone =
    if-either IsTimed (timer_should_run t) (λ y. started t.timer refl y)
      (λ n. stopped t.timer refl n)
  where
    started :
        (timer : Option ℕ)
        → t.timer ≡ timer
        → timer_should_run t ≡ true
        → IsTimed (start_at now timer t)
    started none e y = ground arith
    started (some at) e y = let on = ap (is_some {A = ℕ}) e in ground arith

    stopped :
        (timer : Option ℕ)
        → t.timer ≡ timer
        → timer_should_run t ≡ false
        → IsTimed (stop_at now timer t)
    stopped none e n = let off = ap (is_some {A = ℕ}) e in ground arith
    stopped (some at) e n = ground arith

dismiss_toast-IsTimed : (t : Toast) → IsTimed t → IsTimed (dismiss_toast t)
unfolding dismiss_toast timer_should_run
dismiss_toast-IsTimed t v = ground arith

run_action-IsTimed : (action : Option ℕ) (t : Toast) → IsTimed t → IsTimed (run_action action t)
unfolding dismiss_toast timer_should_run
run_action-IsTimed none t v = v
run_action-IsTimed (some f) t v = ground arith

remove_toast_el-IsTimed : (t : Toast) → IsTimed (remove_toast_el t)
unfolding remove_toast_el
remove_toast_el-IsTimed t = ground arith

show_toast-IsTimed :
    (now : ℕ) (message : String) (action : Option ℕ) (error : Bool) (t : Toast)
    → IsTimed (show_toast now message action error t)
unfolding show_toast reset_timer
show_toast-IsTimed now message action error t =
    sync_timer-IsTimed now
      (record t {
        shown = true;
        leaving = false;
        leave_fallback = false;
        sticky = error;
        message = message;
        action = action;
        timer = none;
        remaining_ms = toast_duration_ms;
      })
      (λ e. ground arith) (λ e. ground arith)

focus_out-IsTimed :
    (t : Toast) → IsTimed t → IsTimed (record t { focus_within = false; frame = true })
unfolding timer_should_run
focus_out-IsTimed t v = ground arith

handle-IsTimed : (now : ℕ) (e : Event) (t : Toast) → IsTimed t → IsTimed (handle now e t)
unfolding handle
handle-IsTimed now (shows message action error) t v = show_toast-IsTimed now message action error t
handle-IsTimed now (pointer over) t v =
    if-either IsTimed t.shown
      (λ _. sync_timer-IsTimed now (record t { hovered = over }) v.has_way_out v.gone) (λ _. v)
handle-IsTimed now focus_in t v =
    if-either IsTimed t.shown
      (λ _. sync_timer-IsTimed now (record t { focus_within = true }) v.has_way_out v.gone) (λ _. v)
handle-IsTimed now focus_out t v = if-either IsTimed t.shown (λ y. focus_out-IsTimed t v) (λ _. v)
handle-IsTimed now next_frame t v =
    if-either IsTimed t.frame
      (λ _. sync_timer-IsTimed now (record t { frame = false }) v.has_way_out v.gone) (λ _. v)
handle-IsTimed now (tab_hides hidden) t v =
    sync_timer-IsTimed now (record t { tab_hidden = hidden }) v.has_way_out v.gone
handle-IsTimed now timer_fires t v =
    if-either IsTimed (is_some t.timer) (λ _. dismiss_toast-IsTimed t v) (λ _. v)
handle-IsTimed now close_click t v = dismiss_toast-IsTimed t v
handle-IsTimed now escape t v =
    if-either IsTimed t.focus_within (λ _. dismiss_toast-IsTimed t v) (λ _. v)
handle-IsTimed now action_click t v = run_action-IsTimed t.action t v
handle-IsTimed now transition_ends t v =
    if-either IsTimed t.leaving (λ _. remove_toast_el-IsTimed t) (λ _. v)
handle-IsTimed now fallback_fires t v =
    if-either IsTimed t.leave_fallback (λ _. remove_toast_el-IsTimed t) (λ _. v)

run-IsTimed_from : (es : List (ℕ × Event)) (t : Toast) → IsTimed t → IsTimed (run t es)
run-IsTimed_from [] t v = v
run-IsTimed_from ((now, e) ∷ es) t v =
    run-IsTimed_from es (handle now e t) (handle-IsTimed now e t v)

-- After any events, of a toast that is on screen and not leaving: the timer runs only while neither
-- pointer nor focus is on it, the tab is visible and it is no failure, and it does run then, or
-- starts with the next frame. A toast that leaves has the timer that removes it.
pub run-IsTimed : (es : List (ℕ × Event)) → IsTimed (run start es)
unfolding start
run-IsTimed es = run-IsTimed_from es start (ground arith)
