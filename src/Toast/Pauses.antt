-- ===== src/Toast/Pauses.antt =====
-- For how long a toast is up: pauses neither shorten nor lengthen it.
use evuproxy.Common.{
  ℕ, ◌+◌, ◌-◌, ◌≤◌, ◌≡◌, refl, String, Bool, true, false, not, ◌&&◌, ◌||◌, Option, none, some,
  is_some, List, [], ◌∷◌, if◌then◌else◌, if-either, arith,
}
use evuproxy.Toast.{
  toast_duration_ms, Toast, timer_should_run, stop_at, start_at, sync_timer, reset_timer,
  remove_toast_el, show_toast, dismiss_toast, run_action, Event, shows, pointer, focus_in,
  focus_out, next_frame, tab_hides, timer_fires, close_click, escape, action_click, transition_ends,
  fallback_fires, handle, start,
}

-- A toast that is watched: when the last event was, and for how long in all a timer of it was on since
-- it was last shown.
pub record Watched : Type 0 where
  pub toast : Toast
  pub last : ℕ
  pub ran : ℕ

abbrev is_show : Event → Bool
is_show (shows _ _ _) = true
is_show _ = false

abbrev between : ℕ → ℕ → Option ℕ → ℕ
between last now timer = if is_some timer then now - last else 0

abbrev watch : ℕ → Event → Watched → Watched
watch now e w = record {
  toast = handle now e w.toast;
  last = now;
  ran = if is_show e then 0 else w.ran + between w.last now w.toast.timer;
}

abbrev pub watch_all : Watched → List (ℕ × Event) → Watched
watch_all w [] = w
watch_all w ((now, e) ∷ es) = watch_all (watch now e w) es

abbrev pub unwatched : Watched
unfolding start
unwatched = record { toast = start; last = 0; ran = 0 }

-- The clock does not go back.
abbrev pub Rising : ℕ → List (ℕ × Event) → Type 0
Rising last [] = Unit {0}
Rising last ((now, e) ∷ es) = (last ≤ now) × Rising now es

-- What is left to a toast at a time: a timer that is on has used up some of what remained.
abbrev pub left_at : ℕ → Option ℕ → ℕ → ℕ
left_at now none remaining = remaining
left_at now (some started) remaining = remaining - (now - started)

abbrev IsPast : ℕ → Option ℕ → Type 0
IsPast now none = Unit {0}
IsPast now (some started) = started ≤ now

abbrev IsFair : ℕ → ℕ → Toast → Type 0
IsFair now ran t =
    t.shown && not t.leaving ≡ true
    → IsPast now t.timer × (left_at now t.timer t.remaining_ms ≡ toast_duration_ms - ran)

time_passes :
    (last now ran : ℕ) (timer : Option ℕ) (remaining : ℕ)
    → last ≤ now
    → IsPast last timer
    → left_at last timer remaining ≡ toast_duration_ms - ran
    → IsPast now timer
      × (left_at now timer remaining ≡ toast_duration_ms - (ran + between last now timer))
time_passes last now ran none remaining rises past fair = (tt, omega (arith, fair))
time_passes last now ran (some started) remaining rises past fair =
    (omega (arith, rises, past), omega (arith, rises, past, fair))

sync_timer-IsFair : (now ran : ℕ) (t : Toast) → IsFair now ran t → IsFair now ran (sync_timer now t)
unfolding sync_timer
sync_timer-IsFair now ran t fair =
    if-either (IsFair now ran) (timer_should_run t) (λ _. started t.timer fair)
      (λ _. stopped t.timer fair)
  where
    started :
        (timer : Option ℕ)
        → IsFair now ran (record t { timer = timer })
        → IsFair now ran (start_at now timer (record t { timer = timer }))
    started none f y = (omega arith, omega (arith, (f y).1))
    started (some at) f y = f y

    stopped :
        (timer : Option ℕ)
        → IsFair now ran (record t { timer = timer })
        → IsFair now ran (stop_at now timer (record t { timer = timer }))
    stopped none f y = f y
    stopped (some at) f y = (tt, (f y).1)

dismiss_toast-IsFair :
    (now ran : ℕ) (t : Toast) → IsFair now ran t → IsFair now ran (dismiss_toast t)
unfolding dismiss_toast
dismiss_toast-IsFair now ran t fair =
    if-either (IsFair now ran) (not t.shown || t.leaving) (λ _. fair)
      (λ _ y. absurd (leaves t.shown y))
  where
    leaves : (b : Bool) → b && false ≡ true → ⊥
    leaves true e = cc e
    leaves false e = cc e

remove_toast_el-IsFair : (now ran : ℕ) (t : Toast) → IsFair now ran (remove_toast_el t)
unfolding remove_toast_el
remove_toast_el-IsFair now ran t y = absurd (cc y)

run_action-IsFair :
    (now ran : ℕ) (action : Option ℕ) (t : Toast)
    → IsFair now ran t
    → IsFair now ran (run_action action t)
run_action-IsFair now ran none t fair = fair
run_action-IsFair now ran (some f) t fair =
    dismiss_toast-IsFair now ran (record t { action = none }) fair

show_toast-IsFair :
    (now : ℕ) (message : String) (action : Option ℕ) (error : Bool) (t : Toast)
    → IsFair now 0 (show_toast now message action error t)
unfolding show_toast reset_timer
show_toast-IsFair now message action error t =
    sync_timer-IsFair now 0
      (record t {
        shown = true;
        leaving = false;
        leave_fallback = false;
        sticky = error;
        message = message;
        action = action;
        timer = none;
        remaining_ms = toast_duration_ms;
      })
      (λ _. (tt, refl))

-- At the time of an event that is no new toast.
abbrev Kept : ℕ → ℕ → Event → Toast → Type 0
Kept now ran e t = IsFair now (if is_show e then 0 else ran) (handle now e t)

handle-IsFair : (now ran : ℕ) (e : Event) (t : Toast) → IsFair now ran t → Kept now ran e t
unfolding handle
handle-IsFair now ran (shows message action error) t f =
    show_toast-IsFair now message action error t
handle-IsFair now ran (pointer over) t f =
    if-either (IsFair now ran) t.shown
      (λ _. sync_timer-IsFair now ran (record t { hovered = over }) f) (λ _. f)
handle-IsFair now ran focus_in t f =
    if-either (IsFair now ran) t.shown
      (λ _. sync_timer-IsFair now ran (record t { focus_within = true }) f) (λ _. f)
handle-IsFair now ran focus_out t f = if-either (IsFair now ran) t.shown (λ _. f) (λ _. f)
handle-IsFair now ran next_frame t f =
    if-either (IsFair now ran) t.frame
      (λ _. sync_timer-IsFair now ran (record t { frame = false }) f) (λ _. f)
handle-IsFair now ran (tab_hides hidden) t f =
    sync_timer-IsFair now ran (record t { tab_hidden = hidden }) f
handle-IsFair now ran timer_fires t f =
    if-either (IsFair now ran) (is_some t.timer) (λ _. dismiss_toast-IsFair now ran t f) (λ _. f)
handle-IsFair now ran close_click t f = dismiss_toast-IsFair now ran t f
handle-IsFair now ran escape t f =
    if-either (IsFair now ran) t.focus_within (λ _. dismiss_toast-IsFair now ran t f) (λ _. f)
handle-IsFair now ran action_click t f = run_action-IsFair now ran t.action t f
handle-IsFair now ran transition_ends t f =
    if-either (IsFair now ran) t.leaving (λ _. remove_toast_el-IsFair now ran t) (λ _. f)
handle-IsFair now ran fallback_fires t f =
    if-either (IsFair now ran) t.leave_fallback (λ _. remove_toast_el-IsFair now ran t) (λ _. f)

watch_all-IsFair :
    (es : List (ℕ × Event)) (w : Watched)
    → Rising w.last es
    → IsFair w.last w.ran w.toast
    → IsFair (watch_all w es).last (watch_all w es).ran (watch_all w es).toast
watch_all-IsFair [] w rises fair = fair
watch_all-IsFair ((now, e) ∷ es) w rises fair =
    let passed : IsFair now (w.ran + between w.last now w.toast.timer) w.toast = λ y.
      time_passes w.last now w.ran w.toast.timer w.toast.remaining_ms rises.0 (fair y).0
        (fair y).1 in
    watch_all-IsFair es (watch now e w) rises.1
      (handle-IsFair now (w.ran + between w.last now w.toast.timer) e w.toast passed)

-- Of a toast on screen that is not leaving, at the time of the last of any events, in the order of
-- their times: what is left is its duration less the time that its timer was on since it was last
-- shown, or nothing once that is over. Time with the timer off takes nothing away, and a pause loses
-- nothing of the time before it.
pub watch_all-Pauses :
    (es : List (ℕ × Event))
    → Rising 0 es
    → (watch_all unwatched es).toast.shown && not (watch_all unwatched es).toast.leaving ≡ true
    → left_at
        (watch_all unwatched es).last
        (watch_all unwatched es).toast.timer
        (watch_all unwatched es).toast.remaining_ms
      ≡ toast_duration_ms - (watch_all unwatched es).ran
unfolding start
watch_all-Pauses es rises up = (watch_all-IsFair es unwatched rises (λ y. absurd (cc y)) up).1
