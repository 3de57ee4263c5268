-- ===== src/Toast.antt =====
-- web/static/js/core/toast.js: the one toast on screen, its timer with the pauses, and the way it
-- leaves. Times are in milliseconds. The function that a toast's button runs is told by a number.
pub mod Timing
pub mod Pauses
mod Examples
use evuproxy.Common.{
  ℕ, ◌-◌, String, Bool, true, false, not, ◌&&◌, ◌||◌, Option, none, some, is_some, List, [], ◌∷◌,
  if◌then◌else◌,
}

abbrev pub toast_duration_ms : ℕ
toast_duration_ms = 10000

-- `timerId` and the time it was started at; the toast is on screen while `shown`.
pub record Toast : Type 0 where
  pub shown : Bool
  pub leaving : Bool
  pub message : String
  pub action : Option ℕ
  pub sticky : Bool
  pub hovered : Bool
  pub focus_within : Bool
  pub tab_hidden : Bool
  pub remaining_ms : ℕ
  pub timer : Option ℕ
  pub leave_fallback : Bool
  -- A `syncTimer` that waits for the next frame, after the focus left.
  pub frame : Bool
  -- The buttons' functions that ran.
  pub called : List ℕ

unfoldable pub timer_should_run : Toast → Bool
timer_should_run t =
    t.shown && not t.sticky && not t.hovered && not t.tab_hidden && not t.focus_within

-- Stopping the timer at a time; what it ran for comes off what remains.
abbrev pub stop_at : ℕ → Option ℕ → Toast → Toast
stop_at now none t = t
stop_at now (some started) t = record t {
  timer = none;
  remaining_ms = t.remaining_ms - (now - started);
}

abbrev pub start_at : ℕ → Option ℕ → Toast → Toast
start_at now none t = record t { timer = some now }
start_at now (some started) t = t

unfoldable pub sync_timer : ℕ → Toast → Toast
unfolding timer_should_run
sync_timer now t = if timer_should_run t then start_at now t.timer t else stop_at now t.timer t

unfoldable pub reset_timer : ℕ → Toast → Toast
unfolding sync_timer
reset_timer now t = sync_timer now (record t { timer = none; remaining_ms = toast_duration_ms })

unfoldable pub remove_toast_el : Toast → Toast
remove_toast_el t = record t {
  shown = false;
  leaving = false;
  action = none;
  hovered = false;
  focus_within = false;
  leave_fallback = false;
}

-- A toast on screen is reused, also one that is leaving. The focus stays in it if it was there.
unfoldable pub show_toast : ℕ → String → Option ℕ → Bool → Toast → Toast
unfolding reset_timer
show_toast now message action error t = reset_timer now (record t {
  shown = true;
  leaving = false;
  leave_fallback = false;
  sticky = error;
  message = message;
  action = action;
})

-- The focus goes back to where it came from; that it left is seen a frame later.
unfoldable pub dismiss_toast : Toast → Toast
dismiss_toast t = if not t.shown || t.leaving then t else record t {
  timer = none;
  focus_within = false;
  frame = t.frame || t.focus_within;
  leaving = true;
  leave_fallback = true;
}

-- The button is there once: a second click while the toast fades out runs nothing.
abbrev pub run_action : Option ℕ → Toast → Toast
run_action none t = t
run_action (some f) t =
    let gone = dismiss_toast (record t { action = none }) in
    record gone { called = f ∷ gone.called }

pub data Event : Type 0 where
  shows : String → Option ℕ → Bool → Event
  pointer : Bool → Event
  focus_in focus_out next_frame : Event
  tab_hides : Bool → Event
  timer_fires close_click escape action_click : Event
  transition_ends fallback_fires : Event

unfoldable pub handle : ℕ → Event → Toast → Toast
unfolding show_toast sync_timer dismiss_toast remove_toast_el
handle now (shows message action error) t = show_toast now message action error t
handle now (pointer over) t = if t.shown then sync_timer now (record t { hovered = over }) else t
handle now focus_in t = if t.shown then sync_timer now (record t { focus_within = true }) else t
handle now focus_out t = if t.shown then record t { focus_within = false; frame = true } else t
handle now next_frame t = if t.frame then sync_timer now (record t { frame = false }) else t
handle now (tab_hides hidden) t = sync_timer now (record t { tab_hidden = hidden })
handle now timer_fires t = if is_some t.timer then dismiss_toast t else t
handle now close_click t = dismiss_toast t
handle now escape t = if t.focus_within then dismiss_toast t else t
handle now action_click t = run_action t.action t
handle now transition_ends t = if t.leaving then remove_toast_el t else t
handle now fallback_fires t = if t.leave_fallback then remove_toast_el t else t

unfoldable pub start : Toast
start = record {
  shown = false;
  leaving = false;
  message = "";
  action = none;
  sticky = false;
  hovered = false;
  focus_within = false;
  tab_hidden = false;
  remaining_ms = 0;
  timer = none;
  leave_fallback = false;
  frame = false;
  called = [];
}

abbrev pub run : Toast → List (ℕ × Event) → Toast
run t [] = t
run t ((now, e) ∷ es) = run (handle now e t) es
