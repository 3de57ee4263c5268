-- ===== src/ApplySession/Examples.antt =====
-- The countdown panel on small answers of the host.
use evuproxy.Common.{ℕ, ◌+◌, List, [], ◌∷◌, ◌≡◌, ◌≢◌, refl, true, false, none, some}
use evuproxy.Json.{decimal}
use evuproxy.ApplySession.{active, Status, Panel, session_of, revert_of, note_subject, tick, render}
use evuproxy.ApplySession.Events.{
  Read, clear, thrown, adopt, poll_answered, act, act_accepted, act_settled,
}
use evuproxy.ApplySession.Shown.{Shows, render-Shows}
use evuproxy.ApplySession.Settling.{answer_polls, told, ends_seen, settled-act, note-error}

abbrev counting : Status
counting = record {
  session = some (record {
    phase = active;
    deadline = "12:00";
    remaining_seconds = 60;
    timeout_seconds = 60;
    failure = "";
  });
  last_revert = none;
  confirm_enabled = true;
  confirm_timeout_seconds = 60;
}

abbrev over : Status
over = record {
  session = none;
  last_revert = none;
  confirm_enabled = true;
  confirm_timeout_seconds = 60;
}

abbrev panel : Panel
panel = record {
  status = some counting;
  unreachable = false;
  ends_at = 60000;
  warned = false;
  busy = false;
  last_seen_session = true;
  note = record { text = "HTTP 500"; is_err = true };
  announcement = "";
  view = record {
    hidden = true;
    warning = false;
    danger = false;
    info = false;
    title = "";
    detail = "";
    check_hidden = true;
    keep_hidden = true;
    revert_hidden = true;
    revert_label = "";
    restore_hidden = true;
    dismiss_hidden = true;
  };
  settled = 0;
}

detail_shown : (render 49500 panel).view.detail ≡ "Reverting in 11s"
unfolding render decimal
detail_shown = refl

settled_over : (adopt 1000 (some over) panel).settled ≡ 1
unfolding adopt render note_subject
settled_over = refl

render-Shows_example :
    Shows (session_of panel.status) (revert_of panel.status) (render 0 panel).view
render-Shows_example = render-Shows 0 panel

abbrev polls : List (ℕ × Read)
polls =
    (1000, clear (some counting))
    ∷ (4000, thrown "cut off")
    ∷ (7000, clear (some over))
    ∷ (37000, clear none)
    ∷ []

told_polls : ends_seen true (told polls) ≡ 1
told_polls = refl

-- A poll that was in flight brings the session before the yes, another fails after it.
abbrev early : List (ℕ × Read)
early = (1000, clear (some counting)) ∷ []

abbrev late : List (ℕ × Read)
late = (1200, thrown "cut off") ∷ (1300, clear (some over)) ∷ []

settled-act_example :
    let asked = answer_polls early (act panel).0 in
    let freed = act_settled 1400 (clear (some over)) (answer_polls late (act_accepted asked)) in
    ((act panel).1 ≡ true) × (freed.settled ≡ asked.settled + 1) × (freed.busy ≡ false)
settled-act_example = settled-act early late 1400 (clear (some over)) panel refl (refl, tt)

-- One that brings the session after it makes `onSettled` run twice.
settled_twice :
    (act_settled 1400 (clear (some over)) (answer_polls early (act_accepted (act panel).0))).settled
    ≡ 2
unfolding act_settled act_accepted act poll_answered adopt render note_subject
settled_twice = refl

note-error_example :
    ((tick 0 panel).note ≡ panel.note)
    × ((poll_answered 0 (thrown "cut off") panel).note ≡ panel.note)
    × (note_subject panel.status ≡ note_subject (some over)
        → (adopt 0 (some over) panel).note ≡ panel.note)
    × (note_subject panel.status ≢ note_subject (some over)
        → (adopt 0 (some over) panel).note.is_err ≡ false)
note-error_example = note-error 0 (some over) "cut off" panel refl refl
