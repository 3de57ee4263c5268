-- ===== src/ApplySession/Settling.antt =====
-- When a session ends: `onSettled` runs once, whoever ended it.
use evuproxy.Common.{
  ℕ, suc, ◌+◌, ◌≡◌, ◌≢◌, refl, ap, ◌∙◌, All, str_eq_iff, String, Bool, true, false, not, ◌&&◌,
  Option, List, [], ◌∷◌, none, some, is_some, arith, if◌then◌else◌,
}
use evuproxy.ApplySession.{Status, Panel, session_of, note_subject, tick, render}
use evuproxy.ApplySession.Events.{
  adopt, with_session, Read, clear, thrown, poll_answered, act, act_accepted, act_settled,
}

-- What one adopted answer does to the count.
adopt-settled :
    (now : ℕ) (next : Option Status) (p : Panel)
    → ((adopt now next p).settled
        ≡ p.settled + (if p.last_seen_session && not (is_some (session_of next)) then 1 else 0))
      × ((adopt now next p).last_seen_session ≡ is_some (session_of next))
unfolding adopt render
adopt-settled now next p = ground arith

poll-settled :
    (now : ℕ) (next : Option Status) (p : Panel)
    → ((poll_answered now (clear next) p).settled
        ≡ p.settled + (if p.last_seen_session && not (is_some (session_of next)) then 1 else 0))
      × ((poll_answered now (clear next) p).last_seen_session ≡ is_some (session_of next))
unfolding poll_answered
poll-settled now next p = adopt-settled now next p

-- A poll that failed.
missed-settled :
    (now : ℕ) (message : String) (p : Panel)
    → ((poll_answered now (thrown message) p).settled ≡ p.settled)
      × ((poll_answered now (thrown message) p).last_seen_session ≡ p.last_seen_session)
unfolding poll_answered render
missed-settled now message p = ground arith

-- Polls that come back one after the other, each at its time.
abbrev pub answer_polls : List (ℕ × Read) → Panel → Panel
answer_polls [] p = p
answer_polls ((now, answer) ∷ polls) p = answer_polls polls (poll_answered now answer p)

-- What the clear answers say, in order: is there a session. Answers that failed say nothing.
abbrev pub told : List (ℕ × Read) → List Bool
told [] = []
told ((now, clear next) ∷ polls) = is_some (session_of next) ∷ told polls
told ((now, thrown message) ∷ polls) = told polls

-- How often a session that was there is then gone.
abbrev pub ends_seen : Bool → List Bool → ℕ
ends_seen seen [] = 0
ends_seen seen (true ∷ later) = ends_seen true later
ends_seen true (false ∷ later) = suc (ends_seen false later)
ends_seen false (false ∷ later) = ends_seen false later

ends_seen-cons :
    (seen said : Bool) (later : List Bool)
    → ends_seen seen (said ∷ later) ≡ (if seen && not said then 1 else 0) + ends_seen said later
ends_seen-cons false false later = omega arith
ends_seen-cons false true later = omega arith
ends_seen-cons true false later = omega arith
ends_seen-cons true true later = omega arith

pub settled-answer_polls :
    (polls : List (ℕ × Read)) (p : Panel)
    → (answer_polls polls p).settled ≡ p.settled + ends_seen p.last_seen_session (told polls)
settled-answer_polls [] p = omega arith
settled-answer_polls ((now, thrown message) ∷ polls) p =
    let rest = settled-answer_polls polls (poll_answered now (thrown message) p) in
    let here = missed-settled now message p in
    let seen = ap (λ s. ends_seen s (told polls)) here.1 in omega (arith, rest, here.0, seen)
settled-answer_polls ((now, clear next) ∷ polls) p =
    let rest = settled-answer_polls polls (poll_answered now (clear next) p) in
    let here = poll-settled now next p in
    let cons = ends_seen-cons p.last_seen_session (is_some (session_of next)) (told polls) in
    let seen = ap (λ s. ends_seen s (told polls)) here.1 in omega (arith, rest, here.0, cons, seen)

no_end_seen : (later : List Bool) → All (λ said. said ≡ false) later → ends_seen false later ≡ 0
no_end_seen [] none_said = refl
no_end_seen (true ∷ later) none_said = absurd (cc)
no_end_seen (false ∷ later) none_said = no_end_seen later none_said.1

-- The last answer does not count: `onSettled` runs for the action itself.
act_settled-settled :
    (now : ℕ) (answer : Read) (p : Panel)
    → p.last_seen_session ≡ false
    → ((act_settled now answer p).settled ≡ p.settled + 1)
      × ((act_settled now answer p).busy ≡ false)
unfolding act_settled
act_settled-settled now (clear next) p unseen = ground (arith, adopt-settled now next p)
act_settled-settled now (thrown m) p unseen =
    ground (arith, adopt-settled now (some (with_session none p.status)) p)

seen-answer_polls :
    (polls : List (ℕ × Read)) (p : Panel)
    → p.last_seen_session ≡ false
    → All (λ said. said ≡ false) (told polls)
    → (answer_polls polls p).last_seen_session ≡ false
seen-answer_polls [] p unseen none_said = unseen
seen-answer_polls ((now, thrown message) ∷ polls) p unseen none_said =
    seen-answer_polls polls (poll_answered now (thrown message) p)
      ((missed-settled now message p).1 ∙ unseen) none_said
seen-answer_polls ((now, clear next) ∷ polls) p unseen none_said =
    seen-answer_polls polls (poll_answered now (clear next) p)
      ((poll-settled now next p).1 ∙ none_said.0) none_said.1

accepted-settled :
    (p : Panel)
    → ((act_accepted p).settled ≡ p.settled) × ((act_accepted p).last_seen_session ≡ false)
unfolding act_accepted
accepted-settled p = (refl, refl)

sent-act : (p : Panel) → p.busy ≡ false → (act p).1 ≡ true
unfolding act
sent-act p free = ground arith

-- An accepted action, with the polls that were in flight: any that come back before the host's yes,
-- and after it, before the re-read, only ones that failed or bring no session; no other answer is
-- adopted in between. From that yes on `onSettled` runs exactly once, whatever the re-read brings, and
-- the panel is free.
pub settled-act :
    (before after : List (ℕ × Read)) (now : ℕ) (answer : Read) (p : Panel)
    → p.busy ≡ false
    → All (λ said. said ≡ false) (told after)
    → let asked = answer_polls before (act p).0 in
      let freed = act_settled now answer (answer_polls after (act_accepted asked)) in
      ((act p).1 ≡ true) × (freed.settled ≡ asked.settled + 1) × (freed.busy ≡ false)
settled-act before after now answer p free none_said =
    let asked = answer_polls before (act p).0 in
    let polled = settled-answer_polls after (act_accepted asked) in
    let unseen =
      seen-answer_polls after (act_accepted asked) (accepted-settled asked).1 none_said in
    let freed = act_settled-settled now answer (answer_polls after (act_accepted asked)) unseen in
    let none_seen =
      ap (λ s. ends_seen s (told after)) (accepted-settled asked).1
      ∙ no_end_seen (told after) none_said in
    (
      sent-act p free,
      omega (arith, polled, freed.0, none_seen, (accepted-settled asked).0),
      freed.1,
    )

-- A button's error stays on screen through ticks, failed polls and answers about the same session
-- or revert, and goes when an answer is about another.
pub note-error :
    (now : ℕ) (next : Option Status) (message : String) (p : Panel)
    → p.busy ≡ false
    → p.note.is_err ≡ true
    → ((tick now p).note ≡ p.note)
      × ((poll_answered now (thrown message) p).note ≡ p.note)
      × (note_subject p.status ≡ note_subject next → (adopt now next p).note ≡ p.note)
      × (note_subject p.status ≢ note_subject next → (adopt now next p).note.is_err ≡ false)
unfolding tick poll_answered adopt render
note-error now next message p free err = (
  ground arith,
  ground arith,
  (λ same. ground (arith, str_eq_iff (note_subject p.status) (note_subject next))),
  (λ other. ground (arith, str_eq_iff (note_subject p.status) (note_subject next))),
)
