-- ===== src/ApplyBar/Budget.antt =====
-- Each Apply that is sent has a click of its own behind it.
use evuproxy.Common.{
  ℕ, ◌+◌, ◌≤◌, ◌≡◌, refl, ap, inl, inr, Bool-cases, Bool, none, some, List, [], ◌∷◌, length, arith,
}
use evuproxy.Json.{Json}
use evuproxy.Lockout.{CheckOutcome, result, error}
use evuproxy.ApplySession.Events.{Mode}
use evuproxy.ApplyBar.{Flow, reading, checking, reloading, Bar, run_check_end, is_ok}
use evuproxy.ApplyBar.Steps.{
  applied, hash_mismatch, refused, Event, click, mode_read, check_read, progress_read, reload_read,
  lone_check_read, apply_passed, on_check, step, handle,
}
use evuproxy.ApplyBar.Gate.{sent, sent-run_check_end, apply_passed-sent}
use evuproxy.ApplyBar.Acknowledgement.{run, start}

abbrev is_click : Event → ℕ
is_click click = 1
is_click _ = 0

abbrev pub clicks : List Event → ℕ
clicks [] = 0
clicks (e ∷ es) = is_click e + clicks es

-- A click that has not been spent on a request.
abbrev in_hand : Flow → ℕ
in_hand reading = 1
in_hand (checking _) = 1
in_hand _ = 0

abbrev spent : Bar → ℕ
spent b = in_hand b.flow + length (sent b.effects)

in_hand-apply_passed :
    (mode : Mode) (res : Json) (b : Bar) → in_hand (apply_passed mode res b).flow ≡ 0
unfolding apply_passed
in_hand-apply_passed mode res b = ground arith

length-apply_passed :
    (mode : Mode) (res : Json) (b : Bar)
    → length (sent (apply_passed mode res b).effects) ≤ 1 + length (sent b.effects)
length-apply_passed mode res b = elim (apply_passed-sent mode res b) [
  | inl same ↦ omega (arith, ap (length {0}) same)
  | inr (more, _) ↦ omega (arith, ap (length {0}) more)
]

spent-on_check :
    (mode : Mode) (known : Bool) (outcome : CheckOutcome) (b : Bar)
    → spent (on_check mode known outcome b) ≤ 1 + length (sent b.effects)
unfolding on_check
spent-on_check mode known (error m) b =
    omega (arith, ap (λ es. length (sent es)) (sent-run_check_end known (error m) b))
spent-on_check mode known (result res) b =
    let same = ap (λ es. length (sent es)) (sent-run_check_end known (result res) b) in
    elim (Bool-cases (is_ok res)) [
      | inl ok ↦ rw ok (
          omega (
            arith,
            same,
            in_hand-apply_passed mode res (run_check_end known (result res) b),
            length-apply_passed mode res (run_check_end known (result res) b),
          ))
      | inr bad ↦ rw bad (omega (arith, same))
    ]

flow-run_check_end :
    (known : Bool) (outcome : CheckOutcome) (b : Bar)
    → (run_check_end known outcome b).flow ≡ b.flow
unfolding run_check_end
flow-run_check_end known (result res) b = refl
flow-run_check_end known (error m) b = refl

spent-step :
    (e : Event) (flow : Flow) (b : Bar)
    → b.flow ≡ flow
    → spent (step e flow b) ≤ is_click e + spent b
unfolding step
spent-step (check_read known outcome) (checking mode) b h =
    omega (arith, spent-on_check mode known outcome b, ap in_hand h)
spent-step (mode_read none m) reading b h = ground arith
spent-step (mode_read (some mode) m) reading b h = ground arith
spent-step (reload_read (applied s)) (reloading at k) b h = ground arith
spent-step (reload_read hash_mismatch) (reloading at k) b h = ground arith
spent-step (reload_read (refused m)) (reloading at k) b h = ground arith
spent-step (lone_check_read known outcome) flow b h = ground (
  arith,
  ap (λ es. length (sent es)) (sent-run_check_end known outcome b),
  ap in_hand (flow-run_check_end known outcome b),
)
spent-step (progress_read none) (reloading s k) b h = ground arith
spent-step (progress_read (some at)) (reloading s k) b h = ground arith
spent-step _ _ b h = ground arith

spent-run : (es : List Event) (b : Bar) → spent (run b es) ≤ clicks es + spent b
unfolding handle
spent-run [] b = omega arith
spent-run (e ∷ es) b = omega (arith, spent-step e b.flow b refl, spent-run es (step e b.flow b))

-- Over any events of a page, no more Applies are sent than the Apply buttons were clicked.
pub length-sent-le-clicks : (es : List Event) → length (sent (run start es).effects) ≤ clicks es
unfolding start
length-sent-le-clicks es = omega (arith, spent-run es start)
