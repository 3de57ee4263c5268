-- ===== src/ApplySession/Shown.antt =====
-- What the countdown panel offers in each state of the host.
use evuproxy.Common.{
  ℕ, ◌≡◌, ◌↔◌, ◌⊎◌, refl, is_some, not, ◌&&◌, Bool, true, false, Option, none, some, arith,
}
use evuproxy.ApplySession.{
  Phase, active, failed, Session, Revert, Panel, View, session_of, revert_of, phase_of,
  is_available, remaining_seconds, shown_view, render,
}

-- The buttons of a visible panel, for the session's phase and whether a reverted config is kept.
pub record Offers (phase : Option Phase) (kept : Bool) (v : View) : Type 0 where
  pub visible : v.hidden ≡ false
  pub keep : (v.keep_hidden ≡ false) ↔ (phase ≡ some active)
  pub check : (v.check_hidden ≡ false) ↔ (phase ≡ some active)
  pub revert : (v.revert_hidden ≡ false) ↔ ((phase ≡ some active) ⊎ (phase ≡ some failed))
  pub restore : (v.restore_hidden ≡ false) ↔ ((phase ≡ none) × (kept ≡ true))
  pub dismiss : (v.dismiss_hidden ≡ false) ↔ (phase ≡ none)
  pub danger : (v.danger ≡ true) ↔ (phase ≡ some failed)

shown_view-Offers :
    (left : ℕ) (session : Option Session) (revert : Option Revert)
    → Offers (phase_of session) (is_available revert) (shown_view left session revert)
unfolding shown_view
shown_view-Offers left none revert = ground arith
shown_view-Offers left (some s) revert = ground arith

abbrev is_empty : Panel → Bool
is_empty p = not (is_some (session_of p.status)) && not (is_some (revert_of p.status))

view-render :
    (now : ℕ) (p : Panel)
    → is_empty p ≡ false
    → (render now p).view
      ≡ shown_view (remaining_seconds p.ends_at now) (session_of p.status) (revert_of p.status)
unfolding render
view-render now p h = rw h

hidden-render : (now : ℕ) (p : Panel) → is_empty p ≡ true → (render now p).view.hidden ≡ true
unfolding render
hidden-render now p h = rw h

-- The whole panel: hidden without a session and a revert, with its buttons otherwise.
abbrev pub Shows : Option Session → Option Revert → View → Type 0
Shows none none v = v.hidden ≡ true
Shows none (some revert) v = Offers none revert.config_available v
Shows (some session) revert v = Offers (some session.phase) (is_available revert) v

-- A panel with neither a session nor a revert is hidden; any other is visible and offers, in every
-- phase, exactly the buttons that the host can act on: Keep and Check while the session is active,
-- Revert then and after a failed revert, Restore and Dismiss once it is over, Restore only if the
-- config was kept.
pub render-Shows :
    (now : ℕ) (p : Panel) → Shows (session_of p.status) (revert_of p.status) (render now p).view
render-Shows now p = by_status (session_of p.status) (revert_of p.status) refl refl
  where
    by_status :
        (session : Option Session) (revert : Option Revert)
        → session_of p.status ≡ session
        → revert_of p.status ≡ revert
        → Shows session revert (render now p).view
    by_status none none s r = hidden-render now p (rw (s, r) refl)
    by_status none (some revert) s r =
        rw (view-render now p (rw (s, r) refl)) (rw (s, r) (shown_view-Offers _ none (some revert)))
    by_status (some session) revert s r =
        rw (view-render now p (rw s refl)) (rw (s, r) (shown_view-Offers _ (some session) revert))
