-- ===== src/ApplyBar/Host.antt =====
-- internal/api/reload_handlers.go: how the host takes the body that the Apply bar sends, which never has
-- `force`, once it holds the lock for changes.
use evuproxy.Common.{ℕ, not, ◌&&◌, ◌||◌, is_some, ◌==◌, ltb, if◌then◌else◌}
use evuproxy.ApplyBar.{Reload}

abbrev min_confirm_timeout_seconds : ℕ
min_confirm_timeout_seconds = 10

abbrev max_confirm_timeout_seconds : ℕ
max_confirm_timeout_seconds = 3600

-- Two refusals, and the two ways to apply: with a timer that reverts, and at once.
pub data Taking : Type 0 where
  invalid_reload_body config_hash_required reload_with_confirm reload : Taking

-- A field that was left out reads as 0 or the empty text.
unfoldable pub handle_reload : Reload → Taking
handle_reload body =
    let t = body.confirm_seconds in
    if not (t == 0) && (ltb t min_confirm_timeout_seconds || ltb max_confirm_timeout_seconds t)
    then invalid_reload_body
    else if not (is_some body.config_hash)
    then config_hash_required
    else if ltb 0 t
    then reload_with_confirm
    else reload
