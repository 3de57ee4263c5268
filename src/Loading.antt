-- ===== src/Loading.antt =====
-- web/static/js/core/loading.js: marking one region of the page as loading, with overlapping loads.
pub mod Nesting
mod Examples
use evuproxy.Common.{ℕ, zero, suc, ◌+◌, Bool, true, false, not, List, [], ◌∷◌, ltb, if◌then◌else◌}

-- `count` loads have begun and not ended. `is_loading` dims old content.
pub record Region : Type 0 where
  pub count : ℕ
  pub timer : Bool
  pub skeleton : Bool
  pub is_loading : Bool
  pub aria_busy : Bool

unfoldable pub begin_region : Region → Region
begin_region r =
    let counted = record r { count = suc r.count } in
    if ltb 1 (suc r.count) then counted else record counted { aria_busy = true; timer = true }

-- What `endRegion` does once the count has gone down.
abbrev pub ended : ℕ → Region → Region
ended count r = if ltb 0 count then record r { count = count } else record r {
  count = count;
  timer = false;
  skeleton = false;
  is_loading = false;
  aria_busy = false;
}

abbrev pub end_at : ℕ → Region → Region
end_at zero r = r
end_at (suc n) r = ended n r

-- The end of a load that has begun: `beginLoading` hands it out, to be called once.
unfoldable pub end_region : Region → Region
end_region r = end_at r.count r

-- The timer: old content dims, and an empty region gets a skeleton.
unfoldable pub show_loading_visual : Bool → Region → Region
show_loading_visual has_text r =
    let fired = record r { timer = false } in
    if has_text then record fired { is_loading = true } else record fired { skeleton = true }

pub data Event : Type 0 where
  begins ends : Event
  timer_fires : Bool → Event

unfoldable pub handle : Event → Region → Region
unfolding begin_region end_region show_loading_visual
handle begins r = begin_region r
handle ends r = end_region r
handle (timer_fires has_text) r = if r.timer then show_loading_visual has_text r else r

abbrev pub run : Region → List Event → Region
run r [] = r
run r (e ∷ es) = run (handle e r) es

abbrev pub start : Region
start = record { count = 0; timer = false; skeleton = false; is_loading = false; aria_busy = false }
