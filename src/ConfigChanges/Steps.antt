-- ===== src/ConfigChanges/Steps.antt =====
-- `applyStep` and `applyChange`: taking a change back from a fresh draft, or making it again.
use Prim.Native.String
use evuproxy.Common.{
  ℕ, String, Bool, true, false, not, ◌||◌, Option, none, some, List, [], ◌∷◌, str_eq, if◌then◌else◌,
}
use evuproxy.Json.{
  Json, str, arr, obj, Items, nil, cons, Fields, end, field, items_list, property, is_truthy,
  text_or_empty,
}
use evuproxy.Json.Equality.{json_eq}
use evuproxy.ConfigSave.{Edited, changed, skipped, merge_error}
use evuproxy.ConfigChanges.{canonical, same}
use evuproxy.ConfigChanges.Rows.{Moved, moved, already, back_differently, stale, move_row}
use evuproxy.ConfigChanges.Order.{set_row_order}

-- `getPath`: undefined as soon as a part is missing.
unfoldable pub get_path : Option Json → List String → Option Json
get_path o [] = o
get_path none (k ∷ path) = get_path none path
get_path (some v) (k ∷ path) = get_path (property k v) path

-- `parent[k] = v`: in place, or as the last key. Only objects have settable keys here.
unfoldable pub put_field : String → Json → Fields → Fields
put_field k v end = field k v end
put_field k v (field j w fs) = if str_eq j k then field j v fs else field j w (put_field k v fs)

unfoldable pub delete_field : String → Fields → Fields
delete_field k end = end
delete_field k (field j w fs) =
    if str_eq j k then delete_field k fs else field j w (delete_field k fs)

unfoldable pub assign : String → Option Json → Json → Json
unfolding put_field delete_field
assign k none (obj fs) = obj (delete_field k fs)
assign k (some v) (obj fs) = obj (put_field k v fs)
assign k v o = o

-- `o[k] || {}`
abbrev pub child : String → Json → Json
child k o = elim (property k o) [
  | none ↦ obj end
  | some v ↦ if is_truthy (some v) then v else obj end
]

unfoldable pub set_path : List String → Option Json → Json → Json
unfolding assign
set_path [] v o = o
set_path (k ∷ []) v o = assign k v o
set_path (k ∷ j ∷ path) v o = assign k (some (set_path (j ∷ path) v (child k o))) o

-- A row's place on both sides, and the rows around it as they were listed.
pub record RowStep : Type 0 where
  pub before : Option Json
  pub after : Option Json
  pub before_at : ℕ
  pub after_at : ℕ
  pub before_rows : List Json
  pub after_rows : List Json

pub data Step : Type 0 where
  value : List String → Option Json → Option Json → Step
  order : List String → List Json → List Json → Step
  row : List String → RowStep → Step

-- The draft and whether it changed, or a `ConfigMergeError`.
pub data Applied : Type 0 where
  done : Json → Bool → Applied
  threw : String → Applied

abbrev stale_message : String
stale_message = "That change was edited elsewhere after it was listed, so it was not reverted."

abbrev peer_name : Option Json → Option Json
peer_name none = none
peer_name (some want) = property "name" want

-- `(want.name || "That peer") + " is already back …"`
abbrev back_message : Option Json → String
back_message want =
    let peer = if is_truthy (peer_name want) then text_or_empty (peer_name want) else "That peer" in
    String.◌++◌ peer " is already back in the config with other settings, so it was not restored."

abbrev list_items : List Json → Items
list_items [] = nil
list_items (v ∷ vs) = cons v (list_items vs)

abbrev row_key : Json → Json
row_key r = canonical (some r)

abbrev row_same : Json → Json → Bool
row_same a b = same (some a) (some b)

abbrev public_key_of : Json → String
public_key_of r = elim (property "public_key" r) [ some (str s) ↦ s | _ ↦ "" ]

unfoldable pub apply_value : List String → Option Json → Option Json → Json → Applied
unfolding set_path get_path same
apply_value path have want draft =
    let cur = get_path (some draft) path in
    if same cur want
    then done draft false
    else if not (same cur have)
    then threw stale_message
    else done (set_path path want draft) true

-- `setRowOrder(listAt(draft, path), want)`: what is no array has no rows to order.
unfoldable pub apply_order : List String → List Json → Json → Applied
unfolding set_path get_path set_row_order
apply_order path want draft = elim (get_path (some draft) path) [
  | some (arr vs) ↦
      let r = set_row_order row_key json_eq (items_list vs) want in
      done (set_path path (some (arr (list_items r.0))) draft) r.1
  | _ ↦ done draft false
]

-- `if (!Array.isArray(getPath(draft, step.path))) setPath(draft, step.path, [])`
unfoldable pub with_rows : List String → Json → Json
unfolding set_path get_path
with_rows path draft = elim (get_path (some draft) path) [
  | some (arr vs) ↦ draft
  | _ ↦ set_path path (some (arr nil)) draft
]

abbrev rows_of : Option Json → List Json
rows_of (some (arr vs)) = items_list vs
rows_of _ = []

abbrev put_rows : List String → Option Json → Json → Moved Json → Applied
put_rows path want draft (moved rows) =
    done (set_path path (some (arr (list_items rows))) draft) true
put_rows path want draft already = done draft false
put_rows path want draft back_differently = threw (back_message want)
put_rows path want draft stale = threw stale_message

unfoldable pub apply_row : List String → Option Json → Option Json → ℕ → List Json → Json → Applied
unfolding with_rows move_row
apply_row path have want want_at want_rows draft =
    let ready = with_rows path draft in
    put_rows path want ready (
      move_row row_same public_key_of have want want_at want_rows
        (rows_of (get_path (some ready) path)))

-- `applyStep`: towards the applied config, or back.
unfoldable pub apply_step : Bool → Step → Json → Applied
unfolding apply_value apply_order apply_row
apply_step true (value path before after) draft = apply_value path after before draft
apply_step false (value path before after) draft = apply_value path before after draft
apply_step true (order path before after) draft = apply_order path before draft
apply_step false (order path before after) draft = apply_order path after draft
apply_step true (row path s) draft = apply_row path s.after s.before s.before_at s.before_rows draft
apply_step false (row path s) draft = apply_row path s.before s.after s.after_at s.after_rows draft

-- One turn of the loop: an error ends it, else the other steps run on the new draft.
abbrev pub and_then : (Json → Bool → Applied) → Bool → Applied → Applied
and_then go any_moved (threw message) = threw message
and_then go any_moved (done draft moved_now) = go draft (any_moved || moved_now)

-- The loop of `applyChange`.
unfoldable pub apply_steps : Bool → List Step → Json → Bool → Applied
unfolding apply_step
apply_steps to_applied [] draft any_moved = done draft any_moved
apply_steps to_applied (s ∷ steps) draft any_moved =
    and_then (apply_steps to_applied steps) any_moved (apply_step to_applied s draft)

-- As the edit that `saveConfigEdit` runs: false skips the save.
abbrev pub edited : Applied → Edited Json
edited (threw message) = merge_error message
edited (done draft true) = changed draft
edited (done draft false) = skipped

unfoldable pub revert_change : List Step → Json → Edited Json
unfolding apply_step apply_steps
revert_change steps draft = edited (apply_steps true steps draft false)

unfoldable pub reapply_change : List Step → Json → Edited Json
unfolding apply_step apply_steps
reapply_change steps draft = edited (apply_steps false steps draft false)
