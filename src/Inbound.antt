-- ===== src/Inbound.antt =====
-- web/static/js/pages/inbound.js: the edits that the page makes to the list of inbound rules, each over
-- whatever the config is when it is saved, and the checks of its form. The texts that JavaScript makes
-- of a rule are arguments: its lower-case and trimmed fields, and its JSON.
pub mod Edits
mod Examples
use Prim.Native.String.{◌++◌ as ◌<>◌}
use evuproxy.Common.{
  ℕ, zero, suc, String, Bool, true, false, not, ◌&&◌, Option, none, some, List, [], ◌∷◌, ◌++◌, ◌||◌,
  str_eq, leb, length, get_elem?, set, remove_at, insert_at, if◌then◌else◌,
}
use evuproxy.ConfigSave.{Edited, changed, skipped, merge_error}
use evuproxy.ConfigSave.Rows.{Found, at, missing, ambiguous, resolve_list_index}

pub record Rule : Type 0 where
  pub proto : Option String
  pub dport : Option String
  pub note : Option String
  pub disabled : Option Bool

-- The config, of which `rest` is what these edits leave alone.
pub record Config (R : Type 0) : Type 0 where
  pub input_allows : Option (List Rule)
  pub rest : R

abbrev or_empty : Option String → String
or_empty none = ""
or_empty (some t) = t

abbrev pub or_none : Option (List Rule) → List Rule
or_none none = []
or_none (some rules) = rules

-- `findConfigRow`, and what the edit does at the row.
abbrev pub at_row : {C : Type 0} → String → Found → (ℕ → Edited C) → Edited C
at_row what (at i) edit = edit i
at_row what missing edit =
    merge_error
      ("That " <> (what <> " was changed or removed elsewhere, so your change was not saved."))
at_row what ambiguous edit =
    merge_error ("Could not uniquely identify that " <> (what <> "; refresh and try again."))

abbrev pub update_at : ℕ → (Rule → Rule) → List Rule → List Rule
update_at i f [] = []
update_at zero f (r ∷ rules) = f r ∷ rules
update_at (suc i) f (r ∷ rules) = r ∷ update_at i f rules

abbrev pub with_rules : {R : Type 0} → Config R → List Rule → Config R
with_rules c rules = record c { input_allows = some rules }

-- `saveInboundEditor` up to the save. `idx` is the row that was opened, and `none` for a new one.
pub record Form : Type 0 where
  pub proto : String
  pub dport : String
  pub note : String
  pub enabled : Bool

pub data Checked : Type 0 where
  bad_proto missing_port : Checked
  entry : Rule → Checked

abbrev if_given : String → Option String
if_given t = if str_eq t "" then none else some t

abbrev entry_of : Form → Rule
entry_of f = record {
  proto = some f.proto;
  dport = if_given f.dport;
  note = if_given f.note;
  disabled = some (not f.enabled);
}

-- The form's texts are trimmed, and its protocol is in lower case.
unfoldable pub check_form : Form → Checked
check_form f =
    if not (str_eq f.proto "tcp") && not (str_eq f.proto "udp")
    then bad_proto
    else if f.enabled && str_eq f.dport ""
    then missing_port
    else entry (entry_of f)

abbrev pub placed_rule : Option Rule → ℕ → Option (Rule × ℕ)
placed_rule none i = none
placed_rule (some r) i = some (r, i)

abbrev pub place_at : Found → List Rule → Option (Rule × ℕ)
place_at (at i) rules = placed_rule (get_elem? rules i) i
place_at missing rules = none
place_at ambiguous rules = none

module _ (lower trim : String → String) where
  -- `inboundRuleIdentity`
  unfoldable pub inbound_rule_identity : Rule → String
  inbound_rule_identity r =
      lower (or_empty r.proto) <> ("\0" <> (or_empty r.dport <> ("\0" <> trim (or_empty r.note))))

  module _ {R : Type 0} (index : ℕ) (identity : String) where
    abbrev pub find_rule : Config R → Found
    find_rule c = resolve_list_index inbound_rule_identity identity c.input_allows index

    -- The edit of `patchInboundDisabled`; its undo is the same one with the other value.
    unfoldable pub edit_disabled : Bool → Config R → Edited (Config R)
    edit_disabled disabled c = at_row "inbound rule" (find_rule c) (λ i. changed (
        with_rules c
          (update_at i (λ r. record r { disabled = some disabled }) (or_none c.input_allows))))

    -- The edit of `removeInboundRule`, and what it keeps for the undo: the rule and its place.
    unfoldable pub edit_remove : Config R → Edited (Config R)
    edit_remove c =
        at_row "inbound rule" (find_rule c)
          (λ i. changed (with_rules c (remove_at i (or_none c.input_allows))))

    unfoldable pub removed_by : Config R → Option (Rule × ℕ)
    removed_by c = place_at (find_rule c) (or_none c.input_allows)

abbrev pub is_listed : (Rule → String) → String → List Rule → Bool
is_listed json_of text [] = false
is_listed json_of text (r ∷ rules) = str_eq (json_of r) text || is_listed json_of text rules

module _ (json_of : Rule → String) {R : Type 0} where
  -- The undo of a removal: a rule that is listed, whole, is not put back a second time.
  unfoldable pub edit_restore : Rule → ℕ → Config R → Edited (Config R)
  edit_restore removed removed_at c =
      let rules = or_none c.input_allows in
      let n = length rules in
      let place = if leb removed_at n then removed_at else n in
      if is_listed json_of (json_of removed) rules
      then skipped
      else changed (with_rules c (insert_at place removed rules))

  -- The edit of `saveInboundEditor`: a new rule, or the one that was opened, as it was then.
  unfoldable pub edit_save : Option ℕ → String → Rule → Config R → Edited (Config R)
  edit_save none base rule c = changed (with_rules c (or_none c.input_allows ++ (rule ∷ [])))
  edit_save (some opened) base rule c =
      at_row "inbound rule" (resolve_list_index json_of base (some (or_none c.input_allows)) opened)
        (λ i. changed (with_rules c (set (or_none c.input_allows) i rule)))
