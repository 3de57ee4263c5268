-- ===== src/Inbound/Examples.antt =====
-- Two rules, and edits of the second one. The texts are taken as they are.
use Prim.Native.String.{◌++◌ as ◌<>◌}
use evuproxy.Common.{
  ℕ, ◌≡◌, refl, String, true, false, Option, none, some, List, [], ◌∷◌, set, remove_at,
}
use evuproxy.ConfigSave.{changed, merge_error}
use evuproxy.ConfigSave.Rows.{resolve_list_index}
use evuproxy.Inbound.{
  Rule, Config, missing_port, check_form, update_at, inbound_rule_identity, edit_disabled,
  edit_remove, removed_by, edit_restore, edit_save,
}
use evuproxy.Inbound.Edits.{EndsAtRow, listing, edits_end_at_row, edit_restore-edit_remove}

abbrev same_text : String → String
same_text t = t

abbrev or_dash : Option String → String
or_dash none = "-"
or_dash (some t) = t

abbrev json_of : Rule → String
json_of r = or_dash r.proto <> ("," <> (or_dash r.dport <> ("," <> or_dash r.note)))

abbrev ssh : Rule
ssh = record { proto = some "tcp"; dport = some "22"; note = some "ssh"; disabled = none }

abbrev dns : Rule
dns = record { proto = some "udp"; dport = some "53"; note = none; disabled = some true }

abbrev rules : List Rule
rules = ssh ∷ dns ∷ []

abbrev dns_identity : String
dns_identity = inbound_rule_identity same_text same_text dns

abbrev before : Config ℕ
before = listing 7 rules

abbrev without_dns : Config ℕ
without_dns = listing 7 (ssh ∷ [])

removal : removed_by same_text same_text 1 dns_identity before ≡ some (dns, 1)
unfolding removed_by inbound_rule_identity resolve_list_index
removal = refl

gone :
    edit_remove same_text same_text 1 dns_identity without_dns
    ≡ merge_error
        "That inbound rule was changed or removed elsewhere, so your change was not saved."
unfolding edit_remove inbound_rule_identity resolve_list_index
gone = refl

no_port :
    check_form (record { proto = "tcp"; dport = ""; note = ""; enabled = true }) ≡ missing_port
unfolding check_form
no_port = refl

edits_end_at_row_example :
    EndsAtRow
      (inbound_rule_identity same_text same_text)
      dns_identity
      rules
      1
      (λ i. listing 7 (update_at i (λ r. record r { disabled = some false }) rules))
      (edit_disabled same_text same_text 1 dns_identity false before)
    × EndsAtRow
        (inbound_rule_identity same_text same_text)
        dns_identity
        rules
        1
        (λ i. listing 7 (remove_at i rules))
        (edit_remove same_text same_text 1 dns_identity before)
    × EndsAtRow json_of
        (json_of dns)
        rules
        1
        (λ i. listing 7 (set rules i ssh))
        (edit_save json_of (some 1) (json_of dns) ssh before)
edits_end_at_row_example =
    edits_end_at_row same_text same_text json_of rules 7 1 dns_identity (json_of dns) false ssh

edit_restore-edit_remove_example :
    (c : Config ℕ) × (edit_remove same_text same_text 1 dns_identity before ≡ changed c)
    × (edit_restore json_of dns 1 c ≡ changed before)
edit_restore-edit_remove_example =
    edit_restore-edit_remove same_text same_text json_of rules 7 1 dns_identity dns 1 removal refl
