-- ===== src/ConfigSave/Examples.antt =====
-- Saves on a small host: files are lists of numbers, hashed by printing them.
use Prim.Native.String
use evuproxy.Common.{
  ◌≡◌, ◌≤◌, refl, inr, String, Bool, true, false, Option, some, List, [], ◌∷◌, if◌then◌else◌,
}
use evuproxy.ConfigSave.{
  served, lost_answer, Turn, Edited, changed, merge_error, Loaded, Host, Backend, save_config_edit,
}
use evuproxy.ConfigSave.NoLostUpdate.{Saves, save_config_edit-Saves}
use evuproxy.ConfigSave.Atomic.{IsAtomic, save_config_edit-IsAtomic}
use evuproxy.ConfigSave.Progress.{
  quiet, GoesThrough, puts-save_config_edit, save_config_edit-GoesThrough,
}
use evuproxy.ConfigSave.Rows.{
  at, ambiguous, Resolves, resolve_list_index, resolve_list_index-Resolves,
}

-- Two files are told apart by their texts.
abbrev texts : Backend String String
texts = record {
  sha = λ f. f;
  parse = λ f. f;
  print = λ c. c;
  is_valid = λ c. true;
  sha_injective = λ f g e. e;
}

abbrev is_blank : String → Bool
is_blank String.[] = true
is_blank (String.◌∷◌ c t) = false

-- The edit adds a rule, unless the config was emptied.
abbrev add_rule : String → Edited String
add_rule cfg = if is_blank cfg then merge_error "gone" else changed (String.◌++◌ cfg "+rule")

abbrev turn : List String → Turn String
turn writes = record { writes = writes; fault = served }

-- The tab loaded "A"; somebody writes "B" just before the first PUT.
abbrev raced : Host String
raced = record { file = "A"; puts = 0; written = []; script = turn ("B" ∷ []) ∷ [] }

abbrev tab : Loaded String
tab = record { cfg = "A"; etag = some "A" }

save_raced : (save_config_edit texts add_rule (some tab) raced).2.written ≡ ("B", "B+rule") ∷ []
unfolding save_config_edit
save_raced = refl

-- Somebody writes before each of the three PUTs, and the save gives up.
abbrev busy : Host String
busy = record {
  file = "A";
  puts = 0;
  written = [];
  script = turn ("B" ∷ []) ∷ turn [] ∷ turn ("C" ∷ []) ∷ turn [] ∷ turn ("D" ∷ []) ∷ turn [] ∷ [];
}

save_busy : (save_config_edit texts add_rule (some tab) busy).2.puts ≡ 3
unfolding save_config_edit
save_busy = refl

-- The answer to the PUT is lost: the write stands, and the save reports a failure.
abbrev cut_off : Host String
cut_off = record {
  file = "A";
  puts = 0;
  written = [];
  script = record { writes = []; fault = lost_answer } ∷ [];
}

save_cut_off : (save_config_edit texts add_rule (some tab) cut_off).2.written ≡ ("A", "A+rule") ∷ []
unfolding save_config_edit
save_cut_off = refl

save_config_edit-Saves_example :
    Saves texts add_rule raced
      (save_config_edit texts add_rule (some tab) raced).0
      (save_config_edit texts add_rule (some tab) raced).2
save_config_edit-Saves_example =
    save_config_edit-Saves texts add_rule (some tab) raced (inr ("A", refl, refl))

save_config_edit-IsAtomic_example :
    IsAtomic texts add_rule raced
      (save_config_edit texts add_rule (some tab) raced).0
      (save_config_edit texts add_rule (some tab) raced).2
save_config_edit-IsAtomic_example =
    save_config_edit-IsAtomic texts add_rule (some tab) raced (inr ("A", refl, refl))

puts-save_config_edit_example : (save_config_edit texts add_rule (some tab) busy).2.puts ≤ 3
puts-save_config_edit_example = puts-save_config_edit texts add_rule (some tab) busy

save_config_edit-GoesThrough_example :
    GoesThrough texts add_rule "B+rule"
      (quiet "B" 0 [])
      (save_config_edit texts add_rule (some tab) (quiet "B" 0 []))
save_config_edit-GoesThrough_example =
    save_config_edit-GoesThrough texts add_rule tab "B" 0 [] "A+rule" "B+rule" (λ e. e_of e) refl
      refl refl
  where
    e_of : ◌≡◌ {A = Option String} (some "A") (some "B") → ◌≡◌ {A = String} "A" "B"
    e_of e = cc

abbrev names : List String
names = "tcp" ∷ "udp" ∷ "tcp" ∷ []

resolve_moved : resolve_list_index (λ r. r) "udp" (some names) 0 ≡ at 1
unfolding resolve_list_index
resolve_moved = refl

resolve_twice : resolve_list_index (λ r. r) "tcp" (some names) 1 ≡ ambiguous
unfolding resolve_list_index
resolve_twice = refl

resolve_list_index-Resolves_example :
    Resolves (λ r. r) "udp" names 0 (resolve_list_index (λ r. r) "udp" (some names) 0)
resolve_list_index-Resolves_example = resolve_list_index-Resolves (λ r. r) "udp" names 0
