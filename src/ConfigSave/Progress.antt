-- ===== src/ConfigSave/Progress.antt =====
-- How many requests a save makes, and that it goes through when nobody interferes.
use evuproxy.Common.{
  ℕ, zero, suc, ◌+◌, ◌≤◌, ◌≡◌, refl, ap, ◌∙◌, inl, inr, String, true, false, Option, none, some,
  List, [], ◌∷◌, str_eq, str_eq_iff, arith, Bool-cases,
}
use evuproxy.ConfigSave.{
  Fault, served, lost_request, lost_answer, Edited, changed, skipped, merge_error, Loaded, Host,
  GetAnswer, got, get_failed, PutAnswer, saved, revision_mismatch, put_failed, adopted, turn_of,
  arrive, Backend, serve_get, get, serve_put, deliver, counted, put, Saved, Session, on_refetch,
  on_put, on_edit, attempt, etag_of, on_first_get, start_save, save_config_edit,
}

module _ {F C : Type 0} (k : Backend F C) where
  puts-serve_get : (f : Fault) (a : Host F) → (serve_get k f a).1.puts ≡ a.puts
  unfolding serve_get
  puts-serve_get served a = refl
  puts-serve_get lost_request a = refl
  puts-serve_get lost_answer a = refl

  puts-get : (h : Host F) → (get k h).1.puts ≡ h.puts
  unfolding get
  puts-get h = puts-serve_get (turn_of h).fault (arrive h)

  puts-serve_put :
      (draft : C) (rev : Option String) (a : Host F) → (serve_put k draft rev a).1.puts ≡ a.puts
  unfolding serve_put
  puts-serve_put draft rev a = ground arith

  puts-deliver :
      (f : Fault) (draft : C) (rev : Option String) (a : Host F)
      → (deliver k f draft rev a).1.puts ≡ a.puts
  unfolding deliver
  puts-deliver served draft rev a = puts-serve_put draft rev a
  puts-deliver lost_request draft rev a = refl
  puts-deliver lost_answer draft rev a = puts-serve_put draft rev a

  puts-put :
      (draft : C) (rev : Option String) (h : Host F) → (put k draft rev h).1.puts ≡ h.puts + 1
  unfolding put
  puts-put draft rev h = puts-deliver (turn_of h).fault draft rev (counted k (arrive h))

  abbrev Within : ℕ → (Loaded C → Host F → Saved k) → Type 0
  Within n retry = (l : Loaded C) (h : Host F) → (retry l h).2.puts ≤ h.puts + n

  module _ (n : ℕ) (retry : Loaded C → Host F → Saved k) (rounds : Within n retry) where
    puts-on_refetch :
        (base : Loaded C) (answer : GetAnswer C) (h : Host F)
        → (on_refetch k retry base answer h).2.puts ≤ h.puts + n
    unfolding on_refetch
    puts-on_refetch base (got fresh) h = rounds fresh h
    puts-on_refetch base get_failed h = omega arith

    puts-on_put :
        (draft : C) (base : Loaded C) (answer : PutAnswer) (h : Host F)
        → (on_put k retry draft base answer h).2.puts ≤ h.puts + n
    unfolding on_put
    puts-on_put draft base saved h = omega (arith, puts-get h)
    puts-on_put draft base put_failed h = omega arith
    puts-on_put draft base revision_mismatch h =
        omega (arith, puts-get h, puts-on_refetch base (get k h).0 (get k h).1)

    puts-on_edit :
        (base : Loaded C) (h : Host F) (e : Edited C)
        → (on_edit k retry base h e).2.puts ≤ h.puts + suc n
    unfolding on_edit
    puts-on_edit base h skipped = omega arith
    puts-on_edit base h (merge_error m) = omega arith
    puts-on_edit base h (changed draft) = omega (
      arith,
      puts-put draft base.etag h,
      puts-on_put draft base (put k draft base.etag h).0 (put k draft base.etag h).1,
    )

  module _ (edit : C → Edited C) where
    puts-attempt : (n : ℕ) → Within n (attempt k edit n)
    unfolding attempt
    puts-attempt zero l h = omega arith
    puts-attempt (suc n) l h = puts-on_edit n (attempt k edit n) (puts-attempt n) l h (edit l.cfg)

    puts-on_first_get :
        (last : Option (Loaded C)) (answer : GetAnswer C) (h : Host F)
        → (on_first_get k edit last answer h).2.puts ≤ h.puts + 3
    unfolding on_first_get
    puts-on_first_get last (got fresh) h = puts-attempt 3 fresh h
    puts-on_first_get last get_failed h = omega arith

    puts-start_save :
        (last : Option (Loaded C)) (tag : Option String) (h : Host F)
        → (start_save k edit last tag h).2.puts ≤ h.puts + 3
    unfolding start_save
    puts-start_save none tag h =
        omega (arith, puts-get h, puts-on_first_get none (get k h).0 (get k h).1)
    puts-start_save (some l) none h =
        omega (arith, puts-get h, puts-on_first_get (some l) (get k h).0 (get k h).1)
    puts-start_save (some l) (some tag) h = puts-attempt 3 l h

-- A save gives up after three PUTs, whatever the host answers.
pub puts-save_config_edit :
    {F C : Type 0} (k : Backend F C) (edit : C → Edited C) (last : Option (Loaded C)) (h : Host F)
    → (save_config_edit k edit last h).2.puts ≤ h.puts + 3
unfolding save_config_edit
puts-save_config_edit k edit last h = puts-start_save k edit last (etag_of k edit last) h

-- A host that nobody else writes to, and that answers everything.
abbrev pub quiet : {F : Type 0} → F → ℕ → List (F × F) → Host F
quiet file puts written = record { file = file; puts = puts; written = written; script = [] }

module _ {F C : Type 0} (k : Backend F C) (edit : C → Edited C) where
  open k use {sha, parse, print, is_valid}

  abbrev fresh : F → Loaded C
  fresh file = record { cfg = parse file; etag = some (sha file) }

  put_current :
      (draft : C) (file : F) (puts : ℕ) (written : List (F × F))
      → is_valid draft ≡ true
      → put k draft (some (sha file)) (quiet file puts written)
        ≡ (saved, quiet (print draft) (puts + 1) ((file, print draft) ∷ written))
  unfolding put
  put_current draft file puts written ok = rw ((str_eq_iff (sha file) (sha file)).1 refl, ok)

  put_stale :
      (draft : C) (tag : String) (file : F) (puts : ℕ) (written : List (F × F))
      → str_eq tag (sha file) ≡ false
      → put k draft (some tag) (quiet file puts written)
        ≡ (revision_mismatch, quiet file (puts + 1) written)
  unfolding put
  put_stale draft tag file puts written other = rw other

  attempt_current :
      (n : ℕ) (file : F) (puts : ℕ) (written : List (F × F)) (draft : C)
      → edit (parse file) ≡ changed draft
      → is_valid draft ≡ true
      → attempt k edit (suc n) (fresh file) (quiet file puts written) ≡ (
        adopted (fresh (print draft)),
        fresh (print draft),
        quiet (print draft) (puts + 1) ((file, print draft) ∷ written),
      )
  unfolding attempt
  attempt_current n file puts written draft made ok =
      rw (made, put_current draft file puts written ok)

  attempt_stale :
      (n : ℕ) (old : C) (tag : String) (file : F) (puts : ℕ) (written : List (F × F)) (l : Loaded C)
      → l.etag ≡ some tag
      → edit l.cfg ≡ changed old
      → str_eq tag (sha file) ≡ false
      → attempt k edit (suc n) l (quiet file puts written)
        ≡ attempt k edit n (fresh file) (quiet file (puts + 1) written)
  unfolding attempt
  attempt_stale n old tag file puts written l e made other =
      rw (made, e, put_stale old tag file puts written other)

  Loaded-path :
      (l : Loaded C) (file : F) → l.etag ≡ some (sha file) → l.cfg ≡ parse file → l ≡ fresh file
  Loaded-path l file e c = λ i. record { cfg = c i; etag = e i }

  -- What a save that goes through leaves behind.
  abbrev pub GoesThrough : C → Host F → Session k edit → Type 0
  GoesThrough draft h r =
      (r.0 ≡ adopted (fresh (print draft)))
      × (r.1 ≡ some (fresh (print draft)))
      × (r.2.file ≡ print draft)
      × (r.2.written ≡ (h.file, print draft) ∷ h.written)

  start_save-GoesThrough :
      (l : Loaded C) (tag : Option String) (file : F) (puts : ℕ) (written : List (F × F))
      (old draft : C)
      → l.etag ≡ tag
      → (l.etag ≡ some (sha file) → l.cfg ≡ parse file)
      → edit l.cfg ≡ changed old
      → edit (parse file) ≡ changed draft
      → is_valid draft ≡ true
      → GoesThrough draft
          (quiet file puts written)
          (start_save k edit (some l) tag (quiet file puts written))
  unfolding start_save
  start_save-GoesThrough l none file puts written old draft e truth made_old made ok =
      rw (attempt_current 2 file puts written draft made ok) (refl, refl, refl, refl)
  start_save-GoesThrough l (some tag) file puts written old draft e truth made_old made ok =
      elim (Bool-cases (str_eq tag (sha file))) [
        | inr other ↦
            rw
              (
                attempt_stale 2 old tag file puts written l e made_old other,
                attempt_current 1 file (puts + 1) written draft made ok,
              )
              (refl, refl, refl, refl)
        | inl same ↦
            let tagged : l.etag ≡ some (sha file) =
              e ∙ ap some ((str_eq_iff tag (sha file)).0 same) in
            rw
              (
                Loaded-path l file tagged (truth tagged),
                attempt_current 2 file puts written draft made ok,
              )
              (refl, refl, refl, refl)
      ]

-- With nobody else writing and no request lost, a save goes through, also from a tab whose config
-- is out of date: the edit is made on the host's config, not on the tab's, and the tab ends with
-- what the host now has. The edit must apply to both, and its result must be valid.
pub save_config_edit-GoesThrough :
    {F C : Type 0} (k : Backend F C) (edit : C → Edited C) (l : Loaded C) (file : F) (puts : ℕ)
    (written : List (F × F)) (old draft : C)
    → (l.etag ≡ some (k.sha file) → l.cfg ≡ k.parse file)
    → edit l.cfg ≡ changed old
    → edit (k.parse file) ≡ changed draft
    → k.is_valid draft ≡ true
    → GoesThrough k edit draft
        (quiet file puts written)
        (save_config_edit k edit (some l) (quiet file puts written))
unfolding save_config_edit
save_config_edit-GoesThrough k edit l file puts written old draft truth made_old made ok =
    start_save-GoesThrough k edit l l.etag file puts written old draft refl truth made_old made ok
