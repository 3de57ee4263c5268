-- ===== src/ConfigSave/NoLostUpdate.antt =====
-- A save never overwrites what somebody else saved: the file that it replaces is the one that the
-- edit was made on.
use evuproxy.Common.{
  ℕ, zero, suc, ◌≡◌, ◌⊎◌, ◌≢◌, refl, ap, sym, ◌∙◌, inl, inr, String, Option, none, some, ◌∷◌,
  str_eq, str_eq_iff, arith, Bool-cases,
}
use evuproxy.ConfigSave.{
  Fault, served, lost_request, lost_answer, Edited, changed, skipped, merge_error, Loaded, Host,
  GetAnswer, got, get_failed, PutAnswer, saved, revision_mismatch, put_failed, Outcome, adopted,
  turn_of, arrive, Backend, serve_get, get, serve_put, deliver, counted, put, Saved, on_refetch,
  on_put, on_edit, attempt, etag_of, on_first_get, start_save, save_config_edit,
}
use mathlib.Core.Path.{subst}

module _ {F C : Type 0} (k : Backend F C) where
  open k use {sha, parse, print, is_valid, sha_injective}

  -- The config is a file's content, and the revision that file's.
  abbrev pub IsTruthful : Loaded C → Type 0
  IsTruthful l = (f : F) × (l.cfg ≡ parse f) × (l.etag ≡ some (sha f))

  pub written-serve_get : (f : Fault) (a : Host F) → (serve_get k f a).1.written ≡ a.written
  unfolding serve_get
  written-serve_get served a = refl
  written-serve_get lost_request a = refl
  written-serve_get lost_answer a = refl

  pub written-get : (h : Host F) → (get k h).1.written ≡ h.written
  unfolding get
  written-get h = written-serve_get (turn_of h).fault (arrive h)

  serve_get-IsTruthful :
      (f : Fault) (a : Host F) {l : Loaded C} → (serve_get k f a).0 ≡ got l → IsTruthful l
  unfolding serve_get
  serve_get-IsTruthful served a e = (a.file, ground arith, ground arith)
  serve_get-IsTruthful lost_request a e = absurd (cc)
  serve_get-IsTruthful lost_answer a e = absurd (cc)

  pub get-IsTruthful : (h : Host F) {l : Loaded C} → (get k h).0 ≡ got l → IsTruthful l
  unfolding get
  get-IsTruthful h e = serve_get-IsTruthful (turn_of h).fault (arrive h) e

  -- A PUT under the revision of `f` writes over `f`, or writes nothing and says so.
  abbrev WritesOver : C → F → Host F → PutAnswer × Host F → Type 0
  WritesOver draft f a r =
      ((r.1.written ≡ a.written) × (r.0 ≢ saved))
      ⊎ ((r.1.written ≡ (f, print draft) ∷ a.written) × (r.0 ≢ revision_mismatch))

  written-serve_put :
      (draft : C) (f : F) (a : Host F) → WritesOver draft f a (serve_put k draft (some (sha f)) a)
  unfolding serve_put
  written-serve_put draft f a = elim (Bool-cases (str_eq (sha f) (sha a.file))) [
    | inr moved ↦ inl (rw moved, rw moved (λ e. cc))
    | inl same ↦ elim (Bool-cases (is_valid draft)) [
      | inr bad ↦ inl (rw (same, bad), rw (same, bad) (λ e. cc))
      | inl ok ↦
          let e = sha_injective f a.file ((str_eq_iff (sha f) (sha a.file)).0 same) in
          inr (rw (same, ok, e), rw (same, ok) (λ e. cc))
    ]
  ]

  written-deliver :
      (fault : Fault) (draft : C) (f : F) (a : Host F)
      → WritesOver draft f a (deliver k fault draft (some (sha f)) a)
  unfolding deliver
  written-deliver served draft f a = written-serve_put draft f a
  written-deliver lost_request draft f a = inl (refl, λ e. cc)
  written-deliver lost_answer draft f a = elim (written-serve_put draft f a) [
    | inl (same, _) ↦ inl (same, λ e. cc)
    | inr (more, _) ↦ inr (more, λ e. cc)
  ]

  written-put :
      (draft : C) (f : F) (h : Host F) → WritesOver draft f h (put k draft (some (sha f)) h)
  unfolding put
  written-put draft f h = written-deliver (turn_of h).fault draft f (counted k (arrive h))

  abbrev pub IsAdopted : Outcome C → Type 0
  IsAdopted (adopted _) = Unit {0}
  IsAdopted _ = ⊥

  -- What a save may do to the host: nothing, without claiming success, or one write of the edited
  -- config over the file that the edit was made on.
  abbrev pub Saves : (C → Edited C) → Host F → Outcome C → Host F → Type 0
  Saves edit h out h' =
      ((h'.written ≡ h.written) × (¬ (IsAdopted out)))
      ⊎ ((before : F) × (draft : C) × (edit (parse before) ≡ changed draft)
          × (h'.written ≡ (before, print draft) ∷ h.written))

  module _ (edit : C → Edited C) where
    abbrev Rounds : (Loaded C → Host F → Saved k) → Type 0
    Rounds retry =
        (l : Loaded C) (h : Host F) → IsTruthful l → Saves edit h (retry l h).0 (retry l h).2

    -- What was written since is all that counts.
    Saves-written :
        (h h₁ : Host F) (out : Outcome C) (h' : Host F)
        → h₁.written ≡ h.written
        → Saves edit h₁ out h'
        → Saves edit h out h'
    Saves-written h h₁ out h' e (inl (same, kept)) = inl (same ∙ e, kept)
    Saves-written h h₁ out h' e (inr (before, draft, made, more)) =
        inr (before, draft, made, more ∙ ap (λ w. (before, print draft) ∷ w) e)

    on_refetch-Saves :
        (retry : Loaded C → Host F → Saved k) (base : Loaded C) (answer : GetAnswer C) (h : Host F)
        → ((l : Loaded C) → answer ≡ got l → IsTruthful l)
        → Rounds retry
        → Saves edit h (on_refetch k retry base answer h).0 (on_refetch k retry base answer h).2
    unfolding on_refetch
    on_refetch-Saves retry base (got fresh) h true_of rounds = rounds fresh h (true_of fresh refl)
    on_refetch-Saves retry base get_failed h true_of rounds = inl (refl, λ b. b)

    on_put-Saves :
        (retry : Loaded C → Host F → Saved k) (draft : C) (base : Loaded C) (f : F)
        (answer : PutAnswer) (h h₁ : Host F)
        → Rounds retry
        → edit (parse f) ≡ changed draft
        → WritesOver draft f h (answer, h₁)
        → Saves edit h
            (on_put k retry draft base answer h₁).0
            (on_put k retry draft base answer h₁).2
    unfolding on_put
    on_put-Saves retry draft base f saved h h₁ rounds made (inl (_, not_saved)) =
        absurd (not_saved refl)
    on_put-Saves retry draft base f saved h h₁ rounds made (inr (more, _)) =
        inr (f, draft, made, written-get h₁ ∙ more)
    on_put-Saves retry draft base f put_failed h h₁ rounds made (inl (same, _)) = inl (same, λ b. b)
    on_put-Saves retry draft base f put_failed h h₁ rounds made (inr (more, _)) =
        inr (f, draft, made, more)
    on_put-Saves retry draft base f revision_mismatch h h₁ rounds made (inl (same, _)) =
        let next = on_refetch k retry base (get k h₁).0 (get k h₁).1 in
        Saves-written h (get k h₁).1 next.0 next.2 (written-get h₁ ∙ same) (
          on_refetch-Saves retry base (get k h₁).0 (get k h₁).1 (λ l e. get-IsTruthful h₁ e) rounds)
    on_put-Saves retry draft base f revision_mismatch h h₁ rounds made (inr (_, matched)) =
        absurd (matched refl)

    on_edit-Saves :
        (retry : Loaded C → Host F → Saved k) (base : Loaded C) (f : F) (h : Host F) (e : Edited C)
        → base.etag ≡ some (sha f)
        → edit (parse f) ≡ e
        → Rounds retry
        → Saves edit h (on_edit k retry base h e).0 (on_edit k retry base h e).2
    unfolding on_edit
    on_edit-Saves retry base f h skipped tag made rounds = inl (refl, λ b. b)
    on_edit-Saves retry base f h (merge_error m) tag made rounds = inl (refl, λ b. b)
    on_edit-Saves retry base f h (changed draft) tag made rounds =
        on_put-Saves retry draft base f _ h _ rounds made
          (subst (λ t. WritesOver draft f h (put k draft t h)) (sym tag) (written-put draft f h))

    attempt-Saves : (n : ℕ) → Rounds (attempt k edit n)
    unfolding attempt
    attempt-Saves zero base h truth = inl (refl, λ b. b)
    attempt-Saves (suc n) base h (f, read, tag) =
        on_edit-Saves (attempt k edit n) base f h (edit base.cfg) tag (ap edit (sym read))
          (attempt-Saves n)

    -- Whatever a tab has loaded comes from the host, or has no revision.
    abbrev pub IsHonest : Option (Loaded C) → Type 0
    IsHonest none = Unit {0}
    IsHonest (some l) = (l.etag ≡ none) ⊎ IsTruthful l

    on_first_get-Saves :
        (last : Option (Loaded C)) (answer : GetAnswer C) (h : Host F)
        → ((l : Loaded C) → answer ≡ got l → IsTruthful l)
        → Saves edit h (on_first_get k edit last answer h).0 (on_first_get k edit last answer h).2
    unfolding on_first_get
    on_first_get-Saves last (got fresh) h true_of = attempt-Saves 3 fresh h (true_of fresh refl)
    on_first_get-Saves last get_failed h true_of = inl (refl, λ b. b)

    start_save-Saves :
        (last : Option (Loaded C)) (tag : Option String) (h : Host F)
        → etag_of k edit last ≡ tag
        → IsHonest last
        → Saves edit h (start_save k edit last tag h).0 (start_save k edit last tag h).2
    unfolding start_save
    start_save-Saves none tag h e honest =
        let next = on_first_get k edit none (get k h).0 (get k h).1 in
        Saves-written h (get k h).1 next.0 next.2 (written-get h)
          (on_first_get-Saves none (get k h).0 (get k h).1 (λ l g. get-IsTruthful h g))
    start_save-Saves (some l) none h e honest =
        let next = on_first_get k edit (some l) (get k h).0 (get k h).1 in
        Saves-written h (get k h).1 next.0 next.2 (written-get h)
          (on_first_get-Saves (some l) (get k h).0 (get k h).1 (λ l g. get-IsTruthful h g))
    start_save-Saves (some l) (some tag) h e (inl bare) = absurd (cc)
    start_save-Saves (some l) (some tag) h e (inr truth) = attempt-Saves 3 l h truth

-- No lost update. Whatever others write and whichever requests are lost, one save makes at most one
-- write, and only over the very file that the edit was made on; a save that reports success has
-- made that write. The tab's copy of the config must come from the host, or carry no revision,
-- and a GET reads its revision and its config from one file.
pub save_config_edit-Saves :
    {F C : Type 0} (k : Backend F C) (edit : C → Edited C) (last : Option (Loaded C)) (h : Host F)
    → IsHonest k edit last
    → Saves k edit h (save_config_edit k edit last h).0 (save_config_edit k edit last h).2
unfolding save_config_edit
save_config_edit-Saves k edit last h honest =
    start_save-Saves k edit last (etag_of k edit last) h refl honest
