-- ===== src/ConfigSave/Atomic.antt =====
-- A save as one step. The client reads, edits and writes in separate requests; the host's file moves as
-- if the edit were made on the spot.
use mathlib.Core.Path.{subst}
use evuproxy.Common.{
  ℕ, zero, suc, ◌+◌, ◌≤◌, ◌≡◌, ◌⊎◌, ◌≢◌, refl, ap, sym, inl, inr, String, Option, none, some, List,
  ◌∷◌, str_eq, str_eq_iff, arith, Bool-cases,
}
use evuproxy.ConfigSave.{
  Fault, served, lost_request, lost_answer, Edited, changed, skipped, merge_error, Loaded, Host,
  GetAnswer, got, get_failed, PutAnswer, saved, revision_mismatch, put_failed, Outcome, adopted,
  unchanged, refused, failed, turn_of, arrive, Backend, serve_get, get, serve_put, deliver, counted,
  put, Saved, on_refetch, on_put, on_edit, attempt, etag_of, on_first_get, start_save,
  save_config_edit,
}
use evuproxy.ConfigSave.NoLostUpdate.{IsTruthful, get-IsTruthful, IsHonest}

module _ {F C : Type 0} (k : Backend F C) (edit : C → Edited C) where
  open k use {sha, parse, print, is_valid, sha_injective}

  -- The host of the specification, from `h`: what others write arrives, and the edit is applied to the
  -- file of the moment, `n` times so far. The counters are free.
  pub data Runs (h : Host F) : ℕ → Host F → Type 0 where
    start : Runs h 0 h
    others : {n : ℕ} {a : Host F} → Runs h n a → Runs h n (arrive a)
    apply_edit :
        {n : ℕ} {a : Host F} {draft : C}
        → Runs h n a
        → edit (parse a.file) ≡ changed draft
        → Runs h (suc n) (record a { file = print draft })
    count :
        {n : ℕ} {a : Host F} (puts : ℕ) (written : List (F × F))
        → Runs h n a
        → Runs h n (record a { puts = puts; written = written })

  -- No edit where the save says that there was none, one where it says that there was, and at most one
  -- where the answer was lost.
  abbrev pub Applied : Outcome C → ℕ → Type 0
  Applied (adopted l) n = n ≡ 1
  Applied (unchanged l) n = n ≡ 0
  Applied (refused message) n = n ≡ 0
  Applied failed n = n ≤ 1

  abbrev pub IsAtomic : Host F → Outcome C → Host F → Type 0
  IsAtomic h out h' = (n : ℕ) × Runs h n h' × Applied out n

  serve_get-host : (f : Fault) (a : Host F) → (serve_get k f a).1 ≡ a
  unfolding serve_get
  serve_get-host served a = refl
  serve_get-host lost_request a = refl
  serve_get-host lost_answer a = refl

  Runs-get : {n : ℕ} (h a : Host F) → Runs h n a → Runs h n (get k a).1
  unfolding get
  Runs-get {n} h a r =
      subst (λ b. Runs h n b) (sym (serve_get-host (turn_of a).fault (arrive a))) (others r)

  -- After a PUT of the edited config of `f`, under the revision of `f`.
  abbrev PutRuns : Host F → PutAnswer × Host F → Type 0
  PutRuns h r = (Runs h 0 r.1 × (r.0 ≢ saved)) ⊎ (Runs h 1 r.1 × (r.0 ≢ revision_mismatch))

  serve_put-Runs :
      (h a : Host F) (draft : C) (f : F)
      → edit (parse f) ≡ changed draft
      → Runs h 0 a
      → PutRuns h (serve_put k draft (some (sha f)) a)
  unfolding serve_put
  serve_put-Runs h a draft f made r = elim (Bool-cases (str_eq (sha f) (sha a.file))) [
    | inr moved ↦ inl (rw moved r, rw moved (λ e. cc))
    | inl same ↦ elim (Bool-cases (is_valid draft)) [
      | inr bad ↦ inl (rw (same, bad) r, rw (same, bad) (λ e. cc))
      | inl ok ↦
          let e = sha_injective f a.file ((str_eq_iff (sha f) (sha a.file)).0 same) in
          let here = subst (λ g. edit (parse g) ≡ changed draft) e made in
          inr (
            rw (same, ok) (count a.puts ((a.file, print draft) ∷ a.written) (apply_edit r here)),
            rw (same, ok) (λ e. cc),
          )
    ]
  ]

  deliver-Runs :
      (fault : Fault) (h a : Host F) (draft : C) (f : F)
      → edit (parse f) ≡ changed draft
      → Runs h 0 a
      → PutRuns h (deliver k fault draft (some (sha f)) a)
  unfolding deliver
  deliver-Runs served h a draft f made r = serve_put-Runs h a draft f made r
  deliver-Runs lost_request h a draft f made r = inl (r, λ e. cc)
  deliver-Runs lost_answer h a draft f made r = elim (serve_put-Runs h a draft f made r) [
    | inl (s, _) ↦ inl (s, λ e. cc)
    | inr (s, _) ↦ inr (s, λ e. cc)
  ]

  put-Runs :
      (h a : Host F) (draft : C) (f : F)
      → edit (parse f) ≡ changed draft
      → Runs h 0 a
      → PutRuns h (put k draft (some (sha f)) a)
  unfolding put
  put-Runs h a draft f made r =
      deliver-Runs (turn_of a).fault h (counted k (arrive a)) draft f made
        (count ((arrive a).puts + 1) (arrive a).written (others r))

  module _ (h : Host F) where
    abbrev Rounds : (Loaded C → Host F → Saved k) → Type 0
    Rounds retry =
        (l : Loaded C) (a : Host F)
        → IsTruthful k l
        → Runs h 0 a
        → IsAtomic h (retry l a).0 (retry l a).2

    on_refetch-IsAtomic :
        (retry : Loaded C → Host F → Saved k) (base : Loaded C) (answer : GetAnswer C) (a : Host F)
        → ((l : Loaded C) → answer ≡ got l → IsTruthful k l)
        → Rounds retry
        → Runs h 0 a
        → IsAtomic h (on_refetch k retry base answer a).0 (on_refetch k retry base answer a).2
    unfolding on_refetch
    on_refetch-IsAtomic retry base (got fresh) a true_of rounds r =
        rounds fresh a (true_of fresh refl) r
    on_refetch-IsAtomic retry base get_failed a true_of rounds r = (0, r, omega arith)

    on_put-IsAtomic :
        (retry : Loaded C → Host F → Saved k) (draft : C) (base : Loaded C) (answer : PutAnswer)
        (a : Host F)
        → Rounds retry
        → PutRuns h (answer, a)
        → IsAtomic h (on_put k retry draft base answer a).0 (on_put k retry draft base answer a).2
    unfolding on_put
    on_put-IsAtomic retry draft base saved a rounds (inl (_, not_saved)) = absurd (not_saved refl)
    on_put-IsAtomic retry draft base saved a rounds (inr (r, _)) = (1, Runs-get h a r, refl)
    on_put-IsAtomic retry draft base put_failed a rounds (inl (r, _)) = (0, r, omega arith)
    on_put-IsAtomic retry draft base put_failed a rounds (inr (r, _)) = (1, r, omega arith)
    on_put-IsAtomic retry draft base revision_mismatch a rounds (inl (r, _)) =
        on_refetch-IsAtomic retry base (get k a).0 (get k a).1 (λ l e. get-IsTruthful k a e) rounds
          (Runs-get h a r)
    on_put-IsAtomic retry draft base revision_mismatch a rounds (inr (_, matched)) =
        absurd (matched refl)

    on_edit-IsAtomic :
        (retry : Loaded C → Host F → Saved k) (base : Loaded C) (f : F) (a : Host F) (e : Edited C)
        → base.etag ≡ some (sha f)
        → edit (parse f) ≡ e
        → Rounds retry
        → Runs h 0 a
        → IsAtomic h (on_edit k retry base a e).0 (on_edit k retry base a e).2
    unfolding on_edit
    on_edit-IsAtomic retry base f a skipped tag made rounds r = (0, r, refl)
    on_edit-IsAtomic retry base f a (merge_error m) tag made rounds r = (0, r, refl)
    on_edit-IsAtomic retry base f a (changed draft) tag made rounds r =
        on_put-IsAtomic retry draft base (put k draft base.etag a).0 (put k draft base.etag a).1
          rounds (subst (λ t. PutRuns h (put k draft t a)) (sym tag) (put-Runs h a draft f made r))

    attempt-IsAtomic : (n : ℕ) → Rounds (attempt k edit n)
    unfolding attempt
    attempt-IsAtomic zero base a truth r = (0, r, refl)
    attempt-IsAtomic (suc n) base a (f, read, tag) r =
        on_edit-IsAtomic (attempt k edit n) base f a (edit base.cfg) tag (ap edit (sym read))
          (attempt-IsAtomic n) r

    on_first_get-IsAtomic :
        (last : Option (Loaded C)) (answer : GetAnswer C) (a : Host F)
        → ((l : Loaded C) → answer ≡ got l → IsTruthful k l)
        → Runs h 0 a
        → IsAtomic h (on_first_get k edit last answer a).0 (on_first_get k edit last answer a).2
    unfolding on_first_get
    on_first_get-IsAtomic last (got fresh) a true_of r =
        attempt-IsAtomic 3 fresh a (true_of fresh refl) r
    on_first_get-IsAtomic last get_failed a true_of r = (0, r, omega arith)

  start_save-IsAtomic :
      (last : Option (Loaded C)) (tag : Option String) (h : Host F)
      → etag_of k edit last ≡ tag
      → IsHonest k edit last
      → IsAtomic h (start_save k edit last tag h).0 (start_save k edit last tag h).2
  unfolding start_save
  start_save-IsAtomic none tag h e honest =
      on_first_get-IsAtomic h none (get k h).0 (get k h).1 (λ l g. get-IsTruthful k h g)
        (Runs-get h h start)
  start_save-IsAtomic (some l) none h e honest =
      on_first_get-IsAtomic h (some l) (get k h).0 (get k h).1 (λ l g. get-IsTruthful k h g)
        (Runs-get h h start)
  start_save-IsAtomic (some l) (some tag) h e (inl bare) = absurd (cc)
  start_save-IsAtomic (some l) (some tag) h e (inr truth) = attempt-IsAtomic h 3 l h truth start

-- A save is atomic. Whatever others write between its requests, and whichever are lost, the host's file
-- moves as if only others' writes arrived and the edit was applied on the spot to the file of the moment:
-- once if the save reports success, never if it reports that the edit did not apply or changed nothing,
-- and at most once if it reports that a request failed. The tab's copy of the config must come from the
-- host, or carry no revision, and a GET reads its revision and its config from one file.
pub save_config_edit-IsAtomic :
    {F C : Type 0} (k : Backend F C) (edit : C → Edited C) (last : Option (Loaded C)) (h : Host F)
    → IsHonest k edit last
    → IsAtomic k edit h (save_config_edit k edit last h).0 (save_config_edit k edit last h).2
unfolding save_config_edit
save_config_edit-IsAtomic k edit last h honest =
    start_save-IsAtomic k edit last (etag_of k edit last) h refl honest
