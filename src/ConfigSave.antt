-- ===== src/ConfigSave.antt =====
-- web/static/js/core/config_save.js: saving an edit of the config under the revision it was made on,
-- against a host whose file others write as well (internal/api/config_handlers.go).
pub mod NoLostUpdate
pub mod Progress
pub mod Atomic
pub mod Rows
mod Examples
use evuproxy.Common.{
  ℕ, zero, suc, ◌+◌, ◌≡◌, String, Bool, true, false, not, Option, none, some, List, [], ◌∷◌, str_eq,
  if◌then◌else◌,
}

-- What happens around one request: the files that others write before it is served, and whether it
-- is lost on its way to the host, or its answer on the way back.
pub data Fault : Type 0 where
  served lost_request lost_answer : Fault

pub record Turn (F : Type 0) : Type 0 where
  pub writes : List F
  pub fault : Fault

-- `JSON.parse(JSON.stringify(cfg))` is the identity here: nothing else holds the draft.
-- What an edit does to a draft: `edit(draft) === false`, a `ConfigMergeError`, or a new draft.
pub data Edited (C : Type 0) : Type 0 where
  changed : C → Edited C
  skipped : Edited C
  merge_error : String → Edited C

-- A config with the revision that it came with, if any.
pub record Loaded (C : Type 0) : Type 0 where
  pub cfg : C
  pub etag : Option String

-- The host: its config file, a count of the PUTs that it was sent, and the writes that it made for
-- this client, each with the file that it replaced, the last one first. `script` says what happens
-- around the coming requests; once it is used up, nobody else writes and no request is lost.
pub record Host (F : Type 0) : Type 0 where
  pub file : F
  pub puts : ℕ
  pub written : List (F × F)
  pub script : List (Turn F)

pub data GetAnswer (C : Type 0) : Type 0 where
  got : Loaded C → GetAnswer C
  get_failed : GetAnswer C

pub data PutAnswer : Type 0 where
  saved revision_mismatch put_failed : PutAnswer

-- How `saveConfigEdit` ends.
pub data Outcome (C : Type 0) : Type 0 where
  adopted : Loaded C → Outcome C
  unchanged : Loaded C → Outcome C
  refused : String → Outcome C
  failed : Outcome C

abbrev last_or {ℓ} : {F : Type ℓ} → F → List F → F
last_or f [] = f
last_or f (g ∷ gs) = last_or g gs

abbrev pub turn_of : {F : Type 0} → Host F → Turn F
turn_of h = elim h.script [ [] ↦ record { writes = []; fault = served } | t ∷ _ ↦ t ]

abbrev rest_of : {F : Type 0} → List (Turn F) → List (Turn F)
rest_of [] = []
rest_of (_ ∷ ts) = ts

-- The host as it is when the request is served, or lost.
unfoldable pub arrive : {F : Type 0} → Host F → Host F
arrive h = record h { file = last_or h.file (turn_of h).writes; script = rest_of h.script }

-- What the host does with its file, which the client only relies on: the hash that serves as the
-- revision, reading, printing and validating. The law is that the hash tells two files apart.
pub record Backend (F C : Type 0) : Type 0 where
  pub sha : F → String
  pub parse : F → C
  pub print : C → F
  pub is_valid : C → Bool
  pub sha_injective : (f g : F) → sha f ≡ sha g → f ≡ g

module _ {F C : Type 0} (k : Backend F C) where
  -- `handleConfigGet`, if the request gets through. It hashes the file and then loads it; nobody is
  -- taken to write in between, so the revision and the config are those of one file.
  unfoldable pub serve_get : Fault → Host F → GetAnswer C × Host F
  serve_get served a = (got (record { cfg = k.parse a.file; etag = some (k.sha a.file) }), a)
  serve_get lost_request a = (get_failed, a)
  serve_get lost_answer a = (get_failed, a)

  unfoldable pub get : Host F → GetAnswer C × Host F
  unfolding arrive serve_get
  get h = serve_get (turn_of h).fault (arrive h)

  -- No If-Match header saves unconditionally.
  abbrev matches : Option String → F → Bool
  matches none file = true
  matches (some rev) file = str_eq rev (k.sha file)

  -- `handleConfigPut` at a request that has arrived.
  unfoldable pub serve_put : C → Option String → Host F → PutAnswer × Host F
  serve_put cfg rev a =
      if not (matches rev a.file)
      then (revision_mismatch, a)
      else if k.is_valid cfg
      then (saved, record a { file = k.print cfg; written = (a.file, k.print cfg) ∷ a.written })
      else (put_failed, a)

  unfoldable pub deliver : Fault → C → Option String → Host F → PutAnswer × Host F
  unfolding serve_put
  deliver served cfg rev a = serve_put cfg rev a
  deliver lost_request cfg rev a = (put_failed, a)
  deliver lost_answer cfg rev a = (put_failed, (serve_put cfg rev a).1)

  abbrev counted : Host F → Host F
  counted h = record h { puts = h.puts + 1 }

  -- The PUT of `putConfigAtRevision`, as the client sees it.
  unfoldable pub put : C → Option String → Host F → PutAnswer × Host F
  unfolding arrive deliver
  put cfg rev h = deliver (turn_of h).fault cfg rev (counted (arrive h))

  -- Reading the save back: a copy with no revision if that fails.
  unfoldable pub copy_of : C → GetAnswer C → Loaded C
  copy_of cfg (got loaded) = loaded
  copy_of cfg get_failed = record { cfg = cfg; etag = none }

  unfoldable pub read_back : C → Host F → Loaded C × Host F
  unfolding get copy_of
  read_back cfg h = (copy_of cfg (get h).0, (get h).1)

  -- What a save returns: how it ended, `state.lastConfig`, and the host.
  abbrev pub Saved : Type 0
  Saved = Outcome C × Loaded C × Host F

  -- After a mismatch: another round on the fresh config, or the error of the fetch.
  unfoldable pub on_refetch : (Loaded C → Host F → Saved) → Loaded C → GetAnswer C → Host F → Saved
  on_refetch retry base (got fresh) h = retry fresh h
  on_refetch retry base get_failed h = (failed, base, h)

  unfoldable pub on_put : (Loaded C → Host F → Saved) → C → Loaded C → PutAnswer → Host F → Saved
  unfolding read_back on_refetch
  on_put retry draft base saved h =
      (adopted (read_back draft h).0, (read_back draft h).0, (read_back draft h).1)
  on_put retry draft base put_failed h = (failed, base, h)
  on_put retry draft base revision_mismatch h = on_refetch retry base (get h).0 (get h).1

  unfoldable pub on_edit : (Loaded C → Host F → Saved) → Loaded C → Host F → Edited C → Saved
  unfolding put on_put
  on_edit retry base h skipped = (unchanged base, base, h)
  on_edit retry base h (merge_error message) = (refused message, base, h)
  on_edit retry base h (changed draft) =
      on_put retry draft base (put draft base.etag h).0 (put draft base.etag h).1

  module _ (edit : C → Edited C) where
    -- The rounds of `saveConfigEdit`: `attempts` are left, and `base` is `state.lastConfig`.
    unfoldable pub attempt : ℕ → Loaded C → Host F → Saved
    unfolding on_edit
    attempt zero base h = (
      refused "The saved config kept changing elsewhere, so your change was not saved. Try again.",
      base,
      h,
    )
    attempt (suc attempts) base h = on_edit (attempt attempts) base h (edit base.cfg)

    abbrev pub max_save_attempts : ℕ
    max_save_attempts = 3

    abbrev pub Session : Type 0
    Session = Outcome C × Option (Loaded C) × Host F

    abbrev pub in_session : Saved → Session
    in_session r = (r.0, some r.1, r.2)

    -- The fetch before the first round, on top of the last config that was known.
    unfoldable pub on_first_get : Option (Loaded C) → GetAnswer C → Host F → Session
    unfolding attempt
    on_first_get last (got fresh) h = in_session (attempt max_save_attempts fresh h)
    on_first_get last get_failed h = (failed, last, h)

    -- `saveConfigEdit`: a config without a revision is fetched anew first.
    unfoldable pub start_save : Option (Loaded C) → Option String → Host F → Session
    unfolding on_first_get get
    start_save none tag h = on_first_get none (get h).0 (get h).1
    start_save (some l) none h = on_first_get (some l) (get h).0 (get h).1
    start_save (some l) (some tag) h = in_session (attempt max_save_attempts l h)

    abbrev etag_of : Option (Loaded C) → Option String
    etag_of none = none
    etag_of (some l) = l.etag

    unfoldable pub save_config_edit : Option (Loaded C) → Host F → Session
    unfolding start_save
    save_config_edit last h = start_save last (etag_of last) h
