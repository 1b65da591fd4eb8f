-- ===== src/Mm/Workflow/Redacted.antt =====
-- What of the output and the errors of a backend a run tells the hub.
use modelo_man.Base.{
  ◌⊎◌, inl, inr, String, Bool, true, false, Option, none, some, List, [], ◌∷◌, ◌++◌, ◌==◌, ◌≡◌,
  refl, sym, ap, ◌∙◌, subst, map, trim_space, if◌then◌else◌,
}
use modelo_man.Mm.Fallible.{Fallible, got, fault, ◌>>=◌}
use modelo_man.Mm.Config.{Config}
use modelo_man.Mm.Prompt.{Redactor, new_redactor, apply_redactor}
use modelo_man.Mm.Runner.{RunnerEvent, RunnerResult, Launch}
use modelo_man.Mm.Runner
use modelo_man.Mm.Workflow.{
  RunParams, run_id_of, BundleView, or_else, merge_entries, Effect, run_backend, Surroundings,
  Setup, make_setup, prepare, start_answer, after_start, opening, no_session, runner_options,
  session, runner_events, transcript_event, closing, run_setup, finished_with, run, last_error_of,
}
use modelo_man.Mm.Workflow.Effects.{collect, collect-append, outputs}

module _ (s : Surroundings) (cfg : Config) (params : RunParams) where
  -- The redactor that the configuration asks for, and the same one where redaction is enabled.
  abbrev configured : Bool → Redactor
  configured enabled = new_redactor s.regexp enabled cfg.custom_redact_regexes

  -- What the rules of redaction, the built-in ones and the custom ones, make of a text.
  abbrev pub by_rules : String → String
  by_rules t = apply_redactor s.regexp (configured true) t

module _ (s : Surroundings) (cfg : Config) (params : RunParams) (r : RunnerResult) where
  -- What the rules of redaction make of the transcript of a session, or of its error.
  abbrev pub IsRedacted : String → Type 0
  IsRedacted t =
      (t ≡ by_rules s cfg params (trim_space r.transcript))
      ⊎ (t ≡ by_rules s cfg params (last_error_of s cfg params r))

  abbrev pub AreRedacted : List String → Type 0
  AreRedacted [] = Unit
  AreRedacted (t ∷ ts) = IsRedacted t × AreRedacted ts

  -- What the hub is told of by some effects is redacted.
  abbrev IsSafe : List Effect → Type 0
  IsSafe es = AreRedacted (collect outputs es)

  append-AreRedacted :
      (ts us : List String) → AreRedacted ts → AreRedacted us → AreRedacted (ts ++ us)
  append-AreRedacted [] us a b = b
  append-AreRedacted (t ∷ ts) us (p, a) b = (p, append-AreRedacted ts us a b)

  append-IsSafe : (es fs : List Effect) → IsSafe es → IsSafe fs → IsSafe (es ++ fs)
  append-IsSafe es fs a b =
      subst (λ ts. AreRedacted ts) (sym (collect-append outputs es fs))
        (append-AreRedacted (collect outputs es) (collect outputs fs) a b)

  if-IsSafe :
      (c : Bool) (es fs : List Effect) → IsSafe es → IsSafe fs → IsSafe (if c then es else fs)
  if-IsSafe true es fs a b = a
  if-IsSafe false es fs a b = b

  session_if :
      (c : Bool) (x y : RunnerResult × List Effect)
      → IsSafe x.1
      → IsSafe y.1
      → IsSafe (if c then x else y).1
  session_if true x y a b = a
  session_if false x y a b = b

  launched-IsSafe : (ls : List Launch) → IsSafe (map run_backend ls)
  unfolding collect
  launched-IsSafe [] = tt
  launched-IsSafe (l ∷ ls) = launched-IsSafe ls

  session-IsSafe : (u : Setup) → IsSafe (session s cfg params u).1
  unfolding session collect
  session-IsSafe u =
      session_if params.dry_run (no_session, []) _ tt
        (launched-IsSafe (Runner.run s.machine (runner_options s cfg params u)).1)

  after_start-IsSafe : (u : Setup) (o : Option String) → IsSafe (after_start s cfg params u o)
  unfolding collect
  after_start-IsSafe u none = tt
  after_start-IsSafe u (some id) = tt

  opening-IsSafe : (u : Setup) → IsSafe (opening s cfg params u)
  unfolding opening collect
  opening-IsSafe u =
      if-IsSafe s.has_client _ [] (after_start-IsSafe u (start_answer s cfg params u)) tt

  runner_events-IsSafe :
      (id : String) (es : List RunnerEvent) → IsSafe (runner_events s cfg params id es)
  unfolding runner_events collect
  runner_events-IsSafe id [] = tt
  runner_events-IsSafe id (e ∷ es) = runner_events-IsSafe id es

  module _ (closed : cfg.allow_raw_transcript ≡ false) (u : Setup)
      (redactor : u.redactor ≡ configured s cfg params true) where
    redacts : (t : String) → apply_redactor s.regexp u.redactor t ≡ by_rules s cfg params t
    redacts t = ap (λ r. apply_redactor s.regexp r t) redactor

    transcript-IsSafe : (id : String) → IsSafe (transcript_event s cfg params u id r)
    unfolding transcript_event collect
    transcript-IsSafe id =
        if-IsSafe (trim_space r.transcript == "") [] _ tt
          (rw closed (inl (redacts (trim_space r.transcript)), tt))

    closing-IsSafe : (id : String) → IsSafe (closing s cfg params u id r)
    unfolding closing collect
    closing-IsSafe id =
        let e = redacts (last_error_of s cfg params r) in
        if-IsSafe (trim_space id == "") [] _ tt (
          append-IsSafe
            (runner_events s cfg params id r.events ++ transcript_event s cfg params u id r) _
            (append-IsSafe (runner_events s cfg params id r.events) _
              (runner_events-IsSafe id r.events) (transcript-IsSafe id))
            (inr e, (inr e, tt)))

    -- A run whose session ended with `r`.
    reported-IsSafe :
        (id : String)
        → IsSafe (
            opening s cfg params u
            ++ (session s cfg params u).1
            ++ (if s.has_client then closing s cfg params u id r else []))
    unfolding collect
    reported-IsSafe id =
        append-IsSafe (opening s cfg params u ++ (session s cfg params u).1) _
          (append-IsSafe (opening s cfg params u) _ (opening-IsSafe u) (session-IsSafe u))
          (if-IsSafe s.has_client _ [] (closing-IsSafe id) tt)

module _ (s : Surroundings) (cfg : Config) (params : RunParams) where
  -- The redactor of a run is the configured one.
  abbrev HasRedactor : Fallible Setup → Type 0
  HasRedactor (got u) = u.redactor ≡ configured s cfg params cfg.redaction_enabled
  HasRedactor (fault e) = Unit

  bind-HasRedactor :
      {A : Type 0} (x : Fallible A) (k : A → Fallible Setup)
      → ((a : A) → HasRedactor (k a))
      → HasRedactor (x >>= k)
  bind-HasRedactor (got a) k h = h a
  bind-HasRedactor (fault e) k h = tt

  checks-HasRedactor :
      (named given : Fallible (Unit {0})) (root : Fallible String)
      (stored : String → Fallible (List String))
      (bundle : String → List String → Fallible BundleView)
      (setup : String → List String → BundleView → Setup)
      → ((r : String) (l : List String) (b : BundleView)
          → (setup r l b).redactor ≡ configured s cfg params cfg.redaction_enabled)
      → HasRedactor
          (do a ← named; a' ← given; r ← root; l ← stored r; b ← bundle r l; got (setup r l b))
  checks-HasRedactor (fault e) given root stored bundle setup h = tt
  checks-HasRedactor (got a) (fault e) root stored bundle setup h = tt
  checks-HasRedactor (got a) (got b) (fault e) stored bundle setup h = tt
  checks-HasRedactor (got a) (got b) (got r) stored bundle setup h =
      bind-HasRedactor (stored r) (λ l. bundle r l >>= λ b. got (setup r l b))
        (λ l. bind-HasRedactor (bundle r l) (λ b. got (setup r l b)) (λ b. h r l b))

  prepare-HasRedactor : HasRedactor (prepare s cfg params)
  unfolding prepare make_setup
  prepare-HasRedactor =
      let backend = or_else (trim_space params.backend) (trim_space cfg.default_backend) in
      let task_type = or_else (trim_space params.task_type) "general-coding" in
      checks-HasRedactor (if backend == "" then fault "backend is required" else got tt)
        (if trim_space params.objective == "" then fault "objective is required" else got tt)
        (if trim_space params.repo_root == ""
          then s.detect_repo_root
          else got (trim_space params.repo_root))
        s.stored_entries
        (λ r l.
          s.build_bundle r (merge_entries l params.additional_entry) (trim_space params.objective))
        (λ r l b.
          make_setup s cfg params r backend task_type (merge_entries l params.additional_entry) b)
        (λ r l b. refl)

  prepared-redactor :
      (f : Fallible Setup) (u : Setup)
      → HasRedactor f
      → f ≡ got u
      → u.redactor ≡ configured s cfg params cfg.redaction_enabled
  prepared-redactor f u h e = subst (λ g. HasRedactor g) e h

  -- Where redaction is enabled and raw transcripts are not allowed, each text that a run tells the hub
  -- as the transcript of its session, under either of its names, or as the error of its attempt or of
  -- its end, is what the rules of redaction make of the transcript or of the error of the session.
  pub outputs-run :
      (u : Setup)
      → prepare s cfg params ≡ got u
      → cfg.allow_raw_transcript ≡ false
      → cfg.redaction_enabled ≡ true
      → AreRedacted s cfg params (session s cfg params u).0 (collect outputs (run s cfg params).1)
  unfolding run run_setup
  outputs-run u ready closed enabled =
      let redactor =
        prepared-redactor (prepare s cfg params) u prepare-HasRedactor ready
        ∙ ap (configured s cfg params) enabled in
      subst
        (λ f.
          AreRedacted s cfg params (session s cfg params u).0
            (collect outputs (finished_with s cfg params f).1))
        (sym ready)
        (reported-IsSafe s cfg params (session s cfg params u).0 closed u redactor
          (run_id_of s cfg params u))
