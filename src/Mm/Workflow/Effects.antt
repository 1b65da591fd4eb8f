-- ===== src/Mm/Workflow/Effects.antt =====
-- What a function picks from the effects of a run, part by part.
use mathlib.Core.List.{append_assoc}
use modelo_man.Base.{
  ℕ, String, Bool, true, false, Option, none, some, List, [], ◌∷◌, ◌++◌, ◌==◌, ◌≡◌, refl, sym, ap,
  ◌∙◌, inl, inr, Bool-cases, trim_space, if◌then◌else◌,
}
use modelo_man.Mm.Config.{Config}
use modelo_man.Mm.Client.{StartRunInput, AttemptInput, FinishRunInput}
use modelo_man.Mm.Runner.{RunnerEvent, RunnerResult, Launch}
use modelo_man.Mm.Workflow.{
  RunParams, EventData, started, from_runner, captured, Effect, start_run, record_run_event,
  run_backend, record_prompt_attempt, finish_run, Surroundings, Setup, start_input, start_answer,
  after_start, opening, runner_events, transcript_event,
}

-- What a function picks from the effects, in order.
unfoldable pub collect : {A : Type 0} → (Effect → List A) → List Effect → List A
collect pick [] = []
collect pick (e ∷ es) = pick e ++ collect pick es

pub collect-append :
    {A : Type 0} (pick : Effect → List A) (es fs : List Effect)
    → collect pick (es ++ fs) ≡ collect pick es ++ collect pick fs
unfolding collect
collect-append pick [] fs = refl
collect-append pick (e ∷ es) fs =
    ap (λ xs. pick e ++ xs) (collect-append pick es fs)
    ∙ sym (append_assoc (pick e) (collect pick es) (collect pick fs))

abbrev pub finishes : Effect → List FinishRunInput
finishes (finish_run i) = i ∷ []
finishes _ = []

abbrev pub attempts : Effect → List AttemptInput
attempts (record_prompt_attempt i) = i ∷ []
attempts _ = []

-- The commands that are started.
abbrev pub launches : Effect → List Launch
launches (run_backend l) = l ∷ []
launches _ = []

-- The texts of the transcript in an event, under either of their names.
abbrev texts_of : EventData → List String
texts_of (captured text size truncated (some raw)) = text ∷ raw ∷ []
texts_of (captured text size truncated none) = text ∷ []
texts_of _ = []

-- What the hub is told of the output of the backend and of its error.
abbrev pub outputs : Effect → List String
outputs (record_run_event id kind message d) = texts_of d
outputs (record_prompt_attempt i) = i.error_message ∷ []
outputs (finish_run i) = i.last_error ∷ []
outputs _ = []

-- A function that picks nothing from the start of a run and from the events of its session.
pub record IsQuiet {A : Type 0} (pick : Effect → List A) : Type 0 where
  pub at_start : (i : StartRunInput) → pick (start_run i) ≡ []
  pub at_started :
      (id kind message hash prompt : String) (entries files : List String)
      → pick (record_run_event id kind message (started hash prompt entries files)) ≡ []
  pub at_runner :
      (id kind message : String) (e : RunnerEvent)
      → pick (record_run_event id kind message (from_runner e)) ≡ []

module _ (s : Surroundings) (cfg : Config) (params : RunParams) {A : Type 0}
    (pick : Effect → List A) (quiet : IsQuiet pick) where
  pub when_or_not :
      (c : Bool) (es : List Effect)
      → collect pick es ≡ []
      → collect pick (if c then es else []) ≡ []
  unfolding collect
  when_or_not true es e = e
  when_or_not false es e = refl

  collect-after_start :
      (u : Setup) (o : Option String) → collect pick (after_start s cfg params u o) ≡ []
  unfolding collect
  collect-after_start u none = refl
  collect-after_start u (some id) =
      rw
        (quiet.at_started id "mm_run_started" "mm wrapper started backend session" u.bundle.hash
          u.prompt_hash u.entries u.bundle.selected_files)
        refl

  pub collect-opening : (u : Setup) → collect pick (opening s cfg params u) ≡ []
  unfolding opening collect
  collect-opening u =
      let i = start_input s cfg params u in
      let o = start_answer s cfg params u in
      let opened : collect pick (start_run i ∷ after_start s cfg params u o) ≡ [] =
        ap (λ xs. xs ++ collect pick (after_start s cfg params u o)) (quiet.at_start i)
        ∙ collect-after_start u o in
      when_or_not s.has_client (start_run i ∷ after_start s cfg params u o) opened

  pub collect-runner_events :
      (id : String) (es : List RunnerEvent) → collect pick (runner_events s cfg params id es) ≡ []
  unfolding runner_events collect
  collect-runner_events id [] = refl
  collect-runner_events id (e ∷ es) =
      rw (quiet.at_runner id "mm_runner_event" e.message e) (collect-runner_events id es)

pub finishes-IsQuiet : IsQuiet finishes
finishes-IsQuiet = record {
  at_start = λ i. refl;
  at_started = λ id kind message hash prompt entries files. refl;
  at_runner = λ id kind message e. refl;
}

pub attempts-IsQuiet : IsQuiet attempts
attempts-IsQuiet = record {
  at_start = λ i. refl;
  at_started = λ id kind message hash prompt entries files. refl;
  at_runner = λ id kind message e. refl;
}

pub launches-IsQuiet : IsQuiet launches
launches-IsQuiet = record {
  at_start = λ i. refl;
  at_started = λ id kind message hash prompt entries files. refl;
  at_runner = λ id kind message e. refl;
}

pub outputs-IsQuiet : IsQuiet outputs
outputs-IsQuiet = record {
  at_start = λ i. refl;
  at_started = λ id kind message hash prompt entries files. refl;
  at_runner = λ id kind message e. refl;
}

module _ (s : Surroundings) (cfg : Config) (params : RunParams) where
  -- A function that picks nothing from the event of the transcript.
  abbrev pub IsTranscriptQuiet : {A : Type 0} → (Effect → List A) → Type 0
  IsTranscriptQuiet pick =
      (u : Setup) (id : String) (r : RunnerResult)
      → collect pick (transcript_event s cfg params u id r) ≡ []

  pub silent_transcript :
      {A : Type 0} (pick : Effect → List A)
      → ((id kind message text : String) (n : ℕ) (b : Bool) (raw : Option String)
          → pick (record_run_event id kind message (captured text n b raw)) ≡ [])
      → IsTranscriptQuiet pick
  unfolding transcript_event collect
  silent_transcript pick none_there u id r = elim (Bool-cases (trim_space r.transcript == "")) [
    | inl e ↦ rw e refl
    | inr e ↦
        rw e (
          ap (λ xs. xs ++ []) (none_there id "mm_transcript" "captured backend transcript" _ _ _ _))
  ]
