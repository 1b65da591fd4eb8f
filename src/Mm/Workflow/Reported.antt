-- ===== src/Mm/Workflow/Reported.antt =====
-- What a run reports to the hub, and what it starts.
use mathlib.Core.List.{append_assoc}
use modelo_man.Base.{
  String, Bool, true, false, List, [], ◌∷◌, ◌++◌, ◌==◌, ◌≡◌, refl, sym, ap, map, ◌∙◌, inl, inr,
  Bool-cases, if_true, if_false, trim_space, if◌then◌else◌,
}
use modelo_man.Mm.Fallible.{got}
use modelo_man.Mm.Config.{Config}
use modelo_man.Mm.Runner.{RunnerResult, Launch}
use modelo_man.Mm.Runner
use modelo_man.Mm.Workflow.{
  RunParams, no_session, runner_options, diff, Effect, run_backend, record_run_event,
  record_prompt_attempt, finish_run, Surroundings, Setup, prepare, run_id_of, attempt_of, finish_of,
  opening, session, runner_events, transcript_event, closing, run_setup, run,
}
use modelo_man.Mm.Workflow.Effects.{
  collect, collect-append, finishes, attempts, IsQuiet, collect-opening, collect-runner_events,
  finishes-IsQuiet, attempts-IsQuiet, IsTranscriptQuiet, silent_transcript,
}

collect-launched :
    {A : Type 0} (pick : Effect → List A)
    → ((l : Launch) → pick (run_backend l) ≡ [])
    → (ls : List Launch) → collect pick (map run_backend ls) ≡ []
unfolding collect
collect-launched pick none_there [] = refl
collect-launched pick none_there (l ∷ ls) = rw (none_there l) (collect-launched pick none_there ls)

-- A session that is taken or not, where nothing is picked from either.
picked_if :
    {A : Type 0} (pick : Effect → List A) (c : Bool) (x y : RunnerResult × List Effect)
    → collect pick x.1 ≡ []
    → collect pick y.1 ≡ []
    → collect pick (if c then x else y).1 ≡ []
picked_if pick true x y e f = e
picked_if pick false x y e f = f

module _ (s : Surroundings) (cfg : Config) (params : RunParams) where
  -- The last three effects of a reported run, and those before the last.
  abbrev summary_of : Setup → String → RunnerResult → List Effect
  summary_of u id r =
      record_prompt_attempt (attempt_of s cfg params u id r)
      ∷ record_run_event id "mm_run_diff_summary" "post-run repository diff summary"
          (diff s.diff_summary)
      ∷ []

  abbrev before_finish : Setup → String → RunnerResult → List Effect
  before_finish u id r =
      opening s cfg params u
      ++ (session s cfg params u).1
      ++ (runner_events s cfg params id r.events
          ++ transcript_event s cfg params u id r
          ++ summary_of u id r)

  module _ {A : Type 0} (pick : Effect → List A) (quiet : IsQuiet pick)
      (silent : IsTranscriptQuiet s cfg params pick) where
    collect-reported :
        (u : Setup) (id : String) (r : RunnerResult) (rest : List Effect)
        → collect pick
            (runner_events s cfg params id r.events ++ transcript_event s cfg params u id r ++ rest)
          ≡ collect pick rest
    collect-reported u id r rest =
        collect-append pick
          (runner_events s cfg params id r.events ++ transcript_event s cfg params u id r) rest
        ∙ ap (λ xs. xs ++ collect pick rest)
            (collect-append pick (runner_events s cfg params id r.events)
                (transcript_event s cfg params u id r)
              ∙ ap (λ xs. xs ++ collect pick (transcript_event s cfg params u id r))
                  (collect-runner_events s cfg params pick quiet id r.events)
              ∙ silent u id r)

    -- Whatever comes behind the session, the function picks nothing before the session.
    collect-run :
        (u : Setup) (rest : List Effect)
        → collect pick (opening s cfg params u ++ (session s cfg params u).1 ++ rest)
          ≡ collect pick (session s cfg params u).1 ++ collect pick rest
    collect-run u rest =
        collect-append pick (opening s cfg params u ++ (session s cfg params u).1) rest
        ∙ ap (λ xs. xs ++ collect pick rest)
            (collect-append pick (opening s cfg params u) (session s cfg params u).1
              ∙ ap (λ xs. xs ++ collect pick (session s cfg params u).1)
                  (collect-opening s cfg params pick quiet u))

  run-got :
      (u : Setup)
      → prepare s cfg params ≡ got u
      → (run s cfg params).1 ≡ (run_setup s cfg params u).1
  unfolding run
  run-got u e = rw e refl

  has_client_of :
      (u : Setup) → (trim_space (run_id_of s cfg params u) == "") ≡ false → s.has_client ≡ true
  unfolding trim_space
  has_client_of u given = elim (Bool-cases s.has_client) [ inl e ↦ e | inr e ↦ cc (rw e at given) ]

  collect-session :
      {A : Type 0} (pick : Effect → List A) (u : Setup)
      → ((l : Launch) → pick (run_backend l) ≡ [])
      → collect pick (session s cfg params u).1 ≡ []
  unfolding session collect
  collect-session pick u none_there =
      picked_if pick params.dry_run (no_session, []) _ refl
        (collect-launched pick none_there (Runner.run s.machine (runner_options s cfg params u)).1)

  abbrev finish_effect : Setup → String → RunnerResult → Effect
  finish_effect u id r = finish_run (finish_of s cfg params u id r)

  closing_lem :
      (u : Setup) (id : String) (r : RunnerResult)
      → (trim_space id == "") ≡ false
      → closing s cfg params u id r
        ≡ runner_events s cfg params id r.events
          ++ transcript_event s cfg params u id r
          ++ summary_of u id r
          ++ finish_effect u id r ∷ []
  unfolding closing
  closing_lem u id r given =
      if_false _ _ _ given ∙ sym (append_assoc _ (summary_of u id r) (finish_effect u id r ∷ []))

  closed_run :
      (u : Setup)
      → (trim_space (run_id_of s cfg params u) == "") ≡ false
      → (run_setup s cfg params u).1
        ≡ before_finish u (run_id_of s cfg params u) (session s cfg params u).0
          ++ finish_effect u (run_id_of s cfg params u) (session s cfg params u).0 ∷ []
  unfolding run_setup
  closed_run u given =
      let id = run_id_of s cfg params u in
      let r = (session s cfg params u).0 in
      let first = opening s cfg params u ++ (session s cfg params u).1 in
      ap (λ es. first ++ es)
        (if_true s.has_client _ _ (has_client_of u given) ∙ closing_lem u id r given)
      ∙ sym (append_assoc first _ (finish_effect u id r ∷ []))

  -- A run that the hub has an id for is finished: the last thing that it does is to finish the run
  -- under this id, with the status that belongs to the session; before that it recorded one attempt,
  -- with the outcome that belongs to the session, and it finished nothing.
  pub run-finished :
      (u : Setup)
      → prepare s cfg params ≡ got u
      → (trim_space (run_id_of s cfg params u) == "") ≡ false
      → (let id = run_id_of s cfg params u in
          let r = (session s cfg params u).0 in
          (before : List Effect) × ((run s cfg params).1
            ≡ before ++ finish_run (finish_of s cfg params u id r) ∷ [])
          × (collect attempts before ≡ attempt_of s cfg params u id r ∷ [])
          × (collect finishes before ≡ []))
  unfolding collect
  run-finished u ready given =
      let id = run_id_of s cfg params u in
      let r = (session s cfg params u).0 in
      let quiet_a = silent_transcript s cfg params attempts (λ i k m t n b w. refl) in
      let quiet_f = silent_transcript s cfg params finishes (λ i k m t n b w. refl) in
      let reported =
        runner_events s cfg params id r.events
        ++ transcript_event s cfg params u id r
        ++ summary_of u id r in
      (
        before_finish u id r,
        run-got u ready ∙ closed_run u given,
        collect-run attempts attempts-IsQuiet quiet_a u reported
            ∙ ap (λ xs. xs ++ collect attempts reported) (collect-session attempts u (λ l. refl))
            ∙ collect-reported attempts attempts-IsQuiet quiet_a u id r (summary_of u id r),
        collect-run finishes finishes-IsQuiet quiet_f u reported
            ∙ ap (λ xs. xs ++ collect finishes reported) (collect-session finishes u (λ l. refl))
            ∙ collect-reported finishes finishes-IsQuiet quiet_f u id r (summary_of u id r),
      )
