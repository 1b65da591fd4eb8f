-- ===== src/Mm/Workflow.antt =====
-- `Run` of internal/mm/workflow/workflow.go, as the list of what it sends to the hub and to the
-- backend. What git, the files and the processes of the backend give is an argument; logging is left
-- out.
pub mod Effects
pub mod Reported
pub mod Redacted
use modelo_man.Base.{
  ℕ, zero, ℤ, pos, negsuc, String, Bool, true, false, not, ◌||◌, Option, none, some, List, [], ◌∷◌,
  ◌++◌, ◌==◌, ◌<>◌, map, contains, text_lt, sort_by, trim_space, length, utf8, if◌then◌else◌,
}
use modelo_man.Mm.Fallible.{Fallible, got, fault, ◌>>=◌}
use modelo_man.Mm.Config.{Config}
use modelo_man.Mm.Prompt.{TemplateInput, build, Regexp, Redactor, new_redactor, apply_redactor}
use modelo_man.Mm.Runner.{RunnerEvent, RunnerResult, Options, Machine, Launch}
use modelo_man.Mm.Runner
use modelo_man.Mm.Client.{StartRunInput, AttemptInput, FinishRunInput}

-- `RunParams`, without the streams and the callbacks, which only show the output.
pub record RunParams : Type 0 where
  pub backend : String
  pub task_type : String
  pub skill : String
  pub objective : String
  pub budget_tokens : ℤ
  pub dry_run : Bool
  pub use_pty : Bool
  pub forward_input : Bool
  pub additional_entry : List String
  pub repo_root : String

-- What `Run` uses of the bundle: its text, its hash and its selected files.
pub record BundleView : Type 0 where
  pub rendered : String
  pub hash : String
  pub selected_files : List String

-- `DiffSummary` of internal/mm/gitutil.
pub record DiffSummary : Type 0 where
  pub changed_files : List String
  pub added_lines : ℤ
  pub deleted_lines : ℤ

-- The data of an event. What the first one repeats of the parameters and of git is left out.
pub data EventData : Type 0 where
  started : (bundle_hash prompt_hash : String) → (entries selected_files : List String) → EventData
  from_runner : RunnerEvent → EventData
  captured : (redacted : String) → ℕ → Bool → (raw : Option String) → EventData
  diff : DiffSummary → EventData

-- What `Run` does outside: calls of the hub, and the commands that it starts.
pub data Effect : Type 0 where
  start_run : StartRunInput → Effect
  record_run_event : (run_id event_type message : String) → EventData → Effect
  run_backend : Launch → Effect
  record_prompt_attempt : AttemptInput → Effect
  finish_run : FinishRunInput → Effect

-- What the run meets: git, files, the hub and the processes of the backend.
pub record Surroundings : Type 0 where
  pub detect_repo_root : Fallible String
  pub stored_entries : String → Fallible (List String)
  pub build_bundle : String → List String → String → Fallible BundleView
  pub skill_snippet : String → String
  -- Whether there is a token and a client was made with it.
  pub has_client : Bool
  pub answer_start : StartRunInput → Option String
  pub machine : Machine
  pub diff_summary : DiffSummary
  pub agent_id : String
  pub digest_string : String → String
  pub decimal : ℤ → String
  pub regexp : Regexp

-- `RunResult`, without the bundle and the runner's result.
pub record RunResult : Type 0 where
  pub run_id : String
  pub prompt : String
  pub prompt_hash : String
  pub status : String
  pub outcome : String
  pub last_error : String
  pub selected_entry : List String

-- The loop of `mergeEntries`, with the texts that were taken.
unfoldable pub merge_from : List String → List String → List String
merge_from out [] = out
merge_from out (item ∷ items) =
    let clean = trim_space item in
    if clean == ""
    then merge_from out items
    else if contains out clean
    then merge_from out items
    else merge_from (out ++ clean ∷ []) items

-- `mergeEntries`.
unfoldable pub merge_entries : List String → List String → List String
unfolding merge_from
merge_entries base extra = sort_by text_lt (merge_from [] (base ++ extra))

abbrev pub or_else : String → String → String
or_else s d = if s == "" then d else s

-- A run that is not a dry one ends with the runner's result, a dry one with that of nothing.
abbrev pub no_session : RunnerResult
no_session = record {
  exit_code = pos 0;
  failure = none;
  events = [];
  transcript = "";
  transcript_truncated = false;
  duration_ms = pos 0;
}

abbrev is_zero : ℤ → Bool
is_zero (pos n) = elim n [ zero ↦ true | _ ↦ false ]
is_zero (negsuc n) = false

abbrev is_failure : Option String → Bool
is_failure none = false
is_failure (some e) = true

-- `runResult.Err != nil || runResult.ExitCode != 0`.
abbrev pub has_failed : RunnerResult → Bool
has_failed r = is_failure r.failure || not (is_zero r.exit_code)

abbrev error_text : (ℤ → String) → RunnerResult → String
error_text decimal r = elim r.failure [
  | some e ↦ e
  | none ↦ "backend exited with status " <> decimal r.exit_code
]

-- What a run is set up with, once its checks have passed.
pub record Setup : Type 0 where
  pub repo_root : String
  pub backend : String
  pub task_type : String
  pub skill : String
  pub entries : List String
  pub bundle : BundleView
  pub final_prompt : String
  pub safe_bundle : String
  pub prompt_hash : String
  pub redactor : Redactor

abbrev house_rules : String
house_rules =
    "- Do not leak secrets in logs or summaries.\n"
    <> "- Keep the change set minimal and verifiable.\n"
    <> "- Prioritize compile/test pass and explicit next steps."

module _ (s : Surroundings) (cfg : Config) (params : RunParams) where
  -- `redactor.Apply`.
  abbrev redacted : Setup → String → String
  redacted u t = apply_redactor s.regexp u.redactor t

  -- What the run is set up with, from its bundle.
  unfoldable pub make_setup : String → String → String → List String → BundleView → Setup
  make_setup root backend task_type entries bundle =
      let final_prompt = build s.decimal (record {
        objective = trim_space params.objective;
        task_type = task_type;
        skill_name = params.skill;
        skill_snippet = s.skill_snippet params.skill;
        context_digest = bundle.hash;
        backend = backend;
        budget_tokens = params.budget_tokens;
        additional_hint = house_rules;
      }) in
      let redactor = new_redactor s.regexp cfg.redaction_enabled cfg.custom_redact_regexes in
      record {
        repo_root = root;
        backend = backend;
        task_type = task_type;
        skill = trim_space params.skill;
        entries = entries;
        bundle = bundle;
        final_prompt = final_prompt;
        safe_bundle = apply_redactor s.regexp redactor bundle.rendered;
        prompt_hash = s.digest_string (apply_redactor s.regexp redactor final_prompt);
        redactor = redactor;
      }

  -- The checks of `Run`, up to the bundle and the prompt.
  unfoldable pub prepare : Fallible Setup
  unfolding make_setup
  prepare = do
    let backend = or_else (trim_space params.backend) (trim_space cfg.default_backend)
    let task_type = or_else (trim_space params.task_type) "general-coding"
    checked ← if backend == "" then fault "backend is required" else got tt
    checked' ← if trim_space params.objective == "" then fault "objective is required" else got tt
    root ←
        if trim_space params.repo_root == ""
        then s.detect_repo_root
        else got (trim_space params.repo_root)
    stored ← s.stored_entries root
    let entries = merge_entries stored params.additional_entry
    bundle ← s.build_bundle root entries (trim_space params.objective)
    got (make_setup root backend task_type entries bundle)

  abbrev pub start_input : Setup → StartRunInput
  start_input u = record {
    workflow = u.task_type;
    agent_id = s.agent_id;
    prompt_version = u.skill;
    model_policy = u.backend;
  }

  abbrev pub start_answer : Setup → Option String
  start_answer u = if s.has_client then s.answer_start (start_input u) else none

  -- The id of the run at the hub; the empty text where there is none.
  abbrev pub run_id_of : Setup → String
  run_id_of u = elim (start_answer u) [ none ↦ "" | some id ↦ id ]

  abbrev pub after_start : Setup → Option String → List Effect
  after_start u none = []
  after_start u (some id) =
      record_run_event id "mm_run_started" "mm wrapper started backend session"
        (started u.bundle.hash u.prompt_hash u.entries u.bundle.selected_files)
      ∷ []

  -- The start of the run at the hub.
  unfoldable pub opening : Setup → List Effect
  opening u =
      if s.has_client then start_run (start_input u) ∷ after_start u (start_answer u) else []

  -- The prompt that the backend gets.
  abbrev pub backend_prompt : Setup → String
  backend_prompt u = u.final_prompt <> "\n\nContext bundle:\n" <> u.safe_bundle

  -- The options of the runner.
  unfoldable pub runner_options : Setup → Options
  runner_options u = record {
    backend = u.backend;
    repo_dir = u.repo_root;
    prompt = backend_prompt u;
    use_pty = params.use_pty;
    capture_transcript = true;
    max_transcript_bytes = cfg.max_transcript_bytes;
    forward_input = params.forward_input;
  }

  abbrev pub ran : RunnerResult × List Launch → RunnerResult × List Effect
  ran (r, launches) = (r, map run_backend launches)

  unfoldable pub session : Setup → RunnerResult × List Effect
  unfolding Runner.run runner_options
  session u =
      if params.dry_run then (no_session, []) else ran (Runner.run s.machine (runner_options u))

  unfoldable pub runner_events : String → List RunnerEvent → List Effect
  runner_events id [] = []
  runner_events id (e ∷ es) =
      record_run_event id "mm_runner_event" e.message (from_runner e) ∷ runner_events id es

  unfoldable pub transcript_event : Setup → String → RunnerResult → List Effect
  transcript_event u id r =
      let transcript = trim_space r.transcript in
      if transcript == ""
      then []
      else record_run_event id "mm_transcript" "captured backend transcript" (
          captured (redacted u transcript) (length (utf8 transcript)) r.transcript_truncated
            (if cfg.allow_raw_transcript then some transcript else none))
        ∷ []

  abbrev pub last_error_of : RunnerResult → String
  last_error_of r = if has_failed r then error_text s.decimal r else ""

  abbrev pub outcome_of : RunnerResult → String
  outcome_of r = if has_failed r then "failed" else "success"

  abbrev pub status_of : RunnerResult → String
  status_of r = if has_failed r then "failed" else "completed"

  abbrev pub attempt_of : Setup → String → RunnerResult → AttemptInput
  attempt_of u id r = record {
    run_id = id;
    attempt_number = pos 1;
    workflow = u.task_type;
    agent_id = s.agent_id;
    model = u.backend;
    prompt_version = u.skill;
    prompt_hash = u.prompt_hash;
    outcome = outcome_of r;
    error_message = redacted u (last_error_of r);
    latency_ms = r.duration_ms;
  }

  abbrev pub finish_of : Setup → String → RunnerResult → FinishRunInput
  finish_of u id r = record {
    run_id = id;
    status = status_of r;
    last_error = redacted u (last_error_of r);
  }

  -- The report of a run that the hub has an id for.
  unfoldable pub closing : Setup → String → RunnerResult → List Effect
  unfolding runner_events transcript_event
  closing u id r =
      if trim_space id == ""
      then []
      else runner_events id r.events
        ++ transcript_event u id r
        ++ (record_prompt_attempt (attempt_of u id r)
            ∷ record_run_event id "mm_run_diff_summary" "post-run repository diff summary"
                (diff s.diff_summary)
            ∷ finish_run (finish_of u id r)
            ∷ [])

  -- The run, once it is set up.
  unfoldable pub run_setup : Setup → RunResult × List Effect
  unfolding opening session closing
  run_setup u =
      let (r, in_session) = session u in
      let id = run_id_of u in
      (
        record {
          run_id = id;
          prompt = u.final_prompt;
          prompt_hash = u.prompt_hash;
          status = status_of r;
          outcome = outcome_of r;
          last_error = last_error_of r;
          selected_entry = u.entries;
        },
        opening u ++ in_session ++ (if s.has_client then closing u id r else []),
      )

  abbrev pub finished_with : Fallible Setup → Fallible RunResult × List Effect
  finished_with (fault e) = (fault e, [])
  finished_with (got u) = let (result, effects) = run_setup u in (got result, effects)

  -- `Run`.
  unfoldable pub run : Fallible RunResult × List Effect
  unfolding prepare run_setup
  run = finished_with prepare
