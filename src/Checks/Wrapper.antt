-- ===== src/Checks/Wrapper.antt =====
-- The theorems on internal/mm at concrete inputs.
use modelo_man.Base.{
  ℕ, zero, suc, ◌+◌, ◌-◌, ◌*◌, ◌≤◌, ℤ, pos, negsuc, pos_part, String, Bool, true, false, Option,
  none, some, List, [], ◌∷◌, ◌++◌, ◌==◌, ◌||◌, contains, HasNoRepeat, ◌≡◌, refl, length, leb, arith,
  Bytes, utf8, trim_space, if◌then◌else◌,
}
use modelo_man.Rpc.Contract.{method_start_run, method_create_task}
use modelo_man.Rpc.Types.{end, struct}
use modelo_man.Rpc.Idempotency.{file_keys, idempotency_interceptor}
use modelo_man.Mm.Fallible.{Fallible, got}
use modelo_man.Mm.Config.{Config, default_config, ConfigFile, lines_of, load}
use modelo_man.Mm.Config.Loaded.{IsUsable, load-IsUsable}
use modelo_man.Mm.Bundle.{Contents, readable, Parts, render_bundle}
use modelo_man.Mm.Limits.{BuildLimits, length-render_bundle_budget}
use modelo_man.Mm.Transcript.{Holds, new_capped_buffer, write_all, output, write_all_lem}
use modelo_man.Mm.Client.{CallCode, response, refused, Client, invoke_struct}
use modelo_man.Mm.Client.Attempts.{EndsWith, invoke_struct-EndsWith}
use modelo_man.Mm.Client.Keyless.{Request, fields_of, idempotency_interceptor-keyless}
use modelo_man.Mm.Workflow.{
  DiffSummary, RunParams, Surroundings, Setup, Effect, finish_run, prepare, make_setup,
  merge_entries, run_id_of, session, attempt_of, finish_of, run,
}
use modelo_man.Mm.Git.{Git, lines, fields, split_at, summarize_diff}
use modelo_man.Mm.Git.Files.{named_files, summarize_diff-files}
use modelo_man.Mm.Workflow.Effects.{collect, attempts, finishes, outputs}
use modelo_man.Mm.Workflow.Reported.{run-finished}
use modelo_man.Mm.Workflow.Redacted.{AreRedacted, outputs-run}
use modelo_man.Mm.Runner.{Machine, Mode, stdin, Options, Process, exited}
use modelo_man.Mm.Runner
use modelo_man.Checks.Samples.{start}
use modelo_man.Checks.Calls.{codec, no_context, respond}

abbrev read_x : Bytes → Contents
read_x path = readable (120 ∷ [])

abbrev parts : Parts
parts = record {
  meta = record { root = 47 ∷ []; commit = []; branch = []; dirty = true };
  selected = (97 ∷ []) ∷ [];
  tree = (97 ∷ []) ∷ [];
  git_status = [];
  git_diff = [];
  symbol_hits = [];
  max_bytes = 40;
  max_file_bytes = 10;
}

abbrev limits : BuildLimits
limits = record {
  max_bytes = pos 0;
  token_budget = pos 10;
  max_tree_lines = pos 0;
  max_file_bytes = pos 0;
  max_grep_hits = pos 0;
  git_diff_budget = pos 0;
}

length-render_bundle_budget_example : length (render_bundle read_x parts) ≤ 4 * 10 + 24
unfolding modelo_man.Mm.Limits.with_limits modelo_man.Base.◌+₆₄◌
length-render_bundle_budget_example =
    length-render_bundle_budget read_x parts limits 10 refl (omega arith) (omega arith) refl

abbrev chunks : List Bytes
chunks = (1 ∷ 2 ∷ []) ∷ (3 ∷ 4 ∷ []) ∷ []

write_all_lem_example :
    Holds
      (new_capped_buffer (pos 3)).max
      (output chunks)
      (write_all chunks (new_capped_buffer (pos 3)))
write_all_lem_example = write_all_lem (pos 3) chunks

-- Two calls are refused, the third is answered.
abbrev flaky : Client ℕ
flaky = record {
  connection = λ token method request w.
      (if leb 2 w then response end else refused CallCode.unavailable "", w + 1);
  token = "secret";
  retry_attempts = pos 3;
}

invoke_struct-EndsWith_example :
    (k : ℕ) × EndsWith flaky method_start_run end 2 0 (invoke_struct flaky method_start_run end 0) k
invoke_struct-EndsWith_example = invoke_struct-EndsWith flaky method_start_run end 0

abbrev no_decimal : ℤ → String
no_decimal n = "0"

abbrev finish_request : Request
finish_request = Request.finish_run (record { run_id = "r"; status = "completed"; last_error = "" })

idempotency_interceptor-keyless_example :
    idempotency_interceptor codec
      (some file_keys)
      method_create_task
      respond
      no_context
      (struct (fields_of no_decimal finish_request))
      start
    ≡ respond no_context (struct (fields_of no_decimal finish_request)) start
unfolding modelo_man.Rpc.Idempotency.extract_idempotency_key trim_space
idempotency_interceptor-keyless_example =
    idempotency_interceptor-keyless codec (some file_keys) method_create_task respond no_decimal
      finish_request no_context start refl

abbrev zero_of : String → Option ℤ
zero_of s = some (pos 0)

abbrev config_lines : ConfigFile
config_lines = lines_of ("# mm" ∷ "max_context_bytes: 0" ∷ []) none

abbrev some_config : Fallible Config
some_config = load zero_of "mm.yaml" config_lines

load-IsUsable_example : IsUsable default_config
unfolding load modelo_man.Mm.Config.parse_lines trim_space modelo_man.Base.strip_prefix
    modelo_man.Mm.Config.set_line modelo_man.Mm.Config.split_colon modelo_man.Mm.Config.set_key
    modelo_man.Mm.Config.trim_quotes modelo_man.Mm.Config.fill_defaults
load-IsUsable_example = load-IsUsable zero_of "mm.yaml" config_lines default_config refl

abbrev params : RunParams
params = record {
  backend = "codex";
  task_type = "";
  skill = "";
  objective = "do it";
  budget_tokens = pos 0;
  dry_run = false;
  use_pty = true;
  forward_input = false;
  additional_entry = [];
  repo_root = "/r";
}

-- A build without pseudo-terminals, where the backend takes its prompt and ends well.
abbrev machine : Machine
machine = record {
  has_pty = false;
  process = λ mode command dir prompt. exited true (utf8 "token=x" ∷ []) none (pos 0);
  lower = λ c. c;
  text_of = λ bytes. "token=x";
  elapsed_ms = pos 5;
}

abbrev surroundings : Surroundings
surroundings = record {
  detect_repo_root = got "/r";
  stored_entries = λ root. got [];
  build_bundle =
      λ root entries objective. got (record { rendered = "b"; hash = "h"; selected_files = [] });
  skill_snippet = λ skill. "";
  has_client = true;
  answer_start = λ i. some "run1";
  machine = machine;
  diff_summary = record { changed_files = []; added_lines = pos 0; deleted_lines = pos 0 };
  agent_id = "mm@h:u";
  digest_string = λ t. "d";
  decimal = no_decimal;
  regexp = record { compiles = λ p. true; replace_all = λ p l t. l };
}

abbrev setup : Setup
setup =
    make_setup surroundings default_config params "/r" "codex" "general-coding" []
      (record { rendered = "b"; hash = "h"; selected_files = [] })

ready : prepare surroundings default_config params ≡ got setup
unfolding prepare trim_space merge_entries modelo_man.Base.sort_by
ready = refl

named : (trim_space (run_id_of surroundings default_config params setup) == "") ≡ false
unfolding trim_space
named = refl

run-finished_example :
    (before : List Effect) × ((run surroundings default_config params).1
      ≡ before
        ++ finish_run (
            finish_of surroundings default_config params setup "run1"
              (session surroundings default_config params setup).0)
          ∷ [])
    × (collect attempts before
        ≡ attempt_of surroundings default_config params setup "run1"
            (session surroundings default_config params setup).0
          ∷ [])
    × (collect finishes before ≡ [])
run-finished_example = run-finished surroundings default_config params setup ready named

-- The backend ends well and prints a warning on the pipe, and ends with 3 on the terminal.
abbrev twice : Mode → Process
twice stdin = exited true (utf8 "warning: " ∷ utf8 "not a tty" ∷ []) none (pos 0)
twice mode = exited false [] none (pos 3)

abbrev restarting : Machine
restarting = record machine {
  process = λ mode command dir prompt. twice mode;
  text_of = λ bytes. "warning: not a tty";
}

abbrev piped : Options
piped = record {
  backend = "codex";
  repo_dir = "/r";
  prompt = "do it";
  use_pty = false;
  capture_transcript = true;
  max_transcript_bytes = pos 0;
  forward_input = false;
}

outputs-run_example :
    AreRedacted surroundings default_config params
      (session surroundings default_config params setup).0
      (collect outputs (run surroundings default_config params).1)
outputs-run_example = outputs-run surroundings default_config params setup ready refl refl

abbrev unstaged : String
unstaged = "1\t2\ta.go\n-\t-\tb.png\n"

abbrev staged : String
staged = "3\t0\ta.go\n\n"

abbrev two_diffs : Git
two_diffs (command ∷ option ∷ []) = got unstaged
two_diffs _ = got staged

abbrev no_number : String → Option ℤ
no_number s = none

three_lines : named_files (lines unstaged ++ lines staged) ≡ "a.go" ∷ "b.png" ∷ "a.go" ∷ []
unfolding split_at fields trim_space
three_lines = refl

summarize_diff-files_example :
    (d : DiffSummary) × (summarize_diff no_number two_diffs ≡ got d)
    × HasNoRepeat d.changed_files
    × ((k : String)
        → contains d.changed_files k
          ≡ (contains (named_files (lines unstaged)) k || contains (named_files (lines staged)) k))
summarize_diff-files_example = summarize_diff-files no_number two_diffs unstaged staged refl refl
