-- ===== src/Mm/Feedback.antt =====
-- The rest of internal/mm/workflow/workflow.go: the feedback after a run, the text of a skill and
-- the name of the agent.
use modelo_man.Base.{
  ℤ, pos, ltb_ℤ, String, not, ◌||◌, Option, none, some, List, [], ◌∷◌, ◌==◌, ◌<>◌, trim_space,
  if◌then◌else◌,
}
use modelo_man.Rpc.Contract.{method_record_run_event}
use modelo_man.Mm.Fallible.{Fallible, got, fault}
use modelo_man.Mm.Config.{Config, resolve_token}
use modelo_man.Mm.Prompt.{Regexp, new_redactor, apply_redactor}
use modelo_man.Mm.Client.{
  Answer, response, refused, Client, EventInput, event_fields, invoke_struct,
}

-- The error of `RecordRunEvent`, if it returns one.
abbrev pub error_of : Answer → Option String
error_of (response fields) = none
error_of (refused code message) = some message

-- What `SendFeedback` is given from outside: the environment, the library of regular expressions,
-- `json.Marshal` of the rating and the notes, and `telemetry.New`.
module _ {W : Type 0} (getenv : String → String) (regexp : Regexp) (marshal : ℤ → String → String)
    (new_client : Config → String → Fallible (Client W)) where
  -- The event of `SendFeedback`, whose notes are redacted.
  unfoldable pub feedback_event : Config → String → ℤ → String → EventInput
  unfolding new_redactor apply_redactor
  feedback_event cfg run_id rating notes =
      let redactor = new_redactor regexp cfg.redaction_enabled cfg.custom_redact_regexes in
      record {
        run_id = run_id;
        event_type = "mm_feedback";
        level = "info";
        message = "post-run user feedback";
        data_json = marshal rating (apply_redactor regexp redactor notes);
      }

  -- The call of `RecordRunEvent` where there is a client.
  unfoldable pub send_event : Fallible (Client W) → EventInput → W → Option String × W
  unfolding invoke_struct
  send_event (fault e) i w = (some e, w)
  send_event (got client) i w =
      let (answer, w') = invoke_struct client method_record_run_event (event_fields i) w in
      (error_of answer, w')

  -- `SendFeedback`: its error, if any, and the state behind the connection.
  unfoldable pub send_feedback : Config → String → ℤ → String → W → Option String × W
  unfolding send_event feedback_event resolve_token
  send_feedback cfg run_id rating notes w =
      let id = trim_space run_id in
      let token = resolve_token getenv cfg in
      if id == "" || not (ltb_ℤ (pos 0) rating)
      then (none, w)
      else if trim_space token == ""
      then (none, w)
      else send_event (new_client cfg token) (feedback_event cfg id rating notes) w

-- The loop of `loadSkillSnippet`: the first of the files that can be read.
unfoldable pub first_readable : (String → Fallible String) → List String → String
first_readable read_file [] = ""
first_readable read_file (path ∷ paths) = elim (read_file path) [
  | got raw ↦ raw
  | fault e ↦ first_readable read_file paths
]

-- The file of a skill in the home directory, where there is one; `join` is `filepath.Join`.
abbrev pub home_paths : (List String → String) → Fallible String → String → List String
home_paths join (fault e) skill = []
home_paths join (got home) skill =
    join (home ∷ ".config" ∷ "modeloman" ∷ "skills" ∷ (skill <> ".md") ∷ []) ∷ []

-- `loadSkillSnippet`.
unfoldable pub load_skill_snippet :
    (List String → String) → Fallible String → (String → Fallible String) → String → String → String
unfolding first_readable
load_skill_snippet join user_home_dir read_file repo_root skill =
    let name = trim_space skill in
    if name == ""
    then ""
    else first_readable read_file (
        join (repo_root ∷ ".modeloman" ∷ "skills" ∷ (name <> ".md") ∷ [])
        ∷ home_paths join user_home_dir name)

-- A name, or another where it is empty.
abbrev pub name_or : String → String → String
name_or other name = if name == "" then other else name

-- The name of the user who runs the program; `user.Current` may fail.
abbrev pub user_name : Option String → String
user_name none = "unknown-user"
user_name (some name) = name_or "unknown-user" name

-- `localAgentID`; of `os.Hostname` that fails only the empty name is used.
unfoldable pub local_agent_id : (host : String) → (current_user : Option String) → String
local_agent_id host current_user =
    "mm@" <> name_or "unknown-host" host <> ":" <> user_name current_user
