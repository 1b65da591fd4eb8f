-- ===== src/Rpc/Contract.antt =====
-- internal/rpccontract/methods.go.
pub mod Coverage
use modelo_man.Base.{
  String, Bool, true, Option, List, [], ◌∷◌, ◌<>◌, contains, lookup, if◌then◌else◌,
}

abbrev pub full_method : String → String
full_method name = "/modeloman.v1.ModeloManHub/" <> name

abbrev pub method_get_health : String
method_get_health = full_method "GetHealth"

abbrev pub method_get_summary : String
method_get_summary = full_method "GetSummary"

abbrev pub method_export_state : String
method_export_state = full_method "ExportState"

abbrev pub method_create_task : String
method_create_task = full_method "CreateTask"

abbrev pub method_update_task : String
method_update_task = full_method "UpdateTask"

abbrev pub method_delete_task : String
method_delete_task = full_method "DeleteTask"

abbrev pub method_list_tasks : String
method_list_tasks = full_method "ListTasks"

abbrev pub method_create_note : String
method_create_note = full_method "CreateNote"

abbrev pub method_list_notes : String
method_list_notes = full_method "ListNotes"

abbrev pub method_append_changelog : String
method_append_changelog = full_method "AppendChangelog"

abbrev pub method_list_changelog : String
method_list_changelog = full_method "ListChangelog"

abbrev pub method_record_benchmark : String
method_record_benchmark = full_method "RecordBenchmark"

abbrev pub method_list_benchmarks : String
method_list_benchmarks = full_method "ListBenchmarks"

abbrev pub method_start_run : String
method_start_run = full_method "StartRun"

abbrev pub method_finish_run : String
method_finish_run = full_method "FinishRun"

abbrev pub method_list_runs : String
method_list_runs = full_method "ListRuns"

abbrev pub method_record_prompt_attempt : String
method_record_prompt_attempt = full_method "RecordPromptAttempt"

abbrev pub method_list_prompt_attempts : String
method_list_prompt_attempts = full_method "ListPromptAttempts"

abbrev pub method_record_run_event : String
method_record_run_event = full_method "RecordRunEvent"

abbrev pub method_list_run_events : String
method_list_run_events = full_method "ListRunEvents"

abbrev pub method_get_telemetry_summary : String
method_get_telemetry_summary = full_method "GetTelemetrySummary"

abbrev pub method_get_policy : String
method_get_policy = full_method "GetPolicy"

abbrev pub method_set_policy : String
method_set_policy = full_method "SetPolicy"

abbrev pub method_get_leaderboard : String
method_get_leaderboard = full_method "GetLeaderboard"

abbrev pub method_list_policy_caps : String
method_list_policy_caps = full_method "ListPolicyCaps"

abbrev pub method_upsert_policy_cap : String
method_upsert_policy_cap = full_method "UpsertPolicyCap"

abbrev pub method_delete_policy_cap : String
method_delete_policy_cap = full_method "DeletePolicyCap"

abbrev pub scope_tasks_write : String
scope_tasks_write = "tasks:write"

abbrev pub scope_telemetry_write : String
scope_telemetry_write = "telemetry:write"

abbrev pub scope_policy_write : String
scope_policy_write = "policy:write"

abbrev pub scope_admin_read : String
scope_admin_read = "admin:read"

-- `WriteMethods`.
abbrev pub write_methods : List String
write_methods =
    method_create_task ∷ method_update_task ∷ method_delete_task ∷ method_create_note
    ∷ method_append_changelog ∷ method_record_benchmark ∷ method_start_run ∷ method_finish_run
    ∷ method_record_prompt_attempt ∷ method_record_run_event ∷ method_set_policy
    ∷ method_upsert_policy_cap ∷ method_delete_policy_cap ∷ []

-- `PublicReadMethods`.
abbrev pub public_read_methods : List String
public_read_methods = method_get_health ∷ method_get_leaderboard ∷ method_get_telemetry_summary ∷ []

-- `PrivateReadMethods`.
abbrev pub private_read_methods : List String
private_read_methods =
    method_get_summary ∷ method_export_state ∷ method_list_tasks ∷ method_list_notes
    ∷ method_list_changelog ∷ method_list_benchmarks ∷ method_list_runs
    ∷ method_list_prompt_attempts ∷ method_list_run_events ∷ method_get_policy
    ∷ method_list_policy_caps ∷ []

-- `MethodScopes`.
abbrev pub method_scopes : List (String × String)
method_scopes =
    (method_get_summary, scope_admin_read)
    ∷ (method_export_state, scope_admin_read)
    ∷ (method_list_tasks, scope_admin_read)
    ∷ (method_list_notes, scope_admin_read)
    ∷ (method_list_changelog, scope_admin_read)
    ∷ (method_list_benchmarks, scope_admin_read)
    ∷ (method_list_runs, scope_admin_read)
    ∷ (method_list_prompt_attempts, scope_admin_read)
    ∷ (method_list_run_events, scope_admin_read)
    ∷ (method_get_policy, scope_admin_read)
    ∷ (method_list_policy_caps, scope_admin_read)
    ∷ (method_create_task, scope_tasks_write)
    ∷ (method_update_task, scope_tasks_write)
    ∷ (method_delete_task, scope_tasks_write)
    ∷ (method_create_note, scope_tasks_write)
    ∷ (method_append_changelog, scope_tasks_write)
    ∷ (method_record_benchmark, scope_telemetry_write)
    ∷ (method_start_run, scope_telemetry_write)
    ∷ (method_finish_run, scope_telemetry_write)
    ∷ (method_record_prompt_attempt, scope_telemetry_write)
    ∷ (method_record_run_event, scope_telemetry_write)
    ∷ (method_set_policy, scope_policy_write)
    ∷ (method_upsert_policy_cap, scope_policy_write)
    ∷ (method_delete_policy_cap, scope_policy_write)
    ∷ []

-- `DefaultAgentKeyScopes`.
abbrev pub default_agent_key_scopes : List String
default_agent_key_scopes =
    scope_tasks_write ∷ scope_telemetry_write ∷ scope_policy_write ∷ scope_admin_read ∷ []

-- `RequiresAuthentication`.
unfoldable pub requires_authentication : String → Bool
requires_authentication method =
    if contains write_methods method then true else contains private_read_methods method

-- `RequiredScope`.
unfoldable pub required_scope : String → Option String
unfolding lookup
required_scope method = lookup method method_scopes
