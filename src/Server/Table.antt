-- ===== src/Server/Table.antt =====
-- The handlers of the methods in server.go, and the table that `RegisterHubServer` makes of them.
use modelo_man.Base.{String, List, [], ◌∷◌}
use modelo_man.Domain.{Host}
use modelo_man.Rpc.Contract.{
  method_get_health, method_get_summary, method_export_state, method_create_task,
  method_update_task, method_delete_task, method_list_tasks, method_create_note, method_list_notes,
  method_append_changelog, method_list_changelog, method_record_benchmark, method_list_benchmarks,
  method_start_run, method_finish_run, method_list_runs, method_record_prompt_attempt,
  method_list_prompt_attempts, method_record_run_event, method_list_run_events,
  method_get_telemetry_summary, method_get_policy, method_set_policy, method_get_leaderboard,
  method_list_policy_caps, method_upsert_policy_cap, method_delete_policy_cap,
}
use modelo_man.Server.Wire.{Wire}
use modelo_man.Server.Methods
use modelo_man.Server.Handlers.{UnaryHandler, of_struct, of_empty, with_struct, with_empty}

-- `source` is the data source that the service reports.
module _ (h : Host) (wire : Wire h.F) (source : String) where
  open h use {F}

  abbrev pub get_health_handler : UnaryHandler F
  get_health_handler = record {
    input = of_empty;
    full_method = method_get_health;
    handler = with_empty (Methods.get_health h wire source);
  }

  abbrev pub get_summary_handler : UnaryHandler F
  get_summary_handler = record {
    input = of_empty;
    full_method = method_get_summary;
    handler = with_empty (Methods.get_summary h wire);
  }

  abbrev pub export_state_handler : UnaryHandler F
  export_state_handler = record {
    input = of_empty;
    full_method = method_export_state;
    handler = with_empty (Methods.export_state h wire);
  }

  abbrev pub create_task_handler : UnaryHandler F
  create_task_handler = record {
    input = of_struct;
    full_method = method_create_task;
    handler = with_struct (Methods.create_task h wire);
  }

  abbrev pub update_task_handler : UnaryHandler F
  update_task_handler = record {
    input = of_struct;
    full_method = method_update_task;
    handler = with_struct (Methods.update_task h wire);
  }

  abbrev pub delete_task_handler : UnaryHandler F
  delete_task_handler = record {
    input = of_struct;
    full_method = method_delete_task;
    handler = with_struct (Methods.delete_task h wire);
  }

  abbrev pub list_tasks_handler : UnaryHandler F
  list_tasks_handler = record {
    input = of_empty;
    full_method = method_list_tasks;
    handler = with_empty (Methods.list_tasks h wire);
  }

  abbrev pub create_note_handler : UnaryHandler F
  create_note_handler = record {
    input = of_struct;
    full_method = method_create_note;
    handler = with_struct (Methods.create_note h wire);
  }

  abbrev pub list_notes_handler : UnaryHandler F
  list_notes_handler = record {
    input = of_empty;
    full_method = method_list_notes;
    handler = with_empty (Methods.list_notes h wire);
  }

  abbrev pub append_changelog_handler : UnaryHandler F
  append_changelog_handler = record {
    input = of_struct;
    full_method = method_append_changelog;
    handler = with_struct (Methods.append_changelog h wire);
  }

  abbrev pub list_changelog_handler : UnaryHandler F
  list_changelog_handler = record {
    input = of_empty;
    full_method = method_list_changelog;
    handler = with_empty (Methods.list_changelog h wire);
  }

  abbrev pub record_benchmark_handler : UnaryHandler F
  record_benchmark_handler = record {
    input = of_struct;
    full_method = method_record_benchmark;
    handler = with_struct (Methods.record_benchmark h wire);
  }

  abbrev pub list_benchmarks_handler : UnaryHandler F
  list_benchmarks_handler = record {
    input = of_empty;
    full_method = method_list_benchmarks;
    handler = with_empty (Methods.list_benchmarks h wire);
  }

  abbrev pub start_run_handler : UnaryHandler F
  start_run_handler = record {
    input = of_struct;
    full_method = method_start_run;
    handler = with_struct (Methods.start_run h wire);
  }

  abbrev pub finish_run_handler : UnaryHandler F
  finish_run_handler = record {
    input = of_struct;
    full_method = method_finish_run;
    handler = with_struct (Methods.finish_run h wire);
  }

  abbrev pub list_runs_handler : UnaryHandler F
  list_runs_handler = record {
    input = of_struct;
    full_method = method_list_runs;
    handler = with_struct (Methods.list_runs h wire);
  }

  abbrev pub record_prompt_attempt_handler : UnaryHandler F
  record_prompt_attempt_handler = record {
    input = of_struct;
    full_method = method_record_prompt_attempt;
    handler = with_struct (Methods.record_prompt_attempt h wire);
  }

  abbrev pub list_prompt_attempts_handler : UnaryHandler F
  list_prompt_attempts_handler = record {
    input = of_struct;
    full_method = method_list_prompt_attempts;
    handler = with_struct (Methods.list_prompt_attempts h wire);
  }

  abbrev pub record_run_event_handler : UnaryHandler F
  record_run_event_handler = record {
    input = of_struct;
    full_method = method_record_run_event;
    handler = with_struct (Methods.record_run_event h wire);
  }

  abbrev pub list_run_events_handler : UnaryHandler F
  list_run_events_handler = record {
    input = of_struct;
    full_method = method_list_run_events;
    handler = with_struct (Methods.list_run_events h wire);
  }

  abbrev pub get_telemetry_summary_handler : UnaryHandler F
  get_telemetry_summary_handler = record {
    input = of_empty;
    full_method = method_get_telemetry_summary;
    handler = with_empty (Methods.get_telemetry_summary h wire);
  }

  abbrev pub get_policy_handler : UnaryHandler F
  get_policy_handler = record {
    input = of_empty;
    full_method = method_get_policy;
    handler = with_empty (Methods.get_policy h wire);
  }

  abbrev pub set_policy_handler : UnaryHandler F
  set_policy_handler = record {
    input = of_struct;
    full_method = method_set_policy;
    handler = with_struct (Methods.set_policy h wire);
  }

  abbrev pub get_leaderboard_handler : UnaryHandler F
  get_leaderboard_handler = record {
    input = of_struct;
    full_method = method_get_leaderboard;
    handler = with_struct (Methods.get_leaderboard h wire);
  }

  abbrev pub list_policy_caps_handler : UnaryHandler F
  list_policy_caps_handler = record {
    input = of_empty;
    full_method = method_list_policy_caps;
    handler = with_empty (Methods.list_policy_caps h wire);
  }

  abbrev pub upsert_policy_cap_handler : UnaryHandler F
  upsert_policy_cap_handler = record {
    input = of_struct;
    full_method = method_upsert_policy_cap;
    handler = with_struct (Methods.upsert_policy_cap h wire);
  }

  abbrev pub delete_policy_cap_handler : UnaryHandler F
  delete_policy_cap_handler = record {
    input = of_struct;
    full_method = method_delete_policy_cap;
    handler = with_struct (Methods.delete_policy_cap h wire);
  }

  -- `RegisterHubServer`.
  abbrev pub service_methods : List (String × UnaryHandler F)
  service_methods =
      ("GetHealth", get_health_handler)
      ∷ ("GetSummary", get_summary_handler)
      ∷ ("ExportState", export_state_handler)
      ∷ ("CreateTask", create_task_handler)
      ∷ ("UpdateTask", update_task_handler)
      ∷ ("DeleteTask", delete_task_handler)
      ∷ ("ListTasks", list_tasks_handler)
      ∷ ("CreateNote", create_note_handler)
      ∷ ("ListNotes", list_notes_handler)
      ∷ ("AppendChangelog", append_changelog_handler)
      ∷ ("ListChangelog", list_changelog_handler)
      ∷ ("RecordBenchmark", record_benchmark_handler)
      ∷ ("ListBenchmarks", list_benchmarks_handler)
      ∷ ("StartRun", start_run_handler)
      ∷ ("FinishRun", finish_run_handler)
      ∷ ("ListRuns", list_runs_handler)
      ∷ ("RecordPromptAttempt", record_prompt_attempt_handler)
      ∷ ("ListPromptAttempts", list_prompt_attempts_handler)
      ∷ ("RecordRunEvent", record_run_event_handler)
      ∷ ("ListRunEvents", list_run_events_handler)
      ∷ ("GetTelemetrySummary", get_telemetry_summary_handler)
      ∷ ("GetPolicy", get_policy_handler)
      ∷ ("SetPolicy", set_policy_handler)
      ∷ ("GetLeaderboard", get_leaderboard_handler)
      ∷ ("ListPolicyCaps", list_policy_caps_handler)
      ∷ ("UpsertPolicyCap", upsert_policy_cap_handler)
      ∷ ("DeletePolicyCap", delete_policy_cap_handler)
      ∷ []
