-- ===== src/Service/Listings.antt =====
-- `ListRuns`, `ListPromptAttempts` and `ListRunEvents` of hub_service.go.
use modelo_man.Base.{is_found, String, pos, ltb_ℤ, Bool, not, ◌&&◌, List, ◌==◌, trim_space, sort_by}
use modelo_man.Domain.{
  Host, AgentRun, PromptAttempt, RunEvent, RunFilter, AttemptFilter, EventFilter,
}
use modelo_man.Domain.Fault
use modelo_man.Store.{Act, ◌>>=◌, ◌>>◌, pure, reject_if}
use modelo_man.Store
use modelo_man.Service.Requests.{ListRunsRequest, ListPromptAttemptsRequest, ListRunEventsRequest}
use modelo_man.Service.Tasks.{newest_first}

module _ (h : Host) where
  open h use {F}

  -- `s != ""`, and `time.Parse(time.RFC3339Nano, strings.TrimSpace(s))` fails.
  abbrev pub bad_time : String → Bool
  bad_time s = not (s == "") && not (is_found (h.parse_time (trim_space s)))

  abbrev run_filter : ListRunsRequest → RunFilter
  run_filter q = record {
    run_id = trim_space q.run_id;
    task_id = trim_space q.task_id;
    workflow = trim_space q.workflow;
    agent_id = trim_space q.agent_id;
    status = trim_space q.status;
    prompt_version = trim_space q.prompt_version;
    started_after = trim_space q.started_after;
    started_before = trim_space q.started_before;
    limit = q.limit;
  }

  unfoldable pub list_runs : ListRunsRequest → Act F (List (AgentRun F))
  list_runs q = do
    reject_if (ltb_ℤ q.limit (pos 0)) (Fault.invalid_argument "limit must be non-negative")
    reject_if (bad_time q.started_after)
        (Fault.invalid_argument "started_after must be RFC3339 timestamp")
    reject_if (bad_time q.started_before)
        (Fault.invalid_argument "started_before must be RFC3339 timestamp")
    items ← Store.list_runs_filtered h (run_filter q)
    pure
        (sort_by (newest_first (λ (r : AgentRun F). r.started_at) (λ (r : AgentRun F). r.id)) items)

  abbrev attempt_filter : ListPromptAttemptsRequest → AttemptFilter
  attempt_filter q = record {
    run_id = trim_space q.run_id;
    workflow = trim_space q.workflow;
    agent_id = trim_space q.agent_id;
    model = trim_space q.model;
    outcome = trim_space q.outcome;
    prompt_version = trim_space q.prompt_version;
    created_after = trim_space q.created_after;
    created_before = trim_space q.created_before;
    limit = q.limit;
  }

  unfoldable pub list_prompt_attempts : ListPromptAttemptsRequest → Act F (List (PromptAttempt F))
  list_prompt_attempts q = do
    reject_if (ltb_ℤ q.limit (pos 0)) (Fault.invalid_argument "limit must be non-negative")
    reject_if (bad_time q.created_after)
        (Fault.invalid_argument "created_after must be RFC3339 timestamp")
    reject_if (bad_time q.created_before)
        (Fault.invalid_argument "created_before must be RFC3339 timestamp")
    items ← Store.list_prompt_attempts_filtered h (attempt_filter q)
    pure (
        sort_by
          (newest_first (λ (a : PromptAttempt F). a.created_at) (λ (a : PromptAttempt F). a.id))
          items)

  abbrev event_filter : ListRunEventsRequest → EventFilter
  event_filter q = record {
    run_id = trim_space q.run_id;
    event_type = trim_space q.event_type;
    level = trim_space q.level;
    created_after = trim_space q.created_after;
    created_before = trim_space q.created_before;
    limit = q.limit;
  }

  unfoldable pub list_run_events : ListRunEventsRequest → Act F (List RunEvent)
  list_run_events q = do
    reject_if (ltb_ℤ q.limit (pos 0)) (Fault.invalid_argument "limit must be non-negative")
    reject_if (bad_time q.created_after)
        (Fault.invalid_argument "created_after must be RFC3339 timestamp")
    reject_if (bad_time q.created_before)
        (Fault.invalid_argument "created_before must be RFC3339 timestamp")
    items ← Store.list_run_events_filtered h (event_filter q)
    pure (sort_by (newest_first (λ (e : RunEvent). e.created_at) (λ (e : RunEvent). e.id)) items)
