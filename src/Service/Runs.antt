-- ===== src/Service/Runs.antt =====
-- `StartRun`, `FinishRun` and `RecordRunEvent` of hub_service.go.
pub mod Totals
pub mod Finished
use modelo_man.Base.{
  find_by, ◌/◌, ◌-◌, ◌+◌, String, ℤ, pos, negsuc, ltb_ℤ, since_64, sub_ℕ, ◌+₆₄◌, Bool, false, not,
  ◌||◌, Option, none, some, List, [], ◌∷◌, ◌==◌, contains, trim_space, if◌then◌else◌,
}
use modelo_man.Domain.{Host, AgentRun, PromptAttempt, RunEvent, OrchestrationPolicy}
use modelo_man.Domain.Fault
use modelo_man.Store.{Act, ◌>>=◌, ◌>>◌, pure, fail, reject_if, use_host}
use modelo_man.Store
use modelo_man.Service.Requests.{StartRunRequest, FinishRunRequest, RecordRunEventRequest}
use modelo_man.Service.Common.{valid_run_statuses, valid_event_levels, or_default, time_now, new_id}

-- `Duration.Milliseconds()`, from nanoseconds: the quotient is cut towards zero.
abbrev pub to_milliseconds : ℤ → ℤ
to_milliseconds (pos n) = pos (n / 1000000)
to_milliseconds (negsuc n) = sub_ℕ 0 ((n + 1) / 1000000)

-- `time.Since(t).Milliseconds()`.
abbrev pub elapsed_ms : ℤ → ℤ → ℤ
elapsed_ms start now = to_milliseconds (since_64 start now)

-- The reason that a kill switch gives.
abbrev pub kill_reason : {F : Type 0} → OrchestrationPolicy F → String
kill_reason p = or_default (trim_space p.kill_switch_reason) "kill switch is enabled"

module _ (h : Host) where
  open h use {F}

  unfoldable pub start_run : StartRunRequest → Act F (AgentRun F)
  unfolding time_now new_id
  start_run q = do
    reject_if (trim_space q.workflow == "" || trim_space q.agent_id == "")
        (Fault.invalid_argument "workflow and agent_id are required")
    reject_if (ltb_ℤ q.max_retries (pos 0))
        (Fault.invalid_argument "max_retries must be non-negative")
    policy ← Store.get_policy h
    reject_if policy.kill_switch (Fault.failed_precondition (kill_reason policy))
    id ← new_id h "run"
    now ← time_now h
    let run : AgentRun F = record {
      id = id;
      task_id = trim_space q.task_id;
      workflow = trim_space q.workflow;
      agent_id = trim_space q.agent_id;
      prompt_version = trim_space q.prompt_version;
      model_policy = trim_space q.model_policy;
      status = "running";
      max_retries = q.max_retries;
      total_attempts = pos 0;
      success_attempts = pos 0;
      failed_attempts = pos 0;
      total_tokens_in = pos 0;
      total_tokens_out = pos 0;
      total_cost_usd = h.of_int (pos 0);
      duration_ms = pos 0;
      last_error = "";
      started_at = now;
      finished_at = "";
    }
    Store.insert_run h run
    pure run

  -- One round of the loop of `FinishRun` over the attempts.
  unfoldable pub tally : AgentRun F → PromptAttempt F → AgentRun F
  tally r a =
      let won = a.outcome == "success" in
      record r {
        total_attempts = r.total_attempts +₆₄ pos 1;
        total_tokens_in = r.total_tokens_in +₆₄ a.tokens_in;
        total_tokens_out = r.total_tokens_out +₆₄ a.tokens_out;
        total_cost_usd = h.add r.total_cost_usd a.cost_usd;
        success_attempts = if won then r.success_attempts +₆₄ pos 1 else r.success_attempts;
        failed_attempts = if won then r.failed_attempts else r.failed_attempts +₆₄ pos 1;
      }

  unfoldable pub tally_all : AgentRun F → List (PromptAttempt F) → AgentRun F
  unfolding tally
  tally_all r [] = r
  tally_all r (a ∷ attempts) = tally_all (tally r a) attempts

  -- The duration stays as it was if the start time cannot be read.
  unfoldable pub measure_duration : AgentRun F → Option ℤ → Act F (AgentRun F)
  measure_duration r none = pure r
  measure_duration r (some start) = do
    k ← use_host
    pure (record r { duration_ms = elapsed_ms start (h.clock k) })

  unfoldable pub finish_found : FinishRunRequest → String → Option (AgentRun F) → Act F (AgentRun F)
  unfolding time_now tally_all measure_duration
  finish_found q status none = fail (Fault.not_found "run not found")
  finish_found q status (some run) = do
    now ← time_now h
    let closed : AgentRun F = record run {
      status = status;
      finished_at = now;
      last_error = trim_space q.last_error;
    }
    timed ← measure_duration closed (h.parse_time run.started_at)
    attempts ← Store.list_prompt_attempts h (trim_space q.run_id)
    Store.update_run h (tally_all timed attempts)
    pure (tally_all timed attempts)

  unfoldable pub finish_run : FinishRunRequest → Act F (AgentRun F)
  unfolding finish_found find_by
  finish_run q = do
    reject_if (trim_space q.run_id == "") (Fault.invalid_argument "run_id is required")
    let status = or_default (trim_space q.status) "completed"
    reject_if (not (contains valid_run_statuses status) || status == "running")
        (Fault.invalid_argument "status must be one of: completed, failed, cancelled")
    runs ← Store.list_runs h
    finish_found q status (find_by (λ (r : AgentRun F). r.id) (trim_space q.run_id) runs)

  -- Whether a run has the id.
  unfoldable pub run_exists : String → List (AgentRun F) → Bool
  run_exists id [] = false
  run_exists id (r ∷ runs) = r.id == id || run_exists id runs

  unfoldable pub record_run_event : RecordRunEventRequest → Act F RunEvent
  unfolding time_now new_id run_exists
  record_run_event q = do
    reject_if (trim_space q.run_id == "" || trim_space q.event_type == "")
        (Fault.invalid_argument "run_id and event_type are required")
    let level = or_default (trim_space q.level) "info"
    reject_if (not (contains valid_event_levels level))
        (Fault.invalid_argument "level must be one of: info, warn, error")
    runs ← Store.list_runs h
    reject_if (not (run_exists (trim_space q.run_id) runs)) (Fault.not_found "run not found")
    id ← new_id h "evt"
    now ← time_now h
    let event : RunEvent = record {
      id = id;
      run_id = trim_space q.run_id;
      event_type = trim_space q.event_type;
      level = level;
      message = trim_space q.message;
      data_json = trim_space q.data_json;
      created_at = now;
    }
    Store.insert_run_event h event
    pure event
