-- ===== src/Service/Attempts.antt =====
-- `RecordPromptAttempt` of hub_service.go, with `logPolicyCapDryRunViolation`.
pub mod Enforced
use modelo_man.Base.{
  String, ℤ, pos, ltb_ℤ, ◌+₆₄◌, Bool, true, false, not, ◌&&◌, ◌||◌, Option, none, some, List, [],
  ◌∷◌, ◌==◌, ◌<>◌, length, contains, trim_space, if◌then◌else◌,
}
use modelo_man.Domain.{
  Host, Scalar, text, number, flag, AgentRun, PromptAttempt, RunEvent, PolicyCap, RunFilter,
}
use modelo_man.Domain.Fault
use modelo_man.Store.{Act, ◌>>=◌, ◌>>◌, pure, fail, reject_if, attempts_of}
use modelo_man.Store
use modelo_man.Service.Requests.{RecordPromptAttemptRequest}
use modelo_man.Service.Common.{valid_attempt_outcomes, or_default, time_now, new_id}
use modelo_man.Service.Tasks.{has_negative}
use modelo_man.Service.Runs.{kill_reason}
use modelo_man.Service.Limits.{
  select_policy_cap, EffectiveLimits, is_set, is_set_float, resolve_effective_limits,
}

-- `hasCap && selectedCap.DryRun && test`, with the test of `capOverrides…`.
abbrev pub dry_by : {F : Type 0} → (PolicyCap F → Bool) → Option (PolicyCap F) → Bool
dry_by test none = false
dry_by test (some c) = test c && c.dry_run

-- The filter of the one run that an attempt belongs to.
abbrev pub one_run : String → RunFilter
one_run id = record {
  run_id = id;
  task_id = "";
  workflow = "";
  agent_id = "";
  status = "";
  prompt_version = "";
  started_after = "";
  started_before = "";
  limit = pos 1;
}

-- `limit > 0 && value > limit`.
abbrev pub exceeds : ℤ → ℤ → Bool
exceeds limit value = is_set limit && ltb_ℤ limit value

module _ (h : Host) where
  open h use {F}

  -- The event that tells of a limit of a dry run that is exceeded.
  unfoldable pub insert_violation : String → PolicyCap F → String → Act F (Unit {0})
  unfolding time_now new_id
  insert_violation run_id c message = do
    let payload : List (String × Scalar) =
        ("cap_id", text c.id)
        ∷ ("cap_name", text c.name)
        ∷ ("provider_type", text c.provider_type)
        ∷ ("provider", text c.provider)
        ∷ ("model", text c.model)
        ∷ ("priority", number c.priority)
        ∷ ("dry_run", flag c.dry_run)
        ∷ []
    id ← new_id h "evt"
    now ← time_now h
    let event : RunEvent = record {
      id = id;
      run_id = run_id;
      event_type = "policy_cap_violation_dry_run";
      level = "warn";
      message = message;
      data_json = h.json_object payload;
      created_at = now;
    }
    Store.insert_run_event h event

  -- `logPolicyCapDryRunViolation`; the error of the store is dropped.
  unfoldable pub log_dry_run : String → PolicyCap F → String → Act F (Unit {0})
  unfolding insert_violation
  log_dry_run run_id c message w = (Store.ok tt, (insert_violation run_id c message w).1)

  unfoldable pub log_for : String → Option (PolicyCap F) → String → Act F (Unit {0})
  unfolding log_dry_run
  log_for run_id none message = pure tt
  log_for run_id (some c) message = log_dry_run run_id c message

  -- One of the limits: where it is exceeded, a dry run logs the fact and the attempt goes on.
  unfoldable pub enforce :
      Bool
      → (PolicyCap F → Bool)
      → Option (PolicyCap F)
      → String
      → String
      → String
      → Act F (Unit {0})
  unfolding log_for
  enforce exceeded overrides cap run_id logged message =
      if exceeded
      then if dry_by overrides cap
        then log_for run_id cap logged
        else fail (Fault.resource_exhausted message)
      else pure tt

  unfoldable pub total_cost : F → List (PromptAttempt F) → F
  total_cost sum [] = sum
  total_cost sum (a ∷ attempts) = total_cost (h.add sum a.cost_usd) attempts

  unfoldable pub total_tokens : ℤ → List (PromptAttempt F) → ℤ
  total_tokens sum [] = sum
  total_tokens sum (a ∷ attempts) = total_tokens (sum +₆₄ (a.tokens_in +₆₄ a.tokens_out)) attempts

  -- The same on `float64`.
  abbrev pub exceeds_float : F → F → Bool
  exceeds_float limit value = is_set_float h limit && h.lt limit value

  -- The three limits on the attempt alone.
  unfoldable pub check_attempt :
      RecordPromptAttemptRequest F
      → String
      → Option (PolicyCap F)
      → EffectiveLimits F
      → Act F (Unit {0})
  check_attempt q run_id cap limits = do
    enforce (exceeds limits.max_latency_per_attempt_ms q.latency_ms)
        (λ c. is_set c.max_latency_per_attempt_ms) cap run_id "attempt latency exceeds cap limit"
        ("attempt latency exceeds policy cap (" <> limits.source <> ")")
    enforce (exceeds_float limits.max_cost_per_attempt_usd q.cost_usd) (λ c. true) cap run_id
        "attempt cost exceeds cap limit"
        ("attempt cost exceeds policy cap (" <> limits.source <> ")")
    enforce (exceeds limits.max_tokens_per_attempt (q.tokens_in +₆₄ q.tokens_out)) (λ c. true) cap
        run_id "attempt tokens exceed cap limit"
        ("attempt tokens exceed policy cap (" <> limits.source <> ")")

  -- The three limits on the run with the attempt added. The sums are made only if they are needed,
  -- which does not show.
  unfoldable pub check_run :
      RecordPromptAttemptRequest F
      → String
      → Option (PolicyCap F)
      → EffectiveLimits F
      → List (PromptAttempt F)
      → Act F (Unit {0})
  check_run q run_id cap limits existing = do
    enforce (exceeds limits.max_attempts_per_run (pos (length existing) +₆₄ pos 1))
        (λ c. is_set c.max_attempts_per_run) cap run_id "run exceeds max attempts cap"
        ("run exceeds max attempts cap (" <> limits.source <> ")")
    enforce
        (exceeds_float limits.max_cost_per_run_usd
          (h.add (total_cost (h.of_int (pos 0)) existing) q.cost_usd))
        (λ c. is_set_float h c.max_cost_per_run_usd) cap run_id "run exceeds max cost cap"
        ("run exceeds max cost cap (" <> limits.source <> ")")
    enforce
        (exceeds limits.max_tokens_per_run
          (total_tokens (pos 0) existing +₆₄ (q.tokens_in +₆₄ q.tokens_out)))
        (λ c. is_set c.max_tokens_per_run) cap run_id "run exceeds max tokens cap"
        ("run exceeds max tokens cap (" <> limits.source <> ")")

  -- The checks on the request alone.
  unfoldable pub validate_attempt : RecordPromptAttemptRequest F → Act F (Unit {0})
  validate_attempt q = do
    reject_if (trim_space q.run_id == "" || trim_space q.outcome == "" || trim_space q.model == "")
        (Fault.invalid_argument "run_id, outcome, and model are required")
    reject_if (not (ltb_ℤ (pos 0) q.attempt_number))
        (Fault.invalid_argument "attempt_number must be greater than 0")
    reject_if (not (contains valid_attempt_outcomes (trim_space q.outcome))) (
        Fault.invalid_argument
          "outcome must be one of: success, failed, timeout, retryable_error, tool_error")
    reject_if (has_negative h q.tokens_in q.tokens_out q.cost_usd q.latency_ms)
        (Fault.invalid_argument "tokens, cost, and latency must be non-negative")

  unfoldable pub require_running : List (AgentRun F) → Act F (Unit {0})
  require_running [] = fail (Fault.not_found "run not found")
  require_running (r ∷ _) =
      reject_if (not (r.status == "running"))
        (Fault.failed_precondition "run is not in running state")

  abbrev pub attempt_provider_type : RecordPromptAttemptRequest F → String
  attempt_provider_type q = or_default (trim_space q.provider_type) "api"

  unfoldable pub insert_attempt : RecordPromptAttemptRequest F → Act F (PromptAttempt F)
  unfolding time_now new_id
  insert_attempt q = do
    id ← new_id h "pat"
    now ← time_now h
    let attempt : PromptAttempt F = record {
      id = id;
      run_id = trim_space q.run_id;
      attempt_number = q.attempt_number;
      workflow = trim_space q.workflow;
      agent_id = trim_space q.agent_id;
      provider_type = attempt_provider_type q;
      provider = trim_space q.provider;
      model = trim_space q.model;
      prompt_version = trim_space q.prompt_version;
      prompt_hash = trim_space q.prompt_hash;
      outcome = trim_space q.outcome;
      error_type = trim_space q.error_type;
      error_message = trim_space q.error_message;
      tokens_in = q.tokens_in;
      tokens_out = q.tokens_out;
      cost_usd = q.cost_usd;
      latency_ms = q.latency_ms;
      quality_score = q.quality_score;
      created_at = now;
    }
    Store.insert_prompt_attempt h attempt
    pure attempt

  unfoldable pub record_prompt_attempt : RecordPromptAttemptRequest F → Act F (PromptAttempt F)
  record_prompt_attempt q = do
    validate_attempt q
    policy ← Store.get_policy h
    reject_if policy.kill_switch (Fault.failed_precondition (kill_reason policy))
    caps ← Store.list_policy_caps h
    let cap =
        select_policy_cap caps (attempt_provider_type q) (trim_space q.provider)
          (trim_space q.model)
    let limits = resolve_effective_limits h policy cap
    runs ← Store.list_runs_filtered h (one_run (trim_space q.run_id))
    require_running runs
    check_attempt q (trim_space q.run_id) cap limits
    existing ← Store.list_prompt_attempts_filtered h (attempts_of (trim_space q.run_id))
    check_run q (trim_space q.run_id) cap limits existing
    insert_attempt q
