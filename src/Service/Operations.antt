-- ===== src/Service/Operations.antt =====
-- RecordPromptAttempt leaves the idempotency keys alone, step by step.
use modelo_man.Base.{String, Bool, Option, none, some, List, [], ◌∷◌}
use modelo_man.Domain.{Host, AgentRun, PromptAttempt, PolicyCap}
use modelo_man.Store
use modelo_man.Store.{Act, World}
use modelo_man.Store.Reads.{list_runs_filtered-ReadsOnly, list_prompt_attempts_filtered-ReadsOnly}
use modelo_man.Store.Keys.{KeepsKeys, keys_rules, read-Keeps, dropped-Keeps}
use modelo_man.Service.Requests.{RecordPromptAttemptRequest}
use modelo_man.Service.Keys.{time_now-KeepsKeys, new_id-KeepsKeys}
use modelo_man.Service.Writes.{
  get_policy-KeepsKeys, list_policy_caps-KeepsKeys, insert_run_event-KeepsKeys,
}
use modelo_man.Service.Limits.{EffectiveLimits}
use modelo_man.Service.Attempts.{
  insert_violation, log_dry_run, log_for, enforce, check_attempt, check_run, validate_attempt,
  require_running, insert_attempt,
}
use modelo_man.Service.Attempts

module _ (h : Host) where
  open h use {F}

  list_runs_filtered-KeepsKeys : (f : _) → KeepsKeys (Store.list_runs_filtered h f)
  list_runs_filtered-KeepsKeys f = read-Keeps _ _ (list_runs_filtered-ReadsOnly h f)

  list_prompt_attempts_filtered-KeepsKeys :
      (f : _) → KeepsKeys (Store.list_prompt_attempts_filtered h f)
  list_prompt_attempts_filtered-KeepsKeys f =
      read-Keeps _ _ (list_prompt_attempts_filtered-ReadsOnly h f)

  insert_prompt_attempt-KeepsKeys :
      (a : PromptAttempt F) → KeepsKeys (Store.insert_prompt_attempt h a)
  unfolding Store.insert_prompt_attempt
  insert_prompt_attempt-KeepsKeys a = search keys_rules

  ruleset attempt_rules = (
    keys_rules, time_now-KeepsKeys, new_id-KeepsKeys, get_policy-KeepsKeys,
    list_policy_caps-KeepsKeys, list_runs_filtered-KeepsKeys,
    list_prompt_attempts_filtered-KeepsKeys, insert_prompt_attempt-KeepsKeys,
    insert_run_event-KeepsKeys,
  )

  insert_violation-KeepsKeys :
      (id : String) (c : PolicyCap F) (m : String) → KeepsKeys (insert_violation h id c m)
  unfolding insert_violation
  insert_violation-KeepsKeys id c m = search attempt_rules depth 20

  log_dry_run-KeepsKeys :
      (id : String) (c : PolicyCap F) (m : String) → KeepsKeys (log_dry_run h id c m)
  unfolding log_dry_run
  log_dry_run-KeepsKeys id c m =
      dropped-Keeps _ tt (insert_violation h id c m) (insert_violation-KeepsKeys id c m)

  log_for-KeepsKeys :
      (id : String) (c : Option (PolicyCap F)) (m : String) → KeepsKeys (log_for h id c m)
  unfolding log_for
  log_for-KeepsKeys id none m = search keys_rules
  log_for-KeepsKeys id (some c) m = log_dry_run-KeepsKeys id c m

  enforce-KeepsKeys :
      (b : Bool) (p : PolicyCap F → Bool) (c : Option (PolicyCap F)) (id m m' : String)
      → KeepsKeys (enforce h b p c id m m')
  unfolding enforce
  enforce-KeepsKeys b p c id m m' = search (keys_rules, log_for-KeepsKeys)

  check_attempt-KeepsKeys :
      (q : RecordPromptAttemptRequest F) (id : String) (c : Option (PolicyCap F))
      (l : EffectiveLimits F)
      → KeepsKeys (check_attempt h q id c l)
  unfolding check_attempt
  check_attempt-KeepsKeys q id c l = search (keys_rules, enforce-KeepsKeys) depth 20

  check_run-KeepsKeys :
      (q : RecordPromptAttemptRequest F) (id : String) (c : Option (PolicyCap F))
      (l : EffectiveLimits F) (attempts : List (PromptAttempt F))
      → KeepsKeys (check_run h q id c l attempts)
  unfolding check_run
  check_run-KeepsKeys q id c l attempts = search (keys_rules, enforce-KeepsKeys) depth 20

  validate_attempt-KeepsKeys : (q : RecordPromptAttemptRequest F) → KeepsKeys (validate_attempt h q)
  unfolding validate_attempt
  validate_attempt-KeepsKeys q = search keys_rules depth 20

  require_running-KeepsKeys : (runs : List (AgentRun F)) → KeepsKeys (require_running h runs)
  unfolding require_running
  require_running-KeepsKeys [] = search keys_rules
  require_running-KeepsKeys (r ∷ runs) = search keys_rules

  insert_attempt-KeepsKeys : (q : RecordPromptAttemptRequest F) → KeepsKeys (insert_attempt h q)
  unfolding insert_attempt
  insert_attempt-KeepsKeys q = search attempt_rules depth 20

  pub record_prompt_attempt-KeepsKeys :
      (q : RecordPromptAttemptRequest F) → KeepsKeys (Attempts.record_prompt_attempt h q)
  unfolding Attempts.record_prompt_attempt
  record_prompt_attempt-KeepsKeys q =
      search
        (
          attempt_rules, check_attempt-KeepsKeys, check_run-KeepsKeys, validate_attempt-KeepsKeys,
          require_running-KeepsKeys, insert_attempt-KeepsKeys,
        )
        depth 20
