-- ===== src/Service/Attempts/Enforced.antt =====
-- What holds of an attempt that `RecordPromptAttempt` records.
use modelo_man.Base.{
  ◌≢◌, ap, eq_iff, ◌++◌, ◌∙◌, String, pos, ◌+₆₄◌, Bool, true, false, Option, none, some, List, [],
  ◌∷◌, ◌≡◌, refl, length, trim_space, arith,
}
use modelo_man.Domain.{AgentRun, AppError, Host, PolicyCap, PromptAttempt}
use modelo_man.Store.Inserts.{attempts-insert_prompt_attempt}
use modelo_man.Store.{
  run_matches, fail, ◌>>=◌, reject_if, World, ok, snapshot, get_policy, collect, attempt_matches,
  attempts_of,
}
use modelo_man.Store.Steps.{
  ReadsOnly, reject_if-ReadsOnly, pure-ReadsOnly, fail-ReadsOnly, bind-eq-ok, read-eq-ok,
  resume-pure-eq-ok, reads_rules,
}
use modelo_man.Store.Reads.{
  get_policy_lem, list_policy_caps_lem, list_runs_filtered_lem, list_prompt_attempts_filtered_lem,
}
use modelo_man.Service.Requests.{RecordPromptAttemptRequest}
use modelo_man.Service.Limits.{select_policy_cap, EffectiveLimits, resolve_effective_limits}
use modelo_man.Service.Attempts.{
  dry_by, one_run, enforce, exceeds, exceeds_float, total_cost, total_tokens, check_attempt,
  check_run, validate_attempt, require_running, attempt_provider_type, insert_attempt,
  record_prompt_attempt,
}

module _ (h : Host) where
  open h use {F}

  validate_attempt-ReadsOnly : (q : RecordPromptAttemptRequest F) → ReadsOnly (validate_attempt h q)
  unfolding validate_attempt
  validate_attempt-ReadsOnly q = search reads_rules

  require_running-ReadsOnly : (runs : List (AgentRun F)) → ReadsOnly (require_running h runs)
  unfolding require_running
  require_running-ReadsOnly [] = search reads_rules
  require_running-ReadsOnly (r ∷ runs) = search reads_rules

  reject_if-eq-ok :
      (b : Bool) (e : AppError) (w : World F) {u : Unit {0}}
      → (reject_if b e w).0 ≡ ok u
      → b ≡ false
  unfolding reject_if
  reject_if-eq-ok true e w p = cc
  reject_if-eq-ok false e w p = refl

  -- No dry run: no cap was selected, or one whose violations are not only logged.
  abbrev pub NotDry : Option (PolicyCap F) → Type 0
  NotDry none = Unit
  NotDry (some c) = c.dry_run ≡ false

  dry_by-NotDry :
      (test : PolicyCap F → Bool) (cap : Option (PolicyCap F))
      → NotDry cap
      → dry_by test cap ≡ false
  dry_by-NotDry test none k = refl
  dry_by-NotDry test (some c) k = ground arith

  module _ (q : RecordPromptAttemptRequest F) (limits : EffectiveLimits F) where
    -- The attempt alone is within the limits on an attempt.
    pub record AttemptWithin : Type 0 where
      pub latency : exceeds limits.max_latency_per_attempt_ms q.latency_ms ≡ false
      pub cost : exceeds_float h limits.max_cost_per_attempt_usd q.cost_usd ≡ false
      pub tokens : exceeds limits.max_tokens_per_attempt (q.tokens_in +₆₄ q.tokens_out) ≡ false

    -- The run with the attempt added is within the limits on a run.
    pub record RunWithin (existing : List (PromptAttempt F)) : Type 0 where
      pub attempts : exceeds limits.max_attempts_per_run (pos (length existing) +₆₄ pos 1) ≡ false
      pub cost :
          exceeds_float h limits.max_cost_per_run_usd
            (h.add (total_cost h (h.of_int (pos 0)) existing) q.cost_usd)
          ≡ false
      pub tokens :
          exceeds limits.max_tokens_per_run
            (total_tokens h (pos 0) existing +₆₄ (q.tokens_in +₆₄ q.tokens_out))
          ≡ false

  module _ (cap : Option (PolicyCap F)) (real : NotDry cap) (run_id : String) where
    enforce-ReadsOnly :
        (exceeded : Bool) (test : PolicyCap F → Bool) (l m : String)
        → ReadsOnly (enforce h exceeded test cap run_id l m)
    unfolding enforce
    enforce-ReadsOnly true test l m = rw (dry_by-NotDry test cap real) (fail-ReadsOnly _)
    enforce-ReadsOnly false test l m = pure-ReadsOnly tt

    enforce-eq-ok :
        (exceeded : Bool) (test : PolicyCap F → Bool) (l m : String) (w : World F) {u : Unit {0}}
        → (enforce h exceeded test cap run_id l m w).0 ≡ ok u
        → exceeded ≡ false
    unfolding enforce fail
    enforce-eq-ok true test l m w e = cc (rw (dry_by-NotDry test cap real) at e)
    enforce-eq-ok false test l m w e = refl

    module _ (q : RecordPromptAttemptRequest F) (limits : EffectiveLimits F) where
      check_attempt-ReadsOnly : ReadsOnly (check_attempt h q run_id cap limits)
      unfolding check_attempt
      check_attempt-ReadsOnly = search (reads_rules, enforce-ReadsOnly)

      check_attempt-eq-ok :
          (w : World F) {u : Unit {0}}
          → (check_attempt h q run_id cap limits w).0 ≡ ok u
          → AttemptWithin q limits
      unfolding check_attempt
      check_attempt-eq-ok w e =
          let (_, latency, e₁, _) = bind-eq-ok _ _ w (enforce-ReadsOnly _ _ _ _) e in
          let (_, cost, tokens, _) = bind-eq-ok _ _ w (enforce-ReadsOnly _ _ _ _) e₁ in
          record {
            latency = enforce-eq-ok _ _ _ _ w latency;
            cost = enforce-eq-ok _ _ _ _ w cost;
            tokens = enforce-eq-ok _ _ _ _ w tokens;
          }

      check_run-ReadsOnly :
          (existing : List (PromptAttempt F)) → ReadsOnly (check_run h q run_id cap limits existing)
      unfolding check_run
      check_run-ReadsOnly existing = search (reads_rules, enforce-ReadsOnly)

      check_run-eq-ok :
          (existing : List (PromptAttempt F)) (w : World F) {u : Unit {0}}
          → (check_run h q run_id cap limits existing w).0 ≡ ok u
          → RunWithin q limits existing
      unfolding check_run
      check_run-eq-ok existing w e =
          let (_, attempts, e₁, _) = bind-eq-ok _ _ w (enforce-ReadsOnly _ _ _ _) e in
          let (_, cost, tokens, _) = bind-eq-ok _ _ w (enforce-ReadsOnly _ _ _ _) e₁ in
          record {
            attempts = enforce-eq-ok _ _ _ _ w attempts;
            cost = enforce-eq-ok _ _ _ _ w cost;
            tokens = enforce-eq-ok _ _ _ _ w tokens;
          }

  abbrev pub cap_for : RecordPromptAttemptRequest F → World F → Option (PolicyCap F)
  cap_for q w =
      select_policy_cap (snapshot h w).policy_caps (attempt_provider_type h q)
        (trim_space q.provider) (trim_space q.model)

  abbrev pub limits_for : RecordPromptAttemptRequest F → World F → EffectiveLimits F
  limits_for q w = resolve_effective_limits h (snapshot h w).policy (cap_for q w)

  abbrev pub attempts_so_far : RecordPromptAttemptRequest F → World F → List (PromptAttempt F)
  attempts_so_far q w =
      collect (attempt_matches (attempts_of (trim_space q.run_id))) (pos 0) 0
        (snapshot h w).attempts

  abbrev pub runs_for : RecordPromptAttemptRequest F → World F → List (AgentRun F)
  runs_for q w = collect (run_matches (one_run (trim_space q.run_id))) (pos 1) 0 (snapshot h w).runs

  -- The first run is in the state "running".
  abbrev pub FirstIsRunning : List (AgentRun F) → Type 0
  FirstIsRunning [] = ⊥
  FirstIsRunning (r ∷ _) = r.status ≡ "running"

  require_running-eq-ok :
      (runs : List (AgentRun F)) (w : World F) {u : Unit {0}}
      → (require_running h runs w).0 ≡ ok u
      → FirstIsRunning runs
  unfolding require_running fail reject_if
  require_running-eq-ok [] w e = cc
  require_running-eq-ok (r ∷ runs) w e = ground (arith, eq_iff r.status "running")

  insert_attempt-eq-ok :
      (q : RecordPromptAttemptRequest F) (w : World F) {a : PromptAttempt F}
      → (insert_attempt h q w).0 ≡ ok a
      → (insert_attempt h q w).1.store.state.attempts ≡ (snapshot h w).attempts ++ a ∷ []
  unfolding insert_attempt ◌>>=◌ snapshot
  insert_attempt-eq-ok q w e =
      let (same, world) = resume-pure-eq-ok _ _ _ e in
      ap (λ (v : World F). v.store.state.attempts) world
      ∙ attempts-insert_prompt_attempt h _ _
      ∙ ap (λ (x : PromptAttempt F). (snapshot h w).attempts ++ x ∷ []) same

  -- What stands behind an attempt that was recorded: no kill switch, a first run with its id that is
  -- running, all six limits kept, and the attempt behind those that were there.
  pub record IsAdmitted (q : RecordPromptAttemptRequest F) (w : World F) (a : PromptAttempt F)
      : Type 0 where
    pub kill_switch : (snapshot h w).policy.kill_switch ≡ false
    pub running : FirstIsRunning (runs_for q w)
    pub attempt : AttemptWithin q (limits_for q w)
    pub run : RunWithin q (limits_for q w) (attempts_so_far q w)
    pub stored :
        (record_prompt_attempt h q w).1.store.state.attempts ≡ (snapshot h w).attempts ++ a ∷ []

  -- If the cap that is selected for the attempt is no dry run, or none is selected, then an attempt
  -- that is recorded met every check: the kill switch is off, the run is running, the latency, cost
  -- and tokens of the attempt and the number, cost and tokens of the run's attempts with it are within
  -- the limits in force, as the code adds them up; and it was put behind the stored attempts.
  pub record_prompt_attempt-IsAdmitted :
      (q : RecordPromptAttemptRequest F) (w : World F)
      → NotDry (cap_for q w)
      → (a : PromptAttempt F) → (record_prompt_attempt h q w).0 ≡ ok a
      → IsAdmitted q w a
  unfolding record_prompt_attempt
  record_prompt_attempt-IsAdmitted q w real a e =
      let (_, _, e₁, s₁) = bind-eq-ok _ _ w (validate_attempt-ReadsOnly q) e in
      let (e₂, s₂) = read-eq-ok _ _ w _ (get_policy_lem h w) e₁ in
      let (_, alive, e₃, s₃) = bind-eq-ok _ _ w (reject_if-ReadsOnly _ _) e₂ in
      let (e₄, s₄) = read-eq-ok _ _ w _ (list_policy_caps_lem h w) e₃ in
      let (e₅, s₅) = read-eq-ok _ _ w _ (list_runs_filtered_lem h _ w) e₄ in
      let (_, running, e₆, s₆) = bind-eq-ok _ _ w (require_running-ReadsOnly _) e₅ in
      let (_, attempt, e₇, s₇) = bind-eq-ok _ _ w (check_attempt-ReadsOnly _ real _ q _) e₆ in
      let (e₈, s₈) = read-eq-ok _ _ w _ (list_prompt_attempts_filtered_lem h _ w) e₇ in
      let (_, run, e₉, s₉) = bind-eq-ok _ _ w (check_run-ReadsOnly _ real _ q _ _) e₈ in
      let same = s₁ ∙ s₂ ∙ s₃ ∙ s₄ ∙ s₅ ∙ s₆ ∙ s₇ ∙ s₈ ∙ s₉ in
      record {
        kill_switch = reject_if-eq-ok _ _ w alive;
        running = require_running-eq-ok _ w running;
        attempt = check_attempt-eq-ok _ real _ q _ w attempt;
        run = check_run-eq-ok _ real _ q _ _ w run;
        stored = rw same (insert_attempt-eq-ok q w e₉);
      }

  -- While the kill switch is on, no request records an attempt, and none changes anything.
  pub record_prompt_attempt_killed :
      (q : RecordPromptAttemptRequest F) (w : World F)
      → (snapshot h w).policy.kill_switch ≡ true
      → ((a : PromptAttempt F) → (record_prompt_attempt h q w).0 ≢ ok a)
        × ((record_prompt_attempt h q w).1 ≡ w)
  unfolding record_prompt_attempt ◌>>=◌ get_policy
  record_prompt_attempt_killed q w on = ground (arith, (validate_attempt-ReadsOnly q).at w)
