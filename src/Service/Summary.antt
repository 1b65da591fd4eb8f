-- ===== src/Service/Summary.antt =====
-- `Summary` and `TelemetrySummary` of hub_service.go, with their types of internal/domain/types.go.
use modelo_man.Base.{
  ℕ, ◌+◌, String, ℤ, pos, ltb_ℤ, ◌+₆₄◌, none, some, List, [], ◌∷◌, ◌==◌, length, lookup, insert,
  if◌then◌else◌,
}
use modelo_man.Domain.{Host, Benchmark, AgentRun, PromptAttempt}
use modelo_man.Store.{Act, ◌>>=◌, pure}
use modelo_man.Store

-- The value of `ByProvider`.
pub record ProviderTotal (F : Type 0) : Type 0 where
  pub count : ℕ
  pub cost_usd : F

-- `Summary`, its two inner structures laid flat.
pub record HubSummary (F : Type 0) : Type 0 where
  pub tasks : ℕ
  pub notes : ℕ
  pub changelog : ℕ
  pub benchmarks : ℕ
  pub runs : ℕ
  pub attempts : ℕ
  pub run_events : ℕ
  pub tokens_in : ℤ
  pub tokens_out : ℤ
  pub cost_usd : F
  pub by_provider : List (String × ProviderTotal F)

-- `TelemetrySummary`, its three inner structures laid flat.
pub record TelemetryCounts (F : Type 0) : Type 0 where
  pub runs : ℤ
  pub running_runs : ℤ
  pub completed_runs : ℤ
  pub failed_runs : ℤ
  pub cancelled_runs : ℤ
  pub attempts : ℤ
  pub success_attempts : ℤ
  pub failed_attempts : ℤ
  pub retries : ℤ
  pub events : ℤ
  pub tokens_in : ℤ
  pub tokens_out : ℤ
  pub cost_usd : F
  pub latency_ms : ℤ
  pub average_latency_ms : F
  pub average_cost : F
  pub success_rate : F

module _ (h : Host) where
  open h use {F}

  abbrev zero_float : F
  zero_float = h.of_int (pos 0)

  -- An absent entry reads as the zero entry.
  abbrev pub total_of : String → List (String × ProviderTotal F) → ProviderTotal F
  total_of key m = elim (lookup key m) [
    | none ↦ record { count = 0; cost_usd = zero_float }
    | some t ↦ t
  ]

  -- One round of the loop over the benchmarks.
  unfoldable pub add_benchmark : HubSummary F → Benchmark F → HubSummary F
  unfolding lookup insert
  add_benchmark s b =
      let entry = total_of b.provider_type s.by_provider in
      record s {
        tokens_in = s.tokens_in +₆₄ b.tokens_in;
        tokens_out = s.tokens_out +₆₄ b.tokens_out;
        cost_usd = h.add s.cost_usd b.cost_usd;
        by_provider =
            insert b.provider_type
              (record { count = entry.count + 1; cost_usd = h.add entry.cost_usd b.cost_usd })
              s.by_provider;
      }

  unfoldable pub add_benchmarks : HubSummary F → List (Benchmark F) → HubSummary F
  unfolding add_benchmark
  add_benchmarks s [] = s
  add_benchmarks s (b ∷ bs) = add_benchmarks (add_benchmark s b) bs

  abbrev pub no_totals : List (String × ProviderTotal F)
  no_totals =
      ("api", record { count = 0; cost_usd = zero_float })
      ∷ ("subscription", record { count = 0; cost_usd = zero_float })
      ∷ ("opensource", record { count = 0; cost_usd = zero_float })
      ∷ []

  unfoldable pub summary : Act F (HubSummary F)
  unfolding add_benchmarks
  summary = do
    benchmarks ← Store.list_benchmarks h
    tasks ← Store.list_tasks h
    notes ← Store.list_notes h
    changelog ← Store.list_changelog h
    runs ← Store.list_runs h
    attempts ← Store.list_prompt_attempts h ""
    events ← Store.list_run_events h ""
    let start : HubSummary F = record {
      tasks = length tasks;
      notes = length notes;
      changelog = length changelog;
      benchmarks = length benchmarks;
      runs = length runs;
      attempts = length attempts;
      run_events = length events;
      tokens_in = pos 0;
      tokens_out = pos 0;
      cost_usd = zero_float;
      by_provider = no_totals;
    }
    pure (add_benchmarks start benchmarks)

  -- The switch on the status of a run.
  unfoldable pub count_run : TelemetryCounts F → AgentRun F → TelemetryCounts F
  count_run s r =
      if r.status == "running"
      then record s { running_runs = s.running_runs +₆₄ pos 1 }
      else if r.status == "completed"
      then record s { completed_runs = s.completed_runs +₆₄ pos 1 }
      else if r.status == "failed"
      then record s { failed_runs = s.failed_runs +₆₄ pos 1 }
      else if r.status == "cancelled"
      then record s { cancelled_runs = s.cancelled_runs +₆₄ pos 1 }
      else s

  unfoldable pub count_runs : TelemetryCounts F → List (AgentRun F) → TelemetryCounts F
  unfolding count_run
  count_runs s [] = s
  count_runs s (r ∷ rs) = count_runs (count_run s r) rs

  -- One round of the loop over the attempts.
  unfoldable pub count_attempt : TelemetryCounts F → PromptAttempt F → TelemetryCounts F
  count_attempt s a =
      let won = a.outcome == "success" in
      record s {
        attempts = s.attempts +₆₄ pos 1;
        tokens_in = s.tokens_in +₆₄ a.tokens_in;
        tokens_out = s.tokens_out +₆₄ a.tokens_out;
        cost_usd = h.add s.cost_usd a.cost_usd;
        latency_ms = s.latency_ms +₆₄ a.latency_ms;
        success_attempts = if won then s.success_attempts +₆₄ pos 1 else s.success_attempts;
        failed_attempts = if won then s.failed_attempts else s.failed_attempts +₆₄ pos 1;
        retries = if ltb_ℤ (pos 1) a.attempt_number then s.retries +₆₄ pos 1 else s.retries;
      }

  unfoldable pub count_attempts : TelemetryCounts F → List (PromptAttempt F) → TelemetryCounts F
  unfolding count_attempt
  count_attempts s [] = s
  count_attempts s (a ∷ attempts) = count_attempts (count_attempt s a) attempts

  -- The averages, where there is an attempt.
  unfoldable pub average : TelemetryCounts F → TelemetryCounts F
  average s =
      if ltb_ℤ (pos 0) s.attempts
      then record s {
        average_latency_ms = h.div (h.of_int s.latency_ms) (h.of_int s.attempts);
        average_cost = h.div s.cost_usd (h.of_int s.attempts);
        success_rate = h.div (h.of_int s.success_attempts) (h.of_int s.attempts);
      }
      else s

  abbrev pub no_counts : ℕ → ℕ → TelemetryCounts F
  no_counts runs events = record {
    runs = pos runs;
    running_runs = pos 0;
    completed_runs = pos 0;
    failed_runs = pos 0;
    cancelled_runs = pos 0;
    attempts = pos 0;
    success_attempts = pos 0;
    failed_attempts = pos 0;
    retries = pos 0;
    events = pos events;
    tokens_in = pos 0;
    tokens_out = pos 0;
    cost_usd = zero_float;
    latency_ms = pos 0;
    average_latency_ms = zero_float;
    average_cost = zero_float;
    success_rate = zero_float;
  }

  unfoldable pub telemetry_summary : Act F (TelemetryCounts F)
  unfolding count_runs count_attempts average
  telemetry_summary = do
    runs ← Store.list_runs h
    attempts ← Store.list_prompt_attempts h ""
    events ← Store.list_run_events h ""
    pure (
        average
          (count_attempts (count_runs (no_counts (length runs) (length events)) runs) attempts))
