-- ===== src/Service/Reads.antt =====
-- The operations of the service that only read leave the store and the disk alone.
use modelo_man.Base.{String}
use modelo_man.Domain.{Host}
use modelo_man.Store.{Act}
use modelo_man.Store
use modelo_man.Store.Reads
use modelo_man.Store.Keys.{KeepsStore, store_rules, read-Keeps}
use modelo_man.Service.Requests.{
  ListRunsRequest, ListPromptAttemptsRequest, ListRunEventsRequest, LeaderboardRequest,
}
use modelo_man.Service.Health.{health}
use modelo_man.Service.Policy
use modelo_man.Service.Tasks
use modelo_man.Service.Listings
use modelo_man.Service.Summary.{summary, telemetry_summary}
use modelo_man.Service.Leaderboard.{leaderboard}

module _ (h : Host) where
  pub health-KeepsStore : (source : String) → KeepsStore (health h source)
  unfolding health
  health-KeepsStore source = search store_rules depth 20

  pub export_state-KeepsStore : KeepsStore (Store.export_state h)
  export_state-KeepsStore = read-Keeps _ _ (Reads.export_state-ReadsOnly h)

  pub get_policy-KeepsStore : KeepsStore (Store.get_policy h)
  get_policy-KeepsStore = read-Keeps _ _ (Reads.get_policy-ReadsOnly h)

  tasks-KeepsStore : KeepsStore (Store.list_tasks h)
  tasks-KeepsStore = read-Keeps _ _ (Reads.list_tasks-ReadsOnly h)

  notes-KeepsStore : KeepsStore (Store.list_notes h)
  notes-KeepsStore = read-Keeps _ _ (Reads.list_notes-ReadsOnly h)

  changelog-KeepsStore : KeepsStore (Store.list_changelog h)
  changelog-KeepsStore = read-Keeps _ _ (Reads.list_changelog-ReadsOnly h)

  benchmarks-KeepsStore : KeepsStore (Store.list_benchmarks h)
  benchmarks-KeepsStore = read-Keeps _ _ (Reads.list_benchmarks-ReadsOnly h)

  caps-KeepsStore : KeepsStore (Store.list_policy_caps h)
  caps-KeepsStore = read-Keeps _ _ (Reads.list_policy_caps-ReadsOnly h)

  runs-KeepsStore : KeepsStore (Store.list_runs h)
  runs-KeepsStore = read-Keeps _ _ (Reads.list_runs-ReadsOnly h)

  attempts-KeepsStore : (id : String) → KeepsStore (Store.list_prompt_attempts h id)
  attempts-KeepsStore id = read-Keeps _ _ (Reads.list_prompt_attempts-ReadsOnly h id)

  events-KeepsStore : (id : String) → KeepsStore (Store.list_run_events h id)
  events-KeepsStore id = read-Keeps _ _ (Reads.list_run_events-ReadsOnly h id)

  found_runs-KeepsStore : (f : _) → KeepsStore (Store.list_runs_filtered h f)
  found_runs-KeepsStore f = read-Keeps _ _ (Reads.list_runs_filtered-ReadsOnly h f)

  found_attempts-KeepsStore : (f : _) → KeepsStore (Store.list_prompt_attempts_filtered h f)
  found_attempts-KeepsStore f = read-Keeps _ _ (Reads.list_prompt_attempts_filtered-ReadsOnly h f)

  found_events-KeepsStore : (f : _) → KeepsStore (Store.list_run_events_filtered h f)
  found_events-KeepsStore f = read-Keeps _ _ (Reads.list_run_events_filtered-ReadsOnly h f)

  ruleset read_rules = (
    store_rules, tasks-KeepsStore, notes-KeepsStore, changelog-KeepsStore, benchmarks-KeepsStore,
    caps-KeepsStore, runs-KeepsStore, attempts-KeepsStore, events-KeepsStore, found_runs-KeepsStore,
    found_attempts-KeepsStore, found_events-KeepsStore,
  )

  pub list_tasks-KeepsStore : KeepsStore (Tasks.list_tasks h)
  unfolding Tasks.list_tasks
  list_tasks-KeepsStore = search read_rules depth 20

  pub list_notes-KeepsStore : KeepsStore (Tasks.list_notes h)
  unfolding Tasks.list_notes
  list_notes-KeepsStore = search read_rules depth 20

  pub list_changelog-KeepsStore : KeepsStore (Tasks.list_changelog h)
  unfolding Tasks.list_changelog
  list_changelog-KeepsStore = search read_rules depth 20

  pub list_benchmarks-KeepsStore : KeepsStore (Tasks.list_benchmarks h)
  unfolding Tasks.list_benchmarks
  list_benchmarks-KeepsStore = search read_rules depth 20

  pub list_policy_caps-KeepsStore : KeepsStore (Policy.list_policy_caps h)
  unfolding Policy.list_policy_caps
  list_policy_caps-KeepsStore = search read_rules depth 20

  pub list_runs-KeepsStore : (q : ListRunsRequest) → KeepsStore (Listings.list_runs h q)
  unfolding Listings.list_runs
  list_runs-KeepsStore q = search read_rules depth 20

  pub list_prompt_attempts-KeepsStore :
      (q : ListPromptAttemptsRequest) → KeepsStore (Listings.list_prompt_attempts h q)
  unfolding Listings.list_prompt_attempts
  list_prompt_attempts-KeepsStore q = search read_rules depth 20

  pub list_run_events-KeepsStore :
      (q : ListRunEventsRequest) → KeepsStore (Listings.list_run_events h q)
  unfolding Listings.list_run_events
  list_run_events-KeepsStore q = search read_rules depth 20

  pub summary-KeepsStore : KeepsStore (summary h)
  unfolding summary
  summary-KeepsStore = search read_rules depth 20

  pub telemetry_summary-KeepsStore : KeepsStore (telemetry_summary h)
  unfolding telemetry_summary
  telemetry_summary-KeepsStore = search read_rules depth 20

  pub leaderboard-KeepsStore : (q : LeaderboardRequest) → KeepsStore (leaderboard h q)
  unfolding leaderboard
  leaderboard-KeepsStore q = search read_rules depth 20
