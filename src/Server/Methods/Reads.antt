-- ===== src/Server/Methods/Reads.antt =====
-- The methods that read leave the store and the disk alone.
use modelo_man.Base.{String}
use modelo_man.Domain.{Host}
use modelo_man.Store.Keys.{KeepsStore, store_rules}
use modelo_man.Rpc.Types.{Fields}
use modelo_man.Service.Reads
use modelo_man.Server.Wire.{Wire}
use modelo_man.Server.Methods
use modelo_man.Server.Steps.{to_struct-Keeps, to_list-Keeps, decode_struct-Keeps}

module _ (h : Host) (wire : Wire h.F) where
  open h use {F}

  ruleset read_rules = (store_rules, to_struct-Keeps, to_list-Keeps, decode_struct-Keeps)

  pub get_health-KeepsStore : (source : String) → KeepsStore (Methods.get_health h wire source)
  unfolding Methods.get_health
  get_health-KeepsStore source = search (read_rules, Reads.health-KeepsStore) depth 20

  pub get_summary-KeepsStore : KeepsStore (Methods.get_summary h wire)
  unfolding Methods.get_summary
  get_summary-KeepsStore = search (read_rules, Reads.summary-KeepsStore) depth 20

  pub export_state-KeepsStore : KeepsStore (Methods.export_state h wire)
  unfolding Methods.export_state
  export_state-KeepsStore = search (read_rules, Reads.export_state-KeepsStore) depth 20

  pub list_tasks-KeepsStore : KeepsStore (Methods.list_tasks h wire)
  unfolding Methods.list_tasks
  list_tasks-KeepsStore = search (read_rules, Reads.list_tasks-KeepsStore) depth 20

  pub list_notes-KeepsStore : KeepsStore (Methods.list_notes h wire)
  unfolding Methods.list_notes
  list_notes-KeepsStore = search (read_rules, Reads.list_notes-KeepsStore) depth 20

  pub list_changelog-KeepsStore : KeepsStore (Methods.list_changelog h wire)
  unfolding Methods.list_changelog
  list_changelog-KeepsStore = search (read_rules, Reads.list_changelog-KeepsStore) depth 20

  pub list_benchmarks-KeepsStore : KeepsStore (Methods.list_benchmarks h wire)
  unfolding Methods.list_benchmarks
  list_benchmarks-KeepsStore = search (read_rules, Reads.list_benchmarks-KeepsStore) depth 20

  pub list_runs-KeepsStore : (request : Fields) → KeepsStore (Methods.list_runs h wire request)
  unfolding Methods.list_runs
  list_runs-KeepsStore request = search (read_rules, Reads.list_runs-KeepsStore) depth 20

  pub list_prompt_attempts-KeepsStore :
      (request : Fields) → KeepsStore (Methods.list_prompt_attempts h wire request)
  unfolding Methods.list_prompt_attempts
  list_prompt_attempts-KeepsStore request =
      search (read_rules, Reads.list_prompt_attempts-KeepsStore) depth 20

  pub list_run_events-KeepsStore :
      (request : Fields) → KeepsStore (Methods.list_run_events h wire request)
  unfolding Methods.list_run_events
  list_run_events-KeepsStore request =
      search (read_rules, Reads.list_run_events-KeepsStore) depth 20

  pub get_telemetry_summary-KeepsStore : KeepsStore (Methods.get_telemetry_summary h wire)
  unfolding Methods.get_telemetry_summary
  get_telemetry_summary-KeepsStore =
      search (read_rules, Reads.telemetry_summary-KeepsStore) depth 20

  pub get_policy-KeepsStore : KeepsStore (Methods.get_policy h wire)
  unfolding Methods.get_policy
  get_policy-KeepsStore = search (read_rules, Reads.get_policy-KeepsStore) depth 20

  pub get_leaderboard-KeepsStore :
      (request : Fields) → KeepsStore (Methods.get_leaderboard h wire request)
  unfolding Methods.get_leaderboard
  get_leaderboard-KeepsStore request = search (read_rules, Reads.leaderboard-KeepsStore) depth 20

  pub list_policy_caps-KeepsStore : KeepsStore (Methods.list_policy_caps h wire)
  unfolding Methods.list_policy_caps
  list_policy_caps-KeepsStore = search (read_rules, Reads.list_policy_caps-KeepsStore) depth 20
