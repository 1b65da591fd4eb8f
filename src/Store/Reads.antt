-- ===== src/Store/Reads.antt =====
-- The reads of `FileStore` change nothing.
use modelo_man.Base.{String, ◌≡◌, refl}
use modelo_man.Domain.{Host, RunFilter, AttemptFilter, EventFilter}
use modelo_man.Store.Collections.{
  export_state, get_policy, list_policy_caps, list_tasks, list_notes, list_changelog,
  list_benchmarks, list_runs,
}
use modelo_man.Store.Queries.{
  list_runs_filtered, list_prompt_attempts_filtered, list_prompt_attempts, list_run_events_filtered,
  list_run_events, collect, run_matches, attempt_matches,
}
use modelo_man.Store.Effects.{World, ok}
use modelo_man.Store.File.{snapshot}
use modelo_man.Store.Steps.{ReadsOnly, reads_rules}

module _ (h : Host) where
  open h use {F}

  pub export_state-ReadsOnly : ReadsOnly (export_state h)
  unfolding export_state
  export_state-ReadsOnly = record { at = λ w. refl }

  pub get_policy-ReadsOnly : ReadsOnly (get_policy h)
  unfolding get_policy
  get_policy-ReadsOnly = record { at = λ w. refl }

  pub list_policy_caps-ReadsOnly : ReadsOnly (list_policy_caps h)
  unfolding list_policy_caps
  list_policy_caps-ReadsOnly = record { at = λ w. refl }

  pub list_tasks-ReadsOnly : ReadsOnly (list_tasks h)
  unfolding list_tasks
  list_tasks-ReadsOnly = record { at = λ w. refl }

  pub list_notes-ReadsOnly : ReadsOnly (list_notes h)
  unfolding list_notes
  list_notes-ReadsOnly = record { at = λ w. refl }

  pub list_changelog-ReadsOnly : ReadsOnly (list_changelog h)
  unfolding list_changelog
  list_changelog-ReadsOnly = record { at = λ w. refl }

  pub list_benchmarks-ReadsOnly : ReadsOnly (list_benchmarks h)
  unfolding list_benchmarks
  list_benchmarks-ReadsOnly = record { at = λ w. refl }

  pub list_runs-ReadsOnly : ReadsOnly (list_runs h)
  unfolding list_runs
  list_runs-ReadsOnly = record { at = λ w. refl }

  pub list_runs_filtered-ReadsOnly : (f : RunFilter) → ReadsOnly (list_runs_filtered h f)
  unfolding list_runs_filtered
  list_runs_filtered-ReadsOnly f = record { at = λ w. refl }

  pub list_prompt_attempts_filtered-ReadsOnly :
      (f : AttemptFilter) → ReadsOnly (list_prompt_attempts_filtered h f)
  unfolding list_prompt_attempts_filtered
  list_prompt_attempts_filtered-ReadsOnly f = record { at = λ w. refl }

  pub list_prompt_attempts-ReadsOnly : (f : String) → ReadsOnly (list_prompt_attempts h f)
  unfolding list_prompt_attempts
  list_prompt_attempts-ReadsOnly f = record { at = λ w. refl }

  pub list_run_events_filtered-ReadsOnly :
      (f : EventFilter) → ReadsOnly (list_run_events_filtered h f)
  unfolding list_run_events_filtered
  list_run_events_filtered-ReadsOnly f = record { at = λ w. refl }

  pub list_run_events-ReadsOnly : (f : String) → ReadsOnly (list_run_events h f)
  unfolding list_run_events
  list_run_events-ReadsOnly f = record { at = λ w. refl }

  pub get_policy_lem : (w : World F) → get_policy h w ≡ (ok (snapshot h w).policy, w)
  unfolding get_policy
  get_policy_lem w = refl

  pub list_policy_caps_lem :
      (w : World F) → list_policy_caps h w ≡ (ok (snapshot h w).policy_caps, w)
  unfolding list_policy_caps
  list_policy_caps_lem w = refl

  pub list_tasks_lem : (w : World F) → list_tasks h w ≡ (ok (snapshot h w).tasks, w)
  unfolding list_tasks
  list_tasks_lem w = refl

  pub list_runs_lem : (w : World F) → list_runs h w ≡ (ok (snapshot h w).runs, w)
  unfolding list_runs
  list_runs_lem w = refl

  pub list_runs_filtered_lem :
      (f : RunFilter) (w : World F)
      → list_runs_filtered h f w ≡ (ok (collect (run_matches f) f.limit 0 (snapshot h w).runs), w)
  unfolding list_runs_filtered
  list_runs_filtered_lem f w = refl

  pub list_prompt_attempts_filtered_lem :
      (f : AttemptFilter) (w : World F)
      → list_prompt_attempts_filtered h f w
        ≡ (ok (collect (attempt_matches f) f.limit 0 (snapshot h w).attempts), w)
  unfolding list_prompt_attempts_filtered
  list_prompt_attempts_filtered_lem f w = refl

-- The rules by which a block of reads only reads.
pub ruleset store_reads = (
  reads_rules, export_state-ReadsOnly, get_policy-ReadsOnly, list_policy_caps-ReadsOnly,
  list_tasks-ReadsOnly, list_notes-ReadsOnly, list_changelog-ReadsOnly, list_benchmarks-ReadsOnly,
  list_runs-ReadsOnly, list_runs_filtered-ReadsOnly, list_prompt_attempts_filtered-ReadsOnly,
  list_prompt_attempts-ReadsOnly, list_run_events_filtered-ReadsOnly, list_run_events-ReadsOnly,
)
