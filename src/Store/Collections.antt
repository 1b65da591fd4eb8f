-- ===== src/Store/Collections.antt =====
-- The operations of `FileStore` on its collections, and the policy.
use modelo_man.Base.{upsert_by, delete_by, String, Bool, List, [], ◌∷◌, ◌++◌}
use modelo_man.Domain.{
  Host, Task, Note, ChangelogEntry, Benchmark, AgentRun, PromptAttempt, RunEvent,
  OrchestrationPolicy, PolicyCap, State,
}
use modelo_man.Store.Effects.{ok, Act}
use modelo_man.Store.File.{mutate, snapshot}

module _ (h : Host) where
  open h use {F}

  abbrev change : (State F → State F) → Act F (Unit {0})
  change f = mutate h (λ s. ok (tt, f s))

  unfoldable pub export_state : Act F (State F)
  export_state w = (ok (snapshot h w), w)

  unfoldable pub get_policy : Act F (OrchestrationPolicy F)
  get_policy w = (ok (snapshot h w).policy, w)

  unfoldable pub set_policy : OrchestrationPolicy F → Act F (Unit {0})
  set_policy p = change (λ s. record s { policy = p })

  unfoldable pub list_policy_caps : Act F (List (PolicyCap F))
  list_policy_caps w = (ok (snapshot h w).policy_caps, w)

  unfoldable pub upsert_policy_cap : PolicyCap F → Act F (Unit {0})
  upsert_policy_cap c =
      change (λ s. record s { policy_caps = upsert_by (λ (x : PolicyCap F). x.id) c s.policy_caps })

  unfoldable pub delete_policy_cap : String → Act F Bool
  delete_policy_cap id = mutate h λ s.
      let (deleted, rest) = delete_by (λ (x : PolicyCap F). x.id) id s.policy_caps in
      ok (deleted, record s { policy_caps = rest })

  unfoldable pub list_tasks : Act F (List Task)
  list_tasks w = (ok (snapshot h w).tasks, w)

  unfoldable pub upsert_task : Task → Act F (Unit {0})
  upsert_task t = change (λ s. record s { tasks = upsert_by (λ (x : Task). x.id) t s.tasks })

  unfoldable pub delete_task : String → Act F Bool
  delete_task id = mutate h λ s.
      let (deleted, rest) = delete_by (λ (x : Task). x.id) id s.tasks in
      ok (deleted, record s { tasks = rest })

  unfoldable pub list_notes : Act F (List Note)
  list_notes w = (ok (snapshot h w).notes, w)

  unfoldable pub insert_note : Note → Act F (Unit {0})
  insert_note n = change (λ s. record s { notes = s.notes ++ n ∷ [] })

  unfoldable pub list_changelog : Act F (List ChangelogEntry)
  list_changelog w = (ok (snapshot h w).changelog, w)

  unfoldable pub insert_changelog : ChangelogEntry → Act F (Unit {0})
  insert_changelog e = change (λ s. record s { changelog = s.changelog ++ e ∷ [] })

  unfoldable pub list_benchmarks : Act F (List (Benchmark F))
  list_benchmarks w = (ok (snapshot h w).benchmarks, w)

  unfoldable pub insert_benchmark : Benchmark F → Act F (Unit {0})
  insert_benchmark b = change (λ s. record s { benchmarks = s.benchmarks ++ b ∷ [] })

  unfoldable pub list_runs : Act F (List (AgentRun F))
  list_runs w = (ok (snapshot h w).runs, w)

  unfoldable pub insert_run : AgentRun F → Act F (Unit {0})
  insert_run r = change (λ s. record s { runs = s.runs ++ r ∷ [] })

  unfoldable pub update_run : AgentRun F → Act F (Unit {0})
  update_run r = change (λ s. record s { runs = upsert_by (λ (x : AgentRun F). x.id) r s.runs })

  unfoldable pub insert_prompt_attempt : PromptAttempt F → Act F (Unit {0})
  insert_prompt_attempt a = change (λ s. record s { attempts = s.attempts ++ a ∷ [] })

  unfoldable pub insert_run_event : RunEvent → Act F (Unit {0})
  insert_run_event e = change (λ s. record s { run_events = s.run_events ++ e ∷ [] })
