-- ===== src/Store/Inserts.antt =====
-- What the writes of `FileStore` make of the collections in memory, saved or not.
use modelo_man.Base.{String, [], ◌∷◌, ◌++◌, ◌≡◌, refl, upsert_by, delete_by, arith}
use modelo_man.Domain.{Host, State, Task, AgentRun, PromptAttempt, PolicyCap}
use modelo_man.Store.Effects.{World, Result, ok}
use modelo_man.Store.File.{with_defaults, clone_state, snapshot, mutate}
use modelo_man.Store.Collections.{
  upsert_task, delete_task, insert_run, update_run, insert_prompt_attempt, upsert_policy_cap,
}
use modelo_man.Store.Persistence.{state-mutate}

module _ (h : Host) where
  open h use {F}

  module _ {A : Type 0} (change : State F → Result (A × State F)) (w : World F) (a : A)
      (next : State F) (accepted : change (clone_state h w.store.state) ≡ ok (a, next)) where
    tasks-mutate : (mutate h change w).1.store.state.tasks ≡ next.tasks
    unfolding with_defaults
    tasks-mutate = let e = state-mutate h change w a next accepted in ground arith

    runs-mutate : (mutate h change w).1.store.state.runs ≡ next.runs
    unfolding with_defaults
    runs-mutate = let e = state-mutate h change w a next accepted in ground arith

    attempts-mutate : (mutate h change w).1.store.state.attempts ≡ next.attempts
    unfolding with_defaults
    attempts-mutate = let e = state-mutate h change w a next accepted in ground arith

    policy_caps-mutate : (mutate h change w).1.store.state.policy_caps ≡ next.policy_caps
    unfolding with_defaults
    policy_caps-mutate = let e = state-mutate h change w a next accepted in ground arith

  module _ (w : World F) where
    pub attempts-insert_prompt_attempt :
        (a : PromptAttempt F)
        → (insert_prompt_attempt h a w).1.store.state.attempts ≡ (snapshot h w).attempts ++ a ∷ []
    unfolding insert_prompt_attempt snapshot
    attempts-insert_prompt_attempt a = attempts-mutate _ w tt _ refl

    pub runs-insert_run :
        (r : AgentRun F) → (insert_run h r w).1.store.state.runs ≡ (snapshot h w).runs ++ r ∷ []
    unfolding insert_run snapshot
    runs-insert_run r = runs-mutate _ w tt _ refl

    pub runs-update_run :
        (r : AgentRun F)
        → (update_run h r w).1.store.state.runs
          ≡ upsert_by (λ (x : AgentRun F). x.id) r (snapshot h w).runs
    unfolding update_run snapshot
    runs-update_run r = runs-mutate _ w tt _ refl

    pub tasks-upsert_task :
        (t : Task)
        → (upsert_task h t w).1.store.state.tasks
          ≡ upsert_by (λ (x : Task). x.id) t (snapshot h w).tasks
    unfolding upsert_task snapshot
    tasks-upsert_task t = tasks-mutate _ w tt _ refl

    pub tasks-delete_task :
        (id : String)
        → (delete_task h id w).1.store.state.tasks
          ≡ (delete_by (λ (x : Task). x.id) id (snapshot h w).tasks).1
    unfolding delete_task snapshot
    tasks-delete_task id = tasks-mutate _ w _ _ refl

    pub policy_caps-upsert_policy_cap :
        (c : PolicyCap F)
        → (upsert_policy_cap h c w).1.store.state.policy_caps
          ≡ upsert_by (λ (x : PolicyCap F). x.id) c (snapshot h w).policy_caps
    unfolding upsert_policy_cap snapshot
    policy_caps-upsert_policy_cap c = policy_caps-mutate _ w tt _ refl
