-- ===== src/Service/Tasks/Valid.antt =====
-- The tasks stay well formed: no id stands twice, and each status is one of the four.
use modelo_man.Base.{
  String, Bool, true, not, Option, none, some, List, ◌≡◌, refl, ◌==◌, Bool-cases, inl, inr,
  contains, All, All-upsert_by, All-delete_by, All-find_by, HasUniqueKeys, upsert_by-HasUniqueKeys,
  delete_by-HasUniqueKeys, trim_space, ◌&&◌, subst, sym, if◌then◌else◌,
}
use modelo_man.Domain.{AppError, Host, State, Task}
use modelo_man.Store.{
  FileStore, World, encodable, with_defaults, Result, ok, err, clone_state, snapshot, upsert_task,
  list_tasks, pure, reject_if,
}
use modelo_man.Store
use modelo_man.Store.Inserts.{tasks-upsert_task, tasks-delete_task}
use modelo_man.Store.Contracts.{
  Post, Ensures, Anything, pure-Ensures, fail-Ensures, reject_if-Ensures, bind-Ensures,
}
use modelo_man.Service.Requests.{CreateTaskRequest, UpdateTaskRequest, DeleteTaskRequest}
use modelo_man.Service.Policy.{trimmed_or}
use modelo_man.Service.Common.{valid_task_statuses}
use modelo_man.Service.Common.Fresh.{time_now-Ensures, new_id-Ensures}
use modelo_man.Service.Tasks.{
  check_status, create_task, delete_task, revise_task, update_found, update_task,
}

abbrev pub task_id : Task → String
task_id t = t.id

abbrev pub HasValidStatus : Task → Type 0
HasValidStatus t = contains valid_task_statuses t.status ≡ true

-- The invariant of the list of tasks.
abbrev pub AreWellFormed : List Task → Type 0
AreWellFormed ts = HasUniqueKeys task_id ts × All HasValidStatus ts

module _ (h : Host) where
  open h use {F}

  abbrev pub KeepsTasks : FileStore F → Type 0
  KeepsTasks s = AreWellFormed s.state.tasks

  clone_state-AreWellFormed :
      (s : State F) → AreWellFormed s.tasks → AreWellFormed (clone_state h s).tasks
  unfolding clone_state with_defaults
  clone_state-AreWellFormed s a = elim (Bool-cases (encodable h s)) [
    | inl e ↦ elim (Bool-cases (s.policy.updated_at == "" && not s.policy.kill_switch)) [
      | inl d ↦ rw (e, d) a
      | inr d ↦ rw (e, d) a
    ]
    | inr e ↦ rw (e) (tt, tt)
  ]

  Post-Anything : {A : Type 0} (r : Result A) → Post Anything r
  Post-Anything (ok a) = tt
  Post-Anything (err e) = tt

  upsert_task-Ensures :
      (t : Task) → HasValidStatus t → Ensures KeepsTasks Anything (upsert_task h t)
  unfolding clone_state snapshot
  upsert_task-Ensures t v = record {
    at = λ w k.
        let (u, a) = clone_state-AreWellFormed w.store.state k in
        (
          subst AreWellFormed (sym (tasks-upsert_task h w t))
              (upsert_by-HasUniqueKeys task_id t _ u, All-upsert_by task_id HasValidStatus t _ v a),
          Post-Anything _,
        );
  }

  delete_stored-Ensures : (k : String) → Ensures KeepsTasks Anything (Store.delete_task h k)
  unfolding clone_state snapshot
  delete_stored-Ensures k = record {
    at = λ w a.
        let (u, v) = clone_state-AreWellFormed w.store.state a in
        (
          subst AreWellFormed (sym (tasks-delete_task h w k))
              (delete_by-HasUniqueKeys task_id k _ u, All-delete_by task_id HasValidStatus k _ v),
          Post-Anything _,
        );
  }

  list_stored-Ensures : Ensures KeepsTasks AreWellFormed (Store.list_tasks h)
  unfolding clone_state snapshot list_tasks
  list_stored-Ensures = record { at = λ w a. (a, clone_state-AreWellFormed w.store.state a) }

  check_status-Ensures :
      (status : String)
      → Ensures KeepsTasks (λ _. contains valid_task_statuses status ≡ true) (check_status h status)
  unfolding check_status reject_if
  check_status-Ensures status = record {
    at = λ w a. elim (Bool-cases (contains valid_task_statuses status)) [
      | inl e ↦ rw e (a, refl)
      | inr e ↦ rw e (a, tt)
    ];
  }

  check_deleted-Ensures : (b : Bool) (e : AppError) → Ensures KeepsTasks Anything (reject_if b e)
  check_deleted-Ensures b e = record {
    at = λ w a. (((reject_if-Ensures {Q = KeepsTasks} b e).at w a).0, Post-Anything _);
  }

  -- Creating a task keeps the invariant, and the task that it returns has one of the four statuses.
  pub create_task-Ensures :
      (q : CreateTaskRequest) → Ensures KeepsTasks HasValidStatus (create_task h q)
  unfolding create_task
  create_task-Ensures q = bind-Ensures _ _ (reject_if-Ensures _ _) (λ _ _.
      bind-Ensures _ _ (check_status-Ensures _) (λ _ v.
        bind-Ensures _ _ (new_id-Ensures h _) (λ id _.
          bind-Ensures _ _ (time_now-Ensures h) (λ created _.
            bind-Ensures _ _ (time_now-Ensures h) (λ updated _.
              bind-Ensures _ _ (upsert_task-Ensures _ v) (λ _ _. pure-Ensures _ v))))))

  check_given-Ensures :
      (status old : String)
      → contains valid_task_statuses old ≡ true
      → Ensures KeepsTasks
          (λ _. contains valid_task_statuses (trimmed_or status old) ≡ true)
          (if status == "" then pure tt else check_status h (trim_space status))
  check_given-Ensures status old v = elim (Bool-cases (status == "")) [
    | inl e ↦ rw e (pure-Ensures tt v)
    | inr e ↦ rw e (check_status-Ensures (trim_space status))
  ]

  revise_task-Ensures :
      (q : UpdateTaskRequest) (t : Task)
      → HasValidStatus t
      → Ensures KeepsTasks HasValidStatus (revise_task h q t)
  unfolding revise_task
  revise_task-Ensures q t v =
      bind-Ensures _ _ (check_given-Ensures q.status t.status v) (λ _ c. pure-Ensures _ c)

  update_found-Ensures :
      (q : UpdateTaskRequest) (o : Option Task)
      → ((t : Task) → o ≡ some t → HasValidStatus t)
      → Ensures KeepsTasks HasValidStatus (update_found h q o)
  unfolding update_found
  update_found-Ensures q none v = fail-Ensures _
  update_found-Ensures q (some t) v = bind-Ensures _ _ (revise_task-Ensures q t (v t refl)) (λ t' c.
      bind-Ensures _ _ (time_now-Ensures h)
        (λ now _. bind-Ensures _ _ (upsert_task-Ensures _ c) (λ _ _. pure-Ensures _ c)))

  -- Updating a task keeps the invariant, and the task that it returns has one of the four statuses.
  pub update_task-Ensures :
      (q : UpdateTaskRequest) → Ensures KeepsTasks HasValidStatus (update_task h q)
  unfolding update_task
  update_task-Ensures q = bind-Ensures _ _ (reject_if-Ensures _ _) (λ _ _.
      bind-Ensures _ _ list_stored-Ensures (λ items a.
        update_found-Ensures q _
          (λ t e. All-find_by task_id HasValidStatus (trim_space q.id) items t a.1 e)))

  -- Deleting a task keeps the invariant.
  pub delete_task-Ensures : (q : DeleteTaskRequest) → Ensures KeepsTasks Anything (delete_task h q)
  unfolding delete_task
  delete_task-Ensures q =
      bind-Ensures _ _ (reject_if-Ensures _ _)
        (λ _ _. bind-Ensures _ _ (delete_stored-Ensures _) (λ _ _. check_deleted-Ensures _ _))

  -- A request on the tasks.
  pub data TaskRequest : Type 0 where
    create : CreateTaskRequest → TaskRequest
    update : UpdateTaskRequest → TaskRequest
    delete : DeleteTaskRequest → TaskRequest

  -- The world after a request, whether it succeeds or not.
  abbrev pub after : TaskRequest → World F → World F
  after (create q) w = (create_task h q w).1
  after (update q) w = (update_task h q w).1
  after (delete q) w = (delete_task h q w).1

  -- The worlds that a sequence of requests reaches.
  pub data Reached (w : World F) : World F → Type 0 where
    at_start : Reached w w
    then_request : {u : World F} → Reached w u → (q : TaskRequest) → Reached w (after q u)

  after-AreWellFormed :
      (q : TaskRequest) (w : World F) → KeepsTasks w.store → KeepsTasks (after q w).store
  after-AreWellFormed (create q) w a = ((create_task-Ensures q).at w a).0
  after-AreWellFormed (update q) w a = ((update_task-Ensures q).at w a).0
  after-AreWellFormed (delete q) w a = ((delete_task-Ensures q).at w a).0

  -- From a store whose tasks have unique ids and valid statuses, every sequence of creations, updates
  -- and deletions, the refused and the unsaved ones among them, reaches only such stores.
  pub Reached-AreWellFormed :
      (w v : World F)
      → AreWellFormed w.store.state.tasks
      → Reached w v
      → AreWellFormed v.store.state.tasks
  Reached-AreWellFormed w v a at_start = a
  Reached-AreWellFormed w v a (then_request {u} r q) =
      after-AreWellFormed q u (Reached-AreWellFormed w u a r)
