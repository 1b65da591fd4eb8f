-- ===== src/Service/Keys.antt =====
-- The operations of the service leave the idempotency keys of the store alone.
use modelo_man.Base.{String, Option, none, some}
use modelo_man.Domain.{Host, Task, Note, ChangelogEntry, Benchmark}
use modelo_man.Store
use modelo_man.Store.{Act, World}
use modelo_man.Store.Reads.{list_tasks-ReadsOnly}
use modelo_man.Store.Keys.{KeepsKeys, keys_rules, read-Keeps}
use modelo_man.Service.Requests.{
  CreateTaskRequest, UpdateTaskRequest, DeleteTaskRequest, CreateNoteRequest,
  AppendChangelogRequest, RecordBenchmarkRequest,
}
use modelo_man.Service.Common.{time_now, new_id}
use modelo_man.Service.Tasks.{
  check_status, create_task, revise_task, update_found, update_task, delete_task, create_note,
  append_changelog, record_benchmark,
}

module _ (h : Host) where
  open h use {F}

  pub time_now-KeepsKeys : KeepsKeys (time_now h)
  unfolding time_now
  time_now-KeepsKeys = search keys_rules

  pub new_id-KeepsKeys : (prefix : String) → KeepsKeys (new_id h prefix)
  unfolding new_id
  new_id-KeepsKeys prefix = search keys_rules

  upsert_task-KeepsKeys : (t : Task) → KeepsKeys (Store.upsert_task h t)
  unfolding Store.upsert_task
  upsert_task-KeepsKeys t = search keys_rules

  delete_stored-KeepsKeys : (k : String) → KeepsKeys (Store.delete_task h k)
  unfolding Store.delete_task
  delete_stored-KeepsKeys k = search keys_rules

  list_stored-KeepsKeys : KeepsKeys (Store.list_tasks h)
  list_stored-KeepsKeys = read-Keeps _ _ (list_tasks-ReadsOnly h)

  ruleset task_rules = (
    keys_rules, time_now-KeepsKeys, new_id-KeepsKeys, upsert_task-KeepsKeys,
    delete_stored-KeepsKeys, list_stored-KeepsKeys,
  )

  check_status-KeepsKeys : (s : String) → KeepsKeys (check_status h s)
  unfolding check_status
  check_status-KeepsKeys s = search task_rules

  pub create_task-KeepsKeys : (q : CreateTaskRequest) → KeepsKeys (create_task h q)
  unfolding create_task
  create_task-KeepsKeys q = search (task_rules, check_status-KeepsKeys) depth 20

  revise_task-KeepsKeys : (q : UpdateTaskRequest) (t : Task) → KeepsKeys (revise_task h q t)
  unfolding revise_task
  revise_task-KeepsKeys q t = search (task_rules, check_status-KeepsKeys) depth 20

  update_found-KeepsKeys :
      (q : UpdateTaskRequest) (o : Option Task) → KeepsKeys (update_found h q o)
  unfolding update_found
  update_found-KeepsKeys q none = search task_rules depth 20
  update_found-KeepsKeys q (some t) = search (task_rules, revise_task-KeepsKeys) depth 20

  pub update_task-KeepsKeys : (q : UpdateTaskRequest) → KeepsKeys (update_task h q)
  unfolding update_task
  update_task-KeepsKeys q = search (task_rules, update_found-KeepsKeys) depth 20

  pub delete_task-KeepsKeys : (q : DeleteTaskRequest) → KeepsKeys (delete_task h q)
  unfolding delete_task
  delete_task-KeepsKeys q = search task_rules depth 20

  insert_note-KeepsKeys : (n : Note) → KeepsKeys (Store.insert_note h n)
  unfolding Store.insert_note
  insert_note-KeepsKeys n = search keys_rules

  pub create_note-KeepsKeys : (q : CreateNoteRequest) → KeepsKeys (create_note h q)
  unfolding create_note
  create_note-KeepsKeys q = search (keys_rules, insert_note-KeepsKeys) depth 20

  insert_changelog-KeepsKeys : (n : ChangelogEntry) → KeepsKeys (Store.insert_changelog h n)
  unfolding Store.insert_changelog
  insert_changelog-KeepsKeys n = search keys_rules

  pub append_changelog-KeepsKeys : (q : AppendChangelogRequest) → KeepsKeys (append_changelog h q)
  unfolding append_changelog
  append_changelog-KeepsKeys q = search (keys_rules, insert_changelog-KeepsKeys) depth 20

  insert_benchmark-KeepsKeys : (n : Benchmark F) → KeepsKeys (Store.insert_benchmark h n)
  unfolding Store.insert_benchmark
  insert_benchmark-KeepsKeys n = search keys_rules

  pub record_benchmark-KeepsKeys : (q : RecordBenchmarkRequest F) → KeepsKeys (record_benchmark h q)
  unfolding record_benchmark
  record_benchmark-KeepsKeys q = search (keys_rules, insert_benchmark-KeepsKeys) depth 20
