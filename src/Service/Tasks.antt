-- ===== src/Service/Tasks.antt =====
-- The tasks, notes, changelog entries and benchmarks of hub_service.go.
pub mod Valid
use modelo_man.Base.{
  find_by, String, ℤ, pos, ltb_ℤ, Bool, not, ◌&&◌, ◌||◌, Option, none, some, List, ◌==◌, contains,
  text_lt, trim_space, sort_by, if◌then◌else◌,
}
use modelo_man.Domain.{Host, Task, Note, ChangelogEntry, Benchmark}
use modelo_man.Domain.Fault
use modelo_man.Store.{Act, ◌>>=◌, ◌>>◌, pure, fail, reject_if}
use modelo_man.Store
use modelo_man.Service.Requests.{
  CreateTaskRequest, UpdateTaskRequest, DeleteTaskRequest, CreateNoteRequest,
  AppendChangelogRequest, RecordBenchmarkRequest,
}
use modelo_man.Service.Common.{
  valid_task_statuses, valid_provider_types, valid_change_categories, or_default, normalize_tags,
  time_now, new_id,
}
use modelo_man.Service.Policy.{trimmed_or}

-- The order of the listings: the later text of the time first, then the later id.
abbrev pub newest_first : {A : Type 0} → (A → String) → (A → String) → A → A → Bool
newest_first time id a b =
    if time a == time b then text_lt (id b) (id a) else text_lt (time b) (time a)

module _ (h : Host) where
  open h use {F}

  unfoldable pub check_status : String → Act F (Unit {0})
  check_status status =
      reject_if (not (contains valid_task_statuses status))
        (Fault.invalid_argument "status must be one of: todo, in_progress, done, blocked")

  unfoldable pub create_task : CreateTaskRequest → Act F Task
  create_task q = do
    reject_if (trim_space q.title == "") (Fault.invalid_argument "title is required")
    let status = or_default (trim_space q.status) "todo"
    check_status status
    id ← new_id h "task"
    created ← time_now h
    updated ← time_now h
    let task : Task = record {
      id = id;
      title = trim_space q.title;
      details = trim_space q.details;
      status = status;
      tags = normalize_tags h.to_lower q.tags;
      created_at = created;
      updated_at = updated;
    }
    Store.upsert_task h task
    pure task

  -- The changes of `UpdateTask` to the task that it found, with the old time.
  unfoldable pub revise_task : UpdateTaskRequest → Task → Act F Task
  revise_task q t = do
    if q.status == "" then pure tt else check_status (trim_space q.status)
    pure (record t {
      title = if trim_space q.title == "" then t.title else trim_space q.title;
      details = trimmed_or q.details t.details;
      status = trimmed_or q.status t.status;
      tags = elim q.tags [ none ↦ t.tags | some tags ↦ normalize_tags h.to_lower tags ];
    })

  unfoldable pub update_found : UpdateTaskRequest → Option Task → Act F Task
  update_found q none = fail (Fault.not_found "task not found")
  update_found q (some t) = do
    t' ← revise_task q t
    now ← time_now h
    Store.upsert_task h (record t' { updated_at = now })
    pure (record t' { updated_at = now })

  unfoldable pub update_task : UpdateTaskRequest → Act F Task
  update_task q = do
    reject_if (trim_space q.id == "") (Fault.invalid_argument "id is required")
    items ← Store.list_tasks h
    update_found q (find_by (λ (t : Task). t.id) (trim_space q.id) items)

  unfoldable pub delete_task : DeleteTaskRequest → Act F (Unit {0})
  delete_task q = do
    reject_if (trim_space q.id == "") (Fault.invalid_argument "id is required")
    deleted ← Store.delete_task h (trim_space q.id)
    reject_if (not deleted) (Fault.not_found "task not found")

  unfoldable pub list_tasks : Act F (List Task)
  list_tasks = do
    items ← Store.list_tasks h
    pure (sort_by (newest_first (λ (t : Task). t.updated_at) (λ (t : Task). t.id)) items)

  unfoldable pub create_note : CreateNoteRequest → Act F Note
  unfolding time_now new_id
  create_note q = do
    reject_if (trim_space q.title == "") (Fault.invalid_argument "title is required")
    id ← new_id h "note"
    now ← time_now h
    let note : Note = record {
      id = id;
      title = trim_space q.title;
      body = trim_space q.body;
      tags = normalize_tags h.to_lower q.tags;
      created_at = now;
    }
    Store.insert_note h note
    pure note

  unfoldable pub list_notes : Act F (List Note)
  list_notes = do
    items ← Store.list_notes h
    pure (sort_by (newest_first (λ (n : Note). n.created_at) (λ (n : Note). n.id)) items)

  unfoldable pub append_changelog : AppendChangelogRequest → Act F ChangelogEntry
  unfolding time_now new_id
  append_changelog q = do
    reject_if (trim_space q.summary == "") (Fault.invalid_argument "summary is required")
    let category = or_default (trim_space q.category) "ops"
    reject_if (not (contains valid_change_categories category))
        (Fault.invalid_argument "category must be one of: platform, policy, model, infra, ops")
    id ← new_id h "chg"
    now ← time_now h
    let entry : ChangelogEntry = record {
      id = id;
      category = category;
      summary = trim_space q.summary;
      details = trim_space q.details;
      actor = trim_space q.actor;
      created_at = now;
    }
    Store.insert_changelog h entry
    pure entry

  unfoldable pub list_changelog : Act F (List ChangelogEntry)
  list_changelog = do
    items ← Store.list_changelog h
    pure (
        sort_by (newest_first (λ (e : ChangelogEntry). e.created_at) (λ (e : ChangelogEntry). e.id))
          items)

  -- `x < 0` on the four measures of a benchmark or an attempt.
  abbrev pub has_negative : ℤ → ℤ → F → ℤ → Bool
  has_negative tokens_in tokens_out cost latency =
      ltb_ℤ tokens_in (pos 0)
      || ltb_ℤ tokens_out (pos 0)
      || h.lt cost (h.of_int (pos 0))
      || ltb_ℤ latency (pos 0)

  unfoldable pub record_benchmark : RecordBenchmarkRequest F → Act F (Benchmark F)
  unfolding time_now new_id
  record_benchmark q = do
    let workflow = trim_space q.workflow
    let provider_type = trim_space q.provider_type
    let model = trim_space q.model
    reject_if (workflow == "" || provider_type == "" || model == "")
        (Fault.invalid_argument "workflow, provider_type, and model are required")
    reject_if (not (contains valid_provider_types provider_type))
        (Fault.invalid_argument "provider_type must be one of: api, subscription, opensource")
    reject_if (has_negative q.tokens_in q.tokens_out q.cost_usd q.latency_ms)
        (Fault.invalid_argument "tokens, cost, and latency must be non-negative")
    id ← new_id h "bm"
    now ← time_now h
    let made : Benchmark F = record {
      id = id;
      workflow = workflow;
      provider_type = provider_type;
      provider = trim_space q.provider;
      model = model;
      tokens_in = q.tokens_in;
      tokens_out = q.tokens_out;
      cost_usd = q.cost_usd;
      latency_ms = q.latency_ms;
      quality_score = q.quality_score;
      notes = trim_space q.notes;
      created_at = now;
    }
    Store.insert_benchmark h made
    pure made

  unfoldable pub list_benchmarks : Act F (List (Benchmark F))
  list_benchmarks = do
    items ← Store.list_benchmarks h
    pure (
        sort_by (newest_first (λ (b : Benchmark F). b.created_at) (λ (b : Benchmark F). b.id))
          items)
