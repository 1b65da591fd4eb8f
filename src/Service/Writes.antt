-- ===== src/Service/Writes.antt =====
-- The write operations of the service and the idempotency keys of the store.
use modelo_man.Base.{ℤ, String, Option, none, some}
use modelo_man.Domain.{Host, AgentRun, RunEvent, PolicyCap, OrchestrationPolicy}
use modelo_man.Store
use modelo_man.Store.{Act, World}
use modelo_man.Store.Reads.{
  list_runs-ReadsOnly, list_prompt_attempts-ReadsOnly, get_policy-ReadsOnly,
  list_policy_caps-ReadsOnly,
}
use modelo_man.Store.Keys.{KeepsKeys, keys_rules, read-Keeps}
use modelo_man.Service.Requests.{
  StartRunRequest, FinishRunRequest, RecordRunEventRequest, SetPolicyRequest,
  UpsertPolicyCapRequest, DeletePolicyCapRequest,
}
use modelo_man.Service.Keys.{time_now-KeepsKeys, new_id-KeepsKeys}
use modelo_man.Service.Runs.{
  start_run, finish_run, record_run_event, measure_duration, finish_found,
}
use modelo_man.Service.Policy.{
  limit_int, limit_float, revise_policy, set_policy, revise_cap, id_or_new, upsert_policy_cap,
  delete_policy_cap,
}

module _ (h : Host) where
  open h use {F}

  pub get_policy-KeepsKeys : KeepsKeys (Store.get_policy h)
  get_policy-KeepsKeys = read-Keeps _ _ (get_policy-ReadsOnly h)

  pub list_policy_caps-KeepsKeys : KeepsKeys (Store.list_policy_caps h)
  list_policy_caps-KeepsKeys = read-Keeps _ _ (list_policy_caps-ReadsOnly h)

  list_runs-KeepsKeys : KeepsKeys (Store.list_runs h)
  list_runs-KeepsKeys = read-Keeps _ _ (list_runs-ReadsOnly h)

  list_prompt_attempts-KeepsKeys : (id : String) → KeepsKeys (Store.list_prompt_attempts h id)
  list_prompt_attempts-KeepsKeys id = read-Keeps _ _ (list_prompt_attempts-ReadsOnly h id)

  insert_run-KeepsKeys : (r : AgentRun F) → KeepsKeys (Store.insert_run h r)
  unfolding Store.insert_run
  insert_run-KeepsKeys r = search keys_rules

  update_run-KeepsKeys : (r : AgentRun F) → KeepsKeys (Store.update_run h r)
  unfolding Store.update_run
  update_run-KeepsKeys r = search keys_rules

  pub insert_run_event-KeepsKeys : (e : RunEvent) → KeepsKeys (Store.insert_run_event h e)
  unfolding Store.insert_run_event
  insert_run_event-KeepsKeys e = search keys_rules

  store_policy-KeepsKeys : (p : OrchestrationPolicy F) → KeepsKeys (Store.set_policy h p)
  unfolding Store.set_policy
  store_policy-KeepsKeys p = search keys_rules

  store_cap-KeepsKeys : (c : PolicyCap F) → KeepsKeys (Store.upsert_policy_cap h c)
  unfolding Store.upsert_policy_cap
  store_cap-KeepsKeys c = search keys_rules

  delete_cap-KeepsKeys : (k : String) → KeepsKeys (Store.delete_policy_cap h k)
  unfolding Store.delete_policy_cap
  delete_cap-KeepsKeys k = search keys_rules

  ruleset write_rules = (
    keys_rules, time_now-KeepsKeys, new_id-KeepsKeys, get_policy-KeepsKeys,
    list_policy_caps-KeepsKeys, list_runs-KeepsKeys, list_prompt_attempts-KeepsKeys,
    insert_run-KeepsKeys, update_run-KeepsKeys, insert_run_event-KeepsKeys, store_policy-KeepsKeys,
    store_cap-KeepsKeys, delete_cap-KeepsKeys,
  )

  pub start_run-KeepsKeys : (q : StartRunRequest) → KeepsKeys (start_run h q)
  unfolding start_run
  start_run-KeepsKeys q = search write_rules depth 20

  pub record_run_event-KeepsKeys : (q : RecordRunEventRequest) → KeepsKeys (record_run_event h q)
  unfolding record_run_event
  record_run_event-KeepsKeys q = search write_rules depth 20

  pub delete_policy_cap-KeepsKeys : (q : DeletePolicyCapRequest) → KeepsKeys (delete_policy_cap h q)
  unfolding delete_policy_cap
  delete_policy_cap-KeepsKeys q = search write_rules depth 20

  measure_duration-KeepsKeys :
      (r : AgentRun F) (start : Option ℤ) → KeepsKeys (measure_duration h r start)
  unfolding measure_duration
  measure_duration-KeepsKeys r none = search write_rules depth 20
  measure_duration-KeepsKeys r (some start) = search write_rules depth 20

  finish_found-KeepsKeys :
      (q : FinishRunRequest) (status : String) (o : Option (AgentRun F))
      → KeepsKeys (finish_found h q status o)
  unfolding finish_found
  finish_found-KeepsKeys q status none = search write_rules depth 20
  finish_found-KeepsKeys q status (some r) =
      search (write_rules, measure_duration-KeepsKeys) depth 20

  pub finish_run-KeepsKeys : (q : FinishRunRequest) → KeepsKeys (finish_run h q)
  unfolding finish_run
  finish_run-KeepsKeys q = search (write_rules, finish_found-KeepsKeys) depth 20

  limit_int-KeepsKeys : (o : Option ℤ) (x : ℤ) (m : String) → KeepsKeys (limit_int h o x m)
  unfolding limit_int
  limit_int-KeepsKeys none x m = search keys_rules
  limit_int-KeepsKeys (some y) x m = search keys_rules

  limit_float-KeepsKeys : (o : Option F) (x : F) (m : String) → KeepsKeys (limit_float h o x m)
  unfolding limit_float
  limit_float-KeepsKeys none x m = search keys_rules
  limit_float-KeepsKeys (some y) x m = search keys_rules

  revise_policy-KeepsKeys :
      (q : SetPolicyRequest F) (p : OrchestrationPolicy F) → KeepsKeys (revise_policy h q p)
  unfolding revise_policy
  revise_policy-KeepsKeys q p =
      search (keys_rules, limit_int-KeepsKeys, limit_float-KeepsKeys) depth 20

  pub set_policy-KeepsKeys : (q : SetPolicyRequest F) → KeepsKeys (set_policy h q)
  unfolding set_policy
  set_policy-KeepsKeys q = search (write_rules, revise_policy-KeepsKeys) depth 20

  revise_cap-KeepsKeys :
      (q : UpsertPolicyCapRequest F) (c : PolicyCap F) → KeepsKeys (revise_cap h q c)
  unfolding revise_cap
  revise_cap-KeepsKeys q c =
      search (keys_rules, limit_int-KeepsKeys, limit_float-KeepsKeys) depth 20

  id_or_new-KeepsKeys : (id prefix : String) → KeepsKeys (id_or_new h id prefix)
  unfolding id_or_new
  id_or_new-KeepsKeys id prefix = search write_rules

  pub upsert_policy_cap-KeepsKeys :
      (q : UpsertPolicyCapRequest F) → KeepsKeys (upsert_policy_cap h q)
  unfolding upsert_policy_cap
  upsert_policy_cap-KeepsKeys q =
      search (write_rules, revise_cap-KeepsKeys, id_or_new-KeepsKeys) depth 20
