-- ===== src/Server/Methods/Writes.antt =====
-- The methods that write leave the idempotency keys of the store alone.
use modelo_man.Domain.{Host}
use modelo_man.Store.Keys.{KeepsKeys, keys_rules}
use modelo_man.Rpc.Types.{Fields}
use modelo_man.Service.Keys
use modelo_man.Service.Writes
use modelo_man.Service.Operations
use modelo_man.Server.Wire.{Wire}
use modelo_man.Server.Methods
use modelo_man.Server.Steps.{to_struct-Keeps, to_list-Keeps, decode_struct-Keeps}

module _ (h : Host) (wire : Wire h.F) where
  open h use {F}

  ruleset write_rules = (keys_rules, to_struct-Keeps, to_list-Keeps, decode_struct-Keeps)

  pub create_task-KeepsKeys : (request : Fields) → KeepsKeys (Methods.create_task h wire request)
  unfolding Methods.create_task
  create_task-KeepsKeys request = search (write_rules, Keys.create_task-KeepsKeys) depth 20

  pub update_task-KeepsKeys : (request : Fields) → KeepsKeys (Methods.update_task h wire request)
  unfolding Methods.update_task
  update_task-KeepsKeys request = search (write_rules, Keys.update_task-KeepsKeys) depth 20

  pub delete_task-KeepsKeys : (request : Fields) → KeepsKeys (Methods.delete_task h wire request)
  unfolding Methods.delete_task
  delete_task-KeepsKeys request = search (write_rules, Keys.delete_task-KeepsKeys) depth 20

  pub create_note-KeepsKeys : (request : Fields) → KeepsKeys (Methods.create_note h wire request)
  unfolding Methods.create_note
  create_note-KeepsKeys request = search (write_rules, Keys.create_note-KeepsKeys) depth 20

  pub append_changelog-KeepsKeys :
      (request : Fields) → KeepsKeys (Methods.append_changelog h wire request)
  unfolding Methods.append_changelog
  append_changelog-KeepsKeys request =
      search (write_rules, Keys.append_changelog-KeepsKeys) depth 20

  pub record_benchmark-KeepsKeys :
      (request : Fields) → KeepsKeys (Methods.record_benchmark h wire request)
  unfolding Methods.record_benchmark
  record_benchmark-KeepsKeys request =
      search (write_rules, Keys.record_benchmark-KeepsKeys) depth 20

  pub start_run-KeepsKeys : (request : Fields) → KeepsKeys (Methods.start_run h wire request)
  unfolding Methods.start_run
  start_run-KeepsKeys request = search (write_rules, Writes.start_run-KeepsKeys) depth 20

  pub finish_run-KeepsKeys : (request : Fields) → KeepsKeys (Methods.finish_run h wire request)
  unfolding Methods.finish_run
  finish_run-KeepsKeys request = search (write_rules, Writes.finish_run-KeepsKeys) depth 20

  pub record_prompt_attempt-KeepsKeys :
      (request : Fields) → KeepsKeys (Methods.record_prompt_attempt h wire request)
  unfolding Methods.record_prompt_attempt
  record_prompt_attempt-KeepsKeys request =
      search (write_rules, Operations.record_prompt_attempt-KeepsKeys) depth 20

  pub record_run_event-KeepsKeys :
      (request : Fields) → KeepsKeys (Methods.record_run_event h wire request)
  unfolding Methods.record_run_event
  record_run_event-KeepsKeys request =
      search (write_rules, Writes.record_run_event-KeepsKeys) depth 20

  pub set_policy-KeepsKeys : (request : Fields) → KeepsKeys (Methods.set_policy h wire request)
  unfolding Methods.set_policy
  set_policy-KeepsKeys request = search (write_rules, Writes.set_policy-KeepsKeys) depth 20

  pub upsert_policy_cap-KeepsKeys :
      (request : Fields) → KeepsKeys (Methods.upsert_policy_cap h wire request)
  unfolding Methods.upsert_policy_cap
  upsert_policy_cap-KeepsKeys request =
      search (write_rules, Writes.upsert_policy_cap-KeepsKeys) depth 20

  pub delete_policy_cap-KeepsKeys :
      (request : Fields) → KeepsKeys (Methods.delete_policy_cap h wire request)
  unfolding Methods.delete_policy_cap
  delete_policy_cap-KeepsKeys request =
      search (write_rules, Writes.delete_policy_cap-KeepsKeys) depth 20
