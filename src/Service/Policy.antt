-- ===== src/Service/Policy.antt =====
-- `SetPolicy`, `UpsertPolicyCap`, `DeletePolicyCap` and their reads in hub_service.go.
use modelo_man.Base.{
  find_by, String, ℤ, pos, ltb_ℤ, Bool, true, false, not, ◌&&◌, Option, none, some, List, ◌==◌,
  contains, text_lt, trim_space, sort_by, if◌then◌else◌,
}
use modelo_man.Domain.{Host, OrchestrationPolicy, PolicyCap}
use modelo_man.Domain.Fault
use modelo_man.Store.{Act, ◌>>=◌, ◌>>◌, pure, fail, reject_if}
use modelo_man.Store
use modelo_man.Service.Requests.{SetPolicyRequest, UpsertPolicyCapRequest, DeletePolicyCapRequest}
use modelo_man.Service.Common.{valid_provider_types, time_now, new_id}

-- `if p != nil { x = *p }`.
abbrev pub given_or : {A : Type 0} → Option A → A → A
given_or none x = x
given_or (some y) x = y

-- `if s != "" { x = strings.TrimSpace(s) }`.
abbrev pub trimmed_or : String → String → String
trimmed_or s x = if s == "" then x else trim_space s

module _ (h : Host) where
  open h use {F}

  -- `if p != nil { if *p < 0 { return …, e }; x = *p }`.
  unfoldable pub limit_int : Option ℤ → ℤ → String → Act F ℤ
  limit_int none x message = pure x
  limit_int (some y) x message = do
    reject_if (ltb_ℤ y (pos 0)) (Fault.invalid_argument message)
    pure y

  unfoldable pub limit_float : Option F → F → String → Act F F
  limit_float none x message = pure x
  limit_float (some y) x message = do
    reject_if (h.lt y (h.of_int (pos 0))) (Fault.invalid_argument message)
    pure y

  -- The policy that `SetPolicy` makes of the stored one, with the old time.
  unfoldable pub revise_policy :
      SetPolicyRequest F → OrchestrationPolicy F → Act F (OrchestrationPolicy F)
  unfolding limit_int limit_float
  revise_policy q p = do
    cost ←
        limit_float q.max_cost_per_run_usd p.max_cost_per_run_usd
          "max_cost_per_run_usd must be non-negative"
    attempts ←
        limit_int q.max_attempts_per_run p.max_attempts_per_run
          "max_attempts_per_run must be non-negative"
    tokens ←
        limit_int q.max_tokens_per_run p.max_tokens_per_run
          "max_tokens_per_run must be non-negative"
    latency ←
        limit_int q.max_latency_per_attempt_ms p.max_latency_per_attempt_ms
          "max_latency_per_attempt_ms must be non-negative"
    pure (record {
      kill_switch = given_or q.kill_switch p.kill_switch;
      kill_switch_reason = elim q.kill_switch_reason [
        | none ↦ p.kill_switch_reason
        | some r ↦ trim_space r
      ];
      max_cost_per_run_usd = cost;
      max_attempts_per_run = attempts;
      max_tokens_per_run = tokens;
      max_latency_per_attempt_ms = latency;
      updated_at = p.updated_at;
    })

  unfoldable pub set_policy : SetPolicyRequest F → Act F (OrchestrationPolicy F)
  unfolding revise_policy time_now
  set_policy q = do
    p ← Store.get_policy h
    p' ← revise_policy q p
    now ← time_now h
    Store.set_policy h (record p' { updated_at = now })
    Store.get_policy h

  -- The order of `ListPolicyCaps`: the higher priority first, then by id.
  unfoldable pub cap_before : PolicyCap F → PolicyCap F → Bool
  cap_before a b =
      if ltb_ℤ b.priority a.priority
      then true
      else if ltb_ℤ a.priority b.priority
      then false
      else text_lt a.id b.id

  unfoldable pub list_policy_caps : Act F (List (PolicyCap F))
  unfolding cap_before
  list_policy_caps = do items ← Store.list_policy_caps h; pure (sort_by cap_before items)

  -- The cap that `UpsertPolicyCap` starts from where none is stored.
  unfoldable pub fresh_cap : UpsertPolicyCapRequest F → String → String → PolicyCap F
  fresh_cap q id now = record {
    id = id;
    name = trim_space q.name;
    provider_type = trim_space q.provider_type;
    provider = trim_space q.provider;
    model = trim_space q.model;
    max_cost_per_run_usd = h.of_int (pos 0);
    max_attempts_per_run = pos 0;
    max_tokens_per_run = pos 0;
    max_cost_per_attempt_usd = h.of_int (pos 0);
    max_tokens_per_attempt = pos 0;
    max_latency_per_attempt_ms = pos 0;
    priority = pos 0;
    dry_run = false;
    is_active = true;
    updated_at = now;
  }

  -- The fields of the request put into the cap, with the old time.
  unfoldable pub revise_cap : UpsertPolicyCapRequest F → PolicyCap F → Act F (PolicyCap F)
  unfolding limit_int limit_float
  revise_cap q c = do
    run_cost ←
        limit_float q.max_cost_per_run_usd c.max_cost_per_run_usd
          "max_cost_per_run_usd must be non-negative"
    attempts ←
        limit_int q.max_attempts_per_run c.max_attempts_per_run
          "max_attempts_per_run must be non-negative"
    run_tokens ←
        limit_int q.max_tokens_per_run c.max_tokens_per_run
          "max_tokens_per_run must be non-negative"
    cost ←
        limit_float q.max_cost_per_attempt_usd c.max_cost_per_attempt_usd
          "max_cost_per_attempt_usd must be non-negative"
    tokens ←
        limit_int q.max_tokens_per_attempt c.max_tokens_per_attempt
          "max_tokens_per_attempt must be non-negative"
    latency ←
        limit_int q.max_latency_per_attempt_ms c.max_latency_per_attempt_ms
          "max_latency_per_attempt_ms must be non-negative"
    pure (record {
      id = c.id;
      name = trimmed_or q.name c.name;
      provider_type = trimmed_or q.provider_type c.provider_type;
      provider = trimmed_or q.provider c.provider;
      model = trimmed_or q.model c.model;
      max_cost_per_run_usd = run_cost;
      max_attempts_per_run = attempts;
      max_tokens_per_run = run_tokens;
      max_cost_per_attempt_usd = cost;
      max_tokens_per_attempt = tokens;
      max_latency_per_attempt_ms = latency;
      priority = given_or q.priority c.priority;
      dry_run = given_or q.dry_run c.dry_run;
      is_active = given_or q.is_active c.is_active;
      updated_at = c.updated_at;
    })

  -- `if id == "" { id = newID(prefix) }`.
  unfoldable pub id_or_new : String → String → Act F String
  unfolding new_id
  id_or_new id prefix = if id == "" then new_id h prefix else pure id

  unfoldable pub upsert_policy_cap : UpsertPolicyCapRequest F → Act F (PolicyCap F)
  unfolding id_or_new fresh_cap revise_cap time_now find_by
  upsert_policy_cap q = do
    id ← id_or_new (trim_space q.id) "cap"
    reject_if
        (not (trim_space q.provider_type == "")
          && not (contains valid_provider_types (trim_space q.provider_type)))
        (Fault.invalid_argument "provider_type must be one of: api, subscription, opensource")
    made ← time_now h
    existing ← Store.list_policy_caps h
    c ←
        revise_cap q
          (given_or (find_by (λ (x : PolicyCap F). x.id) id existing) (fresh_cap q id made))
    now ← time_now h
    Store.upsert_policy_cap h (record c { updated_at = now })
    pure (record c { updated_at = now })

  unfoldable pub delete_policy_cap : DeletePolicyCapRequest → Act F (Unit {0})
  delete_policy_cap q = do
    reject_if (trim_space q.id == "") (Fault.invalid_argument "id is required")
    deleted ← Store.delete_policy_cap h (trim_space q.id)
    reject_if (not deleted) (Fault.not_found "policy cap not found")
