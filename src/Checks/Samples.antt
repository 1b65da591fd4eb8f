-- ===== src/Checks/Samples.antt =====
-- A concrete host and concrete states for the tests. A float is a number of cents, and 1000000 stands
-- for +Inf; the clock ticks once for each use.
use modelo_man.Base.{
  String, List, [], ◌∷◌, ℕ, ◌+◌, ◌-◌, ◌*◌, ◌/◌, pos, pos_part, ltb, leb, true, false, ◌&&◌, some,
  if◌then◌else◌,
}
use modelo_man.Domain.{
  Host, State, Task, AgentRun, PromptAttempt, PolicyCap, RunFilter, AttemptFilter, EventFilter,
  empty_state,
}
use modelo_man.Store.{World, Result, ok, missing, new_file_store}
use modelo_man.Service.Requests.{CreateTaskRequest, FinishRunRequest, RecordPromptAttemptRequest}

abbrev infinite : ℕ
infinite = 1000000

abbrev cap_float : ℕ → ℕ
cap_float n = if ltb n infinite then n else infinite

abbrev pub host : Host
host = record {
  F = ℕ;
  add = λ a b. cap_float (a + b);
  sub = λ a b. a - b;
  mul = λ a b. cap_float (a * b);
  div = λ a b. a / b;
  lt = ltb;
  eq = λ a b. leb a b && leb b a;
  of_int = pos_part;
  is_finite = λ a. ltb a infinite;
  clock = λ k. pos (1000000000 * k);
  format_time = λ t. if ltb (pos_part t) 5000000000 then "early" else "late";
  format_id_time = λ t. "t";
  parse_time = λ s. some (pos 0);
  random_hex = λ k. if ltb k 4 then "0a" else "0b";
  io_ok = λ k. true;
  json_object = λ fields. "{}";
  to_lower = λ c. c;
}

-- The same host where no operation on a file succeeds.
abbrev pub broken_host : Host
broken_host = record host { io_ok = λ k. false }

abbrev pub start : World ℕ
start = record {
  store = new_file_store host;
  disk = record { file = missing; temp = missing };
  uses = 0;
}

abbrev pub with_state : State ℕ → World ℕ
with_state s = record start { store = record start.store { state = s } }

abbrev pub create_request : CreateTaskRequest
create_request = record {
  idempotency_key = "";
  title = " a ";
  details = "";
  status = "";
  tags = "x" ∷ " x" ∷ [];
}

abbrev pub sample_task : Task
sample_task = record {
  id = "t1";
  title = "a";
  details = "";
  status = "todo";
  tags = [];
  created_at = "early";
  updated_at = "early";
}

-- The change of a state that adds the task.
abbrev pub add_task : State ℕ → Result (Unit {0} × State ℕ)
add_task s = ok (tt, record s { tasks = sample_task ∷ s.tasks })

abbrev pub sample_run : AgentRun ℕ
sample_run = record {
  id = "r1";
  task_id = "t1";
  workflow = "w";
  agent_id = "g";
  prompt_version = "v1";
  model_policy = "";
  status = "running";
  max_retries = pos 0;
  total_attempts = pos 0;
  success_attempts = pos 0;
  failed_attempts = pos 0;
  total_tokens_in = pos 0;
  total_tokens_out = pos 0;
  total_cost_usd = 0;
  duration_ms = pos 0;
  last_error = "";
  started_at = "early";
  finished_at = "";
}

abbrev pub sample_attempt : String → PromptAttempt ℕ
sample_attempt outcome = record {
  id = "pat_t_0a";
  run_id = "r1";
  attempt_number = pos 1;
  workflow = "w";
  agent_id = "g";
  provider_type = "api";
  provider = "p";
  model = "m";
  prompt_version = "v1";
  prompt_hash = "";
  outcome = outcome;
  error_type = "";
  error_message = "";
  tokens_in = pos 10;
  tokens_out = pos 20;
  cost_usd = 7;
  latency_ms = pos 50;
  quality_score = 1;
  created_at = "early";
}

abbrev pub attempt_request : RecordPromptAttemptRequest ℕ
attempt_request = record {
  idempotency_key = "";
  run_id = "r1";
  attempt_number = pos 1;
  workflow = "w";
  agent_id = "g";
  provider_type = "";
  provider = "p";
  model = " m";
  prompt_version = "v1";
  prompt_hash = "";
  outcome = "success";
  error_type = "";
  error_message = "";
  tokens_in = pos 10;
  tokens_out = pos 20;
  cost_usd = 7;
  latency_ms = pos 50;
  quality_score = 1;
}

-- A cap for the providers of an API, with the id, the model and the limit on an attempt's tokens.
abbrev pub sample_cap : String → String → ℕ → PolicyCap ℕ
sample_cap id model tokens = record {
  id = id;
  name = "";
  provider_type = "api";
  provider = "";
  model = model;
  max_cost_per_run_usd = 0;
  max_attempts_per_run = pos 3;
  max_tokens_per_run = pos 0;
  max_cost_per_attempt_usd = 0;
  max_tokens_per_attempt = pos tokens;
  max_latency_per_attempt_ms = pos 0;
  priority = pos 0;
  dry_run = false;
  is_active = true;
  updated_at = "early";
}

abbrev pub two_caps : List (PolicyCap ℕ)
two_caps = sample_cap "c1" "" 5 ∷ sample_cap "c2" "m" 30 ∷ []

-- A run that is running, under two caps.
abbrev pub running : World ℕ
running = with_state (record (empty_state host) { runs = sample_run ∷ []; policy_caps = two_caps })

-- The same hub with the kill switch on.
abbrev pub killed : World ℕ
killed = with_state (record running.store.state {
  policy = record running.store.state.policy { kill_switch = true };
})

-- A run whose cost is infinite.
abbrev pub infinite_run : World ℕ
infinite_run = with_state (record (empty_state host) {
  tasks = sample_task ∷ [];
  runs = record sample_run { total_cost_usd = infinite } ∷ [];
})

abbrev pub by_run : RunFilter
by_run = record {
  run_id = "";
  task_id = "";
  workflow = "w";
  agent_id = "";
  status = "running";
  prompt_version = "";
  started_after = "";
  started_before = "";
  limit = pos 1;
}

abbrev pub by_attempt : AttemptFilter
by_attempt = record {
  run_id = "r1";
  workflow = "";
  agent_id = "";
  model = "";
  outcome = "";
  prompt_version = "";
  created_after = "";
  created_before = "";
  limit = pos 2;
}

abbrev pub by_event : EventFilter
by_event = record {
  run_id = "r1";
  event_type = "";
  level = "warn";
  created_after = "";
  created_before = "";
  limit = pos 0;
}

-- The running run with an attempt of it, finished once already.
abbrev pub finished_once : World ℕ
finished_once = with_state (record running.store.state {
  runs =
      record sample_run { status = "completed"; total_attempts = pos 1; success_attempts = pos 1 }
      ∷ [];
  attempts = sample_attempt "success" ∷ [];
})

abbrev pub finish_request : FinishRunRequest
finish_request = record { idempotency_key = ""; run_id = "r1"; status = ""; last_error = "" }

-- What finishing it once more returns.
abbrev pub finished_twice : AgentRun ℕ
finished_twice = record sample_run {
  status = "completed";
  total_attempts = pos 2;
  success_attempts = pos 2;
  total_tokens_in = pos 10;
  total_tokens_out = pos 20;
  total_cost_usd = 7;
  duration_ms = pos 1000;
  finished_at = "early";
}
