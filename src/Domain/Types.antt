-- ===== src/Domain/Types.antt =====
-- internal/domain/types.go. An `int64` is an integer, a `float64` a value of the type `F`, and a
-- slice a list: a nil slice and an empty one are the same list.
use modelo_man.Base.{String, ℤ, pos, Bool, false, List, []}
use modelo_man.Domain.Environment.{Host}

-- `Task`.
pub record Task : Type 0 where
  pub id : String
  pub title : String
  pub details : String
  pub status : String
  pub tags : List String
  pub created_at : String
  pub updated_at : String

-- `Note`.
pub record Note : Type 0 where
  pub id : String
  pub title : String
  pub body : String
  pub tags : List String
  pub created_at : String

-- `ChangelogEntry`.
pub record ChangelogEntry : Type 0 where
  pub id : String
  pub category : String
  pub summary : String
  pub details : String
  pub actor : String
  pub created_at : String

-- `Benchmark`.
pub record Benchmark (F : Type 0) : Type 0 where
  pub id : String
  pub workflow : String
  pub provider_type : String
  pub provider : String
  pub model : String
  pub tokens_in : ℤ
  pub tokens_out : ℤ
  pub cost_usd : F
  pub latency_ms : ℤ
  pub quality_score : F
  pub notes : String
  pub created_at : String

-- `AgentRun`.
pub record AgentRun (F : Type 0) : Type 0 where
  pub id : String
  pub task_id : String
  pub workflow : String
  pub agent_id : String
  pub prompt_version : String
  pub model_policy : String
  pub status : String
  pub max_retries : ℤ
  pub total_attempts : ℤ
  pub success_attempts : ℤ
  pub failed_attempts : ℤ
  pub total_tokens_in : ℤ
  pub total_tokens_out : ℤ
  pub total_cost_usd : F
  pub duration_ms : ℤ
  pub last_error : String
  pub started_at : String
  pub finished_at : String

-- `PromptAttempt`.
pub record PromptAttempt (F : Type 0) : Type 0 where
  pub id : String
  pub run_id : String
  pub attempt_number : ℤ
  pub workflow : String
  pub agent_id : String
  pub provider_type : String
  pub provider : String
  pub model : String
  pub prompt_version : String
  pub prompt_hash : String
  pub outcome : String
  pub error_type : String
  pub error_message : String
  pub tokens_in : ℤ
  pub tokens_out : ℤ
  pub cost_usd : F
  pub latency_ms : ℤ
  pub quality_score : F
  pub created_at : String

-- `RunEvent`.
pub record RunEvent : Type 0 where
  pub id : String
  pub run_id : String
  pub event_type : String
  pub level : String
  pub message : String
  pub data_json : String
  pub created_at : String

-- `OrchestrationPolicy`.
pub record OrchestrationPolicy (F : Type 0) : Type 0 where
  pub kill_switch : Bool
  pub kill_switch_reason : String
  pub max_cost_per_run_usd : F
  pub max_attempts_per_run : ℤ
  pub max_tokens_per_run : ℤ
  pub max_latency_per_attempt_ms : ℤ
  pub updated_at : String

-- `PolicyCap`.
pub record PolicyCap (F : Type 0) : Type 0 where
  pub id : String
  pub name : String
  pub provider_type : String
  pub provider : String
  pub model : String
  pub max_cost_per_run_usd : F
  pub max_attempts_per_run : ℤ
  pub max_tokens_per_run : ℤ
  pub max_cost_per_attempt_usd : F
  pub max_tokens_per_attempt : ℤ
  pub max_latency_per_attempt_ms : ℤ
  pub priority : ℤ
  pub dry_run : Bool
  pub is_active : Bool
  pub updated_at : String

-- `RunFilter`.
pub record RunFilter : Type 0 where
  pub run_id : String
  pub task_id : String
  pub workflow : String
  pub agent_id : String
  pub status : String
  pub prompt_version : String
  pub started_after : String
  pub started_before : String
  pub limit : ℤ

-- `AttemptFilter`.
pub record AttemptFilter : Type 0 where
  pub run_id : String
  pub workflow : String
  pub agent_id : String
  pub model : String
  pub outcome : String
  pub prompt_version : String
  pub created_after : String
  pub created_before : String
  pub limit : ℤ

-- `EventFilter`.
pub record EventFilter : Type 0 where
  pub run_id : String
  pub event_type : String
  pub level : String
  pub created_after : String
  pub created_before : String
  pub limit : ℤ

-- `LeaderboardEntry`.
pub record LeaderboardEntry (F : Type 0) : Type 0 where
  pub workflow : String
  pub prompt_version : String
  pub model : String
  pub attempts : ℤ
  pub success_attempts : ℤ
  pub failed_attempts : ℤ
  pub success_rate : F
  pub average_cost_usd : F
  pub average_latency_ms : F
  pub score : F

-- `State`.
pub record State (F : Type 0) : Type 0 where
  pub tasks : List Task
  pub notes : List Note
  pub changelog : List ChangelogEntry
  pub benchmarks : List (Benchmark F)
  pub runs : List (AgentRun F)
  pub attempts : List (PromptAttempt F)
  pub run_events : List RunEvent
  pub policy : OrchestrationPolicy F
  pub policy_caps : List (PolicyCap F)

-- `DefaultPolicy`; the field that it leaves out is the empty text.
abbrev pub default_policy : (h : Host) → OrchestrationPolicy h.F
default_policy h = record {
  kill_switch = false;
  kill_switch_reason = "";
  max_cost_per_run_usd = h.of_int (pos 0);
  max_attempts_per_run = pos 0;
  max_tokens_per_run = pos 0;
  max_latency_per_attempt_ms = pos 0;
  updated_at = "";
}

-- `EmptyState`.
abbrev pub empty_state : (h : Host) → State h.F
empty_state h = record {
  tasks = [];
  notes = [];
  changelog = [];
  benchmarks = [];
  runs = [];
  attempts = [];
  run_events = [];
  policy = default_policy h;
  policy_caps = [];
}
