-- ===== src/Service/Requests.antt =====
-- The requests of internal/service/hub_service.go, each with the field of the embedded
-- `writeRequest`. A pointer is an optional value, and so is the one slice that is compared with nil.
use modelo_man.Base.{String, ℤ, Bool, Option, List}

-- `CreateTaskRequest`.
pub record CreateTaskRequest : Type 0 where
  pub idempotency_key : String
  pub title : String
  pub details : String
  pub status : String
  pub tags : List String

-- `UpdateTaskRequest`.
pub record UpdateTaskRequest : Type 0 where
  pub idempotency_key : String
  pub id : String
  pub title : String
  pub details : String
  pub status : String
  pub tags : Option (List String)

-- `DeleteTaskRequest`.
pub record DeleteTaskRequest : Type 0 where
  pub idempotency_key : String
  pub id : String

-- `CreateNoteRequest`.
pub record CreateNoteRequest : Type 0 where
  pub idempotency_key : String
  pub title : String
  pub body : String
  pub tags : List String

-- `AppendChangelogRequest`.
pub record AppendChangelogRequest : Type 0 where
  pub idempotency_key : String
  pub category : String
  pub summary : String
  pub details : String
  pub actor : String

-- `RecordBenchmarkRequest`.
pub record RecordBenchmarkRequest (F : Type 0) : Type 0 where
  pub idempotency_key : String
  pub workflow : String
  pub provider_type : String
  pub provider : String
  pub model : String
  pub tokens_in : ℤ
  pub tokens_out : ℤ
  pub cost_usd : F
  pub latency_ms : ℤ
  pub quality_score : F
  pub notes : String

-- `StartRunRequest`.
pub record StartRunRequest : Type 0 where
  pub idempotency_key : String
  pub task_id : String
  pub workflow : String
  pub agent_id : String
  pub prompt_version : String
  pub model_policy : String
  pub max_retries : ℤ

-- `FinishRunRequest`.
pub record FinishRunRequest : Type 0 where
  pub idempotency_key : String
  pub run_id : String
  pub status : String
  pub last_error : String

-- `RecordPromptAttemptRequest`.
pub record RecordPromptAttemptRequest (F : Type 0) : Type 0 where
  pub idempotency_key : String
  pub run_id : String
  pub attempt_number : ℤ
  pub workflow : String
  pub agent_id : String
  pub provider_type : String
  pub provider : String
  pub model : String
  pub prompt_version : String
  pub prompt_hash : String
  pub outcome : String
  pub error_type : String
  pub error_message : String
  pub tokens_in : ℤ
  pub tokens_out : ℤ
  pub cost_usd : F
  pub latency_ms : ℤ
  pub quality_score : F

-- `RecordRunEventRequest`.
pub record RecordRunEventRequest : Type 0 where
  pub idempotency_key : String
  pub run_id : String
  pub event_type : String
  pub level : String
  pub message : String
  pub data_json : String

-- `SetPolicyRequest`.
pub record SetPolicyRequest (F : Type 0) : Type 0 where
  pub idempotency_key : String
  pub kill_switch : Option Bool
  pub kill_switch_reason : Option String
  pub max_cost_per_run_usd : Option F
  pub max_attempts_per_run : Option ℤ
  pub max_tokens_per_run : Option ℤ
  pub max_latency_per_attempt_ms : Option ℤ

-- `UpsertPolicyCapRequest`.
pub record UpsertPolicyCapRequest (F : Type 0) : Type 0 where
  pub idempotency_key : String
  pub id : String
  pub name : String
  pub provider_type : String
  pub provider : String
  pub model : String
  pub max_cost_per_run_usd : Option F
  pub max_attempts_per_run : Option ℤ
  pub max_tokens_per_run : Option ℤ
  pub max_cost_per_attempt_usd : Option F
  pub max_tokens_per_attempt : Option ℤ
  pub max_latency_per_attempt_ms : Option ℤ
  pub priority : Option ℤ
  pub dry_run : Option Bool
  pub is_active : Option Bool

-- `DeletePolicyCapRequest`.
pub record DeletePolicyCapRequest : Type 0 where
  pub idempotency_key : String
  pub id : String

-- `ListRunsRequest`.
pub record ListRunsRequest : Type 0 where
  pub run_id : String
  pub task_id : String
  pub workflow : String
  pub agent_id : String
  pub status : String
  pub prompt_version : String
  pub started_after : String
  pub started_before : String
  pub limit : ℤ

-- `ListPromptAttemptsRequest`.
pub record ListPromptAttemptsRequest : Type 0 where
  pub run_id : String
  pub workflow : String
  pub agent_id : String
  pub model : String
  pub outcome : String
  pub prompt_version : String
  pub created_after : String
  pub created_before : String
  pub limit : ℤ

-- `ListRunEventsRequest`.
pub record ListRunEventsRequest : Type 0 where
  pub run_id : String
  pub event_type : String
  pub level : String
  pub created_after : String
  pub created_before : String
  pub limit : ℤ

-- `LeaderboardRequest`.
pub record LeaderboardRequest : Type 0 where
  pub workflow : String
  pub model : String
  pub prompt_version : String
  pub window_days : ℤ
  pub limit : ℤ
