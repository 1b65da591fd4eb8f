-- ===== src/Server/Wire.antt =====
-- How server.go reads requests and writes responses: `decodeStruct`, `toStruct` and `toList`, from
-- what `encoding/json` and `structpb` do.
use modelo_man.Base.{String, Option, none, some, List}
use modelo_man.Domain.{
  AppError, State, Task, Note, ChangelogEntry, Benchmark, AgentRun, PromptAttempt, RunEvent,
  OrchestrationPolicy, PolicyCap, LeaderboardEntry,
}
use modelo_man.Domain.Fault
use modelo_man.Store.{Act, ◌>>=◌, pure, fail}
use modelo_man.Rpc.Types.{Fields, Values, Payload, struct, list_value, Codec}
use modelo_man.Service.Requests.{
  CreateTaskRequest, UpdateTaskRequest, DeleteTaskRequest, CreateNoteRequest,
  AppendChangelogRequest, RecordBenchmarkRequest, StartRunRequest, FinishRunRequest,
  ListRunsRequest, RecordPromptAttemptRequest, ListPromptAttemptsRequest, RecordRunEventRequest,
  ListRunEventsRequest, SetPolicyRequest, LeaderboardRequest, UpsertPolicyCapRequest,
  DeletePolicyCapRequest,
}
use modelo_man.Service.Health.{HealthReport}
use modelo_man.Service.Summary.{HubSummary, TelemetryCounts}

-- A value that a handler gives to `toStruct` or `toList`; `accepted` is `{"ok": true}`.
pub data Response (F : Type 0) : Type 0 where
  accepted : Response F
  health : HealthReport → Response F
  summary : HubSummary F → Response F
  state : State F → Response F
  task : Task → Response F
  note : Note → Response F
  change : ChangelogEntry → Response F
  benchmark : Benchmark F → Response F
  run : AgentRun F → Response F
  attempt : PromptAttempt F → Response F
  event : RunEvent → Response F
  telemetry : TelemetryCounts F → Response F
  policy : OrchestrationPolicy F → Response F
  cap : PolicyCap F → Response F
  tasks : List Task → Response F
  notes : List Note → Response F
  changelog : List ChangelogEntry → Response F
  benchmarks : List (Benchmark F) → Response F
  runs : List (AgentRun F) → Response F
  attempts : List (PromptAttempt F) → Response F
  events : List RunEvent → Response F
  leaderboard : List (LeaderboardEntry F) → Response F
  caps : List (PolicyCap F) → Response F

-- `encoding/json` on the types of the service, the values of `structpb.Struct` and lists of them.
pub record Wire (F : Type 0) : Type 0 where
  pub codec : Codec
  pub marshal_response : Response F → Option String
  pub unmarshal_list : String → Option Values
  pub new_list : Values → Option Values
  pub read_create_task : String → Option CreateTaskRequest
  pub read_update_task : String → Option UpdateTaskRequest
  pub read_delete_task : String → Option DeleteTaskRequest
  pub read_create_note : String → Option CreateNoteRequest
  pub read_append_changelog : String → Option AppendChangelogRequest
  pub read_record_benchmark : String → Option (RecordBenchmarkRequest F)
  pub read_start_run : String → Option StartRunRequest
  pub read_finish_run : String → Option FinishRunRequest
  pub read_list_runs : String → Option ListRunsRequest
  pub read_record_prompt_attempt : String → Option (RecordPromptAttemptRequest F)
  pub read_list_prompt_attempts : String → Option ListPromptAttemptsRequest
  pub read_record_run_event : String → Option RecordRunEventRequest
  pub read_list_run_events : String → Option ListRunEventsRequest
  pub read_set_policy : String → Option (SetPolicyRequest F)
  pub read_get_leaderboard : String → Option LeaderboardRequest
  pub read_upsert_policy_cap : String → Option (UpsertPolicyCapRequest F)
  pub read_delete_policy_cap : String → Option DeletePolicyCapRequest

-- The value, or the error where there is none.
unfoldable pub require : {F A : Type 0} → Option A → AppError → Act F A
require none e = fail e
require (some a) e = pure a

module _ {F : Type 0} (wire : Wire F) where
  -- `decodeStruct[T]`; `read` is `json.Unmarshal` into a `T`.
  unfoldable pub decode_struct : {T : Type 0} → (String → Option T) → Fields → Act F T
  unfolding require
  decode_struct read input = do
    serialized ←
        require (wire.codec.marshal input)
          (Fault.invalid_argument "request payload could not be encoded")
    require (read serialized) (Fault.invalid_argument "request payload shape is invalid")

  unfoldable pub to_struct : Response F → Act F Payload
  unfolding require
  to_struct value = do
    serialized ←
        require (wire.marshal_response value)
          (Fault.internal "failed to encode response" (some "json"))
    decoded ←
        require (wire.codec.unmarshal serialized)
          (Fault.internal "failed to shape response object" (some "json"))
    result ←
        require (wire.codec.new_struct decoded)
          (Fault.internal "failed to convert response to protobuf struct" (some "structpb"))
    pure (struct result)

  unfoldable pub to_list : Response F → Act F Payload
  unfolding require
  to_list value = do
    serialized ←
        require (wire.marshal_response value)
          (Fault.internal "failed to encode response list" (some "json"))
    decoded ←
        require (wire.unmarshal_list serialized)
          (Fault.internal "failed to shape response list" (some "json"))
    result ←
        require (wire.new_list decoded)
          (Fault.internal "failed to convert response to protobuf list" (some "structpb"))
    pure (list_value result)
