-- ===== src/Mm/Client.antt =====
-- `Client` of internal/mm/telemetry/client.go: how it calls the hub. The connection is a function of
-- the state of all that lies behind it; the pauses between two calls are left out. The texts of a request
-- are valid UTF-8, so `structpb.NewStruct` makes it.
pub mod Attempts
pub mod Keyless
use modelo_man.Base.{
  ℕ, zero, suc, ◌+◌, ◌-◌, ℤ, pos, pos_part, String, Bool, true, false, Option, none, some, ◌==◌,
  ltb, trim_space, if◌then◌else◌,
}
use modelo_man.Rpc.Contract.{
  method_start_run, method_record_prompt_attempt, method_record_run_event, method_finish_run,
}
use modelo_man.Rpc.Types.{Value, null, number, flag, text, list, object, Fields, end, field}

-- The codes of gRPC that the client tells apart.
pub data CallCode : Type 0 where
  unavailable deadline_exceeded resource_exhausted other : CallCode

-- How a call ends: with the fields of a response or an error with its code and text.
pub data Answer : Type 0 where
  response : Fields → Answer
  refused : CallCode → String → Answer

-- `isRetryable`.
abbrev pub is_retryable : CallCode → Bool
is_retryable other = false
is_retryable _ = true

-- Whether an answer is an error that is worth another call.
abbrev pub is_retried : Answer → Bool
is_retried (response fields) = false
is_retried (refused code message) = is_retryable code

-- `conn.Invoke` of a method with a request, where `withAuth` adds the token that is not blank.
abbrev pub Connection : Type 0 → Type 0
Connection W = Option String → String → Fields → W → Answer × W

-- `Client`.
pub record Client (W : Type 0) : Type 0 where
  pub connection : Connection W
  pub token : String
  pub retry_attempts : ℤ

-- What `withAuth` adds to the metadata.
unfoldable pub with_auth : String → Option String
with_auth token = if trim_space token == "" then none else some token

module _ {W : Type 0} (client : Client W) where
  -- One call.
  abbrev pub call : String → Fields → W → Answer × W
  call method request w = client.connection (with_auth client.token) method request w

  -- The loop of `invokeStruct`, with `left` attempts after the next one.
  unfoldable pub try_call : ℕ → String → Fields → W → Answer × W
  try_call zero method request w = call method request w
  try_call (suc left) method request w =
      let (answer, w') = call method request w in
      let again = try_call left method request w' in
      if is_retried answer then again else (answer, w')

  -- `invokeStruct`.
  unfoldable pub invoke_struct : String → Fields → W → Answer × W
  unfolding try_call
  invoke_struct method request w = try_call (pos_part client.retry_attempts - 1) method request w

-- `StartRunInput`.
pub record StartRunInput : Type 0 where
  pub workflow : String
  pub agent_id : String
  pub prompt_version : String
  pub model_policy : String

-- `AttemptInput`.
pub record AttemptInput : Type 0 where
  pub run_id : String
  pub attempt_number : ℤ
  pub workflow : String
  pub agent_id : String
  pub model : String
  pub prompt_version : String
  pub prompt_hash : String
  pub outcome : String
  pub error_message : String
  pub latency_ms : ℤ

-- `EventInput`; `data_json` is the JSON of `Data`, the empty text where there is none.
pub record EventInput : Type 0 where
  pub run_id : String
  pub event_type : String
  pub level : String
  pub message : String
  pub data_json : String

-- `FinishRunInput`.
pub record FinishRunInput : Type 0 where
  pub run_id : String
  pub status : String
  pub last_error : String

abbrev trimmed : String → String → Fields → Fields
trimmed name value rest = field name (text (trim_space value)) rest

-- The requests; `decimal` writes a number.
abbrev pub start_run_fields : StartRunInput → Fields
start_run_fields i = trimmed "workflow" i.workflow (
    trimmed "agent_id" i.agent_id
      (trimmed "prompt_version" i.prompt_version (trimmed "model_policy" i.model_policy end)))

abbrev pub attempt_fields : (ℤ → String) → AttemptInput → Fields
attempt_fields decimal i = trimmed "run_id" i.run_id (
    field "attempt_number" (number (decimal i.attempt_number)) (
      trimmed "workflow" i.workflow (
        trimmed "agent_id" i.agent_id (
          trimmed "provider_type" "api" (
            trimmed "provider" "wrapped-cli" (
              trimmed "model" i.model (
                trimmed "prompt_version" i.prompt_version (
                  trimmed "prompt_hash" i.prompt_hash (
                    trimmed "outcome" i.outcome (
                      trimmed "error_type" "" (
                        trimmed "error_message" i.error_message (
                          field "tokens_in" (number (decimal (pos 0))) (
                            field "tokens_out" (number (decimal (pos 0))) (
                              field "cost_usd" (number (decimal (pos 0))) (
                                field "latency_ms" (number (decimal i.latency_ms)) (
                                  field "quality_score" (number (decimal (pos 0)))
                                    end))))))))))))))))

abbrev level_or_info : String → String
level_or_info level = if trim_space level == "" then "info" else trim_space level

abbrev pub event_fields : EventInput → Fields
event_fields i = trimmed "run_id" i.run_id (
    trimmed "event_type" i.event_type (
      field "level" (text (level_or_info i.level))
        (trimmed "message" i.message (field "data_json" (text i.data_json) end))))

abbrev pub finish_run_fields : FinishRunInput → Fields
finish_run_fields i =
    trimmed "run_id" i.run_id (trimmed "status" i.status (trimmed "last_error" i.last_error end))

-- `response["id"].(string)`.
unfoldable pub id_field : Fields → String
id_field end = ""
id_field (field name (text v) rest) = if name == "id" then v else id_field rest
id_field (field name _ rest) = if name == "id" then "" else id_field rest

abbrev pub run_id_of : Answer → Option String
unfolding id_field
run_id_of (refused code message) = none
run_id_of (response fields) =
    if trim_space (id_field fields) == "" then none else some (id_field fields)

module _ {W : Type 0} (client : Client W) where
  -- `StartRun`: the id of the run, or nothing where the call fails or its response has no id.
  unfoldable pub start_run : StartRunInput → W → Option String × W
  unfolding invoke_struct run_id_of
  start_run i w =
      let (answer, w') = invoke_struct client method_start_run (start_run_fields i) w in
      (run_id_of answer, w')

  -- `RecordPromptAttempt`, `RecordRunEvent` and `FinishRun`, whose errors the wrapper drops.
  unfoldable pub record_prompt_attempt : (ℤ → String) → AttemptInput → W → W
  unfolding invoke_struct
  record_prompt_attempt decimal i w =
      (invoke_struct client method_record_prompt_attempt (attempt_fields decimal i) w).1

  unfoldable pub record_run_event : EventInput → W → W
  unfolding invoke_struct
  record_run_event i w = (invoke_struct client method_record_run_event (event_fields i) w).1

  unfoldable pub finish_run : FinishRunInput → W → W
  unfolding invoke_struct
  finish_run i w = (invoke_struct client method_finish_run (finish_run_fields i) w).1
