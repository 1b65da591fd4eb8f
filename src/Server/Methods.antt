-- ===== src/Server/Methods.antt =====
-- The methods of `HubHandler` of server.go: each decodes its request, calls the service and encodes
-- the result.
pub mod Reads
pub mod Writes
use modelo_man.Base.{String}
use modelo_man.Domain.{Host}
use modelo_man.Store
use modelo_man.Store.{Act, ◌>>=◌, ◌>>◌}
use modelo_man.Rpc.Types.{Fields, Payload}
use modelo_man.Service.Health.{health}
use modelo_man.Service.Summary.{summary, telemetry_summary}
use modelo_man.Service.Leaderboard.{leaderboard}
use modelo_man.Service.Tasks
use modelo_man.Service.Runs
use modelo_man.Service.Attempts
use modelo_man.Service.Listings
use modelo_man.Service.Policy
use modelo_man.Server.Wire.{Wire, Response, decode_struct, to_struct, to_list}

module _ (h : Host) (wire : Wire h.F) where
  open h use {F}

  unfoldable pub get_health : String → Act F Payload
  get_health source = do result ← health h source; to_struct wire (Response.health result)

  unfoldable pub get_summary : Act F Payload
  get_summary = do result ← summary h; to_struct wire (Response.summary result)

  unfoldable pub export_state : Act F Payload
  export_state = do result ← Store.export_state h; to_struct wire (Response.state result)

  unfoldable pub create_task : Fields → Act F Payload
  create_task request = do
    decoded ← decode_struct wire wire.read_create_task request
    result ← Tasks.create_task h decoded
    to_struct wire (Response.task result)

  unfoldable pub update_task : Fields → Act F Payload
  update_task request = do
    decoded ← decode_struct wire wire.read_update_task request
    result ← Tasks.update_task h decoded
    to_struct wire (Response.task result)

  unfoldable pub delete_task : Fields → Act F Payload
  delete_task request = do
    decoded ← decode_struct wire wire.read_delete_task request
    Tasks.delete_task h decoded
    to_struct wire Response.accepted

  unfoldable pub list_tasks : Act F Payload
  list_tasks = do result ← Tasks.list_tasks h; to_list wire (Response.tasks result)

  unfoldable pub create_note : Fields → Act F Payload
  create_note request = do
    decoded ← decode_struct wire wire.read_create_note request
    result ← Tasks.create_note h decoded
    to_struct wire (Response.note result)

  unfoldable pub list_notes : Act F Payload
  list_notes = do result ← Tasks.list_notes h; to_list wire (Response.notes result)

  unfoldable pub append_changelog : Fields → Act F Payload
  append_changelog request = do
    decoded ← decode_struct wire wire.read_append_changelog request
    result ← Tasks.append_changelog h decoded
    to_struct wire (Response.change result)

  unfoldable pub list_changelog : Act F Payload
  list_changelog = do result ← Tasks.list_changelog h; to_list wire (Response.changelog result)

  unfoldable pub record_benchmark : Fields → Act F Payload
  record_benchmark request = do
    decoded ← decode_struct wire wire.read_record_benchmark request
    result ← Tasks.record_benchmark h decoded
    to_struct wire (Response.benchmark result)

  unfoldable pub list_benchmarks : Act F Payload
  list_benchmarks = do result ← Tasks.list_benchmarks h; to_list wire (Response.benchmarks result)

  unfoldable pub start_run : Fields → Act F Payload
  start_run request = do
    decoded ← decode_struct wire wire.read_start_run request
    result ← Runs.start_run h decoded
    to_struct wire (Response.run result)

  unfoldable pub finish_run : Fields → Act F Payload
  finish_run request = do
    decoded ← decode_struct wire wire.read_finish_run request
    result ← Runs.finish_run h decoded
    to_struct wire (Response.run result)

  unfoldable pub list_runs : Fields → Act F Payload
  list_runs request = do
    decoded ← decode_struct wire wire.read_list_runs request
    result ← Listings.list_runs h decoded
    to_list wire (Response.runs result)

  unfoldable pub record_prompt_attempt : Fields → Act F Payload
  record_prompt_attempt request = do
    decoded ← decode_struct wire wire.read_record_prompt_attempt request
    result ← Attempts.record_prompt_attempt h decoded
    to_struct wire (Response.attempt result)

  unfoldable pub list_prompt_attempts : Fields → Act F Payload
  list_prompt_attempts request = do
    decoded ← decode_struct wire wire.read_list_prompt_attempts request
    result ← Listings.list_prompt_attempts h decoded
    to_list wire (Response.attempts result)

  unfoldable pub record_run_event : Fields → Act F Payload
  record_run_event request = do
    decoded ← decode_struct wire wire.read_record_run_event request
    result ← Runs.record_run_event h decoded
    to_struct wire (Response.event result)

  unfoldable pub list_run_events : Fields → Act F Payload
  list_run_events request = do
    decoded ← decode_struct wire wire.read_list_run_events request
    result ← Listings.list_run_events h decoded
    to_list wire (Response.events result)

  unfoldable pub get_telemetry_summary : Act F Payload
  get_telemetry_summary = do
    result ← telemetry_summary h
    to_struct wire (Response.telemetry result)

  unfoldable pub get_policy : Act F Payload
  get_policy = do result ← Store.get_policy h; to_struct wire (Response.policy result)

  unfoldable pub set_policy : Fields → Act F Payload
  set_policy request = do
    decoded ← decode_struct wire wire.read_set_policy request
    result ← Policy.set_policy h decoded
    to_struct wire (Response.policy result)

  unfoldable pub get_leaderboard : Fields → Act F Payload
  get_leaderboard request = do
    decoded ← decode_struct wire wire.read_get_leaderboard request
    result ← leaderboard h decoded
    to_list wire (Response.leaderboard result)

  unfoldable pub list_policy_caps : Act F Payload
  list_policy_caps = do result ← Policy.list_policy_caps h; to_list wire (Response.caps result)

  unfoldable pub upsert_policy_cap : Fields → Act F Payload
  upsert_policy_cap request = do
    decoded ← decode_struct wire wire.read_upsert_policy_cap request
    result ← Policy.upsert_policy_cap h decoded
    to_struct wire (Response.cap result)

  unfoldable pub delete_policy_cap : Fields → Act F Payload
  delete_policy_cap request = do
    decoded ← decode_struct wire wire.read_delete_policy_cap request
    Policy.delete_policy_cap h decoded
    to_struct wire Response.accepted
