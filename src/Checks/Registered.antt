-- ===== src/Checks/Registered.antt =====
-- The theorems on registered methods at concrete calls.
use modelo_man.Base.{
  String, ℕ, Bool, true, ◌||◌, Option, none, some, ◌≡◌, refl, ◌==◌, contains, if◌then◌else◌,
  trim_space,
}
use modelo_man.Store.{World}
use modelo_man.Store.Keys.{stored}
use modelo_man.Rpc.Contract.{full_method, public_read_methods, requires_authentication}
use modelo_man.Rpc.Types.{struct, Reply, done}
use modelo_man.Rpc.Auth.Gate.{IsRefusal}
use modelo_man.Rpc.Idempotency.{file_keys, idempotency_interceptor}
use modelo_man.Rpc.Chain.{serve}
use modelo_man.Server.Wire.{Wire}
use modelo_man.Server.Handlers.{Decoder, decoded, invoke}
use modelo_man.Server.Table.{create_task_handler, list_tasks_handler}
use modelo_man.Server.Calls.{invoke-registered, invoke-unauthenticated, stored-invoke, invoke-retry}
use modelo_man.Checks.Samples.{host, start, create_request}
use modelo_man.Checks.Calls.{
  codec, codec-RoundTrips, config, title_fields, no_context, with_key, k1_given,
}

-- Only a request to create a task is read, and every response is the same.
abbrev wire : Wire ℕ
wire = record {
  codec = codec;
  marshal_response = λ r. some "{title: a}";
  unmarshal_list = λ bytes. none;
  new_list = λ vs. some vs;
  read_create_task = λ bytes. if bytes == "{title: a}" then some create_request else none;
  read_update_task = λ bytes. none;
  read_delete_task = λ bytes. none;
  read_create_note = λ bytes. none;
  read_append_changelog = λ bytes. none;
  read_record_benchmark = λ bytes. none;
  read_start_run = λ bytes. none;
  read_finish_run = λ bytes. none;
  read_list_runs = λ bytes. none;
  read_record_prompt_attempt = λ bytes. none;
  read_list_prompt_attempts = λ bytes. none;
  read_record_run_event = λ bytes. none;
  read_list_run_events = λ bytes. none;
  read_set_policy = λ bytes. none;
  read_get_leaderboard = λ bytes. none;
  read_upsert_policy_cap = λ bytes. none;
  read_delete_policy_cap = λ bytes. none;
}

abbrev title_decoder : Decoder
title_decoder = record { into_struct = decoded title_fields; into_empty = decoded tt }

invoke-registered_example :
    (invoke
        (some (serve codec config none (some file_keys)))
        (create_task_handler host wire "file")
        no_context
        title_decoder
        start
      ≡ serve codec config none
          (some file_keys)
          (full_method "CreateTask")
          (create_task_handler host wire "file").handler
          no_context
          (struct title_fields)
          start)
    × ((requires_authentication (full_method "CreateTask")
          || contains public_read_methods (full_method "CreateTask"))
        ≡ true)
unfolding modelo_man.Base.lookup
invoke-registered_example =
    invoke-registered host wire "file" "CreateTask" (create_task_handler host wire "file") refl
      (serve codec config none (some file_keys)) no_context title_decoder (struct title_fields)
      start refl

invoke-unauthenticated_example :
    IsRefusal
      (invoke
        (some (serve codec config none (some file_keys)))
        (create_task_handler host wire "file")
        no_context
        title_decoder
        start).0
    × ((invoke
          (some (serve codec config none (some file_keys)))
          (create_task_handler host wire "file")
          no_context
          title_decoder
          start).1
        ≡ start)
unfolding modelo_man.Base.lookup modelo_man.Rpc.Auth.extract_token
invoke-unauthenticated_example =
    invoke-unauthenticated host wire "file" "CreateTask" (create_task_handler host wire "file") refl
      codec config none (some file_keys) no_context title_decoder (struct title_fields) start refl
      refl refl

stored-invoke_example :
    (stored (invoke none (list_tasks_handler host wire "file") no_context title_decoder start).1
      ≡ stored start)
    × (stored
          (invoke
            (some (idempotency_interceptor codec (some file_keys)))
            (list_tasks_handler host wire "file")
            no_context
            title_decoder
            start).1
        ≡ stored start)
unfolding modelo_man.Base.lookup
stored-invoke_example =
    stored-invoke host wire "file" "ListTasks" (list_tasks_handler host wire "file") refl codec
      (some file_keys) no_context title_decoder start refl

abbrev keyed_call : World ℕ → Reply × World ℕ
keyed_call w =
    invoke (some (idempotency_interceptor codec (some file_keys)))
      (create_task_handler host wire "file") with_key title_decoder w

-- A later instant.
abbrev answered : World ℕ
answered = record (keyed_call start).1 { uses = 40 }

invoke-retry_example : keyed_call answered ≡ (done (struct title_fields), answered)
unfolding modelo_man.Base.lookup modelo_man.Rpc.Idempotency.extract_idempotency_key trim_space
    modelo_man.Rpc.Idempotency.idempotency_request_hash idempotency_interceptor invoke
    modelo_man.Store.reserve_idempotency_key modelo_man.Store.complete_idempotency_key
    modelo_man.Base.insert modelo_man.Server.Methods.create_task
    modelo_man.Server.Wire.decode_struct modelo_man.Server.Wire.to_struct
    modelo_man.Server.Handlers.with_struct modelo_man.Service.Tasks.create_task
    modelo_man.Store.upsert_task modelo_man.Store.◌>>=◌ modelo_man.Service.Tasks.check_status
    modelo_man.Service.Common.new_id modelo_man.Service.Common.time_now modelo_man.Store.mutate
    modelo_man.Store.encodable
invoke-retry_example =
    invoke-retry host wire "file" "CreateTask" (create_task_handler host wire "file") refl codec
      codec-RoundTrips "k1" with_key with_key title_decoder title_decoder (struct title_fields)
      (struct title_fields) (struct title_fields) "{title: a}#" start answered refl refl refl
      k1_given refl refl refl refl refl refl
