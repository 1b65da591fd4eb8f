-- ===== src/Checks/Calls.antt =====
-- The theorems on the interceptors at concrete calls. The codec knows one request and one response.
use modelo_man.Base.{
  String, ℕ, Bool, true, false, Option, none, some, List, [], ◌∷◌, ◌≡◌, ◌≢◌, refl, ◌==◌, ◌⊎◌,
  is_found, if◌then◌else◌, ◌<>◌, ◌&&◌, Bool-cases, inl, inr, eq_iff, arith, subst, trim_space,
}
use modelo_man.Domain.Fault
use modelo_man.Store.{World, ok}
use modelo_man.Rpc.Contract.{
  requires_authentication, required_scope, method_create_task, method_export_state,
}
use modelo_man.Rpc.Contract.Coverage.{is_found-required_scope}
use modelo_man.Rpc.Types.{
  app, Fields, null, number, flag, list, object, end, field, text, Payload, struct, Context, done,
  failed, panicked, Handler, Codec,
}
use modelo_man.Rpc.Auth.{AuthConfig, extract_token, ask_keys, with_legacy, auth_interceptor}
use modelo_man.Rpc.Auth.Gate.{Outcome, IsRefusal, auth_interceptor-Outcome, auth_interceptor-closed}
use modelo_man.Rpc.Idempotency.{file_keys, settle, idempotency_interceptor}
use modelo_man.Rpc.Idempotency.Entries.{entry}
use modelo_man.Rpc.Idempotency.Retry.{RoundTrips, idempotency_interceptor-retry}
use modelo_man.Rpc.Idempotency.Failure.{
  idempotency_interceptor-panicked, idempotency_interceptor-failed,
}
use modelo_man.Rpc.Idempotency.Restarted.{idempotency_interceptor-restart}
use modelo_man.Store.Persistence.{restart}
use modelo_man.Rpc.Chain.{serve}
use modelo_man.Rpc.Chain.Answers.{IsAnswer, serve-IsAnswer}
use modelo_man.Checks.Samples.{host, start}

abbrev pub title_fields : Fields
title_fields = field "title" (text "a") end

-- Only `{"title": "a"}` is encoded.
abbrev marshal_title : Fields → Option String
marshal_title (field name (text value) end) =
    if name == "title" && value == "a" then some "{title: a}" else none
marshal_title _ = none

abbrev pub codec : Codec
codec = record {
  marshal = marshal_title;
  unmarshal = λ bytes. if bytes == "{title: a}" then some title_fields else none;
  new_struct = λ fields. some fields;
  sha256_hex = λ bytes. bytes <> "#";
}

abbrev keyed_request : Payload
keyed_request = struct (field "idempotency_key" (text " k1") title_fields)

abbrev pub no_context : Context
no_context = record { metadata = none; principal = none; peer = none }

abbrev pub with_token : Context
with_token = record no_context { metadata = some (("authorization", "Bearer secret" ∷ []) ∷ []) }

-- The key in the header in place of the request.
abbrev pub with_key : Context
with_key = record no_context { metadata = some (("x-idempotency-key", "k1" ∷ []) ∷ []) }

abbrev pub respond : Handler (World ℕ)
respond ctx req w = (done (struct title_fields), w)

abbrev refuse : Handler (World ℕ)
refuse ctx req w = (failed (app (Fault.invalid_argument "title is required")), w)

abbrev crash : Handler (World ℕ)
crash ctx req w = (panicked, w)

abbrev pub config : AuthConfig (World ℕ)
config = record { token = "secret"; allow_legacy_token = true; key_auth = none }

abbrev k1 : String
k1 = "k1"

pub k1_given : k1 ≢ ""
k1_given e = cc ((eq_iff k1 "").1 e)

-- No store of keys, and no shared token.
abbrev no_token : AuthConfig (World ℕ)
no_token = record { token = ""; allow_legacy_token = true; key_auth = none }

pub codec-RoundTrips : RoundTrips codec
unfolding trim_space
codec-RoundTrips end bytes e = cc
codec-RoundTrips (field name (text value) end) bytes e =
    elim (Bool-cases (name == "title" && value == "a")) [
      | inl same ↦
          let known : some "{title: a}" ≡ some bytes = rw same at e in
          let b : "{title: a}" ≡ bytes = cc in
          let n : name ≡ "title" = ground (arith, eq_iff name "title") in
          let v : value ≡ "a" = ground (arith, eq_iff value "a") in
          subst
            (λ b'.
              (trim_space b' == "" ≡ false)
              × (codec.unmarshal (trim_space b') ≡ some (field name (text value) end))
              × (codec.new_struct (field name (text value) end)
                  ≡ some (field name (text value) end)))
            b (refl, cc, refl)
      | inr other ↦ cc (rw other at e)
    ]
codec-RoundTrips (field name (text value) (field _ _ _)) bytes e = cc
codec-RoundTrips (field name null rest) bytes e = cc
codec-RoundTrips (field name (number n) rest) bytes e = cc
codec-RoundTrips (field name (flag b) rest) bytes e = cc
codec-RoundTrips (field name (list vs) rest) bytes e = cc
codec-RoundTrips (field name (object fs) rest) bytes e = cc

is_found-required_scope_example :
    is_found (required_scope method_export_state) ≡ requires_authentication method_export_state
is_found-required_scope_example = is_found-required_scope method_export_state

auth_interceptor-Outcome_example :
    ((extract_token with_token ≢ "")
      × Outcome method_create_task respond
          (with_legacy codec config
            (extract_token with_token)
            (ask_keys codec config (extract_token with_token) start).0)
          with_token
          keyed_request
          (ask_keys codec config (extract_token with_token) start).1
          (auth_interceptor codec config method_create_task respond with_token keyed_request start))
    ⊎ ((extract_token with_token ≡ "")
        × IsRefusal
            (auth_interceptor codec config method_create_task respond with_token keyed_request
              start).0
        × ((auth_interceptor codec config method_create_task respond with_token keyed_request
              start).1
            ≡ start))
unfolding requires_authentication
auth_interceptor-Outcome_example =
    auth_interceptor-Outcome codec config method_create_task refl respond with_token keyed_request
      start

serve-IsAnswer_example :
    IsAnswer
      (serve codec config none
        (some file_keys)
        method_create_task
        crash
        with_token
        keyed_request
        start).0
serve-IsAnswer_example =
    serve-IsAnswer codec config method_create_task none (some file_keys) crash with_token
      keyed_request start

-- What a first call leaves, after which the state of the hub changes.
abbrev answered : World ℕ
answered =
    record (idempotency_interceptor codec (some file_keys) method_create_task respond no_context
      keyed_request start).1 { uses = 7 }

idempotency_interceptor-retry_example :
    idempotency_interceptor codec
      (some file_keys)
      method_create_task
      crash
      with_key
      (struct title_fields)
      answered
    ≡ (done (struct title_fields), answered)
unfolding modelo_man.Rpc.Idempotency.extract_idempotency_key trim_space
    modelo_man.Rpc.Idempotency.idempotency_request_hash idempotency_interceptor
    modelo_man.Store.reserve_idempotency_key modelo_man.Store.complete_idempotency_key
    modelo_man.Base.insert
idempotency_interceptor-retry_example =
    idempotency_interceptor-retry codec codec-RoundTrips method_create_task "k1" respond crash
      no_context with_key keyed_request (struct title_fields) (struct title_fields) "{title: a}#"
      start answered (λ c q v. refl) refl k1_given refl refl refl refl refl refl

idempotency_interceptor-panicked_example :
    ((idempotency_interceptor codec
        (some file_keys)
        method_create_task
        crash
        no_context
        keyed_request
        start).0
      ≡ panicked)
    × (idempotency_interceptor codec
          (some file_keys)
          method_create_task
          respond
          with_key
          (struct title_fields)
          (idempotency_interceptor codec
            (some file_keys)
            method_create_task
            crash
            no_context
            keyed_request
            start).1
        ≡ (
          failed (app (Fault.failed_precondition "idempotency key is already in progress")),
          (idempotency_interceptor codec
              (some file_keys)
              method_create_task
              crash
              no_context
              keyed_request
              start).1,
        ))
unfolding modelo_man.Rpc.Idempotency.extract_idempotency_key trim_space
    modelo_man.Rpc.Idempotency.idempotency_request_hash
idempotency_interceptor-panicked_example =
    idempotency_interceptor-panicked codec method_create_task "k1" crash respond no_context with_key
      keyed_request (struct title_fields) "{title: a}#" start (λ c q v. refl) (λ c q v. refl) refl
      k1_given refl refl refl refl refl refl

idempotency_interceptor-failed_example :
    ((idempotency_interceptor codec
        (some file_keys)
        method_create_task
        refuse
        no_context
        keyed_request
        start).0
      ≡ failed (app (Fault.invalid_argument "title is required")))
    × (entry codec method_create_task "k1"
          (idempotency_interceptor codec
            (some file_keys)
            method_create_task
            refuse
            no_context
            keyed_request
            start).1
        ≡ none)
unfolding modelo_man.Rpc.Idempotency.extract_idempotency_key trim_space
    modelo_man.Rpc.Idempotency.idempotency_request_hash
idempotency_interceptor-failed_example =
    idempotency_interceptor-failed codec method_create_task "k1" refuse no_context keyed_request
      "{title: a}#" start (app (Fault.invalid_argument "title is required")) (λ c q v. refl)
      (λ c q v. refl) refl k1_given refl refl refl refl

idempotency_interceptor-restart_example :
    (v : World ℕ) × (v.store.state ≡ (restart host start).1.store.state)
    × (idempotency_interceptor codec
          (some file_keys)
          method_create_task
          respond
          no_context
          keyed_request
          (restart host start).1
        ≡ settle codec file_keys method_create_task "k1"
            (respond no_context keyed_request v).0
            (respond no_context keyed_request v).1)
unfolding modelo_man.Rpc.Idempotency.extract_idempotency_key trim_space
    modelo_man.Rpc.Idempotency.idempotency_request_hash
idempotency_interceptor-restart_example =
    idempotency_interceptor-restart host codec method_create_task "k1" "{title: a}#" respond
      no_context keyed_request start refl k1_given refl refl refl

auth_interceptor-closed_example :
    IsRefusal
      (auth_interceptor codec no_token method_create_task respond with_token keyed_request start).0
    × ((auth_interceptor codec no_token method_create_task respond with_token keyed_request start).1
        ≡ start)
unfolding requires_authentication
auth_interceptor-closed_example =
    auth_interceptor-closed codec no_token method_create_task refl respond with_token keyed_request
      start refl refl
