-- ===== src/Rpc/Idempotency.antt =====
-- `IdempotencyUnaryInterceptor` of interceptors.go, over the contract `IdempotencyStore` of
-- internal/store/store.go.
pub mod Entries
pub mod Retry
pub mod Restarted
pub mod Failure
use modelo_man.Base.{
  String, Bool, true, false, Option, none, some, ◌==◌, contains, trim_space, if◌then◌else◌,
}
use modelo_man.Domain.Fault
use modelo_man.Store.{
  IdempotencyRecord, World, Result, ok, err, reserve_idempotency_key, complete_idempotency_key,
  release_idempotency_key,
}
use modelo_man.Rpc.Contract.{write_methods}
use modelo_man.Rpc.Types.{
  RpcError, app, text, Fields, end, field, Payload, struct, Context, Reply, done, failed, panicked,
  Handler, Interceptor, Codec,
}
use modelo_man.Rpc.Auth.{first_of_key}

-- `IdempotencyStore`.
pub record IdempotencyStore (W : Type 0) : Type 0 where
  pub reserve : String → String → String → W → Result (IdempotencyRecord × Bool) × W
  pub complete : String → String → String → W → Result (Unit {0}) × W
  pub release : String → String → W → Result (Unit {0}) × W

-- `FileStore` as such a store.
abbrev pub file_keys : {F : Type 0} → IdempotencyStore (World F)
file_keys = record {
  reserve = reserve_idempotency_key;
  complete = complete_idempotency_key;
  release = release_idempotency_key;
}

-- `requestMap["idempotency_key"]` as a text; any other value reads as the empty text.
unfoldable pub key_field : Fields → String
key_field end = ""
key_field (field name (text v) rest) = if name == "idempotency_key" then v else key_field rest
key_field (field name _ rest) = if name == "idempotency_key" then "" else key_field rest

abbrev payload_key : Payload → String
payload_key (struct fields) = trim_space (key_field fields)
payload_key _ = ""

abbrev header_key : Context → String
header_key ctx = elim ctx.metadata [
  | none ↦ ""
  | some md ↦ trim_space (first_of_key "x-idempotency-key" md)
]

-- `extractIdempotencyKey`.
unfoldable pub extract_idempotency_key : Context → Payload → String
unfolding key_field first_of_key
extract_idempotency_key ctx req = if payload_key req == "" then header_key ctx else payload_key req

-- The copy of the request without the key.
unfoldable pub sanitize : Fields → Fields
sanitize end = end
sanitize (field name v rest) =
    let kept = sanitize rest in if name == "idempotency_key" then kept else field name v kept

abbrev pub reply_of : Result Payload → Reply
reply_of (ok p) = done p
reply_of (err e) = failed (app e)

-- What `json.Marshal` gave.
abbrev pub encoded_json : Option String → Result String
encoded_json none = err (Fault.internal "failed to encode idempotent response" (some "json"))
encoded_json (some bytes) = ok bytes

module _ (codec : Codec) where
  -- `idempotencyRequestHash`.
  unfoldable pub idempotency_request_hash : Payload → Result String
  unfolding sanitize
  idempotency_request_hash (struct fields) = elim (codec.marshal (sanitize fields)) [
    | none ↦ err (Fault.internal "failed to encode idempotency request payload" (some "json"))
    | some bytes ↦ ok (codec.sha256_hex bytes)
  ]
  idempotency_request_hash _ =
      err (Fault.invalid_argument "idempotency is only supported for object request payloads")

  -- `encodeIdempotentResponse`.
  unfoldable pub encode_idempotent_response : Payload → Result String
  encode_idempotent_response (struct fields) = encoded_json (codec.marshal fields)
  encode_idempotent_response _ =
      err (Fault.internal "idempotency requires object responses for write RPCs" none)

  -- `decodeIdempotentResponse`.
  unfoldable pub decode_idempotent_response : String → Result Payload
  decode_idempotent_response json =
      if trim_space json == ""
      then err (Fault.internal "stored idempotent response is empty" none)
      else elim (codec.unmarshal (trim_space json)) [
        | none ↦ err (Fault.internal "failed to decode stored idempotent response" (some "json"))
        | some decoded ↦ elim (codec.new_struct decoded) [
          | none ↦
              err (Fault.internal "stored idempotent response payload is invalid" (some "struct"))
          | some fields ↦ ok (struct fields)
        ]
      ]

  -- The answer for a key that was reserved before.
  unfoldable pub replay : String → IdempotencyRecord → Reply
  unfolding decode_idempotent_response
  replay hash r =
      if r.request_hash == hash
      then if r.completed
        then reply_of (decode_idempotent_response r.response_json)
        else failed (app (Fault.failed_precondition "idempotency key is already in progress"))
      else failed (
          app (
            Fault.conflict
              "idempotency_key has already been used with a different request payload"))

  module _ {W : Type 0} (store : IdempotencyStore W) (method key : String) where
    abbrev give_up : RpcError → W → Reply × W
    give_up e w = (failed e, (store.release method key w).1)

    abbrev completed_reply : Payload → Result (Unit {0}) → Reply
    completed_reply p (ok _) = done p
    completed_reply p (err e) = failed (app e)

    store_response : Payload → Result String → W → Reply × W
    store_response p (err e) w = give_up (app e) w
    store_response p (ok json) w =
        let (r, w') = store.complete method key json w in (completed_reply p r, w')

    -- What follows the handler's return; a panic goes past all of it.
    unfoldable pub settle : Reply → W → Reply × W
    unfolding encode_idempotent_response store_response
    settle (done p) w = store_response p (encode_idempotent_response p) w
    settle (failed e) w = give_up e w
    settle panicked w = (panicked, w)

    run_reserved :
        Handler W → Context → Payload → String → Result (IdempotencyRecord × Bool) → W → Reply × W
    unfolding settle replay
    run_reserved handler ctx req hash (err e) w = (failed (app e), w)
    run_reserved handler ctx req hash (ok (r, false)) w = (replay hash r, w)
    run_reserved handler ctx req hash (ok (r, true)) w =
        let (reply, w') = handler ctx req w in settle reply w'

    run_hashed : Handler W → Context → Payload → Result String → W → Reply × W
    unfolding run_reserved
    run_hashed handler ctx req (err e) w = (failed (app e), w)
    run_hashed handler ctx req (ok hash) w =
        let (r, w') = store.reserve method key hash w in run_reserved handler ctx req hash r w'

    unfoldable pub run_once : Handler W → Handler W
    unfolding run_hashed idempotency_request_hash
    run_once handler ctx req w = run_hashed handler ctx req (idempotency_request_hash req) w

  -- The interceptor, with the store or without one.
  unfoldable pub idempotency_interceptor :
      {W : Type 0} → Option (IdempotencyStore W) → Interceptor W
  unfolding run_once
  idempotency_interceptor none method handler ctx req w = handler ctx req w
  idempotency_interceptor (some store) method handler ctx req w =
      if contains write_methods method
      then if extract_idempotency_key ctx req == ""
        then handler ctx req w
        else run_once store method (extract_idempotency_key ctx req) handler ctx req w
      else handler ctx req w
