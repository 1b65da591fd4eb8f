-- ===== src/Mm/Client/Keyless.antt =====
-- The requests of the client at the idempotency interceptor of the hub.
use modelo_man.Base.{
  ℤ, String, Bool, true, false, Option, none, some, ◌≡◌, refl, contains, if◌then◌else◌,
}
use modelo_man.Rpc.Contract.{write_methods}
use modelo_man.Rpc.Types.{Fields, end, struct, Context, Payload, Handler, Codec}
use modelo_man.Rpc.Idempotency.{
  IdempotencyStore, key_field, extract_idempotency_key, idempotency_interceptor,
}
use modelo_man.Mm.Client.{
  StartRunInput, AttemptInput, EventInput, FinishRunInput, start_run_fields, attempt_fields,
  event_fields, finish_run_fields,
}

-- A request of the client.
pub data Request : Type 0 where
  start_run : StartRunInput → Request
  attempt : AttemptInput → Request
  event : EventInput → Request
  finish_run : FinishRunInput → Request

abbrev pub fields_of : (ℤ → String) → Request → Fields
fields_of decimal (start_run i) = start_run_fields i
fields_of decimal (attempt i) = attempt_fields decimal i
fields_of decimal (event i) = event_fields i
fields_of decimal (finish_run i) = finish_run_fields i

keyless : (decimal : ℤ → String) (r : Request) → key_field (fields_of decimal r) ≡ ""
unfolding key_field
keyless decimal (start_run i) = refl
keyless decimal (attempt i) = refl
keyless decimal (event i) = refl
keyless decimal (finish_run i) = refl

same_branches : {A : Type 0} (c : Bool) (x : A) → (if c then x else x) ≡ x
same_branches true x = refl
same_branches false x = refl

unkeyed :
    {W : Type 0} (codec : Codec) (store : Option (IdempotencyStore W)) (method : String)
    (handler : Handler W) (ctx : Context) (req : Payload) (w : W)
    → extract_idempotency_key ctx req ≡ ""
    → idempotency_interceptor codec store method handler ctx req w ≡ handler ctx req w
unfolding idempotency_interceptor
unkeyed codec none method handler ctx req w e = refl
unkeyed codec (some store) method handler ctx req w e =
    rw e (same_branches (contains write_methods method) _)

-- Where the metadata of a call carry no idempotency key, as an object without fields shows, the
-- interceptor runs the handler for every request of the client, each time that it comes.
pub idempotency_interceptor-keyless :
    {W : Type 0} (codec : Codec) (store : Option (IdempotencyStore W)) (method : String)
    (handler : Handler W) (decimal : ℤ → String) (r : Request) (ctx : Context) (w : W)
    → extract_idempotency_key ctx (struct end) ≡ ""
    → idempotency_interceptor codec store method handler ctx (struct (fields_of decimal r)) w
      ≡ handler ctx (struct (fields_of decimal r)) w
unfolding extract_idempotency_key
idempotency_interceptor-keyless codec store method handler decimal r ctx w absent =
    unkeyed codec store method handler ctx (struct (fields_of decimal r)) w
      (rw (keyless decimal r) absent)
