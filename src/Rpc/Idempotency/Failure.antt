-- ===== src/Rpc/Idempotency/Failure.antt =====
-- A call with an idempotency key whose handler fails or panics.
use modelo_man.Base.{
  String, true, false, none, some, ◌≡◌, ◌≢◌, refl, sym, ◌∙◌, ap, subst, lookup, lookup-remove,
  eq_iff, eq_refl, contains,
}
use modelo_man.Domain.Fault
use modelo_man.Store.{IdempotencyRecord, World, ok, entry_key, release_idempotency_key}
use modelo_man.Rpc.Contract.{write_methods}
use modelo_man.Rpc.Types.{RpcError, app, Context, Payload, failed, panicked, Handler, Codec}
use modelo_man.Rpc.Idempotency.{
  file_keys, extract_idempotency_key, idempotency_request_hash, replay, settle, run_once,
  idempotency_interceptor,
}
use modelo_man.Rpc.Idempotency.Entries.{unusable, entry, reserve_found}
use modelo_man.Rpc.Idempotency.Retry.{usable_key, reserve_new, keyed-run_once}

module _ {F : Type 0} (codec : Codec) (method key : String) where
  -- A key that is taken by another request, or by a call that is not over, refuses the call, and
  -- neither runs the handler nor changes anything.
  pub run_once-taken :
      (handler : Handler (World F)) (ctx : Context) (req : Payload) (hash : String) (w : World F)
      (r : IdempotencyRecord)
      → unusable method key hash ≡ false
      → entry codec method key w ≡ some r
      → idempotency_request_hash codec req ≡ ok hash
      → r.request_hash ≡ hash
      → r.completed ≡ false
      → run_once codec file_keys method key handler ctx req w
        ≡ (failed (app (Fault.failed_precondition "idempotency key is already in progress")), w)
  unfolding run_once replay
  run_once-taken handler ctx req hash w r usable at hashed same open_call =
      rw (hashed, reserve_found codec method key hash w r usable at, (eq_iff _ _).1 same, open_call)
        refl

  -- The handler of a new key runs once, and its outcome is settled in a world where the key is
  -- reserved.
  run_once-new :
      (handler : Handler (World F)) (ctx : Context) (req : Payload) (hash : String) (w : World F)
      → ((c : Context) (q : Payload) (v : World F)
          → (handler c q v).1.store.idempotency ≡ v.store.idempotency)
      → unusable method key hash ≡ false
      → entry codec method key w ≡ none
      → idempotency_request_hash codec req ≡ ok hash
      → (v : World F) × (r : IdempotencyRecord) × (entry codec method key (handler ctx req v).1
          ≡ some r)
        × (r.request_hash ≡ hash)
        × (r.completed ≡ false)
        × (run_once codec file_keys method key handler ctx req w
            ≡ settle codec file_keys method key (handler ctx req v).0 (handler ctx req v).1)
  unfolding run_once
  run_once-new handler ctx req hash w keeps usable fresh hashed =
      let (v, r, reserved, at, same, open_call) =
        reserve_new codec method key hash w usable fresh in
      (
        v,
        r,
        subst (λ m. lookup (entry_key method key) m ≡ some r) (sym (keeps ctx req v)) at,
        same,
        open_call,
        rw (hashed, reserved) refl,
      )

  -- Where the handler of a new key panics, having left the keys alone, the key stays reserved: the next
  -- call of the method with the key and the same hash is refused as in progress, whatever its handler
  -- is, and changes nothing.
  pub idempotency_interceptor-panicked :
      (handler handler' : Handler (World F)) (ctx ctx' : Context) (req req' : Payload)
      (hash : String) (w : World F)
      → ((c : Context) (q : Payload) (v : World F)
          → (handler c q v).1.store.idempotency ≡ v.store.idempotency)
      → ((c : Context) (q : Payload) (v : World F) → (handler c q v).0 ≡ panicked)
      → contains write_methods method ≡ true
      → key ≢ ""
      → extract_idempotency_key ctx req ≡ key
      → extract_idempotency_key ctx' req' ≡ key
      → idempotency_request_hash codec req ≡ ok hash
      → idempotency_request_hash codec req' ≡ ok hash
      → unusable method key hash ≡ false
      → entry codec method key w ≡ none
      → (let served = idempotency_interceptor codec (some file_keys) method handler ctx req w in
          (served.0 ≡ panicked)
          × (idempotency_interceptor codec (some file_keys) method handler' ctx' req' served.1 ≡ (
            failed (app (Fault.failed_precondition "idempotency key is already in progress")),
            served.1,
          )))
  unfolding settle
  idempotency_interceptor-panicked handler handler' ctx ctx' req req' hash w keeps panics writes
        given e e' hashed hashed' usable fresh =
      let first = keyed-run_once codec method key handler ctx req w writes given e in
      let (v, r, at, same, open_call, run) =
        run_once-new handler ctx req hash w keeps usable fresh hashed in
      let over =
        run
        ∙ ap (λ x. settle codec file_keys method key x (handler ctx req v).1) (panics ctx req v) in
      rw (first, keyed-run_once codec method key handler' ctx' req' _ writes given e', over)
        (refl, run_once-taken handler' ctx' req' hash _ r usable at hashed' same open_call)

  -- Where the handler of a new key fails, having left the keys alone, the caller gets its error and the
  -- key is free again.
  pub idempotency_interceptor-failed :
      (handler : Handler (World F)) (ctx : Context) (req : Payload) (hash : String) (w : World F)
      (x : RpcError)
      → ((c : Context) (q : Payload) (v : World F)
          → (handler c q v).1.store.idempotency ≡ v.store.idempotency)
      → ((c : Context) (q : Payload) (v : World F) → (handler c q v).0 ≡ failed x)
      → contains write_methods method ≡ true
      → key ≢ ""
      → extract_idempotency_key ctx req ≡ key
      → idempotency_request_hash codec req ≡ ok hash
      → unusable method key hash ≡ false
      → entry codec method key w ≡ none
      → (let served = idempotency_interceptor codec (some file_keys) method handler ctx req w in
          (served.0 ≡ failed x) × (entry codec method key served.1 ≡ none))
  unfolding settle release_idempotency_key
  idempotency_interceptor-failed handler ctx req hash w x keeps fails writes given e hashed usable
        fresh =
      let first = keyed-run_once codec method key handler ctx req w writes given e in
      let (v, r, at, same, open_call, run) =
        run_once-new handler ctx req hash w keeps usable fresh hashed in
      let over =
        run
        ∙ ap (λ y. settle codec file_keys method key y (handler ctx req v).1) (fails ctx req v) in
      let k = entry_key method key in
      rw (first, over, usable_key method key hash usable, at, open_call)
        (refl, lookup-remove k k _ ∙ rw (eq_refl k) refl)
