-- ===== src/Rpc/Idempotency/Restarted.antt =====
-- A call with an idempotency key that is made again after a restart of the hub.
use modelo_man.Base.{
  String, true, false, none, some, ◌≡◌, ◌≢◌, refl, ap, ◌∙◌, insert, lookup, contains,
}
use modelo_man.Domain.{Host}
use modelo_man.Store.{World, ok, entry_key, no_record, reserve_idempotency_key}
use modelo_man.Store.Persistence.{restart, keys-restart}
use modelo_man.Rpc.Contract.{write_methods}
use modelo_man.Rpc.Types.{Context, Payload, Handler, Codec}
use modelo_man.Rpc.Idempotency.{
  file_keys, extract_idempotency_key, idempotency_request_hash, settle, run_once,
  idempotency_interceptor,
}
use modelo_man.Rpc.Idempotency.Entries.{unusable}
use modelo_man.Rpc.Idempotency.Retry.{keyed-run_once}

module _ {F : Type 0} (method key hash : String) where
  -- The world with the key reserved.
  abbrev reserved : World F → World F
  reserved w = record w {
    store = record w.store {
      idempotency =
          insert (entry_key method key)
            (record { request_hash = hash; response_json = ""; completed = false })
            w.store.idempotency;
    };
  }

  reserve_fresh :
      (w : World F)
      → unusable method key hash ≡ false
      → lookup (entry_key method key) w.store.idempotency ≡ none
      → reserve_idempotency_key method key hash w ≡ (ok (no_record, true), reserved w)
  unfolding reserve_idempotency_key
  reserve_fresh w usable fresh = rw (usable, fresh) refl

module _ (h : Host) (codec : Codec) where
  open h use {F}

  -- After a restart, whatever the old store knew of the key, a write with an idempotency key runs its
  -- handler, on the state that the restart has loaded; the answer is made from what the handler
  -- returns.
  pub idempotency_interceptor-restart :
      (method key hash : String) (handler : Handler (World F)) (ctx : Context) (req : Payload)
      (w : World F)
      → contains write_methods method ≡ true
      → key ≢ ""
      → extract_idempotency_key ctx req ≡ key
      → idempotency_request_hash codec req ≡ ok hash
      → unusable method key hash ≡ false
      → (v : World F) × (v.store.state ≡ (restart h w).1.store.state)
        × (idempotency_interceptor codec (some file_keys) method handler ctx req (restart h w).1
            ≡ settle codec file_keys method key (handler ctx req v).0 (handler ctx req v).1)
  unfolding run_once lookup
  idempotency_interceptor-restart method key hash handler ctx req w writes given e hashed usable =
      let back = (restart h w).1 in
      let fresh : lookup (entry_key method key) back.store.idempotency ≡ none =
        ap (λ m. lookup (entry_key method key) m) (keys-restart h w) in
      (
        reserved method key hash back,
        refl,
        keyed-run_once codec method key handler ctx req back writes given e
            ∙ rw (hashed, reserve_fresh method key hash back usable fresh) refl,
      )
