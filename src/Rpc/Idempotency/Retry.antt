-- ===== src/Rpc/Idempotency/Retry.antt =====
-- A call with an idempotency key that is made again.
use modelo_man.Base.{
  String, true, false, ◌||◌, Option, none, some, ◌≡◌, ◌≢◌, refl, sym, ◌∙◌, ◌==◌, inl, inr, ◌⊎◌,
  Bool-cases, subst, lookup, insert, lookup-insert, arith, trim_space, eq_iff, eq_refl, contains,
}
use modelo_man.Domain.{AppError}
use modelo_man.Domain.Fault
use modelo_man.Store.{
  IdempotencyRecord, World, ok, err, entry_key, no_record, reserve_idempotency_key,
  complete_idempotency_key,
}
use modelo_man.Rpc.Contract.{write_methods}
use modelo_man.Rpc.Types.{
  Fields, Context, Payload, struct, list_value, empty, Reply, done, failed, panicked, Handler,
  Codec,
}
use modelo_man.Rpc.Idempotency.{
  file_keys, extract_idempotency_key, idempotency_request_hash, encode_idempotent_response,
  decode_idempotent_response, replay, settle, run_once, idempotency_interceptor,
}
use modelo_man.Rpc.Idempotency.Entries.{
  unusable, replay-done, entry, Holds, run_once-Holds, reserve_found,
}

-- JSON gives an object back: its text is not blank, and decodes to the same object.
abbrev pub RoundTrips : Codec → Type 0
RoundTrips codec =
    (fields : Fields) (bytes : String)
    → codec.marshal fields ≡ some bytes
    → (trim_space bytes == "" ≡ false)
      × (codec.unmarshal (trim_space bytes) ≡ some fields)
      × (codec.new_struct fields ≡ some fields)

Option-cases : {A : Type 0} (o : Option A) → (o ≡ none) ⊎ ((a : A) × (o ≡ some a))
Option-cases none = inl refl
Option-cases (some a) = inr (a, refl)

pub usable_key :
    (method key hash : String)
    → unusable method key hash ≡ false
    → (trim_space method == "" || trim_space key == "") ≡ false
usable_key method key hash e = ground arith

decoded :
    (codec : Codec) (law : RoundTrips codec) (fields : Fields) (bytes : String)
    → codec.marshal fields ≡ some bytes
    → decode_idempotent_response codec bytes ≡ ok (struct fields)
unfolding decode_idempotent_response
decoded codec law fields bytes e =
    let (full, back, built) = law fields bytes e in rw (full, back, built) refl

module _ {F : Type 0} (codec : Codec) (method key : String) where
  pub reserve_new :
      (hash : String) (w : World F)
      → unusable method key hash ≡ false
      → entry codec method key w ≡ none
      → (v : World F) × (r : IdempotencyRecord) × (reserve_idempotency_key method key hash w
          ≡ (ok (no_record, true), v))
        × (entry codec method key v ≡ some r)
        × (r.request_hash ≡ hash)
        × (r.completed ≡ false)
  unfolding reserve_idempotency_key
  reserve_new hash w usable fresh =
      let k = entry_key method key in
      let r : IdempotencyRecord = record {
        request_hash = hash;
        response_json = "";
        completed = false;
      } in
      (
        record w { store = record w.store { idempotency = insert k r w.store.idempotency } },
        r,
        rw (usable, fresh) refl,
        lookup-insert k k r w.store.idempotency ∙ rw (eq_refl k) refl,
        refl,
        refl,
      )

  pub keyed-run_once :
      (handler : Handler (World F)) (ctx : Context) (req : Payload) (w : World F)
      → contains write_methods method ≡ true
      → key ≢ ""
      → extract_idempotency_key ctx req ≡ key
      → idempotency_interceptor codec (some file_keys) method handler ctx req w
        ≡ run_once codec file_keys method key handler ctx req w
  unfolding idempotency_interceptor
  keyed-run_once handler ctx req w writes given e =
      let nonempty : (key == "") ≡ false = ground (arith, eq_iff key "", given) in
      rw (writes, e, nonempty) refl

module _ {F : Type 0} (codec : Codec) (law : RoundTrips codec) (method key : String) where
  completed-entry :
      (json : String) (v : World F) (r : IdempotencyRecord)
      → (trim_space method == "" || trim_space key == "") ≡ false
      → entry codec method key v ≡ some r
      → ((complete_idempotency_key method key json v).0 ≡ ok tt)
        × (entry codec method key (complete_idempotency_key method key json v).1
            ≡ some (record r { response_json = json; completed = true }))
  unfolding complete_idempotency_key
  completed-entry json v r usable at =
      let k = entry_key method key in
      let done_r : IdempotencyRecord = record r { response_json = json; completed = true } in
      rw (usable, at) (refl, lookup-insert k k done_r v.store.idempotency ∙ rw (eq_refl k) refl)

  stored-Holds :
      (hash : String) (fields : Fields) (bytes : String) (v : World F) (r : IdempotencyRecord)
      → codec.marshal fields ≡ some bytes
      → unusable method key hash ≡ false
      → entry codec method key v ≡ some r
      → r.request_hash ≡ hash
      → Holds codec method key hash (struct fields) (complete_idempotency_key method key bytes v).1
  stored-Holds hash fields bytes v r e usable at same = (
    usable,
    _,
    (completed-entry bytes v r (usable_key method key hash usable) at).1,
    ((eq_iff _ _).1 same, refl, decoded codec law fields bytes e),
  )

  settle-Holds :
      (hash : String) (reply : Reply) (v : World F) (r : IdempotencyRecord) (p : Payload)
      → unusable method key hash ≡ false
      → entry codec method key v ≡ some r
      → r.request_hash ≡ hash
      → (settle codec file_keys method key reply v).0 ≡ done p
      → Holds codec method key hash p (settle codec file_keys method key reply v).1
  unfolding settle encode_idempotent_response
  settle-Holds hash (failed e) v r p usable at same success = cc
  settle-Holds hash panicked v r p usable at same success = cc
  settle-Holds hash (done (list_value xs)) v r p usable at same success = cc
  settle-Holds hash (done empty) v r p usable at same success = cc
  settle-Holds hash (done (struct fields)) v r p usable at same success =
      elim (Option-cases (codec.marshal fields)) [
        | inl e ↦ cc (rw (e, settle) at success)
        | inr (bytes, e) ↦
            let fine = (completed-entry bytes v r (usable_key method key hash usable) at).0 in
            let full : struct fields ≡ p = cc (rw (e, settle, fine) at success) in
            subst
              (λ q.
                Holds codec method key hash q
                  (settle codec file_keys method key (done (struct fields)) v).1)
              full (rw (e, settle) (stored-Holds hash fields bytes v r e usable at same))
      ]

  reserve_bad :
      (hash : String) (w : World F)
      → unusable method key hash ≡ true
      → (e : AppError) × (reserve_idempotency_key method key hash w ≡ (err e, w))
  unfolding reserve_idempotency_key
  reserve_bad hash w bad =
      (Fault.invalid_argument "method, idempotency_key, and request_hash are required", rw bad refl)

  run_once-stores :
      (handler : Handler (World F)) (ctx : Context) (req p : Payload) (hash : String) (w : World F)
      → ((c : Context) (q : Payload) (v : World F)
          → (handler c q v).1.store.idempotency ≡ v.store.idempotency)
      → idempotency_request_hash codec req ≡ ok hash
      → (run_once codec file_keys method key handler ctx req w).0 ≡ done p
      → Holds codec method key hash p (run_once codec file_keys method key handler ctx req w).1
  unfolding run_once
  run_once-stores handler ctx req p hash w keeps hashed success =
      elim (Bool-cases (unusable method key hash)) [
        | inl bad ↦ cc (rw (hashed, (reserve_bad hash w bad).1) at success)
        | inr usable ↦ elim (Option-cases (entry codec method key w)) [
          | inl fresh ↦
              let (v, r, reserved, at, same, _) =
                reserve_new codec method key hash w usable fresh in
              let (reply, u) = handler ctx req v in
              let run : run_once codec file_keys method key handler ctx req w
                  ≡ settle codec file_keys method key reply u =
                rw (hashed, reserved) refl in
              subst (λ (x : Reply × World F). Holds codec method key hash p x.1) (sym run)
                (settle-Holds hash reply u r p usable
                  (subst (λ m. lookup (entry_key method key) m ≡ some r) (sym (keeps ctx req v)) at)
                  same (subst (λ (x : Reply × World F). x.0 ≡ done p) run success))
          | inr (r, at) ↦
              let run : run_once codec file_keys method key handler ctx req w
                  ≡ (replay codec hash r, w) =
                rw (hashed, reserve_found codec method key hash w r usable at) refl in
              subst (λ (x : Reply × World F). Holds codec method key hash p x.1) (sym run)
                (
                  usable,
                  r,
                  at,
                  replay-done codec hash r p
                      (subst (λ (x : Reply × World F). x.0 ≡ done p) run success),
                )
        ]
      ]

  -- A write with an idempotency key runs at most once: where the call returned a response and its
  -- handler left the keys alone, a call of the method with this key and the same request hash, from any
  -- world where the entry of the key is what the first call left, returns that response and leaves the
  -- world as it is, whatever its handler is; if JSON gives objects back.
  pub idempotency_interceptor-retry :
      (handler handler' : Handler (World F)) (ctx ctx' : Context) (req req' p : Payload)
      (hash : String) (w v : World F)
      → ((c : Context) (q : Payload) (u : World F)
          → (handler c q u).1.store.idempotency ≡ u.store.idempotency)
      → contains write_methods method ≡ true
      → key ≢ ""
      → extract_idempotency_key ctx req ≡ key
      → extract_idempotency_key ctx' req' ≡ key
      → idempotency_request_hash codec req ≡ ok hash
      → idempotency_request_hash codec req' ≡ ok hash
      → (idempotency_interceptor codec (some file_keys) method handler ctx req w).0 ≡ done p
      → entry codec method key v
        ≡ entry codec method key
            (idempotency_interceptor codec (some file_keys) method handler ctx req w).1
      → idempotency_interceptor codec (some file_keys) method handler' ctx' req' v ≡ (done p, v)
  idempotency_interceptor-retry handler handler' ctx ctx' req req' p hash w v keeps writes given e
        e' hashed hashed' success left =
      let first = keyed-run_once codec method key handler ctx req w writes given e in
      let (usable, r, at, has) =
        run_once-stores handler ctx req p hash w keeps hashed (rw first at success) in
      let here : entry codec method key v ≡ some r = (rw first at left) ∙ at in
      keyed-run_once codec method key handler' ctx' req' v writes given e'
      ∙ run_once-Holds codec method key handler' ctx' req' p hash v hashed' (usable, r, here, has)
