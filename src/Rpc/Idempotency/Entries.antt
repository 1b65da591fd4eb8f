-- ===== src/Rpc/Idempotency/Entries.antt =====
-- What `IdempotencyUnaryInterceptor` answers over the keys of `FileStore`, by the entry of the key.
use modelo_man.Base.{
  String, Bool, true, false, ◌||◌, Option, some, ◌≡◌, refl, ap, ◌==◌, inl, inr, Bool-cases, lookup,
  trim_space,
}
use modelo_man.Store.{IdempotencyRecord, World, Result, ok, err, entry_key, reserve_idempotency_key}
use modelo_man.Rpc.Types.{Context, Payload, done, Handler, Codec}
use modelo_man.Rpc.Idempotency.{
  file_keys, idempotency_request_hash, decode_idempotent_response, replay, run_once, reply_of,
}

-- The store refuses the key before it looks for it.
abbrev pub unusable : String → String → String → Bool
unusable method key hash = trim_space method == "" || trim_space key == "" || hash == ""

-- The response of an entry, where the call that it stands for is over and has this hash.
abbrev pub HasResponse : Codec → String → Payload → IdempotencyRecord → Type 0
HasResponse codec hash p r =
    (r.request_hash == hash ≡ true)
    × (r.completed ≡ true)
    × (decode_idempotent_response codec r.response_json ≡ ok p)

reply_of-done : (r : Result Payload) (p : Payload) → reply_of r ≡ done p → r ≡ ok p
reply_of-done (ok q) p e = cc
reply_of-done (err x) p e = cc

pub replay-done :
    (codec : Codec) (hash : String) (r : IdempotencyRecord) (p : Payload)
    → replay codec hash r ≡ done p
    → HasResponse codec hash p r
unfolding replay
replay-done codec hash r p e = elim (Bool-cases (r.request_hash == hash)) [
  | inl a ↦ elim (Bool-cases r.completed) [
    | inl c ↦ (a, c, reply_of-done _ p (rw (a, c) at e))
    | inr c ↦ cc (rw (a, c) at e)
  ]
  | inr a ↦ cc (rw a at e)
]

pub replay-HasResponse :
    (codec : Codec) (hash : String) (r : IdempotencyRecord) (p : Payload)
    → HasResponse codec hash p r
    → replay codec hash r ≡ done p
unfolding replay
replay-HasResponse codec hash r p (a, c, d) = rw (a, c) (ap reply_of d)

module _ {F : Type 0} (codec : Codec) (method key : String) where
  abbrev pub entry : World F → Option IdempotencyRecord
  entry w = lookup (entry_key method key) w.store.idempotency

  -- The key stands for a call with this hash that is over, with this response.
  abbrev pub Holds : String → Payload → World F → Type 0
  Holds hash p w =
      (unusable method key hash ≡ false)
      × (r : IdempotencyRecord) × (entry w ≡ some r)
      × HasResponse codec hash p r

  pub reserve_found :
      (hash : String) (w : World F) (r : IdempotencyRecord)
      → unusable method key hash ≡ false
      → entry w ≡ some r
      → reserve_idempotency_key method key hash w ≡ (ok (r, false), w)
  unfolding reserve_idempotency_key
  reserve_found hash w r usable at = rw (usable, at) refl

  -- A key that holds a response gives it back, whatever the handler is, and changes nothing.
  pub run_once-Holds :
      (handler : Handler (World F)) (ctx : Context) (req p : Payload) (hash : String) (w : World F)
      → idempotency_request_hash codec req ≡ ok hash
      → Holds hash p w
      → run_once codec file_keys method key handler ctx req w ≡ (done p, w)
  unfolding run_once
  run_once-Holds handler ctx req p hash w hashed k =
      let (usable, r, at, has) = k in
      rw (hashed, reserve_found hash w r usable at, replay-HasResponse codec hash r p has) refl
