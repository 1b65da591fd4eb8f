-- ===== src/Server/Calls.antt =====
-- Calls of registered methods through the interceptors.
use modelo_man.Base.{
  String, Bool, true, false, ◌||◌, Option, none, some, ◌≡◌, ◌≢◌, refl, ap, ◌∙◌, inl, inr, arith,
  contains, lookup, if◌then◌else◌,
}
use modelo_man.Domain.{Host}
use modelo_man.Store.{World, ok}
use modelo_man.Store.Keys.{keys_of, stored}
use modelo_man.Rpc.Contract.{
  full_method, write_methods, private_read_methods, public_read_methods, requires_authentication,
}
use modelo_man.Rpc.Types.{Context, Payload, done, Reply, Handler, Interceptor, Codec}
use modelo_man.Rpc.Auth.{AuthConfig, extract_token, auth_interceptor}
use modelo_man.Rpc.Auth.Gate.{IsRefusal, auth_interceptor-Outcome}
use modelo_man.Rpc.Limiter.{rate_limit_interceptor}
use modelo_man.Rpc.Chain.{recovery_interceptor, error_interceptor, recover_reply, serve}
use modelo_man.Rpc.Idempotency.{
  IdempotencyStore, file_keys, extract_idempotency_key, idempotency_request_hash,
  idempotency_interceptor,
}
use modelo_man.Rpc.Idempotency.Entries.{entry}
use modelo_man.Rpc.Idempotency.Retry.{RoundTrips, idempotency_interceptor-retry}
use modelo_man.Server.Wire.{Wire}
use modelo_man.Server.Handlers.{
  UnaryHandler, Decoder, Decoded, decoded, refused, read_request, answer, through, invoke,
}
use modelo_man.Server.Table.{service_methods}
use modelo_man.Server.Registered.{
  HandlerKeeps, IsConfined, registered-IsNamed, registered-IsConfined,
}

or_left : {a b : Bool} → (a || b) ≡ true → b ≡ false → a ≡ true
or_left e f = ground arith

listed_or :
    (write private public : Bool)
    → (write || private || public) ≡ true
    → ((if write then true else private) || public) ≡ true
listed_or write private public e = ground arith

module _ {W : Type 0} (codec : Codec) (config : AuthConfig W) (method : String)
    (protected : requires_authentication method ≡ true) where
  tokenless :
      (handler : Handler W) (ctx : Context) (req : Payload) (w : W)
      → extract_token ctx ≡ ""
      → IsRefusal (auth_interceptor codec config method handler ctx req w).0
        × ((auth_interceptor codec config method handler ctx req w).1 ≡ w)
  tokenless handler ctx req w absent =
      elim (auth_interceptor-Outcome codec config method protected handler ctx req w) [
        | inl (given, _) ↦ elim (given absent) [ ]
        | inr (_, refusal, same) ↦ (refusal, same)
      ]

  recover-IsRefusal : (r : Reply) → IsRefusal r → IsRefusal (recover_reply r)
  recover-IsRefusal r (c, t, e) = (c, t, ap recover_reply e)

  tokenless-serve :
      (limit : Option (Context → W → Bool × W)) (store : Option (IdempotencyStore W))
      (handler : Handler W) (ctx : Context) (req : Payload) (w : W)
      → extract_token ctx ≡ ""
      → IsRefusal (serve codec config limit store method handler ctx req w).0
        × ((serve codec config limit store method handler ctx req w).1 ≡ w)
  unfolding serve recovery_interceptor
  tokenless-serve limit store handler ctx req w absent =
      let inner : Handler W =
        rate_limit_interceptor limit method
          (error_interceptor method (idempotency_interceptor codec store method handler)) in
      let (refusal, same) = tokenless inner ctx req w absent in (recover-IsRefusal _ refusal, same)

answer-keeps :
    {F X : Type 0} (view : World F → X) (interceptor : Option (Interceptor (World F)))
    (m : UnaryHandler F) (ctx : Context) (d : Decoded Payload) (w : World F)
    → HandlerKeeps view (through interceptor m)
    → view (answer interceptor m ctx d w).1 ≡ view w
answer-keeps view interceptor m ctx (decoded req) w kept = kept ctx req w
answer-keeps view interceptor m ctx (refused e) w kept = refl

bypassed :
    {W : Type 0} (codec : Codec) (store : Option (IdempotencyStore W)) (method : String)
    (handler : Handler W) (ctx : Context) (req : Payload) (w : W)
    → contains write_methods method ≡ false
    → idempotency_interceptor codec store method handler ctx req w ≡ handler ctx req w
unfolding idempotency_interceptor
bypassed codec none method handler ctx req w reads = refl
bypassed codec (some store) method handler ctx req w reads = rw reads refl

reader-keeps :
    {F : Type 0} (name : String) (m : UnaryHandler F)
    → IsConfined name m
    → contains write_methods m.full_method ≡ false
    → HandlerKeeps stored m.handler
reader-keeps name m (inl (writes, kept)) reads = cc (writes, reads)
reader-keeps name m (inr (_, kept)) reads = kept

writer-keeps :
    {F : Type 0} (name : String) (m : UnaryHandler F)
    → IsConfined name m
    → contains write_methods m.full_method ≡ true
    → HandlerKeeps keys_of m.handler
writer-keeps name m (inl (_, kept)) writes = kept
writer-keeps name m (inr (reads, kept)) writes = cc (writes, reads)

module _ (h : Host) (wire : Wire h.F) (source name : String) (m : UnaryHandler h.F)
    (registered : lookup name (service_methods h wire source) ≡ some m) where
  open h use {F}

  -- A call of a registered method whose message is decoded goes to the interceptor under the name
  -- that the method is registered with, and the method requires authentication or is a public read.
  pub invoke-registered :
      (interceptor : Interceptor (World F)) (ctx : Context) (decoder : Decoder) (req : Payload)
      (w : World F)
      → read_request m.input decoder ≡ decoded req
      → (invoke (some interceptor) m ctx decoder w
          ≡ interceptor (full_method name) m.handler ctx req w)
        × ((requires_authentication (full_method name)
              || contains public_read_methods (full_method name))
            ≡ true)
  unfolding invoke requires_authentication
  invoke-registered interceptor ctx decoder req w read =
      let (same, listed) = registered-IsNamed h wire source name m registered in
      (
        ap (λ r. answer (some interceptor) m ctx r w) read
            ∙ ap (λ n. interceptor n m.handler ctx req w) same,
        listed_or (contains write_methods (full_method name))
            (contains private_read_methods (full_method name))
            (contains public_read_methods (full_method name)) (rw same at listed),
      )

  -- A call of a registered method that is not a public read, and that comes without a token, is
  -- refused with a status by the chain of interceptors, and changes nothing.
  pub invoke-unauthenticated :
      (codec : Codec) (config : AuthConfig (World F))
      (limit : Option (Context → World F → Bool × World F))
      (store : Option (IdempotencyStore (World F))) (ctx : Context) (decoder : Decoder)
      (req : Payload) (w : World F)
      → read_request m.input decoder ≡ decoded req
      → contains public_read_methods (full_method name) ≡ false
      → extract_token ctx ≡ ""
      → IsRefusal (invoke (some (serve codec config limit store)) m ctx decoder w).0
        × ((invoke (some (serve codec config limit store)) m ctx decoder w).1 ≡ w)
  invoke-unauthenticated codec config limit store ctx decoder req w read private absent =
      let (run, guarded) =
        invoke-registered (serve codec config limit store) ctx decoder req w read in
      let protected = or_left guarded private in
      rw run (
        tokenless-serve codec config (full_method name) protected limit store m.handler ctx req w
          absent)

  -- A call of a registered method outside `WriteMethods`, with or without an idempotency interceptor
  -- around it, leaves the store and the disk as they were.
  pub stored-invoke :
      (codec : Codec) (store : Option (IdempotencyStore (World F))) (ctx : Context)
      (decoder : Decoder) (w : World F)
      → contains write_methods (full_method name) ≡ false
      → (stored (invoke none m ctx decoder w).1 ≡ stored w)
        × (stored (invoke (some (idempotency_interceptor codec store)) m ctx decoder w).1
            ≡ stored w)
  unfolding invoke through
  stored-invoke codec store ctx decoder w reads =
      let (same, _) = registered-IsNamed h wire source name m registered in
      let reads' : contains write_methods m.full_method ≡ false = rw same reads in
      let kept =
        reader-keeps name m (registered-IsConfined h wire source name m registered) reads' in
      let around : HandlerKeeps stored (through (some (idempotency_interceptor codec store)) m) =
        λ c q u.
          ap (λ (x : Reply × World F). stored x.1)
            (bypassed codec store m.full_method m.handler c q u reads')
          ∙ kept c q u in
      (
        answer-keeps stored none m ctx (read_request m.input decoder) w kept,
        answer-keeps stored (some (idempotency_interceptor codec store)) m ctx
            (read_request m.input decoder) w around,
      )

  -- A call of a registered write method that is made again is answered from the store: where a call
  -- with an idempotency key returned a response, a call of the method with this key and the same
  -- request hash, from any world where the entry of the key is what the first call left, returns that
  -- response and leaves the world as it is; if JSON gives objects back.
  pub invoke-retry :
      (codec : Codec) (law : RoundTrips codec) (key : String) (ctx ctx' : Context)
      (decoder decoder' : Decoder) (req req' p : Payload) (hash : String) (w v : World F)
      → contains write_methods (full_method name) ≡ true
      → read_request m.input decoder ≡ decoded req
      → read_request m.input decoder' ≡ decoded req'
      → key ≢ ""
      → extract_idempotency_key ctx req ≡ key
      → extract_idempotency_key ctx' req' ≡ key
      → idempotency_request_hash codec req ≡ ok hash
      → idempotency_request_hash codec req' ≡ ok hash
      → (invoke (some (idempotency_interceptor codec (some file_keys))) m ctx decoder w).0 ≡ done p
      → entry codec (full_method name) key v
        ≡ entry codec
            (full_method name)
            key
            (invoke (some (idempotency_interceptor codec (some file_keys))) m ctx decoder w).1
      → invoke (some (idempotency_interceptor codec (some file_keys))) m ctx' decoder' v
        ≡ (done p, v)
  invoke-retry codec law key ctx ctx' decoder decoder' req req' p hash w v writes read read' given e
        e' hashed hashed' success left =
      let (same, _) = registered-IsNamed h wire source name m registered in
      let kept =
        writer-keeps name m (registered-IsConfined h wire source name m registered)
          (rw same writes) in
      let once = idempotency_interceptor codec (some file_keys) in
      let (first, _) = invoke-registered once ctx decoder req w read in
      let (again, _) = invoke-registered once ctx' decoder' req' v read' in
      again
      ∙ idempotency_interceptor-retry codec law (full_method name) key m.handler m.handler ctx ctx'
          req req' p hash w v kept writes given e e' hashed hashed' (rw first at success)
          (rw first at left)
