-- ===== src/Rpc/Chain/Answers.antt =====
-- What the chain of the interceptors answers, whatever the handler does.
use modelo_man.Base.{String, Bool, none, some, Option, ◌==◌, Bool-cases, inl, inr}
use modelo_man.Domain.{ErrorCode}
use modelo_man.Rpc.Contract.{requires_authentication}
use modelo_man.Rpc.Types.{
  Code, RpcError, app, status, Context, Payload, Reply, done, failed, panicked, Handler, Codec,
}
use modelo_man.Rpc.Auth.{
  AuthConfig, KeyAnswer, unavailable, rejected, accepted, extract_token, lacks_scope, admit,
  auth_interceptor,
}
use modelo_man.Rpc.Limiter.{rate_limit_interceptor}
use modelo_man.Rpc.Idempotency.{IdempotencyStore, idempotency_interceptor}
use modelo_man.Rpc.Chain.{
  normalize_error, error_interceptor, serve, normalize_reply, recover_reply, status_of,
}

-- An error that gRPC sends with a code other than Unknown.
abbrev pub IsStatus : RpcError → Type 0
IsStatus (app e) = ⊥
IsStatus (status Code.unknown m) = ⊥
IsStatus (status c m) = Unit

-- The reply is a response or a status, or the call panicked.
abbrev IsNormal : Reply → Type 0
IsNormal (done p) = Unit
IsNormal (failed e) = IsStatus e
IsNormal panicked = Unit

-- The reply is a response or a status.
abbrev pub IsAnswer : Reply → Type 0
IsAnswer (done p) = Unit
IsAnswer (failed e) = IsStatus e
IsAnswer panicked = ⊥

mapped-IsStatus : (c : ErrorCode) (m : String) → IsStatus (status (status_of c) m)
mapped-IsStatus ErrorCode.invalid_argument m = tt
mapped-IsStatus ErrorCode.not_found m = tt
mapped-IsStatus ErrorCode.conflict m = tt
mapped-IsStatus ErrorCode.unauthenticated m = tt
mapped-IsStatus ErrorCode.failed_precondition m = tt
mapped-IsStatus ErrorCode.resource_exhausted m = tt
mapped-IsStatus ErrorCode.internal m = tt

normalize_error-IsStatus : (e : RpcError) → IsStatus (normalize_error e)
unfolding normalize_error
normalize_error-IsStatus (app e) = mapped-IsStatus e.code e.message
normalize_error-IsStatus (status Code.unknown m) = tt
normalize_error-IsStatus (status Code.invalid_argument m) = tt
normalize_error-IsStatus (status Code.not_found m) = tt
normalize_error-IsStatus (status Code.already_exists m) = tt
normalize_error-IsStatus (status Code.unauthenticated m) = tt
normalize_error-IsStatus (status Code.permission_denied m) = tt
normalize_error-IsStatus (status Code.failed_precondition m) = tt
normalize_error-IsStatus (status Code.resource_exhausted m) = tt
normalize_error-IsStatus (status Code.internal m) = tt

normalize_reply-IsNormal : (r : Reply) → IsNormal (normalize_reply r)
normalize_reply-IsNormal (done p) = tt
normalize_reply-IsNormal (failed e) = normalize_error-IsStatus e
normalize_reply-IsNormal panicked = tt

recover_reply-IsAnswer : (r : Reply) → IsNormal r → IsAnswer (recover_reply r)
recover_reply-IsAnswer (done p) n = tt
recover_reply-IsAnswer (failed e) n = n
recover_reply-IsAnswer panicked n = tt

module _ {W : Type 0} (codec : Codec) (config : AuthConfig W) (method : String) where
  -- The authentication adds no reply but statuses.
  module _ (handler : Handler W)
      (normal : (c : Context) (q : Payload) (v : W) → IsNormal (handler c q v).0) where
    admit-IsNormal :
        (answer : KeyAnswer) (ctx : Context) (req : Payload) (w : W)
        → IsNormal (admit codec config method handler answer ctx req w).0
    unfolding admit
    admit-IsNormal unavailable ctx req w = tt
    admit-IsNormal rejected ctx req w = tt
    admit-IsNormal (accepted p) ctx req w = elim (Bool-cases (lacks_scope codec config method p)) [
      | inl e ↦ rw e tt
      | inr e ↦ rw e (normal _ req w)
    ]

    auth_interceptor-IsNormal :
        (ctx : Context) (req : Payload) (w : W)
        → IsNormal (auth_interceptor codec config method handler ctx req w).0
    unfolding auth_interceptor
    auth_interceptor-IsNormal ctx req w = elim (Bool-cases (requires_authentication method)) [
      | inr e ↦ rw e (normal ctx req w)
      | inl e ↦ elim (Bool-cases (extract_token ctx == "")) [
        | inl t ↦ rw (e, t) tt
        | inr t ↦ rw (e, t) (admit-IsNormal _ ctx req _)
      ]
    ]

  rate_limit_interceptor-IsNormal :
      (limit : Option (Context → W → Bool × W)) (handler : Handler W)
      → ((c : Context) (q : Payload) (v : W) → IsNormal (handler c q v).0)
      → (ctx : Context) (req : Payload) (w : W)
      → IsNormal (rate_limit_interceptor limit method handler ctx req w).0
  unfolding rate_limit_interceptor
  rate_limit_interceptor-IsNormal none handler normal ctx req w = normal ctx req w
  rate_limit_interceptor-IsNormal (some limit) handler normal ctx req w =
      elim (Bool-cases (limit ctx w).0) [
        | inl e ↦ rw e (normal ctx req (limit ctx w).1)
        | inr e ↦ rw e tt
      ]

  -- Whatever the handler does, a panic included, the caller gets a response or an error with a status
  -- code other than Unknown.
  pub serve-IsAnswer :
      (limit : Option (Context → W → Bool × W)) (store : Option (IdempotencyStore W))
      (handler : Handler W) (ctx : Context) (req : Payload) (w : W)
      → IsAnswer (serve codec config limit store method handler ctx req w).0
  unfolding serve
  serve-IsAnswer limit store handler ctx req w = recover_reply-IsAnswer _ (
      auth_interceptor-IsNormal _
        (rate_limit_interceptor-IsNormal limit
          (error_interceptor method (idempotency_interceptor codec store method handler))
          (λ c q v. normalize_reply-IsNormal _))
        ctx req w)
