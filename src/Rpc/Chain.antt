-- ===== src/Rpc/Chain.antt =====
-- The recovery and error interceptors of interceptors.go, and the chain that
-- cmd/modeloman-server/main.go installs. The log has no effect on a reply and is left out.
pub mod Answers
use modelo_man.Base.{Bool, Option}
use modelo_man.Domain.{ErrorCode}
use modelo_man.Rpc.Types.{
  Code, RpcError, app, status, Context, Reply, failed, panicked, Interceptor, Codec,
}
use modelo_man.Rpc.Auth.{AuthConfig, auth_interceptor}
use modelo_man.Rpc.Limiter.{rate_limit_interceptor}
use modelo_man.Rpc.Idempotency.{IdempotencyStore, idempotency_interceptor}

abbrev pub status_of : ErrorCode → Code
status_of ErrorCode.invalid_argument = Code.invalid_argument
status_of ErrorCode.not_found = Code.not_found
status_of ErrorCode.conflict = Code.already_exists
status_of ErrorCode.unauthenticated = Code.unauthenticated
status_of ErrorCode.failed_precondition = Code.failed_precondition
status_of ErrorCode.resource_exhausted = Code.resource_exhausted
status_of ErrorCode.internal = Code.internal

-- `mapError`.
unfoldable pub map_error : RpcError → RpcError
map_error (app e) = status (status_of e.code) e.message
map_error (status c m) = status Code.internal "internal server error"

-- An error of the domain has the code Unknown, for it carries no status.
unfoldable pub normalize_error : RpcError → RpcError
unfolding map_error
normalize_error (app e) = map_error (app e)
normalize_error (status Code.unknown m) = map_error (status Code.unknown m)
normalize_error (status c m) = status c m

abbrev pub normalize_reply : Reply → Reply
normalize_reply (failed e) = failed (normalize_error e)
normalize_reply r = r

abbrev pub recover_reply : Reply → Reply
recover_reply panicked = failed (status Code.internal "internal server error")
recover_reply r = r

module _ {W : Type 0} where
  -- `ErrorUnaryInterceptor`.
  unfoldable pub error_interceptor : Interceptor W
  unfolding normalize_error
  error_interceptor method handler ctx req w =
      let (r, w') = handler ctx req w in (normalize_reply r, w')

  -- `RecoveryUnaryInterceptor`.
  unfoldable pub recovery_interceptor : Interceptor W
  recovery_interceptor method handler ctx req w =
      let (r, w') = handler ctx req w in (recover_reply r, w')

  -- The order of `grpc.ChainUnaryInterceptor`, the first outermost.
  unfoldable pub serve :
      Codec
      → AuthConfig W
      → Option (Context → W → Bool × W)
      → Option (IdempotencyStore W)
      → Interceptor W
  unfolding recovery_interceptor error_interceptor rate_limit_interceptor
  serve codec config limit store method handler = recovery_interceptor method (
      auth_interceptor codec config method (
        rate_limit_interceptor limit method
          (error_interceptor method (idempotency_interceptor codec store method handler))))
