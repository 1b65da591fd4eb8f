-- ===== src/Rpc/Types.antt =====
-- What the interceptors of internal/transport/grpc/interceptors.go pass along: payloads, contexts,
-- replies and handlers, and what they take from outside the repository.
use modelo_man.Base.{String, Bool, Option, List}
use modelo_man.Domain.{AppError}

-- The status codes of gRPC that the code names.
pub data Code : Type 0 where
  invalid_argument not_found already_exists unauthenticated permission_denied : Code
  failed_precondition resource_exhausted internal unknown : Code

-- An error: one of the domain, or one that carries a status.
pub data RpcError : Type 0 where
  app : AppError → RpcError
  status : Code → String → RpcError

-- A value of a `structpb.Struct`.
mutual
  pub data Value : Type 0 where
    null : Value
    number : String → Value
    flag : Bool → Value
    text : String → Value
    list : Values → Value
    object : Fields → Value

  pub data Values : Type 0 where
    nil : Values
    cons : Value → Values → Values

  pub data Fields : Type 0 where
    end : Fields
    field : String → Value → Fields → Fields

-- A request or a response: a `*structpb.Struct`, a `*structpb.ListValue` or an `*emptypb.Empty`.
pub data Payload : Type 0 where
  struct : Fields → Payload
  list_value : Values → Payload
  empty : Payload

-- `AgentPrincipal` of internal/store/store.go.
pub record AgentPrincipal : Type 0 where
  pub agent_id : String
  pub key_id : String
  pub scopes : List String

-- The context of a call: the incoming metadata, the principal and the peer's address.
pub record Context : Type 0 where
  pub metadata : Option (List (String × List String))
  pub principal : Option AgentPrincipal
  pub peer : Option String

-- How a handler ends.
pub data Reply : Type 0 where
  done : Payload → Reply
  failed : RpcError → Reply
  panicked : Reply

-- A handler on the state `W`, and an interceptor of the calls of one method.
abbrev pub Handler : Type 0 → Type 0
Handler W = Context → Payload → W → Reply × W

abbrev pub Interceptor : Type 0 → Type 0
Interceptor W = String → Handler W → Handler W

-- `encoding/json` on an object, `structpb.NewStruct`, and SHA-256 in hexadecimal.
pub record Codec : Type 0 where
  pub marshal : Fields → Option String
  pub unmarshal : String → Option Fields
  pub new_struct : Fields → Option Fields
  pub sha256_hex : String → String
