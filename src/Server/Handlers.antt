-- ===== src/Server/Handlers.antt =====
-- The body that the handlers of server.go share: each decodes the message and runs its method,
-- through the interceptor where there is one.
use modelo_man.Base.{String, Option, none, some}
use modelo_man.Store.{World, Act}
use modelo_man.Rpc.Types.{
  RpcError, Fields, Payload, struct, empty, Context, Reply, failed, panicked, Handler, Interceptor,
}
use modelo_man.Rpc.Idempotency.{reply_of}

-- What `decoder(request)` makes of the bytes of the call.
pub data Decoded (A : Type 0) : Type 0 where
  decoded : A → Decoded A
  refused : RpcError → Decoded A

-- The decoder, on `new(structpb.Struct)` and on `new(emptypb.Empty)`.
pub record Decoder : Type 0 where
  pub into_struct : Decoded Fields
  pub into_empty : Decoded (Unit {0})

-- The type of the request.
pub data Input : Type 0 where
  of_struct of_empty : Input

-- What the handlers of the table differ in: the type of the request, the name that they give to the
-- interceptor and the method that they run.
pub record UnaryHandler (F : Type 0) : Type 0 where
  pub input : Input
  pub full_method : String
  pub handler : Handler (World F)

abbrev pub wrapped : Decoded Fields → Decoded Payload
wrapped (decoded fields) = decoded (struct fields)
wrapped (refused e) = refused e

abbrev pub wrapped_empty : Decoded (Unit {0}) → Decoded Payload
wrapped_empty (decoded _) = decoded empty
wrapped_empty (refused e) = refused e

abbrev pub read_request : Input → Decoder → Decoded Payload
read_request of_struct decoder = wrapped decoder.into_struct
read_request of_empty decoder = wrapped_empty decoder.into_empty

module _ {F : Type 0} where
  -- `srv.(HubRPCServer).M(ctx, req.(*structpb.Struct))`; another type of request panics.
  unfoldable pub with_struct : (Fields → Act F Payload) → Handler (World F)
  with_struct call ctx (struct fields) w = let (r, w') = call fields w in (reply_of r, w')
  with_struct call ctx _ w = (panicked, w)

  -- `srv.(HubRPCServer).M(ctx, req.(*emptypb.Empty))`.
  unfoldable pub with_empty : Act F Payload → Handler (World F)
  with_empty call ctx empty w = let (r, w') = call w in (reply_of r, w')
  with_empty call ctx _ w = (panicked, w)

  unfoldable pub through : Option (Interceptor (World F)) → UnaryHandler F → Handler (World F)
  through none m ctx req w = m.handler ctx req w
  through (some interceptor) m ctx req w = interceptor m.full_method m.handler ctx req w

  abbrev pub answer :
      Option (Interceptor (World F))
      → UnaryHandler F
      → Context
      → Decoded Payload
      → World F
      → Reply × World F
  answer interceptor m ctx (refused e) w = (failed e, w)
  answer interceptor m ctx (decoded req) w = through interceptor m ctx req w

  -- The body of each handler.
  unfoldable pub invoke :
      Option (Interceptor (World F))
      → UnaryHandler F
      → Context
      → Decoder
      → World F
      → Reply × World F
  unfolding through
  invoke interceptor m ctx decoder w = answer interceptor m ctx (read_request m.input decoder) w
