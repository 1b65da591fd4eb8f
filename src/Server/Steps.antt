-- ===== src/Server/Steps.antt =====
-- Reading a request and writing a response change nothing.
use modelo_man.Base.{String, Option, none, some}
use modelo_man.Domain.{AppError}
use modelo_man.Store.{World}
use modelo_man.Store.Keys.{Keeps, keeps_rules}
use modelo_man.Rpc.Types.{Fields}
use modelo_man.Server.Wire.{Wire, Response, require, decode_struct, to_struct, to_list}

module _ {F X : Type 0} (view : World F → X) where
  require-Keeps : {A : Type 0} (o : Option A) (e : AppError) → Keeps view (require o e)
  unfolding require
  require-Keeps none e = search keeps_rules
  require-Keeps (some a) e = search keeps_rules

  pub decode_struct-Keeps :
      (wire : Wire F) {T : Type 0} (read : String → Option T) (input : Fields)
      → Keeps view (decode_struct wire read input)
  unfolding decode_struct
  decode_struct-Keeps wire read input = search (keeps_rules, require-Keeps) depth 20

  pub to_struct-Keeps : (wire : Wire F) (value : Response F) → Keeps view (to_struct wire value)
  unfolding to_struct
  to_struct-Keeps wire value = search (keeps_rules, require-Keeps) depth 20

  pub to_list-Keeps : (wire : Wire F) (value : Response F) → Keeps view (to_list wire value)
  unfolding to_list
  to_list-Keeps wire value = search (keeps_rules, require-Keeps) depth 20
