-- ===== src/Checks/Web.antt =====
-- The theorems on HTTP and on the configuration of the server at concrete requests.
use modelo_man.Base.{String, ℤ, pos, Option, none, some, ◌≡◌, refl}
use modelo_man.Store.Keys.{stored}
use modelo_man.Rpc.Contract.{requires_authentication, method_create_task}
use modelo_man.Rpc.Types.{struct}
use modelo_man.Rpc.Auth.{auth_interceptor}
use modelo_man.Rpc.Auth.Gate.{IsRefusal}
use modelo_man.Http.{Request, serve_http}
use modelo_man.Http.ReadOnly.{stored-serve_http}
use modelo_man.Process.{load_config}
use modelo_man.Process.Closed.{auth_config, auth_interceptor-unset}
use modelo_man.Checks.Samples.{host, start}
use modelo_man.Checks.Calls.{codec, title_fields, with_token, respond}

abbrev ten : String → Option ℤ
ten raw = some (pos 10)

abbrev board : Request
board = record {
  path = "/api/leaderboard";
  query = λ name. "7";
  header = λ name. "";
  remote_addr = "10.0.0.1:5000";
}

stored-serve_http_example : stored (serve_http host ten board start).1 ≡ stored start
stored-serve_http_example = stored-serve_http host ten board start

abbrev no_environment : String → String
no_environment name = ""

auth_interceptor-unset_example :
    IsRefusal
      (auth_interceptor codec
        (auth_config (load_config no_environment) none)
        method_create_task
        respond
        with_token
        (struct title_fields)
        start).0
    × ((auth_interceptor codec
          (auth_config (load_config no_environment) none)
          method_create_task
          respond
          with_token
          (struct title_fields)
          start).1
        ≡ start)
unfolding requires_authentication
auth_interceptor-unset_example =
    auth_interceptor-unset codec no_environment method_create_task respond with_token
      (struct title_fields) start refl refl
