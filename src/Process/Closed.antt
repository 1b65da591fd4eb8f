-- ===== src/Process/Closed.antt =====
-- A server that is started without settings.
use modelo_man.Base.{String, Bool, true, false, Option, none, ◌≡◌, refl, arith, if◌then◌else◌}
use modelo_man.Rpc.Contract.{requires_authentication}
use modelo_man.Rpc.Types.{Context, Payload, Handler, Codec}
use modelo_man.Rpc.Auth.{AuthConfig, KeyAnswer, auth_interceptor}
use modelo_man.Rpc.Auth.Gate.{IsRefusal, auth_interceptor-closed}
use modelo_man.Process.{ServerConfig, env_bool_or_default, load_config}

-- What `main` gives to `AuthUnaryInterceptor`, with a store of keys or none.
abbrev pub auth_config :
    {W : Type 0} → ServerConfig → Option (String → W → KeyAnswer × W) → AuthConfig W
auth_config cfg keys = record {
  token = cfg.auth_token;
  allow_legacy_token = cfg.allow_legacy_auth;
  key_auth = keys;
}

unset : (b : Bool) → b ≡ true → (c : Bool) → (if b then false else c) ≡ false
unset b e c = ground arith

-- Where ALLOW_LEGACY_AUTH_TOKEN is not set and the store keeps no keys of agents, as the file store
-- does not, the server refuses every call of a protected method with a status, and the call changes
-- nothing, whatever AUTH_TOKEN is.
pub auth_interceptor-unset :
    {W : Type 0} (codec : Codec) (getenv : String → String) (method : String) (handler : Handler W)
    (ctx : Context) (req : Payload) (w : W)
    → getenv "ALLOW_LEGACY_AUTH_TOKEN" ≡ ""
    → requires_authentication method ≡ true
    → IsRefusal
        (auth_interceptor codec (auth_config (load_config getenv) none) method handler ctx req w).0
      × ((auth_interceptor codec (auth_config (load_config getenv) none) method handler ctx req w).1
          ≡ w)
unfolding load_config env_bool_or_default
auth_interceptor-unset codec getenv method handler ctx req w absent protected =
    auth_interceptor-closed codec (auth_config (load_config getenv) none) method protected handler
      ctx req w refl (rw absent refl)
