-- ===== src/Rpc/Auth.antt =====
-- `AuthUnaryInterceptor` of interceptors.go.
pub mod Gate
use modelo_man.Base.{
  String, Bool, false, not, ◌&&◌, Option, none, some, List, [], ◌∷◌, ◌||◌, ◌==◌, lookup, trim_space,
  strip_prefix, if◌then◌else◌,
}
use modelo_man.Rpc.Contract.{requires_authentication, required_scope, default_agent_key_scopes}
use modelo_man.Rpc.Types.{
  Code, status, AgentPrincipal, Context, failed, Handler, Interceptor, Codec,
}

-- `first(md.Get(key))`; a key of the metadata is in lower case.
unfoldable pub first_of_key : String → List (String × List String) → String
unfolding lookup
first_of_key key md = elim (lookup key md) [ none ↦ "" | some [] ↦ "" | some (v ∷ _) ↦ v ]

abbrev bearer_token : String → String
bearer_token header = elim (strip_prefix "Bearer " header) [ none ↦ "" | some t ↦ trim_space t ]

token_in : List (String × List String) → String
unfolding first_of_key
token_in md =
    if trim_space (first_of_key "x-modeloman-token" md) == ""
    then bearer_token (trim_space (first_of_key "authorization" md))
    else trim_space (first_of_key "x-modeloman-token" md)

-- `extractToken`.
unfoldable pub extract_token : Context → String
unfolding token_in
extract_token ctx = elim ctx.metadata [ none ↦ "" | some md ↦ token_in md ]

-- `hasScope`.
unfoldable pub has_scope : List String → String → Bool
has_scope [] required = false
has_scope (scope ∷ scopes) required = trim_space scope == required || has_scope scopes required

-- What `AuthenticateAgentKey` answers: an error, no such key, or the principal.
pub data KeyAnswer : Type 0 where
  unavailable : KeyAnswer
  rejected : KeyAnswer
  accepted : AgentPrincipal → KeyAnswer

-- The settings of the interceptor. No key authenticator is there with the file store.
pub record AuthConfig (W : Type 0) : Type 0 where
  pub token : String
  pub allow_legacy_token : Bool
  pub key_auth : Option (String → W → KeyAnswer × W)

abbrev pub legacy_principal : AgentPrincipal
legacy_principal = record {
  agent_id = "legacy-shared-token";
  key_id = "legacy_shared_token";
  scopes = default_agent_key_scopes;
}

module _ {W : Type 0} (codec : Codec) (config : AuthConfig W) where
  -- `legacyTokenMatch` compares the hashes.
  unfoldable pub legacy_token_match : String → String → Bool
  legacy_token_match got expected = codec.sha256_hex got == codec.sha256_hex expected

  unfoldable pub ask_keys : String → W → KeyAnswer × W
  ask_keys token w = elim config.key_auth [ none ↦ (rejected, w) | some ask ↦ ask token w ]

  -- The shared token, where no key was accepted.
  unfoldable pub with_legacy : String → KeyAnswer → KeyAnswer
  unfolding legacy_token_match
  with_legacy token unavailable = unavailable
  with_legacy token (accepted p) = accepted p
  with_legacy token rejected =
      if config.allow_legacy_token
        && not (config.token == "")
        && legacy_token_match token config.token
      then accepted legacy_principal
      else rejected

  -- Whether the scopes of the principal are too few for the method.
  unfoldable pub lacks_scope : String → AgentPrincipal → Bool
  lacks_scope method p = elim (required_scope method) [
    | none ↦ false
    | some s ↦ not (has_scope p.scopes s)
  ]

  unfoldable pub admit : String → Handler W → KeyAnswer → Handler W
  unfolding lacks_scope
  admit method handler unavailable ctx req w =
      (failed (status Code.internal "authentication subsystem unavailable"), w)
  admit method handler rejected ctx req w =
      (failed (status Code.unauthenticated "invalid authentication token"), w)
  admit method handler (accepted p) ctx req w =
      if lacks_scope method p
      then (failed (status Code.permission_denied "api key scope does not allow this method"), w)
      else handler (record ctx { principal = some p }) req w

  unfoldable pub auth_interceptor : Interceptor W
  unfolding ask_keys with_legacy admit
  auth_interceptor method handler ctx req w =
      if not (requires_authentication method)
      then handler ctx req w
      else if extract_token ctx == ""
      then (failed (status Code.unauthenticated "missing authentication token"), w)
      else let (answer, w') = ask_keys (extract_token ctx) w in
        admit method handler (with_legacy (extract_token ctx) answer) ctx req w'
