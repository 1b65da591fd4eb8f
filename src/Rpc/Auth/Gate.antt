-- ===== src/Rpc/Auth/Gate.antt =====
-- Who passes `AuthUnaryInterceptor`.
use modelo_man.Base.{
  String, not, true, false, Option, ◌&&◌, none, some, ◌≡◌, refl, ◌∙◌, ◌==◌, inl, inr, Bool-cases,
  is_found, arith, ◌⊎◌, ◌≢◌, eq_iff,
}
use modelo_man.Rpc.Contract.{requires_authentication, required_scope}
use modelo_man.Rpc.Contract.Coverage.{is_found-required_scope}
use modelo_man.Rpc.Types.{
  Code, status, AgentPrincipal, Context, Payload, Reply, failed, Handler, Codec,
}
use modelo_man.Rpc.Auth.{
  extract_token, has_scope, KeyAnswer, unavailable, rejected, accepted, AuthConfig, ask_keys,
  with_legacy, lacks_scope, admit, auth_interceptor,
}

-- The principal was given the scope that the table has for the method.
abbrev pub MayCall : String → AgentPrincipal → Type 0
MayCall method p = (s : String) × (required_scope method ≡ some s) × (has_scope p.scopes s ≡ true)

-- The reply refuses the call.
abbrev pub IsRefusal : Reply → Type 0
IsRefusal r = (c : Code) × (m : String) × (r ≡ failed (status c m))

-- The outcome of a call after the keys were asked.
abbrev pub Outcome :
    {W : Type 0} → String → Handler W → KeyAnswer → Context → Payload → W → Reply × W → Type 0
Outcome method handler answer ctx req w r =
    ((p : AgentPrincipal) × (answer ≡ accepted p)
      × MayCall method p
      × (r ≡ handler (record ctx { principal = some p }) req w))
    ⊎ (IsRefusal r.0 × (r.1 ≡ w))

module _ {W : Type 0} (codec : Codec) (config : AuthConfig W) (method : String)
    (protected : requires_authentication method ≡ true) where
  scope_of : (o : Option String) → is_found o ≡ true → (s : String) × (o ≡ some s)
  scope_of none e = cc
  scope_of (some s) e = (s, refl)

  lacks_scope-MayCall :
      (p : AgentPrincipal) → lacks_scope codec config method p ≡ false → MayCall method p
  unfolding lacks_scope
  lacks_scope-MayCall p e =
      let (s, at) = scope_of (required_scope method) (is_found-required_scope method ∙ protected) in
      (s, at, ground (arith, at))

  admit-Outcome :
      (handler : Handler W) (answer : KeyAnswer) (ctx : Context) (req : Payload) (w : W)
      → Outcome method handler answer ctx req w (admit codec config method handler answer ctx req w)
  unfolding admit
  admit-Outcome handler unavailable ctx req w = inr ((_, _, refl), refl)
  admit-Outcome handler rejected ctx req w = inr ((_, _, refl), refl)
  admit-Outcome handler (accepted p) ctx req w =
      elim (Bool-cases (lacks_scope codec config method p)) [
        | inl e ↦ inr (rw e ((_, _, refl), refl))
        | inr e ↦ inl (p, refl, lacks_scope-MayCall p e, rw e refl)
      ]

  -- A call of a protected method reaches the handler only with a token that is not empty, for which
  -- the keys or the shared token accepted a principal with the scope of the method. The handler then
  -- runs once, with this principal in its context. Every other call is refused with a status, and
  -- changes nothing beyond what asking for the key did.
  pub auth_interceptor-Outcome :
      (handler : Handler W) (ctx : Context) (req : Payload) (w : W)
      → ((extract_token ctx ≢ "")
          × (let (answer, w') = ask_keys codec config (extract_token ctx) w in
              Outcome method handler
                (with_legacy codec config (extract_token ctx) answer)
                ctx
                req
                w'
                (auth_interceptor codec config method handler ctx req w)))
        ⊎ ((extract_token ctx ≡ "")
            × IsRefusal (auth_interceptor codec config method handler ctx req w).0
            × ((auth_interceptor codec config method handler ctx req w).1 ≡ w))
  unfolding auth_interceptor
  auth_interceptor-Outcome handler ctx req w = elim (Bool-cases (extract_token ctx == "")) [
    | inl e ↦ inr (rw (protected, e) ((eq_iff _ _).0 e, (_, _, refl), refl))
    | inr e ↦ inl (
      λ empty. cc (e, (eq_iff _ _).1 empty),
      rw (protected, e) (admit-Outcome handler _ ctx req _),
    )
  ]

  unasked :
      (token : String) (w : W)
      → config.key_auth ≡ none
      → ask_keys codec config token w ≡ (rejected, w)
  unfolding ask_keys
  unasked token w keyless = rw keyless refl

  unlegacy :
      (token : String)
      → (config.allow_legacy_token && not (config.token == "")) ≡ false
      → with_legacy codec config token rejected ≡ rejected
  unfolding with_legacy
  unlegacy token closed = ground arith

  -- Where there is no store of keys and the shared token is not allowed or is empty, every call of a
  -- protected method is refused with a status, and changes nothing.
  pub auth_interceptor-closed :
      (handler : Handler W) (ctx : Context) (req : Payload) (w : W)
      → config.key_auth ≡ none
      → (config.allow_legacy_token && not (config.token == "")) ≡ false
      → IsRefusal (auth_interceptor codec config method handler ctx req w).0
        × ((auth_interceptor codec config method handler ctx req w).1 ≡ w)
  unfolding auth_interceptor
  auth_interceptor-closed handler ctx req w keyless closed =
      elim (Bool-cases (extract_token ctx == "")) [
        | inl e ↦ rw (protected, e) ((_, _, refl), refl)
        | inr e ↦
            rw
              (
                protected,
                e,
                unasked (extract_token ctx) w keyless,
                unlegacy (extract_token ctx) closed,
              )
              ((_, _, refl), refl)
      ]
