-- ===== src/Rpc/Limiter/Reached.antt =====
-- The buckets of a limiter after any calls.
use text.Mathlib.TextLemmas.{cons-append, nil-append}
use modelo_man.Base.{
  String, ℤ, Bool, true, false, Option, none, some, List, [], ◌∷◌, ◌≡◌, refl, subst, ap, inl, inr,
  Bool-cases, Option-cases, All, strip_prefix, trim_space, ◌==◌, ◌<>◌,
}
use modelo_man.Domain.{Host}
use modelo_man.Rpc.Types.{Context}
use modelo_man.Rpc.Limiter.{
  TokenBucketRateLimiterConfig, Buckets, remote_ip, limit_identifier, allow_identifier, allow_known,
  allow,
}
use modelo_man.Rpc.Limiter.Isolation.{TokenLaws, IsWithin, allow_identifier-IsWithin}

-- The burst of an identifier: one of a key has the burst of authenticated calls.
abbrev burst_for : {F : Type 0} → TokenBucketRateLimiterConfig F → Option String → F
burst_for c none = c.unauthenticated_burst
burst_for c (some key) = c.authenticated_burst

unfoldable pub burst_of : {F : Type 0} → TokenBucketRateLimiterConfig F → String → F
burst_of c id = burst_for c (strip_prefix "key:" id)

strip_prefix-key : (k : String) → strip_prefix "key:" ("key:" <> k) ≡ some k
unfolding strip_prefix
strip_prefix-key k =
    rw
      (
        cons-append "k" "ey:" k,
        cons-append "e" "y:" k,
        cons-append "y" ":" k,
        cons-append ":" "" k,
        nil-append k,
      )
      refl

strip_prefix-ip : (k : String) → strip_prefix "key:" ("ip:" <> k) ≡ none
unfolding strip_prefix
strip_prefix-ip k = ap (strip_prefix "key:") (cons-append "i" "p:" k)

abbrev HasBurst : {F : Type 0} → TokenBucketRateLimiterConfig F → String × Bool → Type 0
HasBurst c (id, true) = burst_of c id ≡ c.authenticated_burst
HasBurst c (id, false) = burst_of c id ≡ c.unauthenticated_burst

key-HasBurst :
    {F : Type 0} (c : TokenBucketRateLimiterConfig F) (k : String) → HasBurst c ("key:" <> k, true)
unfolding burst_of
key-HasBurst c k = ap (burst_for c) (strip_prefix-key k)

ip-HasBurst :
    {F : Type 0} (c : TokenBucketRateLimiterConfig F) (k : String) → HasBurst c ("ip:" <> k, false)
unfolding burst_of
ip-HasBurst c k = ap (burst_for c) (strip_prefix-ip k)

limit_identifier-HasBurst :
    {F : Type 0} (c : TokenBucketRateLimiterConfig F) (split_host : String → Option String)
    (ctx : Context)
    → HasBurst c (limit_identifier split_host ctx)
unfolding limit_identifier
limit_identifier-HasBurst c split_host ctx = elim (Option-cases ctx.principal) [
  | inl e ↦ rw e (ip-HasBurst c (remote_ip split_host ctx))
  | inr (p, e) ↦ elim (Bool-cases (trim_space p.key_id == "")) [
    | inl f ↦ rw (e, f) (ip-HasBurst c (remote_ip split_host ctx))
    | inr f ↦ rw (e, f) (key-HasBurst c p.key_id)
  ]
]

-- Calls one after the other, each with its instant.
abbrev pub allow_all :
    (h : Host)
    → (String → Option String)
    → TokenBucketRateLimiterConfig h.F
    → List (Context × ℤ)
    → Buckets h.F
    → Buckets h.F
allow_all h split_host c [] m = m
allow_all h split_host c ((ctx, now) ∷ calls) m =
    allow_all h split_host c calls (allow h split_host c ctx now m).1

module _ (h : Host) (laws : TokenLaws h) (split_host : String → Option String)
    (c : TokenBucketRateLimiterConfig h.F) where
  open h use {F}

  abbrev AllWithin : Buckets F → Type 0
  AllWithin m = All (IsWithin h laws (burst_of c)) m

  allow_as-AllWithin :
      (id : String) (rate burst : F) (now : ℤ) (m : Buckets F)
      → burst_of c id ≡ burst
      → AllWithin m
      → AllWithin (allow_identifier h c.bucket_ttl id rate burst now m).1
  allow_as-AllWithin id rate burst now m e a =
      subst (λ b. AllWithin (allow_identifier h c.bucket_ttl id rate b now m).1) e
        (allow_identifier-IsWithin h laws (burst_of c) c.bucket_ttl id rate now m a)

  allow_known-AllWithin :
      (now : ℤ) (m : Buckets F) (known : String × Bool)
      → HasBurst c known
      → AllWithin m
      → AllWithin (allow_known h c now m known).1
  allow_known-AllWithin now m (id, true) e a = allow_as-AllWithin id _ _ now m e a
  allow_known-AllWithin now m (id, false) e a = allow_as-AllWithin id _ _ now m e a

  allow-AllWithin :
      (ctx : Context) (now : ℤ) (m : Buckets F)
      → AllWithin m
      → AllWithin (allow h split_host c ctx now m).1
  unfolding allow
  allow-AllWithin ctx now m a =
      allow_known-AllWithin now m (limit_identifier split_host ctx)
        (limit_identifier-HasBurst c split_host ctx) a

  -- No bucket ever holds more tokens than the burst of its identifier: after any calls, at any
  -- instants, of a limiter whose buckets obeyed this, as those of a new one do, they obey it, if
  -- floats obey the two laws.
  pub allow_all-IsWithin :
      (calls : List (Context × ℤ)) (m : Buckets F)
      → All (IsWithin h laws (burst_of c)) m
      → All (IsWithin h laws (burst_of c)) (allow_all h split_host c calls m)
  allow_all-IsWithin [] m a = a
  allow_all-IsWithin ((ctx, now) ∷ calls) m a =
      allow_all-IsWithin calls (allow h split_host c ctx now m).1 (allow-AllWithin ctx now m a)
