-- ===== src/Rpc/Limiter.antt =====
-- `TokenBucketRateLimiter` of interceptors.go. Time is an argument of each call, in nanoseconds; the
-- lock is held during a call and is left out.
pub mod Burst
pub mod Isolation
pub mod Reached
use modelo_man.Base.{
  ℕ, ◌+◌, ◌-◌, ◌/◌, ◌%◌, suc, String, ℤ, pos, negsuc, sub_ℕ, ltb_ℤ, since_64, Bool, true, false,
  not, ◌||◌, Option, none, some, List, [], ◌∷◌, ◌==◌, ◌<>◌, lookup, insert, trim_space,
  if◌then◌else◌,
}
use modelo_man.Domain.{Host}
use modelo_man.Rpc.Types.{Code, status, AgentPrincipal, Context, failed, Interceptor}

-- `TokenBucketRateLimiterConfig`.
pub record TokenBucketRateLimiterConfig (F : Type 0) : Type 0 where
  pub authenticated_per_second : F
  pub authenticated_burst : F
  pub unauthenticated_per_second : F
  pub unauthenticated_burst : F
  pub bucket_ttl : ℤ

-- `tokenBucket`.
pub record TokenBucket (F : Type 0) : Type 0 where
  pub tokens : F
  pub last_refill : ℤ
  pub last_seen : ℤ

-- The map of the limiter. The order of its range does not show.
abbrev pub Buckets : Type 0 → Type 0
Buckets F = List (String × TokenBucket F)

-- `remoteIP`, over `net.SplitHostPort`, which gives the host or fails.
unfoldable pub remote_ip : (String → Option String) → Context → String
remote_ip split_host ctx = elim ctx.peer [
  | none ↦ "unknown"
  | some addr ↦ elim (split_host (trim_space addr)) [
    | none ↦ if trim_space addr == "" then "unknown" else trim_space addr
    | some host ↦
        if not (host == "")
        then host
        else if trim_space addr == ""
        then "unknown"
        else trim_space addr
  ]
]

-- `limitIdentifier`.
unfoldable pub limit_identifier : (String → Option String) → Context → String × Bool
unfolding remote_ip
limit_identifier split_host ctx = elim ctx.principal [
  | none ↦ ("ip:" <> remote_ip split_host ctx, false)
  | some p ↦
      if not (trim_space p.key_id == "")
      then ("key:" <> p.key_id, true)
      else ("ip:" <> remote_ip split_host ctx, false)
]

-- The quotient and the remainder of `int64` by a second, cut towards zero.
abbrev pub whole_seconds : ℤ → ℤ
whole_seconds (pos n) = pos (n / 1000000000)
whole_seconds (negsuc n) = sub_ℕ 0 (suc n / 1000000000)

abbrev pub left_nanoseconds : ℤ → ℤ
left_nanoseconds (pos n) = pos (n % 1000000000)
left_nanoseconds (negsuc n) = sub_ℕ 0 (suc n % 1000000000)

module _ (h : Host) where
  open h use {F}

  -- `Duration.Seconds()`.
  unfoldable pub seconds : ℤ → F
  seconds d =
      h.add (h.of_int (whole_seconds d))
        (h.div (h.of_int (left_nanoseconds d)) (h.of_int (pos 1000000000)))

  -- `if x <= 0 { x = d }`.
  abbrev positive_or : F → F → F
  positive_or x d = if h.lt x (h.of_int (pos 0)) || h.eq x (h.of_int (pos 0)) then d else x

  -- The defaults that `NewTokenBucketRateLimiter` fills in.
  unfoldable pub new_token_bucket_rate_limiter :
      TokenBucketRateLimiterConfig F → TokenBucketRateLimiterConfig F
  new_token_bucket_rate_limiter c = record {
    authenticated_per_second = positive_or c.authenticated_per_second (h.of_int (pos 20));
    authenticated_burst = positive_or c.authenticated_burst (h.of_int (pos 60));
    unauthenticated_per_second = positive_or c.unauthenticated_per_second (h.of_int (pos 5));
    unauthenticated_burst = positive_or c.unauthenticated_burst (h.of_int (pos 20));
    bucket_ttl = if ltb_ℤ (pos 0) c.bucket_ttl then c.bucket_ttl else pos 600000000000;
  }

  -- `minFloat64`.
  unfoldable pub min_float64 : F → F → F
  min_float64 a b = if h.lt a b then a else b

  -- Whether the bucket was not seen for longer than the lifetime of a bucket.
  unfoldable pub is_expired : ℤ → ℤ → TokenBucket F → Bool
  is_expired ttl now b = ltb_ℤ ttl (since_64 b.last_seen now)

  -- `evictExpiredBuckets`.
  unfoldable pub evict_expired_buckets : ℤ → ℤ → Buckets F → Buckets F
  unfolding is_expired
  evict_expired_buckets ttl now [] = []
  evict_expired_buckets ttl now ((k, b) ∷ m) =
      let rest = evict_expired_buckets ttl now m in
      if is_expired ttl now b then rest else (k, b) ∷ rest

  -- The refill of a bucket, and its time of last use.
  unfoldable pub refill : F → F → ℤ → TokenBucket F → TokenBucket F
  unfolding min_float64 seconds
  refill rate burst now b =
      if h.lt (h.of_int (pos 0)) (seconds (since_64 b.last_refill now))
      then record {
        tokens =
            min_float64 burst (h.add b.tokens (h.mul (seconds (since_64 b.last_refill now)) rate));
        last_refill = now;
        last_seen = now;
      }
      else record b { last_seen = now }

  -- One token, if there is one.
  unfoldable pub take_token : TokenBucket F → Bool × TokenBucket F
  take_token b =
      if h.lt b.tokens (h.of_int (pos 1))
      then (false, b)
      else (true, record b { tokens = h.sub b.tokens (h.of_int (pos 1)) })

  -- The bucket of an identifier that has none.
  abbrev pub new_bucket : F → ℤ → TokenBucket F
  new_bucket burst now = record {
    tokens = h.sub burst (h.of_int (pos 1));
    last_refill = now;
    last_seen = now;
  }

  -- A call of the identifier, on the bucket that it has.
  unfoldable pub draw : F → F → ℤ → Option (TokenBucket F) → Bool × TokenBucket F
  unfolding refill take_token
  draw rate burst now none = (true, new_bucket burst now)
  draw rate burst now (some b) = take_token (refill rate burst now b)

  -- `Allow`, for the identifier with the rate and the burst that it has.
  unfoldable pub allow_identifier : ℤ → String → F → F → ℤ → Buckets F → Bool × Buckets F
  unfolding evict_expired_buckets draw
  allow_identifier ttl id rate burst now m =
      let live = evict_expired_buckets ttl now m in
      let (allowed, b) = draw rate burst now (lookup id live) in (allowed, insert id b live)

  -- The rest of `Allow`, for an identifier and whether it is that of a key.
  abbrev pub allow_known :
      TokenBucketRateLimiterConfig F → ℤ → Buckets F → String × Bool → Bool × Buckets F
  allow_known c now m (id, true) =
      allow_identifier c.bucket_ttl id c.authenticated_per_second c.authenticated_burst now m
  allow_known c now m (id, false) =
      allow_identifier c.bucket_ttl id c.unauthenticated_per_second c.unauthenticated_burst now m

  -- `Allow`.
  unfoldable pub allow :
      (String → Option String)
      → TokenBucketRateLimiterConfig F
      → Context
      → ℤ
      → Buckets F
      → Bool × Buckets F
  unfolding allow_identifier limit_identifier
  allow split_host c ctx now m = allow_known c now m (limit_identifier split_host ctx)

-- `RateLimitUnaryInterceptor`, with a limiter over the state or without one.
unfoldable pub rate_limit_interceptor :
    {W : Type 0} → Option (Context → W → Bool × W) → Interceptor W
rate_limit_interceptor none method handler ctx req w = handler ctx req w
rate_limit_interceptor (some limit) method handler ctx req w =
    let (allowed, w') = limit ctx w in
    if allowed
    then handler ctx req w'
    else (failed (status Code.resource_exhausted "rate limit exceeded"), w')
