-- ===== src/Checks/Limits.antt =====
-- The theorems on the limiter at concrete calls. A token is a natural number.
use modelo_man.Base.{
  ℤ, List, strip_prefix, some, none, ℕ, suc, ◌-◌, String, pos, ltb, true, false, [], ◌∷◌, ◌≡◌, ◌≢◌,
  refl, All, lookup, arith, eq_iff,
}
use modelo_man.Rpc.Limiter.Reached.{burst_of, allow_all, allow_all-IsWithin}
use modelo_man.Rpc.Types.{Context}
use modelo_man.Rpc.Limiter.{TokenBucketRateLimiterConfig, Buckets, seconds, evict_expired_buckets}
use modelo_man.Rpc.Limiter.Isolation.{TokenLaws, IsWithin}
use modelo_man.Rpc.Limiter.Burst.{WholeTokens, admitted, admitted_lem}
use modelo_man.Checks.Samples.{host}

abbrev buckets : Buckets ℕ
buckets = ("ip:b", record { tokens = 3; last_refill = pos 0; last_seen = pos 0 }) ∷ []

abbrev id_a : String
id_a = "ip:a"

abbrev id_b : String
id_b = "ip:b"

apart : id_b ≢ id_a
apart e = cc ((eq_iff id_b id_a).1 e)

irreflexive : (x : ℕ) → ltb x x ≡ false
irreflexive x = ground arith

less : (x t : ℕ) → ltb x t ≡ false → ltb x (t - 1) ≡ false
less x t e = ground arith

abbrev laws : TokenLaws host
laws = record { irreflexive = irreflexive; less = less }

abbrev config : TokenBucketRateLimiterConfig ℕ
config = record {
  authenticated_per_second = 20;
  authenticated_burst = 60;
  unauthenticated_per_second = 5;
  unauthenticated_burst = 20;
  bucket_ttl = pos 600;
}

abbrev caller : Context
caller = record { metadata = none; principal = none; peer = some "a" }

abbrev two_calls : List (Context × ℤ)
two_calls = (caller, pos 7) ∷ (caller, pos 8) ∷ []

within : burst_of config "ip:b" ≡ 20
unfolding burst_of strip_prefix
within = refl

buckets-IsWithin : All (IsWithin host laws (burst_of config)) buckets
buckets-IsWithin = (rw within refl, tt)

allow_all-IsWithin_example :
    All (IsWithin host laws (burst_of config)) (allow_all host (λ s. none) config two_calls buckets)
allow_all-IsWithin_example =
    allow_all-IsWithin host laws (λ s. none) config two_calls buckets buckets-IsWithin

none_whole : (t : ℕ) → ltb t 1 ≡ true → t ≡ 0
none_whole t e = ground arith

one_whole : (t : ℕ) → ltb t 1 ≡ false → t ≡ suc (t - 1)
one_whole t e = ground arith

no_seconds : host.lt (host.of_int (pos 0)) (seconds host (pos 0)) ≡ false
unfolding seconds
no_seconds = refl

abbrev whole_tokens : WholeTokens host
whole_tokens = record {
  whole = λ t. t;
  IsCounted = λ t. Unit {0};
  counted_sub = λ t c. tt;
  empty = λ t c e. none_whole t e;
  one_less = λ t c e. one_whole t e;
  no_time = no_seconds;
}

admitted_lem_example : admitted host whole_tokens (pos 10) "ip:a" 5 3 (pos 7) refl 6 buckets ≡ 3
unfolding evict_expired_buckets lookup
admitted_lem_example =
    admitted_lem host whole_tokens (pos 10) "ip:a" 5 3 (pos 7) refl 5 buckets tt refl
