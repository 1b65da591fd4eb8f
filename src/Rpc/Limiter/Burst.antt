-- ===== src/Rpc/Limiter/Burst.antt =====
-- How many calls of one identifier the limiter admits at one instant.
use modelo_man.Base.{
  ℕ, zero, suc, ◌+◌, String, ℤ, pos, ltb_ℤ, leb, since_64, true, false, none, some, ◌≡◌, refl, inl,
  inr, Bool-cases, lookup, insert, arith, if◌then◌else◌,
}
use modelo_man.Domain.{Host}
use modelo_man.Rpc.Limiter.{
  TokenBucket, Buckets, seconds, is_expired, evict_expired_buckets, refill, draw, allow_identifier,
}
use modelo_man.Rpc.Limiter.Isolation.{lookup-evict_expired_buckets-insert}

-- The smaller of two numbers.
abbrev pub least : ℕ → ℕ → ℕ
least a b = if leb a b then a else b

least_none : (x n w : ℕ) → x ≡ least n w → w ≡ 0 → 0 + x ≡ least (suc n) w
least_none x n w e z = grind arith

least_more : (x n w v : ℕ) → x ≡ least n v → w ≡ suc v → 1 + x ≡ least (suc n) w
least_more x n w v e s = grind arith

module _ (h : Host) where
  open h use {F, lt, sub, of_int}

  -- The count of the whole tokens in a float, for the floats that are small enough to be counted:
  -- taking one away is exact there, and no time is no seconds.
  pub record WholeTokens : Type 1 where
    pub whole : F → ℕ
    pub IsCounted : F → Type 0
    pub counted_sub : (t : F) → IsCounted t → IsCounted (sub t (of_int (pos 1)))
    pub empty : (t : F) → IsCounted t → lt t (of_int (pos 1)) ≡ true → whole t ≡ 0
    pub one_less :
        (t : F)
        → IsCounted t
        → lt t (of_int (pos 1)) ≡ false
        → whole t ≡ suc (whole (sub t (of_int (pos 1))))
    pub no_time : lt (of_int (pos 0)) (seconds h (pos 0)) ≡ false

  module _ (laws : WholeTokens) (ttl : ℤ) (id : String) (rate burst : F) (now : ℤ)
      (positive : ltb_ℤ ttl (pos 0) ≡ false) where
    open laws use {whole, IsCounted}

    -- The number of the first `n` calls of the identifier at the instant that are admitted.
    abbrev pub admitted : ℕ → Buckets F → ℕ
    admitted zero m = 0
    admitted (suc n) m =
        let (allowed, m') = allow_identifier h ttl id rate burst now m in
        (if allowed then 1 else 0) + admitted n m'

    -- A bucket that was refilled and seen at this instant.
    abbrev at_now : F → TokenBucket F
    at_now t = record { tokens = t; last_refill = now; last_seen = now }

    since-same : (t : ℤ) → since_64 t t ≡ pos 0
    since-same t = ground arith

    refill-at_now : (t : F) → refill h rate burst now (at_now t) ≡ at_now t
    unfolding refill
    refill-at_now t = rw (since-same now, laws.no_time) refl

    at_now_fresh : (t : F) → is_expired h ttl now (at_now t) ≡ false
    unfolding is_expired
    at_now_fresh t = rw (since-same now) positive

    draw_empty :
        (t : F)
        → lt t (of_int (pos 1)) ≡ true
        → draw h rate burst now (some (at_now t)) ≡ (false, at_now t)
    unfolding draw
    draw_empty t e = rw (since-same now, laws.no_time, e) refl

    draw_full :
        (t : F)
        → lt t (of_int (pos 1)) ≡ false
        → draw h rate burst now (some (at_now t)) ≡ (true, at_now (sub t (of_int (pos 1))))
    unfolding draw
    draw_full t e = rw (since-same now, laws.no_time, e) refl

    -- The count from a map where the bucket of the identifier has these tokens after the eviction.
    admitted-at_now :
        (n : ℕ) (t : F) (m : Buckets F)
        → IsCounted t
        → lookup id (evict_expired_buckets h ttl now m) ≡ some (at_now t)
        → admitted n m ≡ least n (whole t)
    unfolding allow_identifier
    admitted-at_now zero t m c at = ground arith
    admitted-at_now (suc n) t m c at = elim (Bool-cases (lt t (of_int (pos 1)))) [
      | inl e ↦
          let next =
            admitted-at_now n t (insert id (at_now t) (evict_expired_buckets h ttl now m)) c
              (lookup-evict_expired_buckets-insert h ttl now id (at_now t) _ (at_now_fresh t)) in
          rw (at, draw_empty t e) (least_none _ n (whole t) next (laws.empty t c e))
      | inr e ↦
          let t' = sub t (of_int (pos 1)) in
          let next =
            admitted-at_now n t' (insert id (at_now t') (evict_expired_buckets h ttl now m))
              (laws.counted_sub t c)
              (lookup-evict_expired_buckets-insert h ttl now id (at_now t') _ (at_now_fresh t')) in
          rw (at, draw_full t e) (least_more _ n (whole t) _ next (laws.one_less t c e))
    ]

    -- Of the first calls that an identifier without a bucket makes at one instant, the limiter admits
    -- the first, and of the others as many as there are whole tokens in the burst less one, if the
    -- lifetime of a bucket is not negative and floats obey the laws of whole tokens: no others, and no
    -- fewer.
    pub admitted_lem :
        (n : ℕ) (m : Buckets F)
        → IsCounted burst
        → lookup id (evict_expired_buckets h ttl now m) ≡ none
        → admitted (suc n) m ≡ suc (least n (whole (sub burst (of_int (pos 1)))))
    unfolding allow_identifier draw
    admitted_lem n m c new =
        let t = sub burst (of_int (pos 1)) in
        let next =
          admitted-at_now n t (insert id (at_now t) (evict_expired_buckets h ttl now m))
            (laws.counted_sub burst c)
            (lookup-evict_expired_buckets-insert h ttl now id (at_now t) _ (at_now_fresh t)) in
        rw new (omega (arith, next))
