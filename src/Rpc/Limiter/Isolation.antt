-- ===== src/Rpc/Limiter/Isolation.antt =====
-- What a call does to the buckets of the limiter: its own and the others.
use modelo_man.Base.{
  String, ℤ, pos, Bool, true, false, Option, none, some, [], ◌∷◌, ◌≡◌, refl, subst, ◌==◌, inl, inr,
  Bool-cases, lookup, insert, All, eq_iff, eq_refl, arith, if◌then◌else◌,
}
use modelo_man.Domain.{Host}
use modelo_man.Rpc.Limiter.{
  TokenBucket, Buckets, min_float64, is_expired, evict_expired_buckets, refill, take_token, draw,
  allow_identifier,
}

module _ (h : Host) where
  open h use {F, lt, sub, of_int}

  -- A bucket that was just put in and has not expired survives the next eviction.
  pub lookup-evict_expired_buckets-insert :
      (ttl now : ℤ) (id : String) (b : TokenBucket F) (m : Buckets F)
      → is_expired h ttl now b ≡ false
      → lookup id (evict_expired_buckets h ttl now (insert id b m)) ≡ some b
  unfolding evict_expired_buckets insert lookup
  lookup-evict_expired_buckets-insert ttl now id b [] fresh = ground (arith, eq_refl id)
  lookup-evict_expired_buckets-insert ttl now id b ((k, c) ∷ m) fresh =
      let rest = lookup-evict_expired_buckets-insert ttl now id b m fresh in
      elim (Bool-cases (k == id)) [
        | inl e ↦ rw (e, fresh, eq_refl id) refl
        | inr e ↦ elim (Bool-cases (is_expired h ttl now c)) [
          | inl x ↦ rw (e, x) rest
          | inr x ↦ rw (e, x) (rw e rest)
        ]
      ]

  evict-All :
      (P : String × TokenBucket F → Type 0) (ttl now : ℤ) (m : Buckets F)
      → All P m
      → All P (evict_expired_buckets h ttl now m)
  unfolding evict_expired_buckets
  evict-All P ttl now [] a = tt
  evict-All P ttl now ((k, b) ∷ m) (p, a) = elim (Bool-cases (is_expired h ttl now b)) [
    | inl e ↦ rw e (evict-All P ttl now m a)
    | inr e ↦ rw e (p, evict-All P ttl now m a)
  ]

  insert-All :
      (P : String × TokenBucket F → Type 0) (id : String) (b : TokenBucket F) (m : Buckets F)
      → P (id, b)
      → All P m
      → All P (insert id b m)
  unfolding insert
  insert-All P id b [] p a = (p, tt)
  insert-All P id b ((k, c) ∷ m) p (q, a) = elim (Bool-cases (k == id)) [
    | inl e ↦ rw e (p, a)
    | inr e ↦ rw e (q, insert-All P id b m p a)
  ]

  lookup-All :
      (P : String × TokenBucket F → Type 0) (id : String) (b : TokenBucket F) (m : Buckets F)
      → All P m
      → lookup id m ≡ some b
      → P (id, b)
  unfolding lookup
  lookup-All P id b [] a e = cc
  lookup-All P id b ((k, c) ∷ m) (p, a) e = elim (Bool-cases (k == id)) [
    | inl same ↦
        let key : k ≡ id = (eq_iff k id).0 same in
        let found : some c ≡ some b = rw same at e in
        let value : c ≡ b = cc in subst (λ i. P (i, b)) key (subst (λ x. P (k, x)) value p)
    | inr apart ↦ lookup-All P id b m a (rw apart at e)
  ]

  -- The laws of floats that a bound on the tokens needs.
  pub record TokenLaws : Type 0 where
    pub irreflexive : (x : F) → lt x x ≡ false
    pub less : (x t : F) → lt x t ≡ false → lt x (sub t (of_int (pos 1))) ≡ false

  module _ (laws : TokenLaws) (burst_of : String → F) where
    -- The bucket holds no more than the burst of its identifier.
    abbrev pub IsWithin : String × TokenBucket F → Type 0
    IsWithin e = lt (burst_of e.0) e.1.tokens ≡ false

    min_float64-within : (x t : F) → lt x (min_float64 h x t) ≡ false
    unfolding min_float64
    min_float64-within x t = elim (Bool-cases (lt x t)) [
      | inl e ↦ rw e (laws.irreflexive x)
      | inr e ↦ rw e e
    ]

    either-within :
        (x : F) (test : Bool) (b c : TokenBucket F)
        → lt x b.tokens ≡ false
        → lt x c.tokens ≡ false
        → lt x (if test then b else c).tokens ≡ false
    either-within x true b c p q = p
    either-within x false b c p q = q

    refill-within :
        (rate burst : F) (now : ℤ) (b : TokenBucket F)
        → lt burst b.tokens ≡ false
        → lt burst (refill h rate burst now b).tokens ≡ false
    unfolding refill
    refill-within rate burst now b p = either-within burst _ _ _ (min_float64-within burst _) p

    take_token-within :
        (burst : F) (b : TokenBucket F)
        → lt burst b.tokens ≡ false
        → lt burst (take_token h b).1.tokens ≡ false
    unfolding take_token
    take_token-within burst b p = elim (Bool-cases (lt b.tokens (of_int (pos 1)))) [
      | inl e ↦ rw e p
      | inr e ↦ rw e (laws.less burst b.tokens p)
    ]

    draw-IsWithin :
        (id : String) (rate : F) (now : ℤ) (o : Option (TokenBucket F))
        → ((b : TokenBucket F) → o ≡ some b → IsWithin (id, b))
        → IsWithin (id, (draw h rate (burst_of id) now o).1)
    unfolding draw
    draw-IsWithin id rate now none p =
        laws.less (burst_of id) (burst_of id) (laws.irreflexive (burst_of id))
    draw-IsWithin id rate now (some b) p =
        take_token-within (burst_of id) (refill h rate (burst_of id) now b)
          (refill-within rate (burst_of id) now b (p b refl))

    -- No bucket ever holds more tokens than the burst of its identifier: a call that uses the burst of
    -- its identifier keeps this of all buckets, if floats obey the two laws.
    pub allow_identifier-IsWithin :
        (ttl : ℤ) (id : String) (rate : F) (now : ℤ) (m : Buckets F)
        → All IsWithin m
        → All IsWithin (allow_identifier h ttl id rate (burst_of id) now m).1
    unfolding allow_identifier
    allow_identifier-IsWithin ttl id rate now m a =
        let live = evict_expired_buckets h ttl now m in
        let kept = evict-All IsWithin ttl now m a in
        insert-All IsWithin id (draw h rate (burst_of id) now (lookup id live)).1 live
          (draw-IsWithin id rate now (lookup id live) (λ b e. lookup-All IsWithin id b live kept e))
          kept
