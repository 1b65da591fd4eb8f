-- ===== src/Mm/Client/Attempts.antt =====
-- How often the client calls the hub for one request.
use modelo_man.Base.{
  ℕ, zero, suc, ◌-◌, ◌≤◌, ◌<◌, pos_part, String, Bool, true, false, ◌≡◌, refl, ◌⊎◌, inl, inr,
  Bool-cases, arith,
}
use modelo_man.Rpc.Types.{Fields}
use modelo_man.Mm.Client.{Answer, is_retried, Client, call, try_call, invoke_struct}

module _ {W : Type 0} (client : Client W) (method : String) (request : Fields) where
  -- The state after this many calls.
  pub after : ℕ → W → W
  after zero w = w
  after (suc k) w = after k (call client method request w).1

  -- Whether the call after `k` calls asks for another one.
  abbrev pub retried_at : ℕ → W → Bool
  retried_at k w = is_retried (call client method request (after k w)).0

  -- The result is that of the call after `k` others, `k` is at most `left`, the others asked for
  -- another call, and this one did not or is the last that is allowed.
  abbrev pub EndsWith : ℕ → W → Answer × W → ℕ → Type 0
  EndsWith left w r k =
      (k ≤ left)
      × (r ≡ call client method request (after k w))
      × ((j : ℕ) → j < k → retried_at j w ≡ true)
      × ((retried_at k w ≡ false) ⊎ (k ≡ left))

  before_next :
      (k : ℕ) (w : W)
      → retried_at 0 w ≡ true
      → ((j : ℕ) → j < k → retried_at j (call client method request w).1 ≡ true)
      → (j : ℕ) → j < suc k
      → retried_at j w ≡ true
  unfolding after
  before_next k w now later zero lt = now
  before_next k w now later (suc j) lt = later j (omega (arith, lt))

  shifted :
      (left k : ℕ) (w : W) (r : Answer × W)
      → retried_at 0 w ≡ true
      → EndsWith left (call client method request w).1 r k
      → EndsWith (suc left) w r (suc k)
  unfolding after
  shifted left k w r e (le, same, before, last) = (
    omega (arith, le),
    same,
    before_next k w e before,
    elim last [ inl n ↦ inl n | inr n ↦ inr (omega (arith, n)) ],
  )

  try_call-EndsWith :
      (left : ℕ) (w : W) → (k : ℕ) × EndsWith left w (try_call client left method request w) k
  unfolding try_call after
  try_call-EndsWith zero w = (0, (omega arith, refl, λ j lt. ground (arith, lt), inr refl))
  try_call-EndsWith (suc left) w = elim (Bool-cases (is_retried (call client method request w).0)) [
    | inr e ↦ rw e (0, (omega arith, refl, λ j lt. ground (arith, lt), inl e))
    | inl e ↦
        let (k, ends) = try_call-EndsWith left (call client method request w).1 in
        rw e (suc k, shifted left k w _ e ends)
  ]

  -- A request ends with the answer of one call, after at most as many others as the configured
  -- attempts less one: each of the others was refused with a code that is worth another call, and
  -- the last was not, or no attempt is left.
  pub invoke_struct-EndsWith :
      (w : W)
      → (k : ℕ) × EndsWith
          (pos_part client.retry_attempts - 1)
          w
          (invoke_struct client method request w)
          k
  unfolding invoke_struct
  invoke_struct-EndsWith w = try_call-EndsWith (pos_part client.retry_attempts - 1) w
