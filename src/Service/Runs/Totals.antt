-- ===== src/Service/Runs/Totals.antt =====
-- The totals that `FinishRun` writes into a run.
use modelo_man.Base.{
  ℕ, ◌+◌, ◌<◌, pos, add_64-pos, two_63, Bool, true, false, not, List, [], ◌∷◌, ◌≡◌, refl, ◌==◌,
  length, keep, arith, Bool-cases, inl, inr, ◌∙◌, ap,
}
use modelo_man.Domain.{Host, AgentRun, PromptAttempt}
use modelo_man.Service.Runs.{tally, tally_all}

module _ (h : Host) where
  open h use {F}

  abbrev pub is_success : PromptAttempt F → Bool
  is_success a = a.outcome == "success"

  abbrev pub is_failure : PromptAttempt F → Bool
  is_failure a = not (is_success a)

  -- The counters of a run.
  abbrev pub Counts : AgentRun F → ℕ → ℕ → ℕ → Type 0
  Counts r n s f =
      (r.total_attempts ≡ pos n) × (r.success_attempts ≡ pos s) × (r.failed_attempts ≡ pos f)

  tally-success :
      (r : AgentRun F) (a : PromptAttempt F) (n s f : ℕ)
      → is_success a ≡ true
      → n + 1 < two_63
      → s + 1 < two_63
      → Counts r n s f
      → Counts (tally h r a) (n + 1) (s + 1) f
  unfolding tally
  tally-success r a n s f e bn bs (en, es, ef) =
      rw (e, en, es, ef) (add_64-pos n 1 bn, add_64-pos s 1 bs, refl)

  tally-failure :
      (r : AgentRun F) (a : PromptAttempt F) (n s f : ℕ)
      → is_success a ≡ false
      → n + 1 < two_63
      → f + 1 < two_63
      → Counts r n s f
      → Counts (tally h r a) (n + 1) s (f + 1)
  unfolding tally
  tally-failure r a n s f e bn bf (en, es, ef) =
      rw (e, en, es, ef) (add_64-pos n 1 bn, refl, add_64-pos f 1 bf)

  Counts-eq :
      (r : AgentRun F) {n s f n' s' f' : ℕ}
      → n ≡ n'
      → s ≡ s'
      → f ≡ f'
      → Counts r n s f
      → Counts r n' s' f'
  Counts-eq r a b c (en, es, ef) = (en ∙ ap pos a, es ∙ ap pos b, ef ∙ ap pos c)

  -- While the counters stay below 2^63, the loop of `FinishRun` adds to the attempts of the run the
  -- number of attempts, to its successes the number of those with the outcome success, and to its
  -- failures the number of the others.
  pub tally_all-Counts :
      (attempts : List (PromptAttempt F)) (r : AgentRun F) (n s f : ℕ)
      → n + length attempts < two_63
      → s + length attempts < two_63
      → f + length attempts < two_63
      → Counts r n s f
      → Counts
          (tally_all h r attempts)
          (n + length attempts)
          (s + length (keep is_success attempts))
          (f + length (keep is_failure attempts))
  unfolding tally_all
  tally_all-Counts [] r n s f bn bs bf c = Counts-eq r (omega arith) (omega arith) (omega arith) c
  tally_all-Counts (a ∷ attempts) r n s f bn bs bf c = elim (Bool-cases (is_success a)) [
    | inl e ↦ rw e (
        Counts-eq (tally_all h (tally h r a) attempts) (omega arith) (omega arith) (omega arith) (
          tally_all-Counts attempts (tally h r a) (n + 1) (s + 1) f (omega arith) (omega arith)
            (omega arith) (tally-success r a n s f e (omega arith) (omega arith) c)))
    | inr e ↦ rw e (
        Counts-eq (tally_all h (tally h r a) attempts) (omega arith) (omega arith) (omega arith) (
          tally_all-Counts attempts (tally h r a) (n + 1) s (f + 1) (omega arith) (omega arith)
            (omega arith) (tally-failure r a n s f e (omega arith) (omega arith) c)))
  ]
