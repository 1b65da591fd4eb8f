-- ===== src/Service/Runs/Finished.antt =====
-- What `FinishRun` returns.
use modelo_man.Base.{
  ℕ, ◌+◌, ◌<◌, ℤ, pos, two_63, String, Option, none, some, List, ◌≡◌, refl, ap, find_by, length,
  keep, trim_space, subst, sym,
}
use modelo_man.Domain.{Host, AgentRun, PromptAttempt}
use modelo_man.Store
use modelo_man.Store.{
  FileStore, World, Result, ok, err, Act, resume, pure, ◌>>=◌, use_host, snapshot, collect,
  attempt_matches, attempts_of, clone_state,
}
use modelo_man.Store.Contracts.{
  Post, Ensures, pure-Ensures, fail-Ensures, reject_if-Ensures, use_host-Ensures, bind-Ensures,
}
use modelo_man.Service.Requests.{FinishRunRequest}
use modelo_man.Service.Common.Fresh.{time_now-Ensures}
use modelo_man.Service.Runs.{tally_all, measure_duration, finish_found, finish_run}
use modelo_man.Service.Runs.Totals.{Counts, is_success, is_failure, tally_all-Counts}

-- A value that the operation returns from a store with `Q` has `R`.
record Gives {F A : Type 0} (Q : FileStore F → Type 0) (R : A → Type 0) (m : Act F A) : Type 0 where
  pub gives : (w : World F) → Q w.store → Post R (m w).0

module _ {F A B : Type 0} {Q : FileStore F → Type 0} {R : A → Type 0} {S : B → Type 0} where
  resume-Gives :
      (f : A → Act F B) (r : Result A) (w : World F)
      → ((a : A) → R a → Gives Q S (f a))
      → Post R r
      → Q w.store
      → Post S (resume f r w).0
  resume-Gives f (ok a) w g p q = (g a p).gives w q
  resume-Gives f (err e) w g p q = tt

  bind-Gives :
      (m : Act F A) (f : A → Act F B)
      → Ensures Q R m
      → ((a : A) → R a → Gives Q S (f a))
      → Gives Q S (m >>= f)
  unfolding ◌>>=◌
  bind-Gives m f k g = record {
    gives = λ w q. let (kept, told) = k.at w q in resume-Gives f (m w).0 (m w).1 g told kept;
  }

resume_last :
    {F A B : Type 0} (S : B → Type 0) (r : Result A) (w : World F) (b : B)
    → S b
    → Post S (resume (λ _. pure {F = F} b) r w).0
unfolding pure
resume_last S (ok a) w b s = s
resume_last S (err e) w b s = tt

module _ {F A B : Type 0} {Q : FileStore F → Type 0} {S : B → Type 0} where
  -- A last step whose value is dropped for a known one.
  last-Gives : (m : Act F A) (b : B) → S b → Gives Q S (m >>= λ _. pure b)
  unfolding ◌>>=◌
  last-Gives m b s = record { gives = λ w q. resume_last S (m w).0 (m w).1 b s }

-- What is ensured is given.
Ensures-Gives :
    {F A : Type 0} {Q : FileStore F → Type 0} {R : A → Type 0} (m : Act F A)
    → Ensures Q R m
    → Gives Q R m
Ensures-Gives m k = record { gives = λ w q. (k.at w q).1 }

module _ (h : Host) (w : World h.F) where
  open h use {F}

  -- The state is the one of `w`.
  abbrev IsHere : FileStore F → Type 0
  IsHere s = s.state ≡ w.store.state

  abbrev pub stored_attempts : String → List (PromptAttempt F)
  stored_attempts id = collect (attempt_matches (attempts_of id)) (pos 0) 0 (snapshot h w).attempts

  list_runs-Ensures : Ensures IsHere (λ runs. runs ≡ (snapshot h w).runs) (Store.list_runs h)
  unfolding Store.list_runs snapshot
  list_runs-Ensures = record { at = λ v q. (q, ap (λ s. (clone_state h s).runs) q) }

  list_prompt_attempts-Ensures :
      (id : String)
      → Ensures IsHere (λ attempts. attempts ≡ stored_attempts id) (Store.list_prompt_attempts h id)
  unfolding Store.list_prompt_attempts Store.list_prompt_attempts_filtered snapshot
  list_prompt_attempts-Ensures id = record {
    at = λ v q. (
      q,
      ap (λ s. collect (attempt_matches (attempts_of id)) (pos 0) 0 (clone_state h s).attempts) q,
    );
  }

  -- The counters of one run are those of another.
  abbrev SameCounts : AgentRun F → AgentRun F → Type 0
  SameCounts old r = (n s f : ℕ) → Counts h old n s f → Counts h r n s f

  measure_duration-Ensures :
      (r : AgentRun F) (start : Option ℤ)
      → Ensures IsHere (SameCounts r) (measure_duration h r start)
  unfolding measure_duration
  measure_duration-Ensures r none = pure-Ensures r (λ n s f c. c)
  measure_duration-Ensures r (some start) =
      bind-Ensures _ _ use_host-Ensures (λ k _. pure-Ensures _ (λ n s f c. c))

  -- The run that is returned has the counters of the stored run with the attempts of the run added.
  abbrev IsTallied : String → AgentRun F → AgentRun F → Type 0
  IsTallied id old r =
      (n s f : ℕ)
      → n + length (stored_attempts id) < two_63
      → s + length (stored_attempts id) < two_63
      → f + length (stored_attempts id) < two_63
      → Counts h old n s f
      → Counts h r (n + length (stored_attempts id))
          (s + length (keep (is_success h) (stored_attempts id)))
          (f + length (keep (is_failure h) (stored_attempts id)))

  finish_found-Gives :
      (q : FinishRunRequest) (status : String) (o : Option (AgentRun F))
      → Gives IsHere
          (λ r. (old : AgentRun F) × (o ≡ some old) × IsTallied (trim_space q.run_id) old r)
          (finish_found h q status o)
  unfolding finish_found
  finish_found-Gives q status none = Ensures-Gives _ (fail-Ensures _)
  finish_found-Gives q status (some old) = bind-Gives _ _ (time_now-Ensures h) (λ now _.
      bind-Gives _ _ (measure_duration-Ensures _ _) (λ timed same.
        bind-Gives _ _ (list_prompt_attempts-Ensures (trim_space q.run_id)) (λ attempts known.
          last-Gives _ _ (
            old,
            refl,
            λ n s f bn bs bf c.
                subst
                  (λ xs.
                    Counts h (tally_all h timed xs)
                      (n + length (stored_attempts (trim_space q.run_id)))
                      (s + length (keep (is_success h) (stored_attempts (trim_space q.run_id))))
                      (f + length (keep (is_failure h) (stored_attempts (trim_space q.run_id)))))
                  (sym known)
                  (tally_all-Counts h (stored_attempts (trim_space q.run_id)) timed n s f bn bs bf
                    (same n s f c)),
          ))))

  finish_run-Gives :
      (q : FinishRunRequest)
      → Gives IsHere
          (λ r.
            (old : AgentRun F) × (find_by
                (λ (x : AgentRun F). x.id)
                (trim_space q.run_id)
                (snapshot h w).runs
              ≡ some old)
            × IsTallied (trim_space q.run_id) old r)
          (finish_run h q)
  unfolding finish_run
  finish_run-Gives q = bind-Gives _ _ (reject_if-Ensures _ _) (λ _ _.
      bind-Gives _ _ (reject_if-Ensures _ _) (λ _ _.
        bind-Gives _ _ list_runs-Ensures (λ runs known. rw (sym known) (finish_found-Gives q _ _))))

  finish_run-IsTallied :
      (q : FinishRunRequest) (r : AgentRun F)
      → (finish_run h q w).0 ≡ ok r
      → (old : AgentRun F) × (find_by
            (λ (x : AgentRun F). x.id)
            (trim_space q.run_id)
            (snapshot h w).runs
          ≡ some old)
        × IsTallied (trim_space q.run_id) old r
  finish_run-IsTallied q r e = subst (Post _) e ((finish_run-Gives q).gives w refl)

  -- Where a run is finished successfully and the counters stay below 2^63, the attempts, successes and
  -- failures of the run that is returned are those of the first stored run with the id that is asked
  -- for, with the stored attempts of the run added to them by their outcomes.
  pub finish_run-Counts :
      (q : FinishRunRequest) (r old : AgentRun F) (n s f : ℕ)
      → (finish_run h q w).0 ≡ ok r
      → find_by (λ (x : AgentRun F). x.id) (trim_space q.run_id) (snapshot h w).runs ≡ some old
      → n + length (stored_attempts (trim_space q.run_id)) < two_63
      → s + length (stored_attempts (trim_space q.run_id)) < two_63
      → f + length (stored_attempts (trim_space q.run_id)) < two_63
      → Counts h old n s f
      → Counts h r
          (n + length (stored_attempts (trim_space q.run_id)))
          (s + length (keep (is_success h) (stored_attempts (trim_space q.run_id))))
          (f + length (keep (is_failure h) (stored_attempts (trim_space q.run_id))))
  finish_run-Counts q r old n s f e found bn bs bf c =
      let (old', at, tallied) = finish_run-IsTallied q r e in
      let same : old ≡ old' = cc in tallied n s f bn bs bf (subst (λ x. Counts h x n s f) same c)
