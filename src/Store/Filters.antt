-- ===== src/Store/Filters.antt =====
-- The filtered listings against their meaning: keep what matches, then cut to the limit.
use modelo_man.Base.{
  ℕ, zero, suc, ◌+◌, ℤ, pos, negsuc, pos_part, ltb_ℤ, Bool, false, List, [], ◌∷◌, ◌≡◌, refl, ap,
  take, keep, arith, if◌then◌else◌,
}
use modelo_man.Domain.{Host, RunFilter, AttemptFilter, EventFilter}
use modelo_man.Store.Effects.{World, ok}
use modelo_man.Store.File.{snapshot}
use modelo_man.Store.Queries.{
  collect, run_matches, attempt_matches, event_matches, list_runs_filtered,
  list_prompt_attempts_filtered, list_run_events_filtered,
}

-- The first items up to a positive limit; any other limit cuts nothing.
abbrev pub limited {ℓ} : {A : Type ℓ} → ℤ → List A → List A
limited limit xs = if ltb_ℤ (pos 0) limit then take (pos_part limit) xs else xs

module _ {ℓ} {A : Type ℓ} (p : A → Bool) where
  collect_all :
      (limit : ℤ) (n : ℕ) (xs : List A)
      → ltb_ℤ (pos 0) limit ≡ false
      → collect p limit n xs ≡ keep p xs
  unfolding collect
  collect_all limit n [] e = refl
  collect_all limit n (x ∷ xs) e =
      ground (arith, collect_all limit (suc n) xs e, collect_all limit n xs e)

  collect-take :
      (m n g : ℕ) (xs : List A) → m ≡ suc n + g → collect p (pos m) n xs ≡ take (suc g) (keep p xs)
  unfolding collect
  collect-take m n g [] e = refl
  collect-take m n zero (x ∷ xs) e = ground (arith, collect-take m n zero xs e)
  collect-take m n (suc g) (x ∷ xs) e =
      ground (arith, collect-take m (suc n) g xs (omega arith), collect-take m n (suc g) xs e)

  pub collect-limited : (limit : ℤ) (xs : List A) → collect p limit 0 xs ≡ limited limit (keep p xs)
  collect-limited (pos zero) xs = collect_all (pos zero) 0 xs refl
  collect-limited (pos (suc m)) xs = ground (arith, collect-take (suc m) 0 m xs (omega arith))
  collect-limited (negsuc m) xs = ground (arith, collect_all (negsuc m) 0 xs)

module _ (h : Host) (w : World h.F) where
  -- A filtered listing returns, in their order, the stored items that match the filter, cut to the
  -- limit where that is positive; it never fails and changes nothing. So for runs, attempts, events.
  pub listing_filtered :
      (f : RunFilter) (g : AttemptFilter) (e : EventFilter)
      → (list_runs_filtered h f w
          ≡ (ok (limited f.limit (keep (run_matches f) (snapshot h w).runs)), w))
        × (list_prompt_attempts_filtered h g w
            ≡ (ok (limited g.limit (keep (attempt_matches g) (snapshot h w).attempts)), w))
        × (list_run_events_filtered h e w
            ≡ (ok (limited e.limit (keep (event_matches e) (snapshot h w).run_events)), w))
  unfolding list_runs_filtered list_prompt_attempts_filtered list_run_events_filtered
  listing_filtered f g e = (
    ap (λ xs. (ok xs, w)) (collect-limited (run_matches f) f.limit (snapshot h w).runs),
    ap (λ xs. (ok xs, w)) (collect-limited (attempt_matches g) g.limit (snapshot h w).attempts),
    ap (λ xs. (ok xs, w)) (collect-limited (event_matches e) e.limit (snapshot h w).run_events),
  )
