-- ===== src/Store/Queries.antt =====
-- The filtered listings of `FileStore`.
use modelo_man.Base.{
  ℕ, suc, String, ℤ, pos, ltb_ℤ, Bool, not, ◌&&◌, ◌||◌, List, [], ◌∷◌, ◌==◌, text_lt, if◌then◌else◌,
}
use modelo_man.Domain.{
  Host, AgentRun, PromptAttempt, RunEvent, RunFilter, AttemptFilter, EventFilter,
}
use modelo_man.Store.Effects.{ok, Act}
use modelo_man.Store.File.{snapshot}

-- `want != "" && got != want`: the item is passed over.
abbrev pub differs : String → String → Bool
differs want got = not (want == "") && not (got == want)

-- `after != "" && at <= after`, and `before != "" && at >= before`.
abbrev pub too_early : String → String → Bool
too_early after at = not (after == "") && not (text_lt after at)

abbrev pub too_late : String → String → Bool
too_late before at = not (before == "") && not (text_lt at before)

-- `limit > 0 && int64(len(out)) >= limit`.
abbrev pub is_full : ℤ → ℕ → Bool
is_full limit n = ltb_ℤ (pos 0) limit && not (ltb_ℤ (pos n) limit)

-- The loop of the three listings; `n` items were taken before.
unfoldable pub collect {ℓ} : {A : Type ℓ} → (A → Bool) → ℤ → ℕ → List A → List A
collect p limit n [] = []
collect p limit n (x ∷ xs) =
    let taken =
      x ∷ (let rest = collect p limit (suc n) xs in if is_full limit (suc n) then [] else rest) in
    let passed = collect p limit n xs in if p x then taken else passed

unfoldable pub run_matches : {F : Type 0} → RunFilter → AgentRun F → Bool
run_matches f r = not (
    differs f.run_id r.id
    || differs f.task_id r.task_id
    || differs f.workflow r.workflow
    || differs f.agent_id r.agent_id
    || differs f.status r.status
    || differs f.prompt_version r.prompt_version
    || too_early f.started_after r.started_at
    || too_late f.started_before r.started_at)

unfoldable pub attempt_matches : {F : Type 0} → AttemptFilter → PromptAttempt F → Bool
attempt_matches f a = not (
    differs f.run_id a.run_id
    || differs f.workflow a.workflow
    || differs f.agent_id a.agent_id
    || differs f.model a.model
    || differs f.outcome a.outcome
    || differs f.prompt_version a.prompt_version
    || too_early f.created_after a.created_at
    || too_late f.created_before a.created_at)

unfoldable pub event_matches : EventFilter → RunEvent → Bool
event_matches f e = not (
    differs f.run_id e.run_id
    || differs f.event_type e.event_type
    || differs f.level e.level
    || too_early f.created_after e.created_at
    || too_late f.created_before e.created_at)

-- The filters that the program builds with one field or none given.
abbrev pub attempts_of : String → AttemptFilter
attempts_of run_id = record {
  run_id = run_id;
  workflow = "";
  agent_id = "";
  model = "";
  outcome = "";
  prompt_version = "";
  created_after = "";
  created_before = "";
  limit = pos 0;
}

abbrev pub events_of : String → EventFilter
events_of run_id = record {
  run_id = run_id;
  event_type = "";
  level = "";
  created_after = "";
  created_before = "";
  limit = pos 0;
}

module _ (h : Host) where
  open h use {F}

  unfoldable pub list_runs_filtered : RunFilter → Act F (List (AgentRun F))
  list_runs_filtered f w = (ok (collect (run_matches f) f.limit 0 (snapshot h w).runs), w)

  unfoldable pub list_prompt_attempts_filtered : AttemptFilter → Act F (List (PromptAttempt F))
  list_prompt_attempts_filtered f w =
      (ok (collect (attempt_matches f) f.limit 0 (snapshot h w).attempts), w)

  unfoldable pub list_prompt_attempts : String → Act F (List (PromptAttempt F))
  unfolding list_prompt_attempts_filtered
  list_prompt_attempts run_id = list_prompt_attempts_filtered (attempts_of run_id)

  unfoldable pub list_run_events_filtered : EventFilter → Act F (List RunEvent)
  list_run_events_filtered f w =
      (ok (collect (event_matches f) f.limit 0 (snapshot h w).run_events), w)

  unfoldable pub list_run_events : String → Act F (List RunEvent)
  unfolding list_run_events_filtered
  list_run_events run_id = list_run_events_filtered (events_of run_id)
