-- ===== src/Checks/Hub.antt =====
-- The theorems on the store and the service at concrete requests and states.
use modelo_man.Base.{
  String, pos, true, false, none, some, List, [], ◌∷◌, ◌≡◌, ◌≢◌, refl, contains, not, ◌&&◌, ◌==◌,
  arith, ◌+◌, length, keep, map,
}
use modelo_man.Domain.{PromptAttempt, empty_state}
use modelo_man.Domain.Fault
use modelo_man.Store.{
  list_runs_filtered, list_prompt_attempts_filtered, list_run_events_filtered, run_matches,
  attempt_matches, event_matches, ok, err, missing, encoded, encodable, with_defaults, mutate,
  snapshot,
}
use modelo_man.Store.Filters.{limited, listing_filtered}
use modelo_man.Store.Persistence.{
  mutate-saved, mutate_unsaved, restart, restart-mutate, unencodable_lost,
}
use modelo_man.Service.Common.{clean_tag, normalize_tags}
use modelo_man.Base.{HasNoRepeat}
use modelo_man.Service.Common.Tags.{normalize_tags_lem}
use modelo_man.Service.Tasks.Valid.{
  AreWellFormed, at_start, then_request, create, Reached-AreWellFormed, after,
}
use modelo_man.Service.Limits.{select_policy_cap}
use modelo_man.Service.Limits.Best.{IsChosen, select_policy_cap-IsChosen}
use modelo_man.Service.Attempts.{record_prompt_attempt}
use modelo_man.Service.Attempts.Enforced.{
  IsAdmitted, record_prompt_attempt-IsAdmitted, record_prompt_attempt_killed,
}
use modelo_man.Store
use modelo_man.Service.Runs.Finished.{finish_run-Counts}
use modelo_man.Service.Runs.{finish_run, tally_all}
use modelo_man.Service.Runs.Totals.{Counts}
use modelo_man.Checks.Samples.{
  finished_once, finish_request, finished_twice, by_run, by_attempt, by_event, host, broken_host,
  start, create_request, sample_task, add_task, sample_run, sample_attempt, attempt_request,
  two_caps, running, killed, infinite_run,
}

mutate-saved_example :
    ((mutate host add_task start).1.disk.file ≡ encoded (mutate host add_task start).1.store.state)
    × ((mutate host add_task start).1.disk.temp ≡ missing)
    × (encodable host (mutate host add_task start).1.store.state ≡ true)
unfolding mutate encodable
mutate-saved_example = mutate-saved host add_task start {a = tt} refl

mutate_unsaved_example :
    ((mutate broken_host add_task start).0
      ≡ err (Fault.internal "failed to write temporary state file" (some "write")))
    × ((mutate broken_host add_task start).1.store.state
        ≡ with_defaults broken_host (record (empty_state broken_host) { tasks = sample_task ∷ [] }))
    × ((mutate broken_host add_task start).1.disk.file ≡ missing)
unfolding encodable with_defaults modelo_man.Store.clone_state
mutate_unsaved_example = mutate_unsaved broken_host add_task start tt _ refl refl refl

restart-mutate_example :
    ((restart host (mutate host add_task start).1).0 ≡ ok tt)
    × ((restart host (mutate host add_task start).1).1.store.state
        ≡ (mutate host add_task start).1.store.state)
unfolding mutate encodable
restart-mutate_example = restart-mutate host add_task start {a = tt} refl refl refl

unencodable_lost_example :
    (snapshot host infinite_run ≡ empty_state host)
    × ((mutate host add_task infinite_run).1.disk.file
        ≡ encoded (with_defaults host (record (empty_state host) { tasks = sample_task ∷ [] })))
unfolding mutate encodable
unencodable_lost_example = unencodable_lost host add_task infinite_run tt _ refl refl refl

listing_filtered_example :
    (list_runs_filtered host by_run running
      ≡ (ok (limited (pos 1) (keep (run_matches by_run) (snapshot host running).runs)), running))
    × (list_prompt_attempts_filtered host by_attempt running ≡ (
      ok (limited (pos 2) (keep (attempt_matches by_attempt) (snapshot host running).attempts)),
      running,
    ))
    × (list_run_events_filtered host by_event running ≡ (
      ok (limited (pos 0) (keep (event_matches by_event) (snapshot host running).run_events)),
      running,
    ))
listing_filtered_example = listing_filtered host running by_run by_attempt by_event

normalize_tags_lem_example :
    HasNoRepeat (normalize_tags (λ c. c) ("x" ∷ " x" ∷ "" ∷ []))
    × ((k : String)
        → contains (normalize_tags (λ c. c) ("x" ∷ " x" ∷ "" ∷ [])) k
          ≡ (contains (map (clean_tag (λ c. c)) ("x" ∷ " x" ∷ "" ∷ [])) k && not (k == "")))
normalize_tags_lem_example = normalize_tags_lem (λ c. c) ("x" ∷ " x" ∷ "" ∷ [])

Reached-AreWellFormed_example :
    AreWellFormed (after host (create create_request) start).store.state.tasks
Reached-AreWellFormed_example =
    Reached-AreWellFormed host start (after host (create create_request) start) (tt, tt)
      (then_request at_start (create create_request))

select_policy_cap-IsChosen_example :
    IsChosen "api" "p" "m" (select_policy_cap two_caps "api" "p" "m") two_caps
select_policy_cap-IsChosen_example = select_policy_cap-IsChosen "api" "p" "m" two_caps

record_prompt_attempt-IsAdmitted_example :
    IsAdmitted host attempt_request running (sample_attempt "success")
unfolding select_policy_cap snapshot encodable modelo_man.Base.trim_space record_prompt_attempt
    modelo_man.Store.◌>>=◌ modelo_man.Service.Attempts.validate_attempt modelo_man.Store.get_policy
    modelo_man.Store.list_policy_caps modelo_man.Store.list_runs_filtered
    modelo_man.Service.Attempts.require_running modelo_man.Store.collect
    modelo_man.Store.run_matches modelo_man.Service.Attempts.check_attempt
    modelo_man.Service.Attempts.enforce modelo_man.Service.Limits.resolve_effective_limits
    modelo_man.Base.◌+₆₄◌ modelo_man.Service.Attempts.check_run
    modelo_man.Service.Attempts.insert_attempt modelo_man.Service.Attempts.total_cost
    modelo_man.Service.Attempts.total_tokens modelo_man.Service.Common.new_id
    modelo_man.Service.Common.time_now modelo_man.Service.Limits.cap_applies
    modelo_man.Service.Limits.consider modelo_man.Service.Limits.improves
    modelo_man.Service.Limits.select_from modelo_man.Service.Limits.specificity
    modelo_man.Store.insert_prompt_attempt modelo_man.Store.clone_state modelo_man.Store.commit
    mutate modelo_man.Store.persist_locked with_defaults modelo_man.Store.attempt_matches
    modelo_man.Store.list_prompt_attempts_filtered
record_prompt_attempt-IsAdmitted_example =
    record_prompt_attempt-IsAdmitted host attempt_request running refl (sample_attempt "success")
      refl

record_prompt_attempt_killed_example :
    ((a : PromptAttempt host.F) → (record_prompt_attempt host attempt_request killed).0 ≢ ok a)
    × ((record_prompt_attempt host attempt_request killed).1 ≡ killed)
unfolding snapshot encodable
record_prompt_attempt_killed_example = record_prompt_attempt_killed host attempt_request killed refl

finish_run-Counts_example : Counts host finished_twice 2 2 0
unfolding finish_run modelo_man.Service.Runs.finish_found Store.◌>>=◌ modelo_man.Base.trim_space
    Store.list_runs snapshot encodable Store.list_prompt_attempts Store.update_run mutate
    modelo_man.Base.upsert_by Store.collect attempt_matches modelo_man.Base.◌+₆₄◌
finish_run-Counts_example =
    finish_run-Counts host finished_once finish_request finished_twice
      (record sample_run { status = "completed"; total_attempts = pos 1; success_attempts = pos 1 })
      1 1 0 refl refl (omega arith) (omega arith) (omega arith) (refl, refl, refl)
