-- ===== src/Service/Leaderboard.antt =====
-- `Leaderboard` of hub_service.go.
use modelo_man.Base.{
  zero, ◌*◌, String, ℤ, pos, pos_part, sub_ℕ, ltb_ℤ, ◌+ℤ◌, ◌+₆₄◌, wrap_64, Bool, true, false, ◌&&◌,
  Option, none, some, List, [], ◌∷◌, ◌==◌, ◌<>◌, length, take, lookup, insert, text_lt, trim_space,
  sort_by, if◌then◌else◌,
}
use modelo_man.Domain.{Host, PromptAttempt, AttemptFilter, LeaderboardEntry}
use modelo_man.Domain.Fault
use modelo_man.Store.{Act, ◌>>=◌, ◌>>◌, pure, reject_if, use_host}
use modelo_man.Store
use modelo_man.Service.Requests.{LeaderboardRequest}

-- `aggregate`.
pub record Aggregate (F : Type 0) : Type 0 where
  pub workflow : String
  pub prompt_version : String
  pub model : String
  pub attempts : ℤ
  pub successes : ℤ
  pub failures : ℤ
  pub total_cost : F
  pub total_latency : ℤ

-- `strings.Join` with "|".
abbrev pub group_key : {F : Type 0} → PromptAttempt F → String
group_key a = a.workflow <> "|" <> a.prompt_version <> "|" <> a.model

-- `-time.Duration(days) * 24 * time.Hour`, in nanoseconds of `int64`.
abbrev pub window_of : ℤ → ℤ
window_of days = wrap_64 (sub_ℕ 0 (pos_part days * 86400000000000))

module _ (h : Host) where
  open h use {F}

  abbrev pub new_group : PromptAttempt F → Aggregate F
  new_group a = record {
    workflow = a.workflow;
    prompt_version = a.prompt_version;
    model = a.model;
    attempts = pos 0;
    successes = pos 0;
    failures = pos 0;
    total_cost = h.of_int (pos 0);
    total_latency = pos 0;
  }

  unfoldable pub add_to_group : Aggregate F → PromptAttempt F → Aggregate F
  add_to_group g a =
      let won = a.outcome == "success" in
      record g {
        attempts = g.attempts +₆₄ pos 1;
        total_cost = h.add g.total_cost a.cost_usd;
        total_latency = g.total_latency +₆₄ a.latency_ms;
        successes = if won then g.successes +₆₄ pos 1 else g.successes;
        failures = if won then g.failures else g.failures +₆₄ pos 1;
      }

  abbrev group_or_new : PromptAttempt F → Option (Aggregate F) → Aggregate F
  group_or_new a none = new_group a
  group_or_new a (some g) = g

  -- One round of the loop over the attempts. A group is changed in place.
  unfoldable pub group_one :
      List (String × Aggregate F) → PromptAttempt F → List (String × Aggregate F)
  unfolding lookup insert add_to_group
  group_one m a = insert (group_key a) (add_to_group (group_or_new a (lookup (group_key a) m)) a) m

  unfoldable pub group_all :
      List (String × Aggregate F) → List (PromptAttempt F) → List (String × Aggregate F)
  unfolding group_one
  group_all m [] = m
  group_all m (a ∷ attempts) = group_all (group_one m a) attempts

  unfoldable pub to_entry : Aggregate F → LeaderboardEntry F
  to_entry g =
      let rate = h.div (h.of_int g.successes) (h.of_int g.attempts) in
      let cost = h.div g.total_cost (h.of_int g.attempts) in
      let latency = h.div (h.of_int g.total_latency) (h.of_int g.attempts) in
      record {
        workflow = g.workflow;
        prompt_version = g.prompt_version;
        model = g.model;
        attempts = g.attempts;
        success_attempts = g.successes;
        failed_attempts = g.failures;
        success_rate = rate;
        average_cost_usd = cost;
        average_latency_ms = latency;
        score =
            h.sub (h.sub (h.mul rate (h.of_int (pos 100))) (h.mul cost (h.of_int (pos 100))))
              (h.div latency (h.of_int (pos 1000)));
      }

  abbrev is_empty_group : Aggregate F → Bool
  is_empty_group g = elim g.attempts [ pos n ↦ (elim n [ zero ↦ true | _ ↦ false ]) | _ ↦ false ]

  -- The loop over the groups, in some order.
  unfoldable pub to_entries : List (String × Aggregate F) → List (LeaderboardEntry F)
  unfolding to_entry
  to_entries [] = []
  to_entries ((key, g) ∷ m) =
      let rest = to_entries m in if is_empty_group g then rest else to_entry g ∷ rest

  -- The order: the higher score, then the higher success rate, then the prompt version.
  unfoldable pub entry_before : LeaderboardEntry F → LeaderboardEntry F → Bool
  entry_before a b =
      if h.eq a.score b.score
      then if h.eq a.success_rate b.success_rate
        then text_lt a.prompt_version b.prompt_version
        else h.lt b.success_rate a.success_rate
      else h.lt b.score a.score

  -- `if limit > 0 && len(out) > limit { out = out[:limit] }`.
  unfoldable pub cut : ℤ → List (LeaderboardEntry F) → List (LeaderboardEntry F)
  cut limit out =
      if ltb_ℤ (pos 0) limit && ltb_ℤ limit (pos (length out))
      then take (pos_part limit) out
      else out

  abbrev since_text : ℤ → Act F String
  since_text days =
      if ltb_ℤ (pos 0) days
      then (do k ← use_host; pure (h.format_time (h.clock k +ℤ window_of days)))
      else pure ""

  abbrev board_filter : LeaderboardRequest → String → AttemptFilter
  board_filter q after = record {
    run_id = "";
    workflow = trim_space q.workflow;
    agent_id = "";
    model = trim_space q.model;
    outcome = "";
    prompt_version = trim_space q.prompt_version;
    created_after = after;
    created_before = "";
    limit = pos 0;
  }

  unfoldable pub leaderboard : LeaderboardRequest → Act F (List (LeaderboardEntry F))
  unfolding group_all to_entries entry_before cut wrap_64 ◌+ℤ◌
  leaderboard q = do
    reject_if (ltb_ℤ q.limit (pos 0)) (Fault.invalid_argument "limit must be non-negative")
    reject_if (ltb_ℤ q.window_days (pos 0))
        (Fault.invalid_argument "window_days must be non-negative")
    after ← since_text q.window_days
    attempts ← Store.list_prompt_attempts_filtered h (board_filter q after)
    pure (cut q.limit (sort_by entry_before (to_entries (group_all [] attempts))))
