-- ===== src/Service/Limits.antt =====
-- `selectPolicyCap` and `resolveEffectiveLimits` of hub_service.go.
pub mod Best
use modelo_man.Base.{
  is_found, ℕ, ◌^◌, ◌-◌, ◌+◌, String, ℤ, pos, negsuc, ltb_ℤ, Bool, not, ◌&&◌, ◌||◌, Option, none,
  some, List, [], ◌∷◌, ◌==◌, ◌<>◌, if◌then◌else◌,
}
use modelo_man.Domain.{Host, OrchestrationPolicy, PolicyCap}

-- `cap.X != "" && cap.X != x`.
abbrev pub excludes : String → String → Bool
excludes wanted got = not (wanted == "") && not (wanted == got)

-- Whether the loop goes past its `continue`s.
unfoldable pub cap_applies : {F : Type 0} → String → String → String → PolicyCap F → Bool
cap_applies provider_type provider model c =
    c.is_active
    && not (excludes c.provider_type provider_type)
    && not (excludes c.provider provider)
    && not (excludes c.model model)

abbrev one_if : Bool → ℕ
one_if b = if b then 1 else 0

unfoldable pub specificity : {F : Type 0} → PolicyCap F → ℕ
specificity c =
    one_if (not (c.provider_type == ""))
    + one_if (not (c.provider == ""))
    + one_if (not (c.model == ""))

-- The variables of the loop: `selected` with `found`, `bestSpecificity`, `bestPriority`.
pub record Choice (F : Type 0) : Type 0 where
  pub selected : Option (PolicyCap F)
  pub best_specificity : ℤ
  pub best_priority : ℤ

abbrev pub no_choice : {F : Type 0} → Choice F
no_choice = record {
  selected = none;
  best_specificity = negsuc 0;
  best_priority = negsuc (2 ^ 62 - 1);
}

-- `specificity > bestSpecificity || (specificity == bestSpecificity && priority > bestPriority)`.
unfoldable pub improves : {F : Type 0} → Choice F → PolicyCap F → Bool
improves b c =
    ltb_ℤ b.best_specificity (pos (specificity c))
    || (not (ltb_ℤ (pos (specificity c)) b.best_specificity) && ltb_ℤ b.best_priority c.priority)

unfoldable pub consider :
    {F : Type 0} → String → String → String → Choice F → PolicyCap F → Choice F
consider provider_type provider model b c =
    if cap_applies provider_type provider model c && (not (is_found b.selected) || improves b c)
    then record {
      selected = some c;
      best_specificity = pos (specificity c);
      best_priority = c.priority;
    }
    else b

unfoldable pub select_from :
    {F : Type 0} → String → String → String → Choice F → List (PolicyCap F) → Choice F
select_from provider_type provider model b [] = b
select_from provider_type provider model b (c ∷ caps) =
    select_from provider_type provider model (consider provider_type provider model b c) caps

-- `selectPolicyCap`; the flag `found` is the option.
unfoldable pub select_policy_cap :
    {F : Type 0} → List (PolicyCap F) → String → String → String → Option (PolicyCap F)
unfolding select_from consider cap_applies improves specificity
select_policy_cap caps provider_type provider model =
    (select_from provider_type provider model no_choice caps).selected

-- `effectiveLimits`.
pub record EffectiveLimits (F : Type 0) : Type 0 where
  pub max_cost_per_run_usd : F
  pub max_attempts_per_run : ℤ
  pub max_tokens_per_run : ℤ
  pub max_latency_per_attempt_ms : ℤ
  pub max_cost_per_attempt_usd : F
  pub max_tokens_per_attempt : ℤ
  pub source : String

-- `x > 0`.
abbrev pub is_set : ℤ → Bool
is_set x = ltb_ℤ (pos 0) x

module _ (h : Host) where
  open h use {F}

  abbrev pub is_set_float : F → Bool
  is_set_float x = h.lt (h.of_int (pos 0)) x

  unfoldable pub resolve_effective_limits :
      OrchestrationPolicy F → Option (PolicyCap F) → EffectiveLimits F
  resolve_effective_limits p none = record {
    max_cost_per_run_usd = p.max_cost_per_run_usd;
    max_attempts_per_run = p.max_attempts_per_run;
    max_tokens_per_run = p.max_tokens_per_run;
    max_latency_per_attempt_ms = p.max_latency_per_attempt_ms;
    max_cost_per_attempt_usd = h.of_int (pos 0);
    max_tokens_per_attempt = pos 0;
    source = "global-policy";
  }
  resolve_effective_limits p (some c) = record {
    max_cost_per_run_usd =
        if is_set_float c.max_cost_per_run_usd
        then c.max_cost_per_run_usd
        else p.max_cost_per_run_usd;
    max_attempts_per_run =
        if is_set c.max_attempts_per_run then c.max_attempts_per_run else p.max_attempts_per_run;
    max_tokens_per_run =
        if is_set c.max_tokens_per_run then c.max_tokens_per_run else p.max_tokens_per_run;
    max_latency_per_attempt_ms =
        if is_set c.max_latency_per_attempt_ms
        then c.max_latency_per_attempt_ms
        else p.max_latency_per_attempt_ms;
    max_cost_per_attempt_usd =
        if is_set_float c.max_cost_per_attempt_usd
        then c.max_cost_per_attempt_usd
        else h.of_int (pos 0);
    max_tokens_per_attempt =
        if is_set c.max_tokens_per_attempt then c.max_tokens_per_attempt else pos 0;
    source = "policy-cap:" <> c.id;
  }
