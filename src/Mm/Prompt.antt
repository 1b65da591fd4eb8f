-- ===== src/Mm/Prompt.antt =====
-- `Build` of internal/mm/prompt/template.go, and internal/mm/redact/redact.go. Regular expressions are
-- those of Go's `regexp`: whether a pattern compiles, and what its matches are replaced by.
use modelo_man.Base.{
  ℤ, pos, ltb_ℤ, String, Bool, List, [], ◌∷◌, ◌++◌, ◌==◌, ◌<>◌, trim_space, if◌then◌else◌,
}

-- `TemplateInput`.
pub record TemplateInput : Type 0 where
  pub objective : String
  pub task_type : String
  pub skill_name : String
  pub skill_snippet : String
  pub context_digest : String
  pub backend : String
  pub budget_tokens : ℤ
  pub additional_hint : String

abbrev text_or : String → String → String
text_or s d = if s == "" then d else s

-- `if s := strings.TrimSpace(s); s != "" { … }`.
abbrev section : String → (String → String) → String
section s write = if trim_space s == "" then "" else write (trim_space s)

-- `Build`; `decimal` writes a number.
unfoldable pub build : (ℤ → String) → TemplateInput → String
build decimal i =
    "Objective:\n"
    <> ("- Task type: " <> text_or (trim_space i.task_type) "general-coding" <> "\n")
    <> ("- Backend target: " <> trim_space i.backend <> "\n")
    <> ("- User objective: "
        <> text_or (trim_space i.objective) "No explicit objective provided."
        <> "\n\n")
    <> "Constraints:\n"
    <> "- Keep changes minimal and production-safe.\n"
    <> "- Prefer deterministic steps and explicit validation.\n"
    <> (if ltb_ℤ (pos 0) i.budget_tokens
        then "- Soft token budget: " <> decimal i.budget_tokens <> "\n"
        else "")
    <> "- Never expose secrets in output.\n\n"
    <> "Context:\n"
    <> "- Use provided context bundle and git metadata.\n"
    <> section i.context_digest (λ s. "- Context digest: " <> s <> "\n")
    <> section i.skill_name (λ s. "- Skill: " <> s <> "\n")
    <> section i.skill_snippet (λ s. "\nSkill Snippet:\n" <> s <> "\n")
    <> section i.additional_hint (λ s. "\nHouse Rules:\n" <> s <> "\n")
    <> "\n"
    <> "Deliverables:\n"
    <> "- Implement requested changes.\n"
    <> "- Explain what changed and why.\n"
    <> "- Include key file references.\n\n"
    <> "Test plan:\n"
    <> "- Run focused tests/build checks for changed areas.\n"
    <> "- Report any unrun tests and residual risk.\n\n"
    <> "Definition of Done:\n"
    <> "- Requested behavior is implemented.\n"
    <> "- Build/tests pass for touched paths (or documented blockers).\n"
    <> "- Summary includes next actions if needed.\n"

-- What the program uses of `regexp`: `Compile` succeeds, and `ReplaceAllString(text, label)`.
pub record Regexp : Type 0 where
  pub compiles : String → Bool
  pub replace_all : String → String → String → String

-- `redactionRule`: a pattern and what stands in its place.
pub record RedactionRule : Type 0 where
  pub pattern : String
  pub label : String

-- `Redactor`.
pub record Redactor : Type 0 where
  pub enabled : Bool
  pub rules : List RedactionRule

abbrev rule : String → String → RedactionRule
rule p l = record { pattern = p; label = l }

abbrev pub builtin_rules : List RedactionRule
builtin_rules =
    rule "(?is)-----BEGIN [A-Z ]*PRIVATE KEY-----.*?-----END [A-Z ]*PRIVATE KEY-----"
      "[REDACTED_PRIVATE_KEY]"
    ∷ rule "(?i)bearer\\s+[A-Za-z0-9\\-._~+/]+=*" "Bearer [REDACTED]"
    ∷ rule "AKIA[0-9A-Z]{16}" "[REDACTED_AWS_KEY]"
    ∷ rule "(?i)(api[_-]?key|token|secret|password)\\s*[:=]\\s*['\"]?[^\\s'\"]+" "$1=[REDACTED]"
    ∷ rule "(?m)^\\s*[A-Za-z_][A-Za-z0-9_]*\\s*=\\s*.+$" "[REDACTED_ENV_LINE]"
    ∷ []

-- The loop over the patterns of the configuration.
unfoldable pub custom_rules : Regexp → List String → List RedactionRule
custom_rules regexp [] = []
custom_rules regexp (raw ∷ patterns) =
    let rest = custom_rules regexp patterns in
    let pattern = trim_space raw in
    if pattern == ""
    then rest
    else if regexp.compiles pattern
    then rule pattern "[REDACTED_CUSTOM]" ∷ rest
    else rest

-- `New`.
unfoldable pub new_redactor : Regexp → Bool → List String → Redactor
unfolding custom_rules
new_redactor regexp enabled custom = record {
  enabled = enabled;
  rules = builtin_rules ++ custom_rules regexp custom;
}

unfoldable pub apply_rules : Regexp → List RedactionRule → String → String
apply_rules regexp [] out = out
apply_rules regexp (r ∷ rules) out =
    apply_rules regexp rules (regexp.replace_all r.pattern r.label out)

-- `Apply`.
unfoldable pub apply_redactor : Regexp → Redactor → String → String
unfolding apply_rules
apply_redactor regexp r input =
    if r.enabled then (if input == "" then input else apply_rules regexp r.rules input) else input
