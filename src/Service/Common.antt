-- ===== src/Service/Common.antt =====
-- The sets of valid words, the clock, fresh ids and tags of hub_service.go.
pub mod Tags
pub mod Fresh
use Prim.Native.Char.{Char}
use modelo_man.Base.{String, ◌||◌, List, [], ◌∷◌, ◌==◌, ◌<>◌, contains, trim_space, if◌then◌else◌}
use modelo_man.Domain.{Host}
use modelo_man.Store.{Act, ◌>>=◌, pure, use_host}

abbrev pub valid_task_statuses : List String
valid_task_statuses = "todo" ∷ "in_progress" ∷ "done" ∷ "blocked" ∷ []

abbrev pub valid_provider_types : List String
valid_provider_types = "api" ∷ "subscription" ∷ "opensource" ∷ []

abbrev pub valid_run_statuses : List String
valid_run_statuses = "running" ∷ "completed" ∷ "failed" ∷ "cancelled" ∷ []

abbrev pub valid_attempt_outcomes : List String
valid_attempt_outcomes = "success" ∷ "failed" ∷ "timeout" ∷ "retryable_error" ∷ "tool_error" ∷ []

abbrev pub valid_event_levels : List String
valid_event_levels = "info" ∷ "warn" ∷ "error" ∷ []

abbrev pub valid_change_categories : List String
valid_change_categories = "platform" ∷ "policy" ∷ "model" ∷ "infra" ∷ "ops" ∷ []

-- `if s == "" { s = d }`.
abbrev pub or_default : String → String → String
or_default s d = if s == "" then d else s

-- `strings.ToLower`, from `unicode.ToLower`.
unfoldable pub lower_text : (Char → Char) → String → String
lower_text f String.[] = ""
lower_text f (String.◌∷◌ c s) = String.◌∷◌ (f c) (lower_text f s)

-- `strings.ToLower(strings.TrimSpace(tag))`.
unfoldable pub clean_tag : (Char → Char) → String → String
unfolding lower_text
clean_tag f tag = lower_text f (trim_space tag)

-- The loop of `normalizeTags` with the tags seen before.
unfoldable pub tags_from : (Char → Char) → List String → List String → List String
tags_from f seen [] = []
tags_from f seen (tag ∷ tags) =
    let skipped = tags_from f seen tags in
    let taken = clean_tag f tag ∷ tags_from f (clean_tag f tag ∷ seen) tags in
    if clean_tag f tag == "" || contains seen (clean_tag f tag) then skipped else taken

-- `normalizeTags`; a nil slice gives no tags, as an empty one does.
unfoldable pub normalize_tags : (Char → Char) → List String → List String
unfolding tags_from
normalize_tags f tags = tags_from f [] tags

module _ (h : Host) where
  open h use {F}

  -- `timeNow`.
  unfoldable pub time_now : Act F String
  time_now = do k ← use_host; pure (h.format_time (h.clock k))

  -- `newID`.
  unfoldable pub new_id : String → Act F String
  new_id prefix = do
    k ← use_host
    j ← use_host
    pure (prefix <> "_" <> h.format_id_time (h.clock j) <> "_" <> h.random_hex k)
