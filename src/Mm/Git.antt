-- ===== src/Mm/Git.antt =====
-- internal/mm/gitutil/git.go, over the command git: its output for the arguments, or an error. The
-- output is valid UTF-8.
pub mod Files
use Prim.Native.Char.{Char, code}
use modelo_man.Base.{
  ℕ, ◌+◌, ◌≤◌, ℤ, pos, pos_part, ltb_ℤ, ◌+₆₄◌, String, Bool, true, not, Option, none, some, List,
  [], ◌∷◌, ◌++◌, ◌==◌, ◌<>◌, ◌≡◌, leb, ltb, length, length-append, length-take-le, take, arith,
  contains, is_space, sort_by, text_lt, trim_space, Bytes, utf8, inl, inr, Bool-cases,
  if◌then◌else◌, ◌&&◌,
}
use modelo_man.Mm.Fallible.{Fallible, got, fault, ◌>>=◌}
use modelo_man.Mm.Bundle.{RepoMeta}
use modelo_man.Mm.Workflow.{DiffSummary}

-- `runGit` in the repository.
abbrev pub Git : Type 0
Git = List String → Fallible String

-- `fmt.Errorf("…: %w", err)`.
abbrev named : {A : Type 0} → String → Fallible A → Fallible A
named what (got a) = got a
named what (fault e) = fault (what <> ": " <> e)

-- `Metadata`.
unfoldable pub metadata : Git → String → Fallible RepoMeta
unfolding utf8
metadata git root = do
  commit ← named "git rev-parse HEAD" (git ("rev-parse" ∷ "HEAD" ∷ []))
  branch ← named "git branch" (git ("rev-parse" ∷ "--abbrev-ref" ∷ "HEAD" ∷ []))
  status ← named "git status" (git ("status" ∷ "--porcelain" ∷ []))
  got (record {
    root = utf8 root;
    commit = utf8 (trim_space commit);
    branch = utf8 (trim_space branch);
    dirty = not (trim_space status == "");
  })

-- `StatusPorcelain`.
unfoldable pub status_porcelain : Git → Fallible String
status_porcelain git = named "git status --porcelain" (git ("status" ∷ "--porcelain" ∷ []))

-- The end of `CombinedDiff`: the text within the limit, where there is one.
unfoldable pub cut_diff : ℤ → Bytes → Bytes
unfolding utf8
cut_diff max combined =
    if ltb_ℤ (pos 0) max
    then if ltb (pos_part max) (length combined)
      then take (pos_part max) combined ++ utf8 "\n...[truncated]"
      else combined
    else combined

-- `CombinedDiff`.
unfoldable pub combined_diff : Git → ℤ → Fallible Bytes
unfolding cut_diff
combined_diff git max = do
  unstaged ← named "git diff" (git ("diff" ∷ "--no-color" ∷ []))
  staged ← named "git diff --cached" (git ("diff" ∷ "--cached" ∷ "--no-color" ∷ []))
  got (
      cut_diff max (
        utf8 "=== git diff (unstaged) ===\n"
        ++ utf8 unstaged
        ++ utf8 "\n=== git diff (staged) ===\n"
        ++ utf8 staged))

-- A character in front of the first of some texts.
abbrev onto_first : Char → List String → List String
onto_first c [] = String.◌∷◌ c "" ∷ []
onto_first c (s ∷ ss) = String.◌∷◌ c s ∷ ss

-- The texts between the characters that pass a test.
unfoldable pub split_at : (ℕ → Bool) → String → List String
split_at p String.[] = "" ∷ []
split_at p (String.◌∷◌ c s) =
    let rest = split_at p s in if p (code c) then "" ∷ rest else onto_first c rest

-- `strings.Split(s, "\n")`.
abbrev pub lines : String → List String
lines = split_at (λ c. leb c 10 && leb 10 c)

abbrev pub filled : List String → List String
filled [] = []
filled (s ∷ ss) = let rest = filled ss in if s == "" then rest else s ∷ rest

-- `strings.Fields`.
unfoldable pub fields : String → List String
unfolding is_space
fields s = filled (split_at is_space s)

-- The counts of `SummarizeDiff`; `files` has each name once, in the order of their lines.
pub record Counts : Type 0 where
  pub files : List String
  pub added : ℤ
  pub deleted : ℤ

abbrev plus : ℤ → Option ℤ → ℤ
plus total none = total
plus total (some n) = total +₆₄ n

abbrev with_file : String → List String → List String
with_file file files = if contains files file then files else files ++ file ∷ []

-- A line of `git diff --numstat`, in its fields; one with fewer than three is passed over.
unfoldable pub count_fields : (String → Option ℤ) → Counts → List String → Counts
count_fields atoi c (add ∷ del ∷ file ∷ rest) = record {
  files = with_file file c.files;
  added = plus c.added (atoi add);
  deleted = plus c.deleted (atoi del);
}
count_fields atoi c _ = c

unfoldable pub count_lines : (String → Option ℤ) → Counts → List String → Counts
unfolding count_fields
count_lines atoi c [] = c
count_lines atoi c (raw ∷ rest) =
    let line = trim_space raw in
    let counted = count_fields atoi c (fields line) in
    if line == "" then count_lines atoi c rest else count_lines atoi counted rest

-- `SummarizeDiff`.
unfoldable pub summarize_diff : (String → Option ℤ) → Git → Fallible DiffSummary
unfolding count_lines split_at
summarize_diff atoi git = do
  unstaged ← named "git diff --numstat" (git ("diff" ∷ "--numstat" ∷ []))
  staged ← named "git diff --cached --numstat" (git ("diff" ∷ "--cached" ∷ "--numstat" ∷ []))
  let zeros : Counts = record { files = []; added = pos 0; deleted = pos 0 }
  let c = count_lines atoi (count_lines atoi zeros (lines unstaged)) (lines staged)
  got (record {
    changed_files = sort_by text_lt c.files;
    added_lines = c.added;
    deleted_lines = c.deleted;
  })

-- A diff that is cut is at most 15 bytes longer than its limit.
length-cut_diff :
    (max : ℤ) (combined : Bytes)
    → ltb_ℤ (pos 0) max ≡ true
    → length (cut_diff max combined) ≤ pos_part max + 15
unfolding cut_diff utf8
length-cut_diff max combined limited = elim (Bool-cases (ltb (pos_part max) (length combined))) [
  | inl e ↦
      let n = length-append (take (pos_part max) combined) (utf8 "\n...[truncated]") in
      let t = length-take-le (pos_part max) combined in rw (limited, e) (omega (arith, n, t))
  | inr e ↦ rw (limited, e) (ground arith)
]
