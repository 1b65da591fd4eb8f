-- ===== src/Mm/Git/Files.antt =====
-- The files that `SummarizeDiff` lists.
use modelo_man.Base.{
  ℤ, pos, String, true, false, ◌||◌, Option, List, [], ◌∷◌, ◌++◌, ◌==◌, ◌≡◌, refl, sym, subst,
  arith, inl, inr, eq_iff, Bool-cases, contains, contains-append, HasNoRepeat, append-HasNoRepeat,
  contains-sort_by, sort_by-HasNoRepeat, sort_by, text_lt, trim_space,
}
use modelo_man.Mm.Fallible.{got}
use modelo_man.Mm.Workflow.{DiffSummary}
use modelo_man.Mm.Git.{
  Git, Counts, with_file, lines, fields, split_at, count_fields, count_lines, summarize_diff,
}

-- The third of the fields of a line of `git diff --numstat`, where it has three or more.
abbrev pub third : List String → List String
third (added ∷ deleted ∷ file ∷ rest) = file ∷ []
third _ = []

-- The files that the lines name.
abbrev pub named_files : List String → List String
named_files [] = []
named_files (raw ∷ rest) = third (fields (trim_space raw)) ++ named_files rest

-- A text that equals one of a list is one of it.
known :
    (files : List String) (file k : String)
    → contains files file ≡ true
    → contains files k ≡ (file == k || contains files k)
known files file k e = elim (Bool-cases (file == k)) [
  | inl same ↦
      (let found : contains files k ≡ true =
          subst (λ t. contains files t ≡ true) ((eq_iff file k).0 same) e in
        ground arith)
  | inr other ↦ ground arith
]

contains-with_file :
    (file : String) (files : List String) (k : String)
    → contains (with_file file files) k ≡ (file == k || contains files k)
contains-with_file file files k = elim (Bool-cases (contains files file)) [
  | inl e ↦ rw (e) (known files file k e)
  | inr e ↦ let c = contains-append files (file ∷ []) k in rw (e) (ground (arith, c))
]

with_file-HasNoRepeat :
    (file : String) (files : List String) → HasNoRepeat files → HasNoRepeat (with_file file files)
with_file-HasNoRepeat file files u = elim (Bool-cases (contains files file)) [
  | inl e ↦ rw (e) u
  | inr e ↦ rw (e) (append-HasNoRepeat files file u e)
]

nameless : (line k : String) → line == "" ≡ true → contains (third (fields line)) k ≡ false
unfolding split_at fields
nameless line k e =
    subst (λ t. contains (third (fields t)) k ≡ false) (sym ((eq_iff line "").0 e)) refl

module _ (atoi : String → Option ℤ) where
  contains-count_fields :
      (c : Counts) (parts : List String) (k : String)
      → contains (count_fields atoi c parts).files k
        ≡ (contains (third parts) k || contains c.files k)
  unfolding count_fields
  contains-count_fields c [] k = refl
  contains-count_fields c (a ∷ []) k = refl
  contains-count_fields c (a ∷ d ∷ []) k = refl
  contains-count_fields c (a ∷ d ∷ file ∷ rest) k =
      let e = contains-with_file file c.files k in ground arith

  count_fields-HasNoRepeat :
      (c : Counts) (parts : List String)
      → HasNoRepeat c.files
      → HasNoRepeat (count_fields atoi c parts).files
  unfolding count_fields
  count_fields-HasNoRepeat c [] u = u
  count_fields-HasNoRepeat c (a ∷ []) u = u
  count_fields-HasNoRepeat c (a ∷ d ∷ []) u = u
  count_fields-HasNoRepeat c (a ∷ d ∷ file ∷ rest) u = with_file-HasNoRepeat file c.files u

  contains-count_lines :
      (raws : List String) (c : Counts) (k : String)
      → contains (count_lines atoi c raws).files k
        ≡ (contains (named_files raws) k || contains c.files k)
  unfolding count_lines
  contains-count_lines [] c k = refl
  contains-count_lines (raw ∷ rest) c k = elim (Bool-cases (trim_space raw == "")) [
    | inl e ↦
        (let n = nameless (trim_space raw) k e in
          let a = contains-append (third (fields (trim_space raw))) (named_files rest) k in
          rw (e, contains-count_lines rest c k) (ground (arith, n, a)))
    | inr e ↦
        (let f = contains-count_fields c (fields (trim_space raw)) k in
          let a = contains-append (third (fields (trim_space raw))) (named_files rest) k in
          rw (e, contains-count_lines rest (count_fields atoi c (fields (trim_space raw))) k)
            (ground (arith, f, a)))
  ]

  count_lines-HasNoRepeat :
      (raws : List String) (c : Counts)
      → HasNoRepeat c.files
      → HasNoRepeat (count_lines atoi c raws).files
  unfolding count_lines
  count_lines-HasNoRepeat [] c u = u
  count_lines-HasNoRepeat (raw ∷ rest) c u = elim (Bool-cases (trim_space raw == "")) [
    | inl e ↦ rw (e) (count_lines-HasNoRepeat rest c u)
    | inr e ↦ rw (e) (
        count_lines-HasNoRepeat rest (count_fields atoi c (fields (trim_space raw)))
          (count_fields-HasNoRepeat c (fields (trim_space raw)) u))
  ]

  -- Where git answers the two commands, there is a summary, whose files are the third fields of the
  -- lines of both answers that have at least three, each of them once.
  pub summarize_diff-files :
      (git : Git) (unstaged staged : String)
      → git ("diff" ∷ "--numstat" ∷ []) ≡ got unstaged
      → git ("diff" ∷ "--cached" ∷ "--numstat" ∷ []) ≡ got staged
      → (d : DiffSummary) × (summarize_diff atoi git ≡ got d)
        × HasNoRepeat d.changed_files
        × ((k : String)
            → contains d.changed_files k ≡ (
                contains (named_files (lines unstaged)) k
                || contains (named_files (lines staged)) k))
  unfolding summarize_diff
  summarize_diff-files git unstaged staged p q =
      let zeros : Counts = record { files = []; added = pos 0; deleted = pos 0 } in
      let first = count_lines atoi zeros (lines unstaged) in
      let c = count_lines atoi first (lines staged) in
      let d : DiffSummary = record {
        changed_files = sort_by text_lt c.files;
        added_lines = c.added;
        deleted_lines = c.deleted;
      } in
      (
        d,
        rw (p, q) refl,
        sort_by-HasNoRepeat text_lt c.files (
            count_lines-HasNoRepeat (lines staged) first
              (count_lines-HasNoRepeat (lines unstaged) zeros tt)),
        λ k.
            let s = contains-sort_by text_lt c.files k in
            let a = contains-count_lines (lines unstaged) zeros k in
            let b = contains-count_lines (lines staged) first k in ground (arith, s, a, b),
      )
