-- ===== src/Mm/Bundle.antt =====
-- `renderBundle` and `readFileSnippet` of internal/mm/context/bundle.go. A text is the sequence of its
-- bytes, which the code counts and cuts; what stands in the files is an argument.
pub mod Cut
pub mod Rendered
use modelo_man.Base.{
  ℕ, zero, suc, ◌-◌, String, Bool, true, false, Option, none, some, List, [], ◌∷◌, ◌++◌, leb, ltb,
  length, take, Bytes, utf8, if◌then◌else◌,
}

-- `RepoMeta` of internal/mm/gitutil.
pub record RepoMeta : Type 0 where
  pub root : Bytes
  pub commit : Bytes
  pub branch : Bytes
  pub dirty : Bool

-- The buffer of `renderBundle` and its variable `remaining`. A size below zero is zero here: nothing
-- is written in either case.
pub record Buffer : Type 0 where
  pub written : Bytes
  pub remaining : ℕ

abbrev pub marker : Bytes
unfolding utf8
marker = utf8 "\n...[bundle-truncated]\n"

-- `appendLimited`.
unfoldable pub append_limited : Bytes → Buffer → Bool × Buffer
append_limited text b =
    if leb b.remaining 0
    then (false, b)
    else if leb (length text) b.remaining
    then (true, record { written = b.written ++ text; remaining = b.remaining - length text })
    else (false, record { written = b.written ++ take b.remaining text ++ marker; remaining = 0 })

-- Calls of `appendLimited` in a row, whatever they return.
unfoldable pub append_each : List Bytes → Buffer → Buffer
unfolding append_limited
append_each [] b = b
append_each (text ∷ texts) b = append_each texts (append_limited text b).1

-- A loop of such calls that ends with the first that returns false.
unfoldable pub append_until : List Bytes → Buffer → Buffer
unfolding append_limited
append_until [] b = b
append_until (text ∷ texts) b =
    let (fits, b') = append_limited text b in
    let rest = append_until texts b' in if fits then rest else b'

-- What `os.ReadFile` gives: the error's text, or the bytes.
pub data Contents : Type 0 where
  unreadable : Bytes → Contents
  readable : Bytes → Contents

abbrev pub has_zero : Bytes → Bool
has_zero [] = false
has_zero (c ∷ cs) = if leb c 0 then true else has_zero cs

-- `readFileSnippet`.
unfoldable pub read_file_snippet : ℕ → Contents → Bytes × Bool
unfolding utf8
read_file_snippet max (unreadable e) = (utf8 "[read error: " ++ e ++ utf8 "]", false)
read_file_snippet max (readable raw) =
    if has_zero raw
    then (utf8 "[binary file omitted]", false)
    else if ltb 0 max
    then if ltb max (length raw) then (take max raw, true) else (raw, false)
    else (raw, false)

-- The line of an item, and the header of a file.
abbrev pub item_line : Bytes → Bytes
unfolding utf8
item_line item = utf8 "- " ++ item ++ utf8 "\n"

abbrev pub item_lines : List Bytes → List Bytes
item_lines [] = []
item_lines (item ∷ items) = item_line item ∷ item_lines items

abbrev pub file_header : Bytes → Bool → Bytes
unfolding utf8
file_header rel truncated =
    utf8 "### " ++ rel ++ utf8 "\n" ++ (if truncated then utf8 "(truncated)\n" else [])

-- The loop over the files. It ends where nothing remains or a text does not fit.
unfoldable pub append_files : ℕ → (Bytes → Contents) → List Bytes → Buffer → Buffer
append_files max_file read [] b = b
append_files max_file read (rel ∷ rels) b =
    let (content, truncated) = read_file_snippet max_file (read rel) in
    let (header_fits, b') = append_limited (file_header rel truncated) b in
    let (content_fits, b'') = append_limited (content ++ utf8 "\n") b' in
    let rest = append_files max_file read rels b'' in
    if leb b.remaining 0
    then b
    else if header_fits
    then (if content_fits then rest else b'')
    else b'

abbrev pub metadata_texts : RepoMeta → List Bytes
unfolding utf8
metadata_texts meta =
    utf8 "## Repo Metadata\n"
    ∷ (utf8 "root: " ++ meta.root ++ utf8 "\n")
    ∷ (utf8 "branch: " ++ meta.branch ++ utf8 "\n")
    ∷ (utf8 "commit: " ++ meta.commit ++ utf8 "\n")
    ∷ (utf8 "dirty: " ++ utf8 (if meta.dirty then "true" else "false") ++ utf8 "\n\n")
    ∷ utf8 "## Selected Files\n"
    ∷ []

abbrev pub git_texts : Bytes → Bytes → List Bytes
unfolding utf8
git_texts status diff =
    utf8 "\n## Git Status (Porcelain)\n"
    ∷ (status ++ utf8 "\n")
    ∷ utf8 "\n## Git Diff (Staged + Unstaged)\n"
    ∷ (diff ++ utf8 "\n")
    ∷ []

-- What the bundle is made from, and its limits.
pub record Parts : Type 0 where
  pub meta : RepoMeta
  pub selected : List Bytes
  pub tree : List Bytes
  pub git_status : Bytes
  pub git_diff : Bytes
  pub symbol_hits : List Bytes
  pub max_bytes : ℕ
  pub max_file_bytes : ℕ

-- The section of the hits, where there are hits.
unfoldable pub append_hits : List Bytes → Buffer → Buffer
unfolding append_each append_until
append_hits [] b = b
append_hits (hit ∷ hits) b =
    append_until (item_lines (hit ∷ hits))
      (append_each (utf8 "\n## Prompt Symbol Grep Hits\n" ∷ []) b)

-- `renderBundle`; `read` reads the file of a path that is relative to the root.
unfoldable pub render_bundle : (Bytes → Contents) → Parts → Bytes
unfolding append_each append_until append_hits append_files
render_bundle read p =
    let start : Buffer = record { written = []; remaining = p.max_bytes } in
    let files = append_until (item_lines p.selected) (append_each (metadata_texts p.meta) start) in
    let tree =
      append_until (item_lines p.tree) (append_each (utf8 "\n## Tree Outline\n" ∷ []) files) in
    let git = append_each (git_texts p.git_status p.git_diff) tree in
    let hits = append_hits p.symbol_hits git in
    (append_files p.max_file_bytes read p.selected
      (append_each (utf8 "\n## Selected File Contents\n" ∷ []) hits)).written
