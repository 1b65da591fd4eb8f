-- ===== src/Mm/Config.antt =====
-- internal/mm/config/config.go: the configuration of the wrapper. The lines of the file, the numbers
-- that `strconv.Atoi` reads and the environment are arguments.
pub mod Loaded
use Prim.Native.Char.{Char, code}
use Prim.Native.String
use modelo_man.Base.{
  ℤ, pos, ltb_ℤ, String, Bool, true, false, ◌&&◌, ◌||◌, Option, none, some, List, [], ◌∷◌, ◌++◌,
  ◌==◌, ◌<>◌, leb, strip_prefix, trim_space, parse_bool, is_found, if◌then◌else◌,
}
use modelo_man.Mm.Fallible.{Fallible, got, fault}

-- `Config`; durations are nanoseconds.
pub record Config : Type 0 where
  pub grpc_addr : String
  pub grpc_insecure : Bool
  pub token_env_var : String
  pub default_backend : String
  pub redaction_enabled : Bool
  pub max_context_bytes : ℤ
  pub max_transcript_bytes : ℤ
  pub allow_raw_transcript : Bool
  pub custom_redact_regexes : List String
  pub connect_timeout : ℤ
  pub request_timeout : ℤ
  pub retry_attempts : ℤ

-- `Default`.
abbrev pub default_config : Config
default_config = record {
  grpc_addr = "grpc.modeloman.com:443";
  grpc_insecure = false;
  token_env_var = "MODEL0MAN_TOKEN";
  default_backend = "codex";
  redaction_enabled = true;
  max_context_bytes = pos 350000;
  max_transcript_bytes = pos 200000;
  allow_raw_transcript = false;
  custom_redact_regexes = [];
  connect_timeout = pos 8000000000;
  request_timeout = pos 10000000000;
  retry_attempts = pos 3;
}

abbrev same_char : Char → Char → Bool
same_char c d = leb (code c) (code d) && leb (code d) (code c)

-- The text without its last character, where that is `q`.
unfoldable pub strip_last : Char → String → Option String
strip_last q String.[] = none
strip_last q (String.◌∷◌ c s) =
    let rest = strip_last q s in
    if s == ""
    then if same_char c q then some "" else none
    else elim rest [ none ↦ none | some kept ↦ some (String.◌∷◌ c kept) ]

abbrev is_quote : Char → Bool
is_quote c = (leb (code c) 34 && leb 34 (code c)) || (leb (code c) 39 && leb 39 (code c))

unquote : String → String
unfolding strip_last
unquote String.[] = ""
unquote (String.◌∷◌ c s) =
    if is_quote c
    then elim (strip_last c s) [ none ↦ String.◌∷◌ c s | some kept ↦ kept ]
    else String.◌∷◌ c s

-- `trimQuotes`.
unfoldable pub trim_quotes : String → String
unfolding unquote
trim_quotes value = unquote (trim_space value)

-- `strings.SplitN(line, ":", 2)`, where there is a colon.
unfoldable pub split_colon : String → Option (String × String)
split_colon String.[] = none
split_colon (String.◌∷◌ c s) =
    let rest = split_colon s in
    if leb (code c) 58 && leb 58 (code c)
    then some ("", s)
    else elim rest [ none ↦ none | some p ↦ some (String.◌∷◌ c p.0, p.1) ]

-- The value, or an error that names the key; what `strconv` says in it is left out.
abbrev parsed : {A : Type 0} → String → Option A → (A → Config) → Fallible Config
parsed key none set = fault key
parsed key (some a) set = got (set a)

-- A key with the value that the loop trimmed: the switch of `parseConfig`.
unfoldable pub set_key : (String → Option ℤ) → String → String → Config → Fallible Config
set_key atoi key value cfg =
    if key == "grpc_addr"
    then got (record cfg { grpc_addr = value })
    else if key == "grpc_insecure"
    then parsed key (parse_bool value) (λ b. record cfg { grpc_insecure = b })
    else if key == "token_env_var"
    then got (record cfg { token_env_var = value })
    else if key == "default_backend"
    then got (record cfg { default_backend = value })
    else if key == "redaction"
    then parsed key (parse_bool value) (λ b. record cfg { redaction_enabled = b })
    else if key == "max_context_bytes"
    then parsed key (atoi value) (λ n. record cfg { max_context_bytes = n })
    else if key == "allow_raw_transcript"
    then parsed key (parse_bool value) (λ b. record cfg { allow_raw_transcript = b })
    else if key == "max_transcript_bytes"
    then parsed key (atoi value) (λ n. record cfg { max_transcript_bytes = n })
    else got cfg

-- An item of a list; only the patterns of the redaction are kept.
unfoldable pub add_item : String → String → Config → Config
unfolding trim_quotes
add_item list_key item cfg =
    let value = trim_quotes (trim_space item) in
    if list_key == "custom_redaction_regex"
    then if value == ""
      then cfg
      else record cfg { custom_redact_regexes = cfg.custom_redact_regexes ++ value ∷ [] }
    else cfg

-- A line that is no item: the list that it opens, if any, and the configuration.
unfoldable pub set_line : (String → Option ℤ) → String → Config → String × Fallible Config
unfolding set_key trim_quotes split_colon
set_line atoi line cfg = elim (split_colon line) [
  | none ↦ ("", got cfg)
  | some parts ↦
      if trim_space parts.1 == ""
      then (trim_space parts.0, got cfg)
      else ("", set_key atoi (trim_space parts.0) (trim_quotes (trim_space parts.1)) cfg)
]

abbrev is_skipped : String → Bool
is_skipped line = line == "" || is_found (strip_prefix "#" line)

-- The loop of `parseConfig`, in the list of this key.
unfoldable pub parse_lines : (String → Option ℤ) → String → List String → Config → Fallible Config
unfolding set_line add_item
parse_lines atoi list_key [] cfg = got cfg
parse_lines atoi list_key (raw ∷ lines) cfg =
    let line = trim_space raw in
    let skipped = parse_lines atoi list_key lines cfg in
    let (opened, set) = set_line atoi line cfg in
    if is_skipped line then skipped else elim (strip_prefix "- " line) [
      | some item ↦ parse_lines atoi list_key lines (add_item list_key item cfg)
      | none ↦ elim set [ fault e ↦ fault e | got cfg' ↦ parse_lines atoi opened lines cfg' ]
    ]

-- `if strings.TrimSpace(s) == "" { s = d }`, and `if n <= 0 { n = d }`.
abbrev text_or : String → String → String
text_or s d = if trim_space s == "" then d else s

abbrev number_or : ℤ → ℤ → ℤ
number_or n d = if ltb_ℤ (pos 0) n then n else d

-- The defaults that `Load` fills in behind the file.
unfoldable pub fill_defaults : Config → Config
fill_defaults cfg = record cfg {
  grpc_addr = text_or cfg.grpc_addr default_config.grpc_addr;
  token_env_var = text_or cfg.token_env_var default_config.token_env_var;
  default_backend = text_or cfg.default_backend default_config.default_backend;
  max_context_bytes = number_or cfg.max_context_bytes default_config.max_context_bytes;
  max_transcript_bytes = number_or cfg.max_transcript_bytes default_config.max_transcript_bytes;
  retry_attempts = number_or cfg.retry_attempts default_config.retry_attempts;
  connect_timeout = number_or cfg.connect_timeout default_config.connect_timeout;
  request_timeout = number_or cfg.request_timeout default_config.request_timeout;
}

-- What reading the file gives. The lines are those that the scanner reads, with the error that ends
-- it, if one does.
pub data ConfigFile : Type 0 where
  absent : ConfigFile
  broken : String → ConfigFile
  lines_of : List String → Option String → ConfigFile

abbrev pub with_defaults : String → Fallible Config → Fallible Config
with_defaults path (got cfg) = got (fill_defaults cfg)
with_defaults path (fault e) = fault ("parse mm config " <> path <> ": " <> e)

-- The end of `parseConfig`: an error of the scanner.
abbrev pub scanned : Option String → Fallible Config → Fallible Config
scanned (some e) (got cfg) = fault e
scanned _ r = r

-- `Load`, at the path that `Path` gives.
unfoldable pub load : (String → Option ℤ) → String → ConfigFile → Fallible Config
unfolding parse_lines fill_defaults
load atoi path absent = got (fill_defaults default_config)
load atoi path (broken e) = fault ("read mm config " <> path <> ": " <> e)
load atoi path (lines_of lines ending) =
    with_defaults path (scanned ending (parse_lines atoi "" lines default_config))

-- `ResolveToken`; the environment gives the empty text for a variable that is not set.
unfoldable pub resolve_token : (String → String) → Config → String
resolve_token getenv cfg =
    let name = trim_space cfg.token_env_var in
    if name == ""
    then trim_space (getenv "MODELOMAN_TOKEN")
    else if trim_space (getenv name) == ""
    then trim_space (getenv "MODELOMAN_TOKEN")
    else trim_space (getenv name)
