-- ===== src/Mm/Config/Loaded.antt =====
-- What every configuration that is loaded has.
use modelo_man.Base.{
  ℤ, pos, ltb_ℤ, String, true, false, Option, ◌==◌, ◌≡◌, refl, subst, inl, inr, Bool-cases,
  trim_space, arith, if◌then◌else◌,
}
use modelo_man.Mm.Fallible.{Fallible, got, fault}
use modelo_man.Mm.Config.{
  Config, default_config, ConfigFile, absent, broken, lines_of, fill_defaults, parse_lines,
  with_defaults, scanned, load,
}

abbrev IsPositive : ℤ → Type 0
IsPositive n = ltb_ℤ (pos 0) n ≡ true

abbrev IsFilled : String → Type 0
IsFilled s = trim_space s == "" ≡ false

-- Texts that are not blank, and numbers and times that are positive.
abbrev pub IsUsable : Config → Type 0
IsUsable cfg =
    IsFilled cfg.grpc_addr
    × IsFilled cfg.token_env_var
    × IsFilled cfg.default_backend
    × IsPositive cfg.max_context_bytes
    × IsPositive cfg.max_transcript_bytes
    × IsPositive cfg.retry_attempts
    × IsPositive cfg.connect_timeout
    × IsPositive cfg.request_timeout

filled : (s d : String) → IsFilled d → IsFilled (if trim_space s == "" then d else s)
filled s d k = elim (Bool-cases (trim_space s == "")) [ inl e ↦ rw e k | inr e ↦ rw e e ]

positive : (n d : ℤ) → IsPositive d → IsPositive (if ltb_ℤ (pos 0) n then n else d)
positive n d k = ground arith

fill_defaults-IsUsable : (cfg : Config) → IsUsable (fill_defaults cfg)
unfolding fill_defaults trim_space
fill_defaults-IsUsable cfg = (
  filled cfg.grpc_addr _ refl,
  filled cfg.token_env_var _ refl,
  filled cfg.default_backend _ refl,
  positive cfg.max_context_bytes _ refl,
  positive cfg.max_transcript_bytes _ refl,
  positive cfg.retry_attempts _ refl,
  positive cfg.connect_timeout _ refl,
  positive cfg.request_timeout _ refl,
)

abbrev UsableIfGot : Fallible Config → Type 0
UsableIfGot (got cfg) = IsUsable cfg
UsableIfGot (fault e) = Unit {0}

with_defaults-UsableIfGot :
    (path : String) (r : Fallible Config) → UsableIfGot (with_defaults path r)
with_defaults-UsableIfGot path (got cfg) = fill_defaults-IsUsable cfg
with_defaults-UsableIfGot path (fault e) = tt

load-UsableIfGot :
    (atoi : String → Option ℤ) (path : String) (file : ConfigFile)
    → UsableIfGot (load atoi path file)
unfolding load
load-UsableIfGot atoi path absent = fill_defaults-IsUsable default_config
load-UsableIfGot atoi path (broken e) = tt
load-UsableIfGot atoi path (lines_of lines ending) =
    with_defaults-UsableIfGot path (scanned ending (parse_lines atoi "" lines default_config))

-- A configuration that is loaded, from any file or from none, is usable: its address, the name of its
-- variable and its backend are not blank, and its limits, attempts and times are positive.
pub load-IsUsable :
    (atoi : String → Option ℤ) (path : String) (file : ConfigFile) (cfg : Config)
    → load atoi path file ≡ got cfg
    → IsUsable cfg
unfolding load
load-IsUsable atoi path file cfg e = subst UsableIfGot e (load-UsableIfGot atoi path file)
