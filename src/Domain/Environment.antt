-- ===== src/Domain/Environment.antt =====
-- What the program takes from its host: `float64`, the clock, the random source, the outcome of
-- file operations, and Unicode's table of lower-case letters. The k-th use of the host sees the
-- k-th instant, the k-th random text and the k-th outcome.
use modelo_man.Base.{ℕ, String, ℤ, Bool, Option, List}
use Prim.Native.Char.{Char}

-- A value in an object that is encoded for a log.
pub data Scalar : Type 0 where
  text : String → Scalar
  number : ℤ → Scalar
  flag : Bool → Scalar

pub record Host : Type 1 where
  -- `float64` and its operations; `of_int` is the conversion from `int64`.
  pub F : Type 0
  pub add : F → F → F
  pub sub : F → F → F
  pub mul : F → F → F
  pub div : F → F → F
  pub lt : F → F → Bool
  pub eq : F → F → Bool
  pub of_int : ℤ → F
  pub is_finite : F → Bool
  -- `time.Now()` in nanoseconds, and the layouts `time.RFC3339Nano` and the one of `newID`.
  pub clock : ℕ → ℤ
  pub format_time : ℤ → String
  pub format_id_time : ℤ → String
  pub parse_time : String → Option ℤ
  -- The hexadecimal text of eight random bytes.
  pub random_hex : ℕ → String
  -- Whether an operation on a file or a directory succeeds.
  pub io_ok : ℕ → Bool
  -- `json.Marshal` of an object.
  pub json_object : List (String × Scalar) → String
  -- `unicode.ToLower`.
  pub to_lower : Char → Char
