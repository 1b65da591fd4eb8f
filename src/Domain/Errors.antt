-- ===== src/Domain/Errors.antt =====
-- internal/domain/errors.go.
use modelo_man.Base.{String, Option, none, some, ◌<>◌}

-- `ErrorCode`.
pub data ErrorCode : Type 0 where
  invalid_argument not_found conflict unauthenticated : ErrorCode
  failed_precondition resource_exhausted internal : ErrorCode

-- `AppError`; the cause is kept by its text.
pub record AppError : Type 0 where
  pub code : ErrorCode
  pub message : String
  pub cause : Option String

abbrev pub code_text : ErrorCode → String
code_text ErrorCode.invalid_argument = "invalid_argument"
code_text ErrorCode.not_found = "not_found"
code_text ErrorCode.conflict = "conflict"
code_text ErrorCode.unauthenticated = "unauthenticated"
code_text ErrorCode.failed_precondition = "failed_precondition"
code_text ErrorCode.resource_exhausted = "resource_exhausted"
code_text ErrorCode.internal = "internal"

-- `(*AppError).Error`.
unfoldable pub error_text : AppError → String
error_text e = elim e.cause [
  | none ↦ code_text e.code <> ": " <> e.message
  | some c ↦ code_text e.code <> ": " <> e.message <> " (" <> c <> ")"
]
