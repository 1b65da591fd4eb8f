-- ===== src/Domain/Fault.antt =====
-- The functions of internal/domain/errors.go that make an error of each code.
use modelo_man.Base.{String, Option, none}
use modelo_man.Domain.Errors.{ErrorCode, AppError}

abbrev app_error : ErrorCode → String → AppError
app_error c m = record { code = c; message = m; cause = none }

abbrev pub invalid_argument : String → AppError
invalid_argument = app_error ErrorCode.invalid_argument

abbrev pub not_found : String → AppError
not_found = app_error ErrorCode.not_found

abbrev pub conflict : String → AppError
conflict = app_error ErrorCode.conflict

abbrev pub unauthenticated : String → AppError
unauthenticated = app_error ErrorCode.unauthenticated

abbrev pub failed_precondition : String → AppError
failed_precondition = app_error ErrorCode.failed_precondition

abbrev pub resource_exhausted : String → AppError
resource_exhausted = app_error ErrorCode.resource_exhausted

abbrev pub internal : String → Option String → AppError
internal m c = record { code = ErrorCode.internal; message = m; cause = c }
