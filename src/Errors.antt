-- ===== src/Errors.antt =====
-- app/core/exceptions.py: the errors that services raise, and the HTTP status of each.
-- `value_error` and `attribute_error` are Python's own errors (the second on an attribute of None),
-- `multiple_results` is SQLAlchemy's MultipleResultsFound and `integrity_error` its IntegrityError,
-- `name_error` is Python's NameError:
-- none of them is an AppError, so all end in `unhandled_error_handler`.
use d_transfert_backend.Base.{ℕ}

pub data Error : Type 0 where
  app_error not_found permission_denied unauthorized conflict unbalanced_operation : Error
  insufficient_balance backup_error value_error multiple_results integrity_error : Error
  attribute_error name_error : Error

-- A call that may raise.
pub data Result (A : Type 0) : Type 0 where
  ok : A → Result A
  err : Error → Result A

unfoldable pub status_code : Error → ℕ
status_code Error.app_error = 400
status_code Error.not_found = 404
status_code Error.permission_denied = 403
status_code Error.unauthorized = 401
status_code Error.conflict = 409
status_code Error.unbalanced_operation = 422
status_code Error.insufficient_balance = 422
status_code Error.backup_error = 500
status_code Error.value_error = 500
status_code Error.multiple_results = 500
status_code Error.integrity_error = 500
status_code Error.attribute_error = 500
status_code Error.name_error = 500
