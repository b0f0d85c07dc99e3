-- ===== src/Handlers.antt =====
-- app/core/exceptions.py: how a request ends. An AppError is answered with its status and nothing is
-- committed; any other exception is answered with 500, and leaves a row of the system log, written in
-- a session of its own (`system_log_service.log_standalone`). That this write may fail, which is only
-- logged, is left out.
use d_transfert_backend.Base.{String, none, [], ◌∷◌, ◌++◌}
use d_transfert_backend.Errors.{Error, Result, ok, err}
use d_transfert_backend.Models.{SystemLogLevel}
use d_transfert_backend.Database.{Db}
use d_transfert_backend.Service.{Service}
use d_transfert_backend.Service.Keeps.{Kept, Keeps}

abbrev pub log_standalone : SystemLogLevel → String → Db → Db
log_standalone level source s = record s {
  system_logs =
      s.system_logs
      ++ record { level = level; source = source; company_id = none; user_id = none } ∷ [];
}

-- `source` is `http:{request.method} {request.url.path}`.
abbrev pub unhandled_error_handler : String → Db → Db
unhandled_error_handler source s = log_standalone SystemLogLevel.error source s

-- The handler that is registered for an exception: Python's own, and those of SQLAlchemy, are no
-- AppError.
abbrev pub handle_error : Error → String → Db → Db
handle_error Error.value_error source s = unhandled_error_handler source s
handle_error Error.attribute_error source s = unhandled_error_handler source s
handle_error Error.name_error source s = unhandled_error_handler source s
handle_error Error.multiple_results source s = unhandled_error_handler source s
handle_error Error.integrity_error source s = unhandled_error_handler source s
handle_error Error.app_error source s = s
handle_error Error.not_found source s = s
handle_error Error.permission_denied source s = s
handle_error Error.unauthorized source s = s
handle_error Error.conflict source s = s
handle_error Error.unbalanced_operation source s = s
handle_error Error.insufficient_balance source s = s
handle_error Error.backup_error source s = s

abbrev pub answer : {A : Type 0} → Result (A × Db) → String → Db → Db
answer (ok (a, t)) source s = t
answer (err e) source s = handle_error e source s

-- The database after a request: that of the call if it returns, else what the handler of the
-- exception makes of the old one.
abbrev pub answered : {A : Type 0} → Service A → String → Db → Db
answered m source s = answer (m s) source s

module _ {P : Db → Type 0}
    (logs : (level : SystemLogLevel) (source : String) (s : Db)
      → P s
      → P (log_standalone level source s)) where
  handle_error-keeps : (e : Error) (source : String) (s : Db) → P s → P (handle_error e source s)
  handle_error-keeps Error.value_error source s h = logs _ source s h
  handle_error-keeps Error.attribute_error source s h = logs _ source s h
  handle_error-keeps Error.name_error source s h = logs _ source s h
  handle_error-keeps Error.multiple_results source s h = logs _ source s h
  handle_error-keeps Error.integrity_error source s h = logs _ source s h
  handle_error-keeps Error.app_error source s h = h
  handle_error-keeps Error.not_found source s h = h
  handle_error-keeps Error.permission_denied source s h = h
  handle_error-keeps Error.unauthorized source s h = h
  handle_error-keeps Error.conflict source s h = h
  handle_error-keeps Error.unbalanced_operation source s h = h
  handle_error-keeps Error.insufficient_balance source s h = h
  handle_error-keeps Error.backup_error source s h = h

  answer-keeps :
      {A : Type 0} (r : Result (A × Db)) (source : String) (s : Db)
      → Kept P r
      → P s
      → P (answer r source s)
  answer-keeps (ok (a, t)) source s k h = k
  answer-keeps (err e) source s k h = handle_error-keeps e source s h

  -- A request keeps what its call keeps and a row of the system log does not touch.
  pub Keeps-answered :
      {A : Type 0} (m : Service A)
      → Keeps P m
      → (source : String) (s : Db) → P s
      → P (answered m source s)
  Keeps-answered m k source s h = answer-keeps (m s) source s (k.at s h) h
