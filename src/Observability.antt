-- ===== src/Observability.antt =====
-- backend/observability/observability.go: the level of the log, the choice of the tracer, and what a
-- request's context has for the log. What OpenTelemetry builds is a parameter.
use grab_seat.Base.{ℕ, Bool, [], Option, none, some, ◌||◌, leb, if◌then◌else◌}
use grab_seat.Base.Text.{Str, codes, str_eq}
use grab_seat.Service.{Result, ok, err}

-- The levels of log/slog.
pub data Level : Type 0 where
  debug info warn error : Level

-- InitLogger: the level of the default logger.
unfoldable pub init_logger : Str → Level
init_logger level =
    if str_eq level (codes "debug")
    then debug
    else if str_eq level (codes "warn")
    then warn
    else if str_eq level (codes "error")
    then error
    else info

-- The levels of slog are 4 apart.
abbrev rank : Level → ℕ
rank debug = 0
rank info = 4
rank warn = 8
rank error = 12

-- A handler of slog writes the lines of its level and above.
unfoldable pub writes_line : Level → Level → Bool
writes_line handler line = leb (rank handler) (rank line)

-- What InitTracer returns: its shutdown does nothing, or is that of the provider that it installed.
pub data Tracing (Exporter Resource : Type 0) : Type 0 where
  disabled : Tracing Exporter Resource
  exporting : Exporter → Resource → Tracing Exporter Resource

module _ {Exporter Resource : Type 0} where
  with_resource : Exporter → Result Resource → Result (Tracing Exporter Resource)
  with_resource exp (err e) = err e
  with_resource exp (ok res) = ok (exporting exp res)

  with_exporter : Result Exporter → Result Resource → Result (Tracing Exporter Resource)
  unfolding with_resource
  with_exporter (err e) res = err e
  with_exporter (ok exp) res = with_resource exp res

  -- InitTracer, with the exporter and the resource that the libraries make.
  unfoldable pub init_tracer :
      Str → Result Exporter → Result Resource → Result (Tracing Exporter Resource)
  unfolding with_exporter
  init_tracer exporter exp res =
      if str_eq exporter (codes "none") || str_eq exporter []
      then ok disabled
      else with_exporter exp res

-- The values of a request's context: the span's trace id, where there is one, as text; the logger.
pub record Context (Logger : Type 0) : Type 0 where
  pub trace : Option Str
  pub attached : Option Logger

module _ {Logger : Type 0} where
  -- WithLogger
  unfoldable pub with_logger : Context Logger → Logger → Context Logger
  with_logger ctx l = record ctx { attached = some l }

  -- LoggerFromContext, with slog's default logger
  unfoldable pub logger_from_context : Logger → Context Logger → Logger
  logger_from_context default ctx = elim ctx.attached [ none ↦ default | some l ↦ l ]

  -- TraceIDFromContext
  unfoldable pub trace_id_from_context : Context Logger → Str
  trace_id_from_context ctx = elim ctx.trace [ none ↦ [] | some id ↦ id ]
