-- ===== src/Api/Middleware.antt =====
-- backend/api/middleware.go: the status recorder, the trace middleware and the headers of CORS, with
-- the response writer of net/http. A handler that hijacks the connection writes no response.
use grab_seat.Base.{
  ℕ, Bool, true, false, not, List, [], ◌∷◌, Option, none, some, ◌&&◌, if◌then◌else◌,
}
use grab_seat.Base.Text.{Str, codes, str_eq}
use grab_seat.Service.{Prog, ret, ◌>>=◌}
use grab_seat.Observability.{Level, info, writes_line, Context, with_logger, trace_id_from_context}
use grab_seat.RateLimit.{Rate, Limiter}
use grab_seat.Api.Snapshot.{Server}
use grab_seat.Api.Handlers.{Body, empty}
use grab_seat.Api.Server.{
  Method, HttpRequest, Served, answered, silent, upgraded, out_of_fuel, serve,
}

-- http.Header, each name once.
abbrev pub Headers : Type 0
Headers = List (Str × Str)

-- Header.Get
unfoldable pub header : Str → Headers → Str
header name [] = []
header name ((k, v) ∷ hs) = if str_eq k name then v else header name hs

-- Header.Set
unfoldable pub set_header : Str → Str → Headers → Headers
set_header name value [] = (name, value) ∷ []
set_header name value ((k, v) ∷ hs) =
    if str_eq k name then (name, value) ∷ hs else (k, v) ∷ set_header name value hs

-- http.ResponseWriter: the headers so far, the status with the headers that were sent, the body,
-- and whether the connection was hijacked.
pub record Writer : Type 0 where
  pub headers : Headers
  pub sent : Option (ℕ × Headers)
  pub body : Body
  pub hijacked : Bool

abbrev pub fresh_writer : Writer
fresh_writer = record { headers = []; sent = none; body = empty; hijacked = false }

-- WriteHeader of net/http: the first call counts.
unfoldable pub send_header : ℕ → Writer → Writer
send_header code w = elim w.sent [ none ↦ record w { sent = some (code, w.headers) } | some _ ↦ w ]

-- The end of a handler, for net/http: a response that was not begun is 200.
unfoldable pub end_response : Writer → Writer
unfolding send_header
end_response w = if w.hijacked then w else send_header 200 w

-- statusRecorder
pub record StatusRecorder : Type 0 where
  pub writer : Writer
  pub status : ℕ

-- statusRecorder.WriteHeader
unfoldable pub write_header : ℕ → StatusRecorder → StatusRecorder
unfolding send_header
write_header code rec = record { writer = send_header code rec.writer; status = code }

-- statusRecorder.Hijack, of a connection that can be hijacked
unfoldable pub hijack : StatusRecorder → StatusRecorder
hijack rec = record rec { writer = record rec.writer { hijacked = true } }

abbrev pub set : Str → Str → StatusRecorder → StatusRecorder
set name value rec = record rec {
  writer = record rec.writer { headers = set_header name value rec.writer.headers };
}

abbrev pub encode : Body → StatusRecorder → StatusRecorder
encode body rec = record rec { writer = record rec.writer { body = body } }

-- writeJSON
unfoldable pub write_json : ℕ → Body → StatusRecorder → StatusRecorder
unfolding write_header set_header
write_json status body rec =
    encode body (write_header status (set (codes "Content-Type") (codes "application/json") rec))

-- A response with a body is written by writeJSON, one without by WriteHeader.
unfoldable pub write_response : ℕ → Body → StatusRecorder → StatusRecorder
unfolding write_header write_json
write_response status empty rec = write_header status rec
write_response status body rec = write_json status body rec

unfoldable pub write_served : Served → StatusRecorder → StatusRecorder
unfolding write_response hijack
write_served (answered resp) rec = write_response resp.status resp.body rec
write_served silent rec = rec
write_served upgraded rec = hijack rec
write_served out_of_fuel rec = rec

-- corsMiddleware before it looks at the method
unfoldable pub cors_headers : Str → StatusRecorder → StatusRecorder
unfolding set_header
cors_headers origin rec = set (codes "Access-Control-Expose-Headers") (codes "X-Trace-Id") (
    set (codes "Access-Control-Allow-Headers") (codes "Content-Type, X-Session-Id") (
      set (codes "Access-Control-Allow-Methods") (codes "GET, POST, OPTIONS")
        (set (codes "Access-Control-Allow-Origin") origin rec)))

-- The attributes of a request's logger.
pub record RequestLog : Type 0 where
  pub trace_id : Str
  pub method : Method
  pub path : Str
  pub session : Str

-- The line of a request, less its duration.
pub record LogLine : Type 0 where
  pub log : RequestLog
  pub status : ℕ

abbrev pub request_log : Str → HttpRequest → RequestLog
request_log trace_id r = record {
  trace_id = trace_id;
  method = r.method;
  path = r.path;
  session = r.client.session_id;
}

-- The header X-Trace-Id, where there is a trace.
unfoldable pub trace_header : Str → Writer → Writer
unfolding set_header
trace_header trace_id w =
    if str_eq trace_id []
    then w
    else record w { headers = set_header (codes "X-Trace-Id") trace_id w.headers }

unfoldable pub log_request : Level → HttpRequest → RequestLog → ℕ → List LogLine
unfolding writes_line
log_request level r log status =
    if not (str_eq r.path (codes "/ws")) && writes_line level info
    then record { log = log; status = status } ∷ []
    else []

-- traceMiddleware around a handler, which is given the context: the response and the log.
unfoldable pub trace_middleware :
    Level
    → Context RequestLog
    → HttpRequest
    → (Context RequestLog → StatusRecorder → StatusRecorder)
    → Writer
    → Writer × List LogLine
unfolding trace_header log_request with_logger trace_id_from_context
trace_middleware level ctx r next w =
    let trace_id = trace_id_from_context ctx in
    let log = request_log trace_id r in
    let rec =
      next (with_logger ctx log) (record { writer = trace_header trace_id w; status = 200 }) in
    (end_response rec.writer, log_request level r log rec.status)

-- A handler that does not return writes neither a response nor a line of the log.
unfoldable pub returned : Served → Writer × List LogLine → Option (Writer × List LogLine)
returned out_of_fuel p = none
returned _ p = some p

module _ (T : Rate) where
  -- One request: what its handler does, and then the response and the log.
  unfoldable pub handle :
      Level
      → Context RequestLog
      → Server
      → ℕ
      → ℕ
      → ℕ
      → Limiter T
      → HttpRequest
      → Limiter T × Prog (Option (Writer × List LogLine))
  unfolding serve trace_middleware write_served cors_headers returned
  handle level ctx s fuel clients now l r =
      let (l', served) = serve T s fuel clients now l r in
      (
        l',
        served >>= λ out. ret (
            returned out (
              trace_middleware level ctx r
                (λ ctx' rec. write_served out (cors_headers s.allowed_origin rec)) fresh_writer)),
      )
