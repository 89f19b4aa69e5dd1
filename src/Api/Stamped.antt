-- ===== src/Api/Stamped.antt =====
-- backend/api: what every response and its line in the log have in common.
use grab_seat.Base.{
  ℕ, true, false, ◌≡◌, refl, ◌∙◌, ◌⊎◌, inl, inr, List, [], ◌∷◌, Option, ◌≤◌, none, some, arith,
  if◌then◌else◌,
}
use grab_seat.Base.Text.{Str, codes, str_eq, str_eq_iff}
use grab_seat.Service.{Event}
use grab_seat.Locking.Pages.{more_pages}
use grab_seat.Ws.Serving.{check_origin}
use grab_seat.Service.Paths.{Ensures, Ensures-bind}
use grab_seat.Observability.{Level, Context, with_logger, trace_id_from_context}
use grab_seat.RateLimit.{Rate, Limiter}
use grab_seat.Api.Snapshot.{Server}
use grab_seat.Api.Handlers.{
  Body, empty, failure, held_until, refused, done, counts, health, event_info, snapshot,
}
use grab_seat.Api.Server.{HttpRequest, Served, answered, silent, upgraded, out_of_fuel, serve}
use grab_seat.Api.Middleware.{
  Headers, header, set_header, Writer, fresh_writer, send_header, end_response, StatusRecorder,
  write_header, hijack, write_json, write_response, write_served, cors_headers, RequestLog, LogLine,
  request_log, trace_header, log_request, trace_middleware, handle, returned,
}
use grab_seat.Api.Upgrades.{OnWs, serve-OnWs}

header-set_header :
    (k v n : Str) (hs : Headers)
    → header n (set_header k v hs) ≡ (if str_eq k n then v else header n hs)
unfolding header set_header
header-set_header k v n [] = refl
header-set_header k v n ((j, u) ∷ hs) =
    ground (arith, str_eq_iff k n, str_eq_iff j k, str_eq_iff j n, header-set_header k v n hs)

-- The headers of CORS, for the origin, and the trace id.
pub record Marked (origin trace_id : Str) (hs : Headers) : Type 0 where
  pub allow_origin : header (codes "Access-Control-Allow-Origin") hs ≡ origin
  pub allow_methods : header (codes "Access-Control-Allow-Methods") hs ≡ codes "GET, POST, OPTIONS"
  pub allow_headers :
      header (codes "Access-Control-Allow-Headers") hs ≡ codes "Content-Type, X-Session-Id"
  pub expose_headers : header (codes "Access-Control-Expose-Headers") hs ≡ codes "X-Trace-Id"
  pub trace : header (codes "X-Trace-Id") hs ≡ trace_id

json-Marked :
    (origin trace_id v : Str) (hs : Headers)
    → Marked origin trace_id hs
    → Marked origin trace_id (set_header (codes "Content-Type") v hs)
unfolding str_eq
json-Marked origin trace_id v hs m = record {
  allow_origin = header-set_header (codes "Content-Type") v _ hs ∙ m.allow_origin;
  allow_methods = header-set_header (codes "Content-Type") v _ hs ∙ m.allow_methods;
  allow_headers = header-set_header (codes "Content-Type") v _ hs ∙ m.allow_headers;
  expose_headers = header-set_header (codes "Content-Type") v _ hs ∙ m.expose_headers;
  trace = header-set_header (codes "Content-Type") v _ hs ∙ m.trace;
}

-- A response that is not begun, with the headers of the middlewares.
record Prepared (origin trace_id : Str) (rec : StatusRecorder) : Type 0 where
  unsent : rec.writer.sent ≡ none
  kept : rec.writer.hijacked ≡ false
  default : rec.status ≡ 200
  marked : Marked origin trace_id rec.writer.headers

abbrev begun : Str → StatusRecorder
begun trace_id = record { writer = trace_header trace_id fresh_writer; status = 200 }

cors-Prepared :
    (origin trace_id : Str) → Prepared origin trace_id (cors_headers origin (begun trace_id))
unfolding cors_headers trace_header header set_header str_eq
cors-Prepared origin [] = record {
  unsent = refl;
  kept = refl;
  default = refl;
  marked = record {
    allow_origin = refl;
    allow_methods = refl;
    allow_headers = refl;
    expose_headers = refl;
    trace = refl;
  };
}
cors-Prepared origin (c ∷ trace_id) = record {
  unsent = refl;
  kept = refl;
  default = refl;
  marked = record {
    allow_origin = refl;
    allow_methods = refl;
    allow_headers = refl;
    expose_headers = refl;
    trace = refl;
  };
}

-- The connection is a websocket's, after such a request; or a response with these headers was
-- sent, and its status was recorded.
abbrev Ended : Str → Str → Type 0 → StatusRecorder → Type 0
Ended origin trace_id ws rec =
    ((rec.writer.hijacked ≡ true) × ws)
    ⊎ ((hs : Headers) × ((end_response rec.writer).sent ≡ some (rec.status, hs))
        × Marked origin trace_id hs)

module _ (origin trace_id : Str) (ws : Type 0) where
  header-Ended :
      (code : ℕ) (rec : StatusRecorder)
      → Prepared origin trace_id rec
      → Ended origin trace_id ws (write_header code rec)
  unfolding write_header send_header end_response
  header-Ended code rec p = inr (rec.writer.headers, rw (p.unsent, p.kept) refl, p.marked)

  json-Ended :
      (code : ℕ) (body : Body) (rec : StatusRecorder)
      → Prepared origin trace_id rec
      → Ended origin trace_id ws (write_json code body rec)
  unfolding write_json write_header send_header end_response
  json-Ended code body rec p = inr (
    set_header (codes "Content-Type") (codes "application/json") rec.writer.headers,
    rw (p.unsent, p.kept) refl,
    json-Marked origin trace_id (codes "application/json") rec.writer.headers p.marked,
  )

  response-Ended :
      (code : ℕ) (body : Body) (rec : StatusRecorder)
      → Prepared origin trace_id rec
      → Ended origin trace_id ws (write_response code body rec)
  unfolding write_response
  response-Ended code empty rec p = header-Ended code rec p
  response-Ended code (failure a b) rec p = json-Ended code (failure a b) rec p
  response-Ended code (held_until a b c) rec p = json-Ended code (held_until a b c) rec p
  response-Ended code (refused a b c) rec p = json-Ended code (refused a b c) rec p
  response-Ended code (done a b) rec p = json-Ended code (done a b) rec p
  response-Ended code (counts a b c) rec p = json-Ended code (counts a b c) rec p
  response-Ended code (health a b c d e) rec p = json-Ended code (health a b c d e) rec p
  response-Ended code (event_info a b c d) rec p = json-Ended code (event_info a b c d) rec p
  response-Ended code (snapshot a) rec p = json-Ended code (snapshot a) rec p

  silent-Ended :
      (rec : StatusRecorder) → Prepared origin trace_id rec → Ended origin trace_id ws rec
  unfolding end_response send_header
  silent-Ended rec p = inr (rec.writer.headers, rw (p.kept, p.unsent, p.default) refl, p.marked)

-- A request that becomes a websocket: the path, the origin and the handshake.
abbrev pub IsUpgraded : Server → HttpRequest → Type 0
IsUpgraded s r =
    (str_eq r.path (codes "/ws") ≡ true)
    × (check_origin s.allowed_origin r.origin ≡ true)
    × (r.handshake ≡ none)

-- The response to a request has the headers of CORS for the frontend's origin, and the trace id; the
-- log has its status. Only a request for "/ws" may become a websocket instead. A handler that
-- does not return has used up the fuel of HeldSeats.
abbrev pub Stamped :
    Level
    → Context RequestLog
    → Server
    → ℕ
    → HttpRequest
    → List Event
    → Option (Writer × List LogLine)
    → Type 0
Stamped level ctx s fuel r es none = fuel ≤ more_pages es
Stamped level ctx s fuel r es (some (w, log)) =
    let trace_id = trace_id_from_context ctx in
    ((w.hijacked ≡ true) × IsUpgraded s r × (log ≡ []))
    ⊎ ((status : ℕ) × (hs : Headers) × (w.sent ≡ some (status, hs))
        × Marked s.allowed_origin trace_id hs
        × (log ≡ log_request level r (request_log trace_id r) status))

module _ (level : Level) (ctx : Context RequestLog) (s : Server) (fuel : ℕ) (r : HttpRequest) where
  abbrev trace_id : Str
  trace_id = trace_id_from_context ctx

  stamps :
      (rec : StatusRecorder) (es : List Event)
      → Ended s.allowed_origin trace_id (IsUpgraded s r) rec
      → Stamped level ctx s fuel r es
          (some (end_response rec.writer, log_request level r (request_log trace_id r) rec.status))
  unfolding end_response log_request
  stamps rec es (inl (is_ws, on)) = inl (rw is_ws refl, on, rw on.0 refl)
  stamps rec es (inr (hs, sent, marked)) = inr (rec.status, hs, sent, marked, refl)

  -- The recorder with the headers of the two middlewares.
  abbrev prepared : StatusRecorder
  prepared = cors_headers s.allowed_origin (begun trace_id)

  returned-Stamped :
      (out : Served) (es : List Event)
      → OnWs s fuel r es out
      → Stamped level ctx s fuel r es (
          returned out (
            end_response (write_served out prepared).writer,
            log_request level r (request_log trace_id r) (write_served out prepared).status,
          ))
  unfolding OnWs write_served hijack returned
  returned-Stamped (answered resp) es on = stamps _ es (
      response-Ended s.allowed_origin trace_id (IsUpgraded s r) resp.status resp.body prepared
        (cors-Prepared s.allowed_origin trace_id))
  returned-Stamped silent es on = stamps _ es (
      silent-Ended s.allowed_origin trace_id (IsUpgraded s r) prepared
        (cors-Prepared s.allowed_origin trace_id))
  returned-Stamped out_of_fuel es on = on
  returned-Stamped upgraded es on = stamps _ es (inl (refl, on))

module _ (T : Rate) where
  -- Whatever the services reply, every request is answered with the headers of CORS for the
  -- configured origin and, where the request is traced, with its trace id; the log has one line with
  -- the status that was sent and that trace id, unless the path is "/ws" or the level is above info.
  -- There are two exceptions. A request for "/ws" whose origin and handshake are accepted becomes a
  -- websocket. And a handler does not return if the fuel of HeldSeats is used up by pages after
  -- which Redis announced another.
  pub handle-Stamped :
      (level : Level) (ctx : Context RequestLog) (s : Server) (fuel clients time : ℕ)
      (l : Limiter T) (r : HttpRequest)
      → Ensures (Stamped level ctx s fuel r) [] (handle T level ctx s fuel clients time l r).1
  unfolding handle trace_middleware with_logger
  handle-Stamped level ctx s fuel clients time l r =
      Ensures-bind (OnWs s fuel r) (Stamped level ctx s fuel r) []
        (serve T s fuel clients time l r).1 _ (serve-OnWs T s fuel clients time l r)
        (λ es out on. returned-Stamped level ctx s fuel r out es on)
