-- ===== src/Api/Server.antt =====
-- backend/api/api.go and middleware.go: Handler, the routes with the rate limiter and CORS in front.
-- The trace middleware only adds spans, log lines and a header. The limiter's bucket is that of
-- RateLimit, and net/http's ServeMux answers a path that no route has.
use grab_seat.Base.{
  ℕ, Bool, true, false, not, ◌&&◌, ◌==◌, [], ◌∷◌, ◌++◌, Option, none, some, if◌then◌else◌,
}
use grab_seat.Base.Text.{Str, codes, str_eq}
use grab_seat.Model.{Snapshot}
use grab_seat.Ws.Serving.{check_origin}
use grab_seat.Service.{Result, Prog, ret, ◌>>=◌}
use grab_seat.RateLimit.{Rate, Limiter, admit}
use grab_seat.RateLimit.Keys.{Client, client_key}
use grab_seat.Api.Snapshot.{Server, build_snapshot}
use grab_seat.Api.Handlers.{
  Response, failure, empty, dash, SeatRequest, handle_health, handle_event, handle_state,
  handle_stats, handle_hold, handle_confirm,
}

-- GET stands for HEAD too, which ServeMux lets a GET pattern match.
pub data Method : Type 0 where
  get_method post_method options_method other_method : Method

pub record HttpRequest : Type 0 where
  pub method : Method
  pub path : Str
  pub client : Client
  pub seat : SeatRequest
  -- the header Origin, and the status with which the websocket library refuses the handshake, if it
  -- has another reason than the origin
  pub origin : Str
  pub handshake : Option ℕ

-- The request that a handler of seats reads: its session is the header that the limiter reads.
abbrev pub seat_request : HttpRequest → SeatRequest
seat_request r = record { session = r.client.session_id; seat_id = r.seat.seat_id }

pub data Route : Type 0 where
  health_route event_route state_route stats_route ws_route hold_route confirm_route : Route
  no_route wrong_method moved : Route

unfoldable pub get_or : Method → Route → Route
get_or get_method r = r
get_or _ r = wrong_method

unfoldable pub post_or : Method → Route → Route
post_or post_method r = r
post_or _ r = wrong_method

-- The characters of a path segment so far: none, one dot, two dots, or anything else.
pub data Segment : Type 0 where
  started one_dot two_dots named : Segment

abbrev is_named : Segment → Bool
is_named named = true
is_named _ = false

unfoldable pub grown : Segment → ℕ → Segment
grown started c = if c == 46 then one_dot else named
grown one_dot c = if c == 46 then two_dots else named
grown _ c = named

-- No segment is empty, "." or "..", but that the path may end with a slash.
unfoldable pub clean_from : Segment → Str → Bool
unfolding grown
clean_from started [] = true
clean_from named [] = true
clean_from _ [] = false
clean_from seg (c ∷ path) =
    let same = clean_from (grown seg c) path in
    let next = clean_from started path in
    if c == 47 then (if is_named seg then next else false) else same

-- A path that ServeMux leaves as it is
unfoldable pub is_clean : Str → Bool
unfolding clean_from
is_clean [] = false
is_clean (c ∷ path) = c == 47 && clean_from started path

-- The patterns that Handler registers. ServeMux redirects a path that is not clean.
unfoldable pub route : Method → Str → Route
unfolding get_or post_or is_clean
route m path =
    if not (is_clean path)
    then moved
    else if str_eq path (codes "/healthz")
    then get_or m health_route
    else if str_eq path (codes "/api/event")
    then get_or m event_route
    else if str_eq path (codes "/api/state")
    then get_or m state_route
    else if str_eq path (codes "/api/stats")
    then get_or m stats_route
    else if str_eq path (codes "/ws")
    then get_or m ws_route
    else if str_eq path (codes "/api/hold")
    then post_or m hold_route
    else if str_eq path (codes "/api/confirm")
    then post_or m confirm_route
    else no_route

-- What becomes of a request: a response, a handler that wrote nothing, an upgrade to a websocket,
-- or fuel that ran out.
pub data Served : Type 0 where
  answered : Response → Served
  silent upgraded out_of_fuel : Served

abbrev pub wrote : Option Response → Served
wrote none = silent
wrote (some resp) = answered resp

abbrev pub finished : Option (Option Response) → Served
finished none = out_of_fuel
finished (some r) = wrote r

-- handleWS, whose handler returns when the snapshot is built, whether it could be or not
abbrev pub upgraded_with : Option (Result Snapshot) → Served
upgraded_with none = out_of_fuel
upgraded_with (some snap) = upgraded

abbrev pub plain : ℕ → Served
plain status = answered (record { status = status; body = empty })

-- denyRateLimited
abbrev pub deny_rate_limited : Response
deny_rate_limited = record {
  status = 429;
  body = failure (codes "too many requests " ++ dash ++ codes " slow down") (codes "rate_limited");
}

-- The upgrade in Serve; gorilla/websocket answers a refused origin with 403.
unfoldable pub upgrade : Option ℕ → Bool → Prog Served → Prog Served
upgrade (some status) allowed next = ret (plain status)
upgrade none true next = next
upgrade none false next = ret (plain 403)

-- handleWS, up to what its client's pumps do (Ws)
unfoldable pub handle_ws : Server → ℕ → HttpRequest → Prog Served
unfolding upgrade check_origin build_snapshot
handle_ws s fuel r =
    upgrade r.handshake (check_origin s.allowed_origin r.origin)
      (build_snapshot s fuel >>= λ snap. ret (upgraded_with snap))

module _ (T : Rate) where
  -- Middleware, with the handler behind it.
  unfoldable pub limited : Bool × Limiter T → Prog (Option Response) → Limiter T × Prog Served
  limited (ok, l) next =
      (l, if ok then (next >>= λ r. ret (wrote r)) else ret (answered deny_rate_limited))

  unfoldable pub dispatch :
      Server → ℕ → ℕ → ℕ → Limiter T → HttpRequest → Route → Limiter T × Prog Served
  unfolding limited handle_ws
  dispatch s fuel clients now l r hold_route =
      limited (admit T l (client_key r.client) now) (handle_hold s (seat_request r))
  dispatch s fuel clients now l r confirm_route =
      limited (admit T l (client_key r.client) now) (handle_confirm s (seat_request r))
  dispatch s fuel clients now l r health_route = (l, handle_health s clients >>= λ a. ret (wrote a))
  dispatch s fuel clients now l r event_route = (l, handle_event s >>= λ a. ret (wrote a))
  dispatch s fuel clients now l r state_route = (l, handle_state s fuel >>= λ a. ret (finished a))
  dispatch s fuel clients now l r stats_route = (l, handle_stats s >>= λ a. ret (wrote a))
  dispatch s fuel clients now l r ws_route = (l, handle_ws s fuel r)
  dispatch s fuel clients now l r moved = (l, ret (plain 301))
  dispatch s fuel clients now l r no_route = (l, ret (plain 404))
  dispatch s fuel clients now l r wrong_method = (l, ret (plain 405))

  -- corsMiddleware answers OPTIONS itself.
  unfoldable pub cors : Method → Limiter T → Limiter T × Prog Served → Limiter T × Prog Served
  cors options_method l next = (l, ret (plain 204))
  cors _ l next = next

  -- Handler
  unfoldable pub serve : Server → ℕ → ℕ → ℕ → Limiter T → HttpRequest → Limiter T × Prog Served
  unfolding dispatch route cors
  serve s fuel clients now l r =
      cors r.method l (dispatch s fuel clients now l r (route r.method r.path))
