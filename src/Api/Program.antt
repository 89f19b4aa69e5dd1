-- ===== src/Api/Program.antt =====
-- backend/api: what the services are asked for a request, once the rate limiter has decided. The
-- limiter is a state of one instance, so this is what the instances that share the services see.
use grab_seat.Base.{ℕ, Bool, true, false, ◌≡◌, refl, Option}
use grab_seat.Service.{Prog, ret, ◌>>=◌}
use grab_seat.RateLimit.{Rate, Limiter, admit}
use grab_seat.RateLimit.Keys.{client_key}
use grab_seat.Api.Snapshot.{Server}
use grab_seat.Api.Handlers.{
  Response, handle_health, handle_event, handle_state, handle_stats, handle_hold, handle_confirm,
}
use grab_seat.Api.Server.{
  HttpRequest, Method, options_method, Route, hold_route, confirm_route, health_route, event_route,
  state_route, stats_route, ws_route, no_route, wrong_method, Served, answered, wrote, moved,
  handle_ws, finished, plain, deny_rate_limited, seat_request, route, limited, dispatch, cors,
  serve,
}

-- A request to an instance, with the limiter's decision, the fuel of HeldSeats and the number of
-- websocket clients
pub record Visit : Type 0 where
  pub passes : Bool
  pub server : Server
  pub fuel : ℕ
  pub clients : ℕ
  pub request : HttpRequest

-- Behind the limiter
unfoldable pub if_admitted : Bool → Prog (Option Response) → Prog Served
if_admitted true next = next >>= λ r. ret (wrote r)
if_admitted false next = ret (answered deny_rate_limited)

unfoldable pub at_route : Visit → Route → Prog Served
unfolding if_admitted handle_ws
at_route v hold_route = if_admitted v.passes (handle_hold v.server (seat_request v.request))
at_route v confirm_route = if_admitted v.passes (handle_confirm v.server (seat_request v.request))
at_route v health_route = handle_health v.server v.clients >>= λ a. ret (wrote a)
at_route v event_route = handle_event v.server >>= λ a. ret (wrote a)
at_route v state_route = handle_state v.server v.fuel >>= λ a. ret (finished a)
at_route v stats_route = handle_stats v.server >>= λ a. ret (wrote a)
at_route v ws_route = handle_ws v.server v.fuel v.request
at_route v moved = ret (plain 301)
at_route v no_route = ret (plain 404)
at_route v wrong_method = ret (plain 405)

unfoldable pub for_method : Method → Prog Served → Prog Served
for_method options_method next = ret (plain 204)
for_method _ next = next

unfoldable pub program : Visit → Prog Served
unfolding at_route for_method
program v = for_method v.request.method (at_route v (route v.request.method v.request.path))

module _ (T : Rate) where
  limited-if_admitted :
      (a : Bool × Limiter T) (next : Prog (Option Response))
      → (limited T a next).1 ≡ if_admitted a.0 next
  unfolding limited if_admitted
  limited-if_admitted (true, l) next = refl
  limited-if_admitted (false, l) next = refl

  -- The request as the limiter lets it through.
  abbrev pub visit : Server → ℕ → ℕ → ℕ → Limiter T → HttpRequest → Visit
  visit s fuel clients time l r = record {
    passes = (admit T l (client_key r.client) time).0;
    server = s;
    fuel = fuel;
    clients = clients;
    request = r;
  }

  pub dispatch-at_route :
      (s : Server) (fuel clients time : ℕ) (l : Limiter T) (r : HttpRequest) (to : Route)
      → (dispatch T s fuel clients time l r to).1 ≡ at_route (visit s fuel clients time l r) to
  unfolding dispatch at_route
  dispatch-at_route s fuel clients time l r hold_route =
      limited-if_admitted (admit T l (client_key r.client) time) (handle_hold s (seat_request r))
  dispatch-at_route s fuel clients time l r confirm_route =
      limited-if_admitted (admit T l (client_key r.client) time) (handle_confirm s (seat_request r))
  dispatch-at_route s fuel clients time l r _ = refl

  cors-for_method :
      (m : Method) (l : Limiter T) (next : Limiter T × Prog Served)
      → (cors T m l next).1 ≡ for_method m next.1
  unfolding cors for_method
  cors-for_method options_method l next = refl
  cors-for_method _ l next = refl

  -- The handler makes these calls, with the limiter's decision for the client.
  pub serve-program :
      (s : Server) (fuel clients time : ℕ) (l : Limiter T) (r : HttpRequest)
      → (serve T s fuel clients time l r).1 ≡ program (visit s fuel clients time l r)
  unfolding serve program
  serve-program s fuel clients time l r =
      rw (cors-for_method r.method l (dispatch T s fuel clients time l r (route r.method r.path)))
        (rw (dispatch-at_route s fuel clients time l r (route r.method r.path)) refl)
