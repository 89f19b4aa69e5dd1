-- ===== src/Api/Charges.antt =====
-- backend/api with backend/ratelimit: which requests the rate limiter counts, and what the others do.
use grab_seat.Base.{◌≢◌, ℕ, Bool, true, false, ◌≡◌, refl, ◌⊎◌, inl, inr, Option}
use grab_seat.Service.{Prog, ret, ◌>>=◌}
use grab_seat.RateLimit.{Rate, Limiter, admit}
use grab_seat.RateLimit.Keys.{client_key}
use grab_seat.Api.Snapshot.{Server}
use grab_seat.Api.Handlers.{Response, handle_hold, handle_confirm}
use grab_seat.Api.Program.{dispatch-at_route, visit}
use grab_seat.Api.Server.{
  wrote, seat_request, get_method, post_method, other_method, moved, limited, dispatch, cors,
  answered, deny_rate_limited, HttpRequest, Route, hold_route, confirm_route, health_route,
  event_route, state_route, stats_route, ws_route, no_route, wrong_method, Served, serve, Method,
  route, options_method,
}
use grab_seat.Api.Writes.{Reads, at_route-Reads}

module _ (T : Rate) where
  -- The request is not counted: it leaves the limiter as it is, and only reads.
  abbrev pub Free : Limiter T → Limiter T × Prog Served → Type 0
  Free l out = (out.0 ≡ l) × Reads out.1

  -- The request is counted in its client's bucket; it is admitted to the handler, or is answered with
  -- the refusal and makes no call.
  abbrev pub Charged : Bool × Limiter T → Prog (Option Response) → Limiter T × Prog Served → Type 0
  Charged asked handler out =
      (out.0 ≡ asked.1)
      × (((asked.0 ≡ true) × (out.1 ≡ (handler >>= λ a. ret (wrote a))))
          ⊎ ((asked.0 ≡ false) × (out.1 ≡ ret (answered deny_rate_limited))))

  limited-Charged :
      (asked : Bool × Limiter T) (next : Prog (Option Response))
      → Charged asked next (limited T asked next)
  unfolding limited
  limited-Charged (true, l) next = (refl, inl (refl, refl))
  limited-Charged (false, l) next = (refl, inr (refl, refl))

  -- Of a request by its route, whether it is counted.
  abbrev pub Counted :
      Server → HttpRequest → Bool × Limiter T → Limiter T → Route → Limiter T × Prog Served → Type 0
  Counted s r asked l to out =
      ((to ≡ hold_route) × Charged asked (handle_hold s (seat_request r)) out)
      ⊎ ((to ≡ confirm_route) × Charged asked (handle_confirm s (seat_request r)) out)
      ⊎ ((to ≢ hold_route) × (to ≢ confirm_route) × Free l out)

  module _ (s : Server) (fuel clients time : ℕ) (l : Limiter T) (r : HttpRequest) where
    abbrev asked : Bool × Limiter T
    asked = admit T l (client_key r.client) time

    free_at :
        (to : Route)
        → to ≢ hold_route
        → to ≢ confirm_route
        → (dispatch T s fuel clients time l r to).0 ≡ l
        → Counted s r asked l to (dispatch T s fuel clients time l r to)
    free_at to h k same =
        let reads : Reads (dispatch T s fuel clients time l r to).1 =
          rw (dispatch-at_route T s fuel clients time l r to)
            (at_route-Reads (visit T s fuel clients time l r) to h k) in
        inr (inr (h, k, (same, reads)))

    dispatch-Counted : (to : Route) → Counted s r asked l to (dispatch T s fuel clients time l r to)
    unfolding dispatch
    dispatch-Counted hold_route = inl (refl, limited-Charged asked _)
    dispatch-Counted confirm_route = inr (inl (refl, limited-Charged asked _))
    dispatch-Counted health_route = free_at health_route (λ e. cc e) (λ e. cc e) refl
    dispatch-Counted event_route = free_at event_route (λ e. cc e) (λ e. cc e) refl
    dispatch-Counted state_route = free_at state_route (λ e. cc e) (λ e. cc e) refl
    dispatch-Counted stats_route = free_at stats_route (λ e. cc e) (λ e. cc e) refl
    dispatch-Counted ws_route = free_at ws_route (λ e. cc e) (λ e. cc e) refl
    dispatch-Counted moved = free_at moved (λ e. cc e) (λ e. cc e) refl
    dispatch-Counted no_route = free_at no_route (λ e. cc e) (λ e. cc e) refl
    dispatch-Counted wrong_method = free_at wrong_method (λ e. cc e) (λ e. cc e) refl

    cors-Counted :
        (m : Method) (to : Route) (next : Limiter T × Prog Served)
        → Counted s r asked l to next
        → ((m ≡ options_method) × Free l (cors T m l next))
          ⊎ Counted s r asked l to (cors T m l next)
    unfolding cors
    cors-Counted options_method to next h = inl (refl, (refl, tt))
    cors-Counted get_method to next h = inr h
    cors-Counted post_method to next h = inr h
    cors-Counted other_method to next h = inr h

    -- The two routes that hold and confirm, and no others, are counted by the rate limiter in the
    -- bucket of their client, and are handed to their handler where it admits them, and answered with a
    -- 429 without any call where it does not. Every other
    -- request leaves the limiter as it is and only reads, also one that becomes a websocket; OPTIONS
    -- is such a request at every path.
    pub serve-Counted :
        let out = serve T s fuel clients time l r in
        ((r.method ≡ options_method) × Free l out) ⊎ Counted s r asked l (route r.method r.path) out
    unfolding serve
    serve-Counted =
        cors-Counted r.method (route r.method r.path)
          (dispatch T s fuel clients time l r (route r.method r.path))
          (dispatch-Counted (route r.method r.path))
