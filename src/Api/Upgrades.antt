-- ===== src/Api/Upgrades.antt =====
-- backend/api/api.go: which requests are upgraded to a websocket.
use grab_seat.Base.{
  List, ◌≤◌, not, ℕ, Bool, true, false, ◌≡◌, refl, [], Option, none, some, if◌then◌else◌,
}
use grab_seat.Base.Text.{Str, codes, str_eq}
use grab_seat.Service.{Result, ok, err, Event, Prog, ret, ◌>>=◌}
use grab_seat.Service.Paths.{Ensures, Ensures-bind, Ensures-keeps}
use grab_seat.RateLimit.{Rate, Limiter, admit}
use grab_seat.RateLimit.Keys.{client_key}
use grab_seat.Api.Snapshot.{Server, Booked, build_snapshot, after_booked, after_held}
use grab_seat.Locking.Held.{Held, held_seats}
use grab_seat.Locking.Pages.{more_pages, held_seats-Spent}
use grab_seat.Model.{Snapshot}
use grab_seat.Store.{booked_seats, collect}
use grab_seat.Ws.Serving.{check_origin}
use grab_seat.Api.Handlers.{
  state_response, Response, handle_health, handle_event, handle_state, handle_stats, handle_hold,
  handle_confirm,
}
use grab_seat.Api.Server.{
  moved, is_clean, upgrade, upgraded_with, out_of_fuel, handle_ws, Method, HttpRequest, Route,
  Served, upgraded, wrote, finished, limited, dispatch, cors, serve, route, get_method, post_method,
  options_method, other_method, hold_route, confirm_route, health_route, event_route, state_route,
  stats_route, ws_route, no_route, wrong_method, seat_request, get_or, post_or,
}

-- A snapshot that has no answer has used up the fuel of HeldSeats on pages with a next one.
abbrev Spent : {A : Type 0} → ℕ → List Event → Option A → Type 0
Spent fuel es a = a ≡ none → fuel ≤ more_pages es

after_held-Spent :
    (s : Server) (fuel : ℕ) (booked : Booked) (es : List Event) (a : Option (Result Held))
    → Spent fuel es a
    → Ensures (Spent fuel) es (after_held s booked a)
unfolding after_held
after_held-Spent s fuel booked es none spent = λ missing. spent refl
after_held-Spent s fuel booked es (some (ok held)) spent = λ t missing. absurd cc
after_held-Spent s fuel booked es (some (err e)) spent = λ t missing. absurd cc

build_snapshot-Spent : (s : Server) (fuel : ℕ) → Ensures (Spent fuel) [] (build_snapshot s fuel)
unfolding build_snapshot booked_seats after_booked
build_snapshot-Spent s fuel = elim [
  | err e ↦ λ missing. absurd cc
  | ok rows ↦
      Ensures-bind (Spent fuel) (Spent fuel) _ (held_seats fuel) (after_held s (collect rows []))
        (held_seats-Spent fuel _) (after_held-Spent s fuel (collect rows []))
]

-- Only a request for "/ws" with an accepted origin and handshake is upgraded, and one that is not
-- answered has used up the fuel of HeldSeats.
unfoldable pub OnWs : Server → ℕ → HttpRequest → List Event → Served → Type 0
unfolding check_origin
OnWs s fuel r es upgraded =
    (str_eq r.path (codes "/ws") ≡ true)
    × (check_origin s.allowed_origin r.origin ≡ true)
    × (r.handshake ≡ none)
OnWs s fuel r es out_of_fuel = fuel ≤ more_pages es
OnWs s fuel r es _ = Unit

module _ (s : Server) (fuel : ℕ) (r : HttpRequest) where
  wrote-OnWs : (es : List Event) (a : Option Response) → OnWs s fuel r es (wrote a)
  unfolding OnWs
  wrote-OnWs es none = tt
  wrote-OnWs es (some resp) = tt

  finished-OnWs :
      (es : List Event) (a : Option (Option Response))
      → Spent fuel es a
      → OnWs s fuel r es (finished a)
  unfolding OnWs
  finished-OnWs es none spent = spent refl
  finished-OnWs es (some a) spent = wrote-OnWs es a

  then-OnWs : (m : Prog (Option Response)) → Ensures (OnWs s fuel r) [] (m >>= λ a. ret (wrote a))
  then-OnWs m =
      Ensures-bind (λ es a. Unit {0}) (OnWs s fuel r) [] m (λ a. ret (wrote a))
        (Ensures-keeps (λ es. Unit {0}) (λ e es t. t) [] m tt) (λ es a t. wrote-OnWs es a)

  built-Spent :
      (es : List Event) (a : Option (Result Snapshot))
      → Spent fuel es a
      → Ensures
          (Spent {A = Option Response} fuel)
          es
          (ret (elim a [ none ↦ none | some x ↦ some (state_response x) ]))
  built-Spent es none spent = λ missing. spent refl
  built-Spent es (some a) spent = λ missing. absurd cc

  state-OnWs : Ensures (OnWs s fuel r) [] (handle_state s fuel >>= λ a. ret (finished a))
  unfolding handle_state
  state-OnWs =
      Ensures-bind (Spent fuel) (OnWs s fuel r) [] (handle_state s fuel) (λ a. ret (finished a))
        (Ensures-bind (Spent fuel) (Spent fuel) [] (build_snapshot s fuel) _
          (build_snapshot-Spent s fuel) built-Spent)
        finished-OnWs

  upgraded-OnWs :
      (es : List Event) (a : Option (Result Snapshot))
      → OnWs s fuel r es upgraded
      → Spent fuel es a
      → OnWs s fuel r es (upgraded_with a)
  unfolding OnWs
  upgraded-OnWs es none on spent = spent refl
  upgraded-OnWs es (some a) on spent = on

  ws_tested :
      (handshake : Option ℕ) (allowed : Bool)
      → r.handshake ≡ handshake
      → check_origin s.allowed_origin r.origin ≡ allowed
      → str_eq r.path (codes "/ws") ≡ true
      → Ensures
          (OnWs s fuel r)
          []
          (upgrade handshake allowed (build_snapshot s fuel >>= λ a. ret (upgraded_with a)))
  unfolding upgrade OnWs
  ws_tested (some status) allowed p q ws = tt
  ws_tested none false p q ws = tt
  ws_tested none true p q ws =
      Ensures-bind (Spent fuel) (OnWs s fuel r) [] (build_snapshot s fuel) _
        (build_snapshot-Spent s fuel) (λ es a spent. upgraded-OnWs es a (ws, q, p) spent)

  handle_ws-OnWs :
      str_eq r.path (codes "/ws") ≡ true → Ensures (OnWs s fuel r) [] (handle_ws s fuel r)
  unfolding handle_ws
  handle_ws-OnWs ws = ws_tested r.handshake _ refl refl ws

abbrev IsWs : Route → Type 0
IsWs ws_route = Unit
IsWs _ = ⊥

no_ws_get : (m : Method) (to : Route) → (IsWs to → ⊥) → IsWs (get_or m to) → ⊥
unfolding get_or
no_ws_get get_method to no_ws h = no_ws h
no_ws_get post_method to no_ws h = h
no_ws_get options_method to no_ws h = h
no_ws_get other_method to no_ws h = h

no_ws_post : (m : Method) (to : Route) → (IsWs to → ⊥) → IsWs (post_or m to) → ⊥
unfolding post_or
no_ws_post get_method to no_ws h = h
no_ws_post post_method to no_ws h = no_ws h
no_ws_post options_method to no_ws h = h
no_ws_post other_method to no_ws h = h

not_this : (c : Bool) (x y : Route) → (IsWs x → ⊥) → IsWs (if c then x else y) → IsWs y
not_this true x y no_ws h = absurd (no_ws h)
not_this false x y no_ws h = h

this_or : (c : Bool) (x y : Route) → (IsWs y → ⊥) → IsWs (if c then x else y) → c ≡ true
this_or true x y no_ws h = refl
this_or false x y no_ws h = absurd (no_ws h)

module _ (m : Method) (path : Str) where
  abbrev is : Str → Bool
  is p = str_eq path p

  abbrev last_routes : Route
  last_routes =
      if is (codes "/api/hold")
      then post_or m hold_route
      else if is (codes "/api/confirm")
      then post_or m confirm_route
      else no_route

  no_ws_left : IsWs last_routes → ⊥
  no_ws_left h =
      not_this (is (codes "/api/confirm")) (post_or m confirm_route) no_route
        (no_ws_post m confirm_route (λ z. z))
        (not_this (is (codes "/api/hold")) (post_or m hold_route) _
          (no_ws_post m hold_route (λ z. z)) h)

  route-IsWs : IsWs (route m path) → is (codes "/ws") ≡ true
  unfolding route
  route-IsWs h = this_or (is (codes "/ws")) (get_or m ws_route) last_routes no_ws_left (
      not_this (is (codes "/api/stats")) (get_or m stats_route) _ (no_ws_get m stats_route (λ z. z))
        (not_this (is (codes "/api/state")) (get_or m state_route) _
          (no_ws_get m state_route (λ z. z))
          (not_this (is (codes "/api/event")) (get_or m event_route) _
            (no_ws_get m event_route (λ z. z))
            (not_this (is (codes "/healthz")) (get_or m health_route) _
              (no_ws_get m health_route (λ z. z))
              (not_this (not (is_clean path)) moved _ (λ z. z) h)))))

module _ (T : Rate) (s : Server) (fuel clients time : ℕ) (l : Limiter T) (r : HttpRequest) where
  limited-OnWs :
      (a : Bool × Limiter T) (next : Prog (Option Response))
      → Ensures (OnWs s fuel r) [] (limited T a next).1
  unfolding limited OnWs
  limited-OnWs (true, l) next = then-OnWs s fuel r next
  limited-OnWs (false, l) next = tt

  dispatch-OnWs :
      (to : Route)
      → (IsWs to → str_eq r.path (codes "/ws") ≡ true)
      → Ensures (OnWs s fuel r) [] (dispatch T s fuel clients time l r to).1
  unfolding dispatch OnWs
  dispatch-OnWs hold_route ws =
      limited-OnWs (admit T l (client_key r.client) time) (handle_hold s (seat_request r))
  dispatch-OnWs confirm_route ws =
      limited-OnWs (admit T l (client_key r.client) time) (handle_confirm s (seat_request r))
  dispatch-OnWs health_route ws = then-OnWs s fuel r (handle_health s clients)
  dispatch-OnWs event_route ws = then-OnWs s fuel r (handle_event s)
  dispatch-OnWs state_route ws = state-OnWs s fuel r
  dispatch-OnWs stats_route ws = then-OnWs s fuel r (handle_stats s)
  dispatch-OnWs ws_route ws = handle_ws-OnWs s fuel r (ws tt)
  dispatch-OnWs moved ws = tt
  dispatch-OnWs no_route ws = tt
  dispatch-OnWs wrong_method ws = tt

  cors-OnWs :
      (m : Method) (next : Limiter T × Prog Served)
      → Ensures (OnWs s fuel r) [] next.1
      → Ensures (OnWs s fuel r) [] (cors T m l next).1
  unfolding cors OnWs
  cors-OnWs options_method next h = tt
  cors-OnWs get_method next h = h
  cors-OnWs post_method next h = h
  cors-OnWs other_method next h = h

  pub serve-OnWs : Ensures (OnWs s fuel r) [] (serve T s fuel clients time l r).1
  unfolding serve
  serve-OnWs =
      cors-OnWs r.method (dispatch T s fuel clients time l r (route r.method r.path))
        (dispatch-OnWs (route r.method r.path) (route-IsWs r.method r.path))
