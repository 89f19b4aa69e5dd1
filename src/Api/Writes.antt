-- ===== src/Api/Writes.antt =====
-- backend/api: which requests can change what the services keep.
use grab_seat.Base.{
  ◌≢◌, ℕ, zero, suc, Bool, true, false, ◌≡◌, refl, List, [], ◌∷◌, Option, none, some, ◌==◌,
}
use grab_seat.Base.Int.{ℤ, pos, negsuc}
use grab_seat.Base.Text.{Str}
use grab_seat.Service.{
  Error, Result, ok, err, Call, get, pttl, scan, ping_redis, ping_postgres, select_owner,
  select_booked, select_stats, now, Prog, ret, ◌>>=◌,
}
use grab_seat.Service.Paths.{Only, Only-bind, Only-if, Only-mono}
use grab_seat.Locking.{is_nil, healthy}
use grab_seat.Locking.Keys.{hold_prefix, seat_id_from_key}
use grab_seat.Locking.Held.{
  Held, Fetched, fetch, first_error, expiry, note_key, note_keys, note_page, take_page, after_page,
  after_scan, scan_from, held_seats,
}
use grab_seat.Store.{booked_seats, booking_stats, ping, collect}
use grab_seat.Api.Snapshot.{Server, Booked, after_held, after_booked, build_snapshot}
use grab_seat.Api.Handlers.{
  Response, handle_health, handle_event, handle_state, handle_stats, handle_hold, handle_confirm,
}
use grab_seat.Api.Program.{Visit, if_admitted, at_route, for_method, program}
use grab_seat.Api.Server.{
  moved, upgrade, handle_ws, wrote, finished, Route, hold_route, confirm_route, health_route,
  event_route, state_route, stats_route, ws_route, no_route, wrong_method, Served, Method,
  seat_request, route, options_method,
}

-- A call that changes neither Redis nor Postgres, and publishes nothing.
abbrev pub IsRead : Call → Type 0
IsRead (get _) = Unit
IsRead (pttl _) = Unit
IsRead (scan _ _) = Unit
IsRead ping_redis = Unit
IsRead (select_owner _) = Unit
IsRead (select_booked _) = Unit
IsRead (select_stats _) = Unit
IsRead ping_postgres = Unit
IsRead now = Unit
IsRead _ = ⊥

-- Every call that the program can make is a read.
abbrev pub Reads : {A : Type 0} → Prog A → Type 0
Reads = Only IsRead

bind-Reads :
    {A B : Type 0} (m : Prog A) (f : A → Prog B)
    → Reads m
    → ((a : A) → Reads (f a))
    → Reads (m >>= f)
bind-Reads = Only-bind IsRead

fetch-Reads : (keys : List Str) → Reads (fetch keys)
unfolding fetch
fetch-Reads [] = tt
fetch-Reads (k ∷ ks) =
    (tt, λ value. (tt, λ left. bind-Reads (fetch ks) _ (fetch-Reads ks) (λ rest. tt)))

expiry-Reads : (left : Result ℤ) → Reads (expiry left)
unfolding expiry
expiry-Reads (ok (pos (suc d))) = (tt, λ t. tt)
expiry-Reads (ok (pos zero)) = tt
expiry-Reads (ok (negsuc n)) = tt
expiry-Reads (err e) = tt

note_key-Reads :
    (name : Option ℤ) (value : Result Str) (left : Result ℤ) (out : Held)
    → Reads (note_key name value left out)
unfolding note_key
note_key-Reads none value left out = tt
note_key-Reads (some seat) (err e) left out = tt
note_key-Reads (some seat) (ok v) left out =
    bind-Reads (expiry left) _ (expiry-Reads left) (λ t. tt)

note_keys-Reads : (fetched : List Fetched) (out : Held) → Reads (note_keys fetched out)
unfolding note_keys
note_keys-Reads [] out = tt
note_keys-Reads ((k, value, left) ∷ rest) out =
    bind-Reads (note_key (seat_id_from_key k hold_prefix) value left out) (note_keys rest)
      (note_key-Reads (seat_id_from_key k hold_prefix) value left out) (note_keys-Reads rest)

note_page-Reads :
    (failed : Option Error) (fetched : List Fetched) (out : Held)
    → Reads (note_page failed fetched out)
unfolding note_page
note_page-Reads none fetched out =
    bind-Reads (note_keys fetched out) _ (note_keys-Reads fetched out) (λ held. tt)
note_page-Reads (some e) fetched out =
    Only-if IsRead (is_nil e) _ _
      (λ nil. bind-Reads (note_keys fetched out) _ (note_keys-Reads fetched out) (λ held. tt))
      (λ other. tt)

after_page-Reads :
    (again : ℕ → Held → Prog (Option (Result Held))) (next : ℕ) (r : Result Held)
    → ((next : ℕ) (out : Held) → Reads (again next out))
    → Reads (after_page again next r)
unfolding after_page
after_page-Reads again next (err e) h = tt
after_page-Reads again next (ok out) h =
    Only-if IsRead (next == 0) _ _ (λ last. tt) (λ more. h next out)

scan_from-Reads : (fuel cursor : ℕ) (out : Held) → Reads (scan_from fuel cursor out)
unfolding scan_from after_scan take_page
scan_from-Reads zero cursor out = tt
scan_from-Reads (suc fuel) cursor out = (
  tt,
  elim [
    | err e ↦ tt
    | ok (keys, next) ↦
        bind-Reads (take_page keys out) (after_page (scan_from fuel) next)
          (bind-Reads (fetch keys) _ (fetch-Reads keys)
            (λ fetched. note_page-Reads (first_error fetched) fetched out))
          (λ r. after_page-Reads (scan_from fuel) next r (scan_from-Reads fuel))
  ],
)

after_held-Reads :
    (s : Server) (booked : Booked) (r : Option (Result Held)) → Reads (after_held s booked r)
unfolding after_held
after_held-Reads s booked none = tt
after_held-Reads s booked (some (ok held)) = (tt, λ t. tt)
after_held-Reads s booked (some (err e)) = (tt, λ t. tt)

build_snapshot-Reads : (s : Server) (fuel : ℕ) → Reads (build_snapshot s fuel)
unfolding build_snapshot booked_seats after_booked held_seats
build_snapshot-Reads s fuel = (
  tt,
  elim [
    | err e ↦ tt
    | ok rows ↦
        bind-Reads (held_seats fuel) (after_held s (collect rows [])) (scan_from-Reads fuel 0 [])
          (after_held-Reads s (collect rows []))
  ],
)

upgrade-Reads :
    (handshake : Option ℕ) (allowed : Bool) (next : Prog Served)
    → Reads next
    → Reads (upgrade handshake allowed next)
unfolding upgrade
upgrade-Reads (some status) allowed next h = tt
upgrade-Reads none true next h = h
upgrade-Reads none false next h = tt

-- The requests that neither hold nor confirm.
pub at_route-Reads :
    (v : Visit) (to : Route) → to ≢ hold_route → to ≢ confirm_route → Reads (at_route v to)
unfolding at_route handle_health handle_event handle_state handle_stats booking_stats ping healthy
    handle_ws
at_route-Reads v hold_route h k = absurd (h refl)
at_route-Reads v confirm_route h k = absurd (k refl)
at_route-Reads v health_route h k = (tt, λ a. (tt, λ b. tt))
at_route-Reads v event_route h k = tt
at_route-Reads v state_route h k =
    bind-Reads (handle_state v.server v.fuel) (λ a. ret (finished a))
      (bind-Reads (build_snapshot v.server v.fuel) _ (build_snapshot-Reads v.server v.fuel)
        (λ a. tt))
      (λ a. tt)
at_route-Reads v stats_route h k = (tt, λ a. tt)
at_route-Reads v ws_route h k =
    upgrade-Reads v.request.handshake _ _ (
      bind-Reads (build_snapshot v.server v.fuel) _ (build_snapshot-Reads v.server v.fuel)
        (λ a. tt))
at_route-Reads v _ h k = tt

-- What all reads satisfy, and the calls of hold and confirm where the limiter admits the request, all
-- calls of a request satisfy.
module _ (P : Call → Type 0) (reads : (c : Call) → IsRead c → P c) (v : Visit)
    (holds : v.passes ≡ true → Only P (handle_hold v.server (seat_request v.request)))
    (confirms : v.passes ≡ true → Only P (handle_confirm v.server (seat_request v.request))) where
  admitted-Only :
      (b : Bool) (next : Prog (Option Response))
      → (b ≡ true → Only P next)
      → Only P (if_admitted b next)
  unfolding if_admitted
  admitted-Only true next h = Only-bind P next (λ a. ret (wrote a)) (h refl) (λ a. tt)
  admitted-Only false next h = tt

  Reads-Only : {A : Type 0} (m : Prog A) → Reads m → Only P m
  Reads-Only m h = Only-mono IsRead P reads m h

  at_route-Only : (to : Route) → Only P (at_route v to)
  unfolding at_route handle_event
  at_route-Only hold_route =
      admitted-Only v.passes (handle_hold v.server (seat_request v.request)) holds
  at_route-Only confirm_route =
      admitted-Only v.passes (handle_confirm v.server (seat_request v.request)) confirms
  at_route-Only health_route =
      Reads-Only (at_route v health_route) (at_route-Reads v health_route (λ e. cc e) (λ e. cc e))
  at_route-Only event_route = tt
  at_route-Only state_route =
      Reads-Only (at_route v state_route) (at_route-Reads v state_route (λ e. cc e) (λ e. cc e))
  at_route-Only stats_route =
      Reads-Only (at_route v stats_route) (at_route-Reads v stats_route (λ e. cc e) (λ e. cc e))
  at_route-Only ws_route =
      Reads-Only (at_route v ws_route) (at_route-Reads v ws_route (λ e. cc e) (λ e. cc e))
  at_route-Only moved = tt
  at_route-Only no_route = tt
  at_route-Only wrong_method = tt

  method-Only : (m : Method) (next : Prog Served) → Only P next → Only P (for_method m next)
  unfolding for_method
  method-Only options_method next h = tt
  method-Only _ next h = h

  pub program-Only : Only P (program v)
  unfolding program
  program-Only =
      method-Only v.request.method _ (at_route-Only (route v.request.method v.request.path))
