-- ===== src/Main/Wiring.antt =====
-- backend/main.go: the components that main makes of its settings and of what it read, with NewService
-- of backend/booking/booking.go. The store, the lock and the hub have no settings.
pub mod Sells
use mathlib.Core.List.{Mem, map-map}
use mathlib.Core.List.Perm
use grab_seat.Base.{◌++◌, ◌*◌, inr, ◌≡◌, ◌↔◌, ap, subst, List, map, Option, none, some, ℕ}
use grab_seat.Base.Int.{ℤ, pos, negsuc}
use grab_seat.Base.Text.{Str, codes}
use grab_seat.Model.{Seat}
use grab_seat.Service.{Error}
use grab_seat.Locking.{second}
use grab_seat.Config.{Config, load, getenv, read_config}
use grab_seat.Healthcheck.{health_url}
use grab_seat.Booking.{BookingService}
use grab_seat.RateLimit
use grab_seat.RateLimit.{Rate, Limiter}
use grab_seat.Api.Snapshot.{Server}
use grab_seat.Api.Handlers.{SeatRequest, bookings, parse_seat_request}
use grab_seat.Api.Known.{Asks, parse_seat_request_iff}
use grab_seat.Store.Venue.{Stored, seat_of}
use grab_seat.Main.Boot.{Surroundings, Running, goes_on, boot}
use grab_seat.Main.Boot.Ready.{Fit, Ends, Lists, rows_of_event, boot-Ends}

abbrev pub ids_of_rows : List Stored → List ℤ
ids_of_rows rows = map (λ (row : Stored). row.0) rows

-- NewService
unfoldable pub new_service : ℤ → Str → ℕ → BookingService
new_service event_id instance_id hold_ttl = record {
  event_id = event_id;
  instance_id = instance_id;
  hold_ttl = hold_ttl;
}

-- What locking.New passes to go-redis; the times in nanoseconds.
pub record RedisOptions : Type 0 where
  pub addr : Str
  pub password : Str
  pub db : ℕ
  pub dial_timeout : ℕ
  pub read_timeout : ℕ
  pub write_timeout : ℕ
  pub pool_size : ℕ

-- New of the package locking
unfoldable pub new_client : Str → Str → RedisOptions
new_client addr password = record {
  addr = addr;
  password = password;
  db = 0;
  dial_timeout = 3 * second;
  read_timeout = 3 * second;
  write_timeout = 3 * second;
  pool_size = 20;
}

module _ (T : Rate) where
  pub record Wired : Type 0 where
    pub bookings : BookingService
    pub limiter : Limiter T
    pub server : Server
    pub lock : RedisOptions
    -- the address that the HTTP server listens at
    pub listens_at : Str

  unfoldable pub components : Running → ℕ → Wired
  unfolding new_service new_client
  components st hold_ttl = record {
    bookings = new_service st.event_id st.instance_id hold_ttl;
    limiter = RateLimit.new T st.config.rate_limit_per_min;
    server = record {
      event = st.event;
      instance_id = st.instance_id;
      hold_ttl = hold_ttl;
      allowed_origin = st.config.allowed_origin;
      seats = st.seats;
    };
    lock = new_client st.config.redis_addr st.config.redis_password;
    listens_at = codes ":" ++ st.config.port;
  }

  -- The components have a hold time that is not negative, as Load accepts it up to its overflow.
  unfoldable pub wire_for : Running → ℤ → Option Wired
  unfolding components
  wire_for st (pos n) = some (components st n)
  wire_for st (negsuc n) = none

  unfoldable pub wire : Running → Option Wired
  unfolding wire_for
  wire st = wire_for st st.hold_ttl
