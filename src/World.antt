-- ===== src/World.antt =====
-- The services behind the calls: the state of Redis and Postgres that all backend instances share,
-- and what one call does to it. The link to a service may break before or after the service acts.
pub mod Bookings
pub mod Sales
pub mod Holds
use grab_seat.Base.{ℕ, zero, suc, ◌+◌, ◌*◌, Bool, true, false, List, [], ◌∷◌, Option, none, some}
use grab_seat.Base.Int.{ℤ}
use grab_seat.Base.Text.{Str, codes}
use grab_seat.Model.{SeatEvent}
use grab_seat.Service.{
  Error, redis_nil, link_down, Result, ok, err, Call, eval_hold, eval_book, get, set, pttl, scan,
  publish, ping_redis, insert_booking, select_owner, select_booked, select_stats, ping_postgres,
  now, Reply, Prog, ret, call,
}
use grab_seat.Service.Backends.{Redis, Booking, Postgres}
use grab_seat.Locking.{millisecond}
use grab_seat.Locking.Script.{hold_script, book_script}
use grab_seat.Store.Table.{one_row, owner_query, booked_query, stats_query}

-- What becomes of one request: it is carried out and answered, it never arrives, or its answer is
-- lost. The code sees the same error for the last two.
pub data Link : Type 0 where
  delivered refused reply_lost : Link

pub record World (R : Redis) (P : Postgres) : Type 0 where
  pub redis : R.Keyspace
  pub db : P.Db
  -- what was published on the channel `seat_events`, the last message first
  pub channel : List SeatEvent
  pub clock : ℕ

-- The VALUES of the insert, in its order of columns.
abbrev pub row : ℤ → ℤ → Str → Booking
row event seat session = record { seat_id = seat; event_id = event; session_id = session }

module _ (R : Redis) (P : Postgres) where
  -- So many milliseconds pass.
  abbrev pub wait : ℕ → World R P → World R P
  wait d w = record w { redis = R.elapse d w.redis; clock = w.clock + d * millisecond }

  -- One request on a link.
  unfoldable pub served :
      {A : Type 0} → Link → (World R P → Result A × World R P) → World R P → Result A × World R P
  served delivered f w = f w
  served refused f w = (err link_down, w)
  served reply_lost f w = (err link_down, (f w).1)

  abbrev scripted : World R P → Str × R.Keyspace → Result Str × World R P
  scripted w (reply, s) = (ok reply, record w { redis = s })

  abbrev pub value : Option Str → Result Str
  value none = err redis_nil
  value (some v) = ok v

  abbrev inserted : World R P → Option Str × P.Db → Result Str × World R P
  inserted w (row, d) = (one_row row, record w { db = d })

  unfoldable pub exec : (c : Call) → Link → World R P → Reply c × World R P
  unfolding served
  exec (eval_hold hold booked session seconds) l =
      served l (λ w. scripted w (hold_script R hold booked session seconds w.redis))
  exec (eval_book hold booked session) l =
      served l (λ w. scripted w (book_script R hold booked session w.redis))
  exec (get k) l = served l (λ w. (value (R.find w.redis k), w))
  exec (set k v) l = served l (λ w. (ok tt, record w { redis = R.put k v w.redis }))
  exec (pttl k) l = served l (λ w. (ok (R.remaining w.redis k), w))
  exec (scan cursor prefix) l = served l (λ w. (ok (R.page w.redis cursor prefix), w))
  exec (publish ev) l = served l (λ w. (ok tt, record w { channel = ev ∷ w.channel }))
  exec ping_redis l = served l (λ w. (ok tt, w))
  exec (insert_booking event seat session) l =
      served l (λ w. inserted w (P.insert (row event seat session) w.db))
  exec (select_owner seat) l = served l (λ w. (owner_query seat (P.rows w.db), w))
  exec (select_booked event) l = served l (λ w. (ok (booked_query event (P.rows w.db)), w))
  exec (select_stats event) l = served l (λ w. (ok (stats_query event (P.rows w.db)), w))
  exec ping_postgres l = served l (λ w. (ok tt, w))
  exec now l = λ w. (w.clock, w)

  -- A program alone in the world, its calls on the links 0, 1, ...
  unfoldable pub run : {A : Type 0} → (ℕ → Link) → Prog A → World R P → A × World R P
  run links (ret a) w = (a, w)
  run links (call c k) w = let (r, w') = exec c (links 0) w in run (λ n. links (suc n)) (k r) w'
