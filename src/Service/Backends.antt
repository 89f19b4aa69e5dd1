-- ===== src/Service/Backends.antt =====
-- The two services, which the repository does not implement: Redis and Postgres as parameters, with
-- the documented behaviour that the code relies on. The scripts and statements that the code sends
-- are the program's own, and are translated in Locking.Script and Store.Table.
use grab_seat.Base.{
  ℕ, ◌<◌, ◌≤◌, ◌*◌, ◌≡◌, ◌⊎◌, Bool, true, false, List, [], ◌∷◌, Option, none, some, is_some,
  if◌then◌else◌,
}
use grab_seat.Base.Int.{ℤ, int_eq}
use grab_seat.Base.Text.{Str, str_eq}

pub record Redis : Type 1 where
  pub Keyspace : Type 0
  -- the live value of a key
  pub find : Keyspace → Str → Option Str
  -- EXISTS, SET key value, DEL, SET key value NX EX seconds
  pub exists : Keyspace → Str → Bool
  pub put : Str → Str → Keyspace → Keyspace
  pub remove : Str → Keyspace → Keyspace
  pub put_nx_ex : Str → Str → ℕ → Keyspace → Bool × Keyspace
  -- PTTL in milliseconds, negative for a key with no expiry and for no key
  pub remaining : Keyspace → Str → ℤ
  -- SCAN cursor MATCH prefix*
  pub page : Keyspace → ℕ → Str → List Str × ℕ
  -- So many milliseconds pass: keys may run out.
  pub elapse : ℕ → Keyspace → Keyspace
  pub exists_lem : (s : Keyspace) (k : Str) → exists s k ≡ is_some (find s k)
  pub find-put :
      (k v : Str) (s : Keyspace) (j : Str)
      → find (put k v s) j ≡ (if str_eq k j then some v else find s j)
  pub find-remove :
      (k : Str) (s : Keyspace) (j : Str)
      → find (remove k s) j ≡ (if str_eq k j then none else find s j)
  -- NX: a key that is there is left alone, and the reply is nil.
  pub nx_taken :
      (k v : Str) (n : ℕ) (s : Keyspace) {w : Str}
      → find s k ≡ some w
      → put_nx_ex k v n s ≡ (false, s)
  -- A key that is not there is set, if the expiry is positive.
  pub nx_free :
      (k v : Str) (n : ℕ) (s : Keyspace) → 0 < n → find s k ≡ none → (put_nx_ex k v n s).0 ≡ true
  pub find-nx :
      (k v : Str) (n : ℕ) (s : Keyspace) (j : Str)
      → 0 < n
      → find s k ≡ none
      → find (put_nx_ex k v n s).1 j ≡ (if str_eq k j then some v else find s j)
  pub find-elapse :
      (d : ℕ) (s : Keyspace) (k : Str)
      → (find (elapse d s) k ≡ find s k) ⊎ (find (elapse d s) k ≡ none)
  -- EX: a key lives for its seconds from when it was set, and no longer.
  pub nx_lives :
      (k v : Str) (n d : ℕ) (s : Keyspace)
      → find s k ≡ none
      → d < 1000 * n
      → find (elapse d (put_nx_ex k v n s).1) k ≡ some v
  pub nx_expires :
      (k v : Str) (n d : ℕ) (s : Keyspace)
      → 0 < n
      → find s k ≡ none
      → 1000 * n ≤ d
      → find (elapse d (put_nx_ex k v n s).1) k ≡ none

-- A row of the table `bookings` of backend/db/schema.sql, less its id and creation time.
pub record Booking : Type 0 where
  pub seat_id : ℤ
  pub event_id : ℤ
  pub session_id : Str

-- The rows with a given seat_id, first the one that a query for one row reads.
unfoldable pub owner_of : ℤ → List Booking → Option Str
owner_of seat [] = none
owner_of seat (b ∷ bs) = if int_eq b.seat_id seat then some b.session_id else owner_of seat bs

pub record Postgres : Type 1 where
  pub Db : Type 0
  -- the rows of `bookings`, the latest id first
  pub rows : Db → List Booking
  -- INSERT INTO bookings (seat_id, event_id, session_id) ... ON CONFLICT (seat_id) DO NOTHING
  -- RETURNING session_id: `none` for no row returned
  pub insert : Booking → Db → Option Str × Db
  -- UNIQUE (seat_id): a statement that conflicts does nothing and returns no row.
  pub insert_conflict :
      (b : Booking) (d : Db) {o : Str}
      → owner_of b.seat_id (rows d) ≡ some o
      → insert b d ≡ (none, d)
  pub insert_returns :
      (b : Booking) (d : Db)
      → owner_of b.seat_id (rows d) ≡ none
      → (insert b d).0 ≡ some b.session_id
  pub rows-insert :
      (b : Booking) (d : Db) → owner_of b.seat_id (rows d) ≡ none → rows (insert b d).1 ≡ b ∷ rows d
