-- ===== src/World/Bookings.antt =====
-- The table of bookings of backend/db/schema.sql as calls are served.
use grab_seat.Base.{◌≡◌, refl, inl, inr, Option, none, some, Option-cases, arith}
use grab_seat.Base.Int.{ℤ, int_eq_iff, int_eq_refl}
use grab_seat.Base.Text.{Str}
use grab_seat.Service.{Call, Result, ok, err, insert_booking, select_owner, Event}
use grab_seat.Service.Backends.{Redis, Booking, Postgres, owner_of}
use grab_seat.Store.Table.{one_row, owner_query}
use grab_seat.World.{Link, delivered, refused, reply_lost, World, exec, row}

module _ (P : Postgres) where
  abbrev pub owner : ℤ → P.Db → Option Str
  owner seat d = owner_of seat (P.rows d)

  -- Every booking of the first database is in the second, under the same owner.
  abbrev pub Grows : P.Db → P.Db → Type 0
  Grows d d' = (seat : ℤ) (o : Str) → owner seat d ≡ some o → owner seat d' ≡ some o

  pub insert-Grows : (b : Booking) (d : P.Db) → Grows d (P.insert b d).1
  unfolding owner_of
  insert-Grows b d seat o h = elim (Option-cases (owner b.seat_id d)) [
    | inl free ↦ rw (P.rows-insert b d free) (ground (arith, int_eq_iff b.seat_id seat))
    | inr (w, old) ↦ rw (P.insert_conflict b d old) h
  ]

  pub Grows-trans : (a b c : P.Db) → Grows a b → Grows b c → Grows a c
  Grows-trans a b c f g seat o h = g seat o (f seat o h)

  -- What a reply says of the table, as long as the table only grows.
  abbrev pub IsTrue : P.Db → Event → Type 0
  IsTrue d (insert_booking _ seat session, ok _) = owner seat d ≡ some session
  IsTrue d (select_owner seat, ok o) = owner seat d ≡ some o
  IsTrue d _ = Unit

  pub IsTrue-mono : (d d' : P.Db) → Grows d d' → (e : Event) → IsTrue d e → IsTrue d' e
  IsTrue-mono d d' g (insert_booking _ seat session, ok _) h = g seat session h
  IsTrue-mono d d' g (select_owner seat, ok o) h = g seat o h
  IsTrue-mono d d' g (insert_booking _ seat session, err _) h = tt
  IsTrue-mono d d' g _ h = tt

module _ (R : Redis) (P : Postgres) where
  -- What the insert of any row keeps of the table, every call keeps, whether its reply arrives or not.
  pub exec_keeps :
      (Q : P.Db → Type 0)
      → ((b : Booking) (d : P.Db) → Q d → Q (P.insert b d).1)
      → (c : Call) (l : Link) (w : World R P) → Q w.db
      → Q (exec R P c l w).1.db
  unfolding exec
  exec_keeps Q k (insert_booking e s t) delivered w h = k _ w.db h
  exec_keeps Q k (insert_booking e s t) refused w h = h
  exec_keeps Q k (insert_booking e s t) reply_lost w h = k _ w.db h
  exec_keeps Q k Call.now l w h = h
  exec_keeps Q k _ delivered w h = h
  exec_keeps Q k _ refused w h = h
  exec_keeps Q k _ reply_lost w h = h

  -- No call takes a booking away.
  pub exec-Grows : (c : Call) (l : Link) (w : World R P) → Grows P w.db (exec R P c l w).1.db
  exec-Grows c l w =
      exec_keeps (Grows P w.db) (λ b d g. Grows-trans P w.db d _ g (insert-Grows P b d)) c l w
        (λ seat o h. h)

  -- An insert that returns a row found the seat free and has booked it for its session.
  pub insert_wins :
      (event seat : ℤ) (session : Str) (l : Link) (w : World R P) {o : Str}
      → (exec R P (insert_booking event seat session) l w).0 ≡ ok o
      → (owner P seat w.db ≡ none)
        × (owner P seat (exec R P (insert_booking event seat session) l w).1.db ≡ some session)
  unfolding exec owner_of
  insert_wins event seat session delivered w {o} h = elim (Option-cases (owner P seat w.db)) [
    | inl free ↦ (
      free,
      rw (P.rows-insert (row event seat session) w.db free) (ground (arith, int_eq_refl seat)),
    )
    | inr (v, old) ↦ absurd (ground (arith, P.insert_conflict (row event seat session) w.db old))
  ]
  insert_wins event seat session refused w h = cc
  insert_wins event seat session reply_lost w h = cc

  one_row-IsTrue :
      (s : ℤ) (d : P.Db) (o : Option Str) → owner P s d ≡ o → IsTrue P d (select_owner s, one_row o)
  one_row-IsTrue s d none h = tt
  one_row-IsTrue s d (some v) h = h

  query-IsTrue : (s : ℤ) (d : P.Db) → IsTrue P d (select_owner s, owner_query s (P.rows d))
  unfolding owner_query
  query-IsTrue s d = one_row-IsTrue s d (owner P s d) refl

  insert-IsTrue :
      (e s : ℤ) (t : Str) (l : Link) (w : World R P) (r : Result Str)
      → (exec R P (insert_booking e s t) l w).0 ≡ r
      → IsTrue P (exec R P (insert_booking e s t) l w).1.db (insert_booking e s t, r)
  insert-IsTrue e s t l w (ok o) h = (insert_wins e s t l w h).1
  insert-IsTrue e s t l w (err _) h = tt

  -- What a call replies is true of the table that it leaves.
  pub exec-IsTrue :
      (c : Call) (l : Link) (w : World R P) → IsTrue P (exec R P c l w).1.db (c, (exec R P c l w).0)
  exec-IsTrue (insert_booking e s t) l w = insert-IsTrue e s t l w _ refl
  exec-IsTrue (select_owner s) delivered w = unfold exec in query-IsTrue s w.db
  exec-IsTrue (select_owner s) refused w = unfold exec in tt
  exec-IsTrue (select_owner s) reply_lost w = unfold exec in tt
  exec-IsTrue _ l w = tt
