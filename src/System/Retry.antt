-- ===== src/System/Retry.antt =====
-- A request to confirm a seat that is booked already.
use grab_seat.Base.{
  ℕ, false, ◌≡◌, ◌≢◌, refl, sym, subst, ◌∙◌, inl, inr, List, Option, none, some, All, All-Any,
  if◌then◌else◌,
}
use grab_seat.Base.Int.{ℤ}
use grab_seat.Base.Text.{Str, str_eq, str_eq_refl, ne→str_eq}
use grab_seat.Service.{Result, ok, err, Call, insert_booking, select_owner, Event}
use grab_seat.Service.Backends.{Redis, Postgres}
use grab_seat.Booking.{Outcome, BookingService, confirmed, already_mine, conflict, hold_expired}
use grab_seat.Booking.Paths.{Won, Owned, OwnedByOther, NotBooked, Backed}
use grab_seat.Store.Table.{one_row, owner_query}
use grab_seat.Store.{is_no_rows}
use grab_seat.World.{Link, delivered, refused, reply_lost, World, exec}
use grab_seat.World.Bookings.{owner, exec-Grows, insert_wins}
use grab_seat.System.{past, System, Reach}
use grab_seat.System.Events.{Reach-AllShow}
use grab_seat.System.Safety.{Answered, Answered-Backed}

-- What calls reply once `u` owns the seat.
abbrev pub Settled : ℤ → Str → Event → Type 0
Settled seat u (insert_booking _ s _, ok _) = s ≢ seat
Settled seat u (select_owner s, ok o) = s ≡ seat → o ≡ u
Settled seat u (select_owner s, err e) = s ≡ seat → is_no_rows e ≡ false
Settled seat u _ = Unit

module _ (R : Redis) (P : Postgres) (seat : ℤ) (u : Str) where
  abbrev pub Booked : P.Db → Type 0
  Booked d = owner P seat d ≡ some u

  insert-Settled :
      (e s : ℤ) (t : Str) (l : Link) (w : World R P) (r : Result Str)
      → (exec R P (insert_booking e s t) l w).0 ≡ r
      → Booked w.db
      → Settled seat u (insert_booking e s t, r)
  insert-Settled e s t l w (ok o) q d =
      λ p. cc ((insert_wins R P e s t l w q).0, subst (λ z. owner P z w.db ≡ some u) (sym p) d)
  insert-Settled e s t l w (err _) q d = tt

  one_row-Settled :
      (s : ℤ) (o : Option Str)
      → (s ≡ seat → o ≡ some u)
      → Settled seat u (select_owner s, one_row o)
  one_row-Settled s none h = λ p. cc (h p)
  one_row-Settled s (some v) h = λ p. cc (h p)

  pub exec-Settled :
      (c : Call) (l : Link) (w : World R P) → Booked w.db → Settled seat u (c, (exec R P c l w).0)
  exec-Settled (insert_booking e s t) l w d = insert-Settled e s t l w _ refl d
  exec-Settled (select_owner s) delivered w d =
      unfold exec owner_query in
      one_row-Settled s (owner P s w.db) (λ p. subst (λ z. owner P z w.db ≡ some u) (sym p) d)
  exec-Settled (select_owner s) refused w d = unfold exec in λ p. refl
  exec-Settled (select_owner s) reply_lost w d = unfold exec in λ p. refl
  exec-Settled _ l w d = tt

  no_win : (t : Str) (e : Event) → Settled seat u e → Won seat t e → ⊥
  no_win t (insert_booking _ s _, ok _) h (p, q) = h p
  no_win t e h w = absurd w

  read_owner : (t : Str) (e : Event) → Settled seat u e → Owned seat t e → u ≡ t
  read_owner t (select_owner s, ok o) h (p, q) = sym (h p) ∙ q
  read_owner t e h w = absurd w

  read_other : (t : Str) (e : Event) → Settled seat u e → OwnedByOther seat t e → u ≢ t
  read_other t (select_owner s, ok o) h (p, q) = λ same. q (h p ∙ same)
  read_other t e h w = absurd w

  no_gap : (e : Event) → Settled seat u e → NotBooked seat e → ⊥
  no_gap (select_owner s, err e) h (p, q) = cc (h p, q)
  no_gap e h w = absurd w

  -- What the code answers, given what its calls showed.
  pub outcome_when_owned :
      (session : Str) (o : Outcome) (es : List Event)
      → All (Settled seat u) es
      → Backed seat session es (ok o)
      → o ≡ (if str_eq u session then already_mine else conflict)
  outcome_when_owned session confirmed es h b =
      absurd (All-Any (Settled seat u) (Won seat session) ⊥ (no_win session) es h b)
  outcome_when_owned session already_mine es h b = rw (
    All-Any (Settled seat u) (Owned seat session) (u ≡ session) (read_owner session) es h b,
    str_eq_refl session,
  )
  outcome_when_owned session conflict es h (inl b) = rw (
      ne→str_eq u session (
        All-Any (Settled seat u) (OwnedByOther seat session) (u ≢ session) (read_other session) es h
          b))
  outcome_when_owned session conflict es h (inr b) =
      absurd (All-Any (Settled seat u) (NotBooked seat) ⊥ no_gap es h b.0)
  outcome_when_owned session hold_expired es h b =
      absurd (All-Any (Settled seat u) (NotBooked seat) ⊥ no_gap es h b.0)
  outcome_when_owned session _ es h b = absurd b

  -- Once `u` owns the seat, every later request to confirm it that gets an outcome gets
  -- `already_mine` if its session is `u` and `conflict` if not: whatever other requests do, whatever
  -- fails on the way, and whether Redis still knows the hold or the booking.
  pub confirm_after_booking :
      {w : World R P} {s : System R P} (i : ℕ) (b : BookingService) (session : Str) (o : Outcome)
      (es : List Event)
      → owner P seat w.db ≡ some u
      → Reach R P w s
      → Answered b seat session o es (s.tasks i)
      → o ≡ (if str_eq u session then already_mine else conflict)
  confirm_after_booking {s} i b session o es d r x =
      outcome_when_owned session o es
        (subst (λ z. All (Settled seat u) (past z)) x
          ((Reach-AllShow R P Booked (Settled seat u) (λ c l w h. exec-Grows R P c l w seat u h)
              exec-Settled d r).1
            i))
        (Answered-Backed R P r i b seat session o es x)
