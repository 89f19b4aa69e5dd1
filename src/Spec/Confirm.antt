-- ===== src/Spec/Confirm.antt =====
-- backend/booking/booking.go: Confirm against Spec.confirm_step.
use grab_seat.Base.{
  Bool, true, false, ◌≡◌, refl, sym, ap, subst, inl, inr, Option, none, some, Option-cases,
  Bool-cases, arith,
}
use grab_seat.Base.Int.{ℤ}
use grab_seat.Base.Text.{Str, str_eq}
use grab_seat.Service.{Result, ok, ◌>>=◌}
use grab_seat.Service.Backends.{Redis, Postgres}
use grab_seat.Locking.{hold_owner, holder_reply, mark_booked, publish_event}
use grab_seat.Locking.Keys.{hold_key}
use grab_seat.Locking.Script.{book_script}
use grab_seat.Store.{booking_owner, owner_reply, confirm_booking, insert_reply, existing_reply}
use grab_seat.Store.Table.{owner_query, one_row}
use grab_seat.Booking.{
  Outcome, conflict, hold_expired, confirmed, BookingService, confirm, after_check, resolve,
  from_record, book, settle, announce,
}
use grab_seat.World.{World, delivered, exec, run, value, row}
use grab_seat.World.Bookings.{owner}
use grab_seat.Spec.Booked.{booked, added, booked_view, booked_others}
use grab_seat.Spec.{
  seat_view, Effect, owner_outcome, confirm_step, quietly, Implements, quietly-Implements,
}

module _ (R : Redis) (P : Postgres) (b : BookingService) (seat : ℤ) (session : Str)
    (w : World R P) where
  abbrev effect : Effect
  effect = confirm_step b seat session (seat_view R P w seat)

  abbrev result : Result Outcome × World R P
  result = run R P (λ _. delivered) (confirm b seat session) w

  abbrev DoesAs : Result Outcome × World R P → Type 0
  DoesAs r = (r.0 ≡ ok effect.outcome) × Implements R P seat effect w r.1

  -- What is left of Confirm once the hold has been read.
  resume : Option Str → Result Outcome × World R P
  resume h = run R P (λ _. delivered) (after_check b seat session (holder_reply (value R P h))) w

  resume_holder : result ≡ resume (R.find w.redis (hold_key seat))
  unfolding resume run exec confirm hold_owner
  resume_holder = refl

  -- The caller is not the holder.
  looked_up : Bool → Result Outcome × World R P
  looked_up is_held = run R P (λ _. delivered) (resolve seat session is_held) w

  looked_up_lem :
      (is_held : Bool)
      → looked_up is_held
        ≡ (from_record session is_held (owner_reply (one_row (owner P seat w.db))), w)
  unfolding looked_up run exec resolve booking_owner owner_query
  looked_up_lem is_held = refl

  -- An answer that changes nothing and tells nobody.
  quiet_Does :
      (o : Outcome) (r : Result Outcome × World R P)
      → r ≡ (ok o, w)
      → effect ≡ quietly o (seat_view R P w seat)
      → DoesAs r
  quiet_Does o r e f = rw (e, f) (refl, quietly-Implements R P seat o w)

  effect_owned :
      {o : Str}
      → owner P seat w.db ≡ some o
      → effect ≡ quietly (owner_outcome o session) (seat_view R P w seat)
  unfolding confirm_step
  effect_owned e = rw e

  found_owner :
      (is_held : Bool) (o : Str)
      → from_record session is_held (ok (o, true)) ≡ ok (owner_outcome o session)
  unfolding from_record
  found_owner is_held o = ground arith

  owned_Does : (is_held : Bool) {o : Str} → owner P seat w.db ≡ some o → DoesAs (looked_up is_held)
  owned_Does is_held {o} e =
      quiet_Does (owner_outcome o session) (looked_up is_held)
        (rw (looked_up_lem is_held, e)
          (unfold owner_reply in ap (λ (x : Result Outcome). (x, w)) (found_owner is_held o)))
        (effect_owned e)

  unowned_Does :
      R.find w.redis (hold_key seat) ≡ none → owner P seat w.db ≡ none → DoesAs (looked_up false)
  unfolding from_record owner_reply confirm_step
  unowned_Does f e =
      quiet_Does hold_expired (looked_up false) (rw (looked_up_lem false, e)) (rw (e, f, f))

  other_Does :
      {h : Str}
      → R.find w.redis (hold_key seat) ≡ some h
      → str_eq h session ≡ false
      → owner P seat w.db ≡ none
      → DoesAs (looked_up true)
  unfolding from_record owner_reply confirm_step
  other_Does f g e =
      quiet_Does conflict (looked_up true) (rw (looked_up_lem true, e)) (rw (e, f, g, f))

  -- The caller is the holder: what is left once the insert has returned `r` and left `d`.
  inserted_as : Option Str × P.Db → Result Outcome × World R P
  inserted_as p =
      run R P (λ _. delivered) (insert_reply seat (one_row p.0) >>= settle b seat session)
        (record w { db = p.1 })

  mine_inserts :
      (h : Str)
      → str_eq h session ≡ true
      → resume (some h) ≡ inserted_as (P.insert (row b.event_id seat session) w.db)
  unfolding resume inserted_as after_check holder_reply book confirm_booking run exec
  mine_inserts h g = rw g

  read_again :
      inserted_as (none, w.db)
      ≡ run R P
          (λ _. delivered)
          (settle b seat session (existing_reply (one_row (owner P seat w.db))))
          w
  unfolding inserted_as insert_reply run exec owner_query
  read_again = refl

  settled :
      (o : Str)
      → run R P (λ _. delivered) (settle b seat session (existing_reply (ok o))) w
        ≡ (ok (owner_outcome o session), w)
  unfolding settle existing_reply run
  settled o = elim (Bool-cases (str_eq o session)) [ inl same ↦ rw same | inr other ↦ rw other ]

  beaten_Does : {o : Str} → owner P seat w.db ≡ some o → DoesAs (inserted_as (none, w.db))
  beaten_Does {o} e =
      quiet_Does (owner_outcome o session) (inserted_as (none, w.db))
        (rw (read_again, e) (settled o)) (effect_owned e)

  won_lem :
      (d : P.Db) → inserted_as (some session, d) ≡ (ok confirmed, booked R P b seat session w d)
  unfolding inserted_as insert_reply settle announce mark_booked publish_event run exec booked
      book_script
  won_lem d = refl

  won_Does :
      (h : Str)
      → R.find w.redis (hold_key seat) ≡ some h
      → str_eq h session ≡ true
      → owner P seat w.db ≡ none
      → DoesAs (inserted_as (some session, added R P b seat session w))
  unfolding confirm_step
  won_Does h f g e =
      rw (won_lem (added R P b seat session w), e, f, g)
        (
          refl,
          record {
            messages = unfold booked in refl;
            this_seat = booked_view R P b seat session w e;
            other_seats = booked_others R P b seat session w e;
          },
        )

  mine_Does :
      (h : Str)
      → R.find w.redis (hold_key seat) ≡ some h
      → str_eq h session ≡ true
      → DoesAs (resume (some h))
  mine_Does h f g = rw (mine_inserts h g) (elim (Option-cases (owner P seat w.db)) [
    | inl free ↦
        subst (λ r. DoesAs (inserted_as (r, added R P b seat session w)))
          (sym (P.insert_returns (row b.event_id seat session) w.db free)) (won_Does h f g free)
    | inr (o, old) ↦ rw (P.insert_conflict (row b.event_id seat session) w.db old) (beaten_Does old)
  ])

  refused_Does :
      (is_held : Bool)
      → (owner P seat w.db ≡ none → DoesAs (looked_up is_held))
      → DoesAs (looked_up is_held)
  refused_Does is_held h = elim (Option-cases (owner P seat w.db)) [
    | inl free ↦ h free
    | inr (o, old) ↦ owned_Does is_held old
  ]

  unheld_looks_up : resume none ≡ looked_up false
  unfolding resume after_check holder_reply looked_up
  unheld_looks_up = refl

  other_looks_up : (h : Str) → str_eq h session ≡ false → resume (some h) ≡ looked_up true
  unfolding resume after_check holder_reply looked_up
  other_looks_up h g = rw g

  holder_Does : (h : Option Str) → R.find w.redis (hold_key seat) ≡ h → DoesAs (resume h)
  holder_Does none f = subst DoesAs (sym unheld_looks_up) (refused_Does false (unowned_Does f))
  holder_Does (some h) f = elim (Bool-cases (str_eq h session)) [
    | inl mine ↦ mine_Does h f mine
    | inr other ↦
        subst DoesAs (sym (other_looks_up h other)) (refused_Does true (other_Does f other))
  ]

  -- With the links up, Confirm answers, tells the other clients and changes the seat exactly as
  -- `confirm_step` says of the seat's hold and owner, and leaves every other seat alone.
  pub confirm_refines : (result.0 ≡ ok effect.outcome) × Implements R P seat effect w result.1
  confirm_refines =
      subst DoesAs (sym resume_holder) (holder_Does (R.find w.redis (hold_key seat)) refl)
