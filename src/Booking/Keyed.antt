-- ===== src/Booking/Keyed.antt =====
-- backend/booking/booking.go: the keys that Hold and Confirm give to the scripts, and what a hold that
-- was granted rests on.
use grab_seat.Base.{
  subst, sym, ℕ, ◌/◌, ◌<◌, ◌≡◌, refl, Bool, true, false, not, ◌||◌, inl, inr, List, [], Bool-cases,
  Any,
}
use grab_seat.Base.Int.{ℤ}
use grab_seat.Base.Text.{Str, str_eq, str_eq→eq}
use grab_seat.Service.{
  Result, ok, err, Call, eval_hold, eval_book, set, publish, insert_booking, now, Event,
}
use grab_seat.Service.Paths.{Ensures, Only, Only-bind, Only-if, Only-mono}
use grab_seat.Locking.{second, try_hold, hold_reply, hold_owner, mark_booked, publish_event}
use grab_seat.Locking.Keys.{hold_key, booked_key, hold_acquired, hold_booked}
use grab_seat.Store.{confirm_booking, booking_owner, read_back, is_no_rows}
use grab_seat.Booking.{
  Outcome, held, BookingService, after_try, hold, resolve, announce, settle, book, after_check,
  confirm,
}

-- A script is given the two keys of one seat, the hold script a positive expiry, and no key is set
-- otherwise.
abbrev pub Keyed : Call → Type 0
Keyed (eval_hold h b t n) = (x : ℤ) × (h ≡ hold_key x) × (b ≡ booked_key x) × (0 < n)
Keyed (eval_book h b t) = (x : ℤ) × (h ≡ hold_key x) × (b ≡ booked_key x)
Keyed (set _ _) = ⊥
Keyed _ = Unit

-- The calls of Hold: the hold script with the keys of the seat, the clock, and a message.
abbrev pub Tries : BookingService → ℤ → Call → Type 0
Tries s seat (eval_hold h b t n) =
    (h ≡ hold_key seat) × (b ≡ booked_key seat) × (n ≡ s.hold_ttl / second)
Tries s seat (publish _) = Unit
Tries s seat now = Unit
Tries s seat _ = ⊥

-- The calls of Confirm: the other script, an insert of the seat's row, reads, and a message.
abbrev pub Books : BookingService → ℤ → Str → Call → Type 0
Books s seat session (eval_book h b t) = (h ≡ hold_key seat) × (b ≡ booked_key seat)
Books s seat session (insert_booking e x t) = (e ≡ s.event_id) × (x ≡ seat) × (t ≡ session)
Books s seat session (eval_hold _ _ _ _) = ⊥
Books s seat session (set _ _) = ⊥
Books s seat session _ = Unit

module _ (s : BookingService) (seat : ℤ) (session : Str) where
  after_try-Tries : (r : Result (Str × ℕ)) → Only (Tries s seat) (after_try s seat session r)
  unfolding after_try publish_event
  after_try-Tries (err e) = tt
  after_try-Tries (ok (res, expires)) =
      Only-if (Tries s seat) (str_eq res hold_acquired) _ _ (λ got. (tt, λ r. tt))
        (λ not_got. Only-if (Tries s seat) (str_eq res hold_booked) _ _ (λ sold. tt) (λ other. tt))

  reply-Tries : (r : Result Str) → Only (Tries s seat) (hold_reply s.hold_ttl r)
  unfolding hold_reply
  reply-Tries (err e) = tt
  reply-Tries (ok res) =
      Only-if (Tries s seat) (str_eq res hold_acquired) _ _ (λ got. (tt, λ t. tt)) (λ not_got. tt)

  pub hold-Tries : Only (Tries s seat) (hold s seat session)
  unfolding hold try_hold
  hold-Tries =
      Only-bind (Tries s seat) (try_hold seat session s.hold_ttl) (after_try s seat session)
        ((refl, refl, refl), reply-Tries) after_try-Tries

  settle-Books : (r : Result (Bool × Str)) → Only (Books s seat session) (settle s seat session r)
  unfolding settle announce mark_booked publish_event
  settle-Books (err e) = tt
  settle-Books (ok (true, owner)) =
      ((refl, refl), elim [ ok _ ↦ (tt, λ r. tt) | err _ ↦ (tt, λ r. tt) ])
  settle-Books (ok (false, owner)) =
      Only-if (Books s seat session) (str_eq owner session) _ _ (λ same. tt) (λ other. tt)

  insert-Books : Only (Books s seat session) (confirm_booking s.event_id seat session)
  unfolding confirm_booking read_back
  insert-Books = (
    (refl, refl, refl),
    elim [
      | ok owner ↦ tt
      | err e ↦
          Only-if (Books s seat session) (is_no_rows e) _ _ (λ conflict. (tt, λ r. tt))
            (λ failed. tt)
    ],
  )

  book-Books : Only (Books s seat session) (book s seat session)
  unfolding book
  book-Books =
      Only-bind (Books s seat session) (confirm_booking s.event_id seat session)
        (settle s seat session) insert-Books settle-Books

  resolve-Books : (is_held : Bool) → Only (Books s seat session) (resolve seat session is_held)
  unfolding resolve booking_owner
  resolve-Books is_held = (tt, λ r. tt)

  check-Books :
      (r : Result (Str × Bool)) → Only (Books s seat session) (after_check s seat session r)
  unfolding after_check
  check-Books (err e) = tt
  check-Books (ok (holder, is_held)) =
      Only-if (Books s seat session) (not is_held || not (str_eq holder session)) _ _
        (λ stranger. resolve-Books is_held) (λ holds. book-Books)

  pub confirm-Books : Only (Books s seat session) (confirm s seat session)
  unfolding confirm hold_owner
  confirm-Books = (tt, λ r. check-Books _)

  Tries-Keyed : 0 < s.hold_ttl / second → (c : Call) → Tries s seat c → Keyed c
  Tries-Keyed positive (eval_hold _ _ _ _) (h, b, n) =
      (seat, h, b, subst (λ z. 0 < z) (sym n) positive)
  Tries-Keyed positive (publish _) h = tt
  Tries-Keyed positive now h = tt
  Tries-Keyed positive _ h = absurd h

  Books-Keyed : (c : Call) → Books s seat session c → Keyed c
  Books-Keyed (eval_book _ _ _) (h, b) = (seat, h, b)
  Books-Keyed (eval_hold _ _ _ _) h = absurd h
  Books-Keyed (set _ _) h = absurd h
  Books-Keyed _ h = tt

  pub hold-Keyed : 0 < s.hold_ttl / second → Only Keyed (hold s seat session)
  hold-Keyed positive =
      Only-mono (Tries s seat) Keyed (Tries-Keyed positive) (hold s seat session) hold-Tries

  pub confirm-Keyed : Only Keyed (confirm s seat session)
  confirm-Keyed =
      Only-mono (Books s seat session) Keyed Books-Keyed (confirm s seat session) confirm-Books

-- The hold script of the seat replied that the caller has the hold.
abbrev pub Acquired : ℤ → Event → Type 0
Acquired seat (eval_hold h b t n, ok reply) = (h ≡ hold_key seat) × (reply ≡ hold_acquired)
Acquired seat _ = ⊥

-- A hold that is granted was acquired.
abbrev pub Granted : ℤ → List Event → Result (Outcome × ℕ) → Type 0
Granted seat es (ok (held, expires)) = Any (Acquired seat) es
Granted seat es _ = Unit

module _ (s : BookingService) (seat : ℤ) (session : Str) where
  refused-Granted :
      (res : Str) (expires : ℕ) (es : List Event)
      → str_eq res hold_acquired ≡ false
      → Ensures (Granted seat) es (after_try s seat session (ok (res, expires)))
  unfolding after_try
  refused-Granted res expires es other = elim (Bool-cases (str_eq res hold_booked)) [
    | inl sold ↦ rw (other, sold) tt
    | inr taken ↦ rw (other, taken) tt
  ]

  pub hold-Granted : Ensures (Granted seat) [] (hold s seat session)
  unfolding hold try_hold hold_reply after_try publish_event
  hold-Granted = elim [
    | err e ↦ tt
    | ok res ↦ elim (Bool-cases (str_eq res hold_acquired)) [
      | inl got ↦ rw (got, got) (λ t r. inr (inr (inl (refl, str_eq→eq res hold_acquired got))))
      | inr other ↦ rw other (refused-Granted res 0 _ other)
    ]
  ]
