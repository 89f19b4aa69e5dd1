-- ===== src/Api/Answers.antt =====
-- backend/api/handlers.go: what handleHold and handleConfirm answer.
use grab_seat.Base.{◌≡◌, ◌≢◌, refl, ◌⊎◌, inl, inr, List, [], Option, none, some, Any, Bool-cases}
use grab_seat.Base.Int.{ℤ}
use grab_seat.Base.Text.{Str, str_eq, str_eq→eq, str_eq→ne}
use grab_seat.Service.{Result, ok, err, eval_hold, Event, ret, ◌>>=◌}
use grab_seat.Service.Paths.{Ensures, Ensures-bind, Ensures-mono}
use grab_seat.Locking.{try_hold, publish_event, hold_reply}
use grab_seat.Locking.Keys.{hold_key, booked_key, hold_acquired, hold_booked}
use grab_seat.Booking.{
  Outcome, held, taken, seat_booked, confirmed, already_mine, conflict, hold_expired, hold, confirm,
  after_try,
}
use grab_seat.Booking.Paths.{
  Won, Owned, OwnedByOther, NotBooked, HeldByOther, NotHeld, Backed, confirm-Backed,
}
use grab_seat.Api.Snapshot.{Server}
use grab_seat.Api.Handlers.{
  Response, SeatRequest, parse_seat_request, hold_response, confirm_response, bookings,
  confirm_parsed, hold_parsed, handle_hold, handle_confirm,
}
use grab_seat.Api.Parsing.{Proper, Rejection, parse_seat_request-Proper, parsed_bad}

-- What Confirm's answer to the session, about the seat, rests on: 200 on the row that it wrote or
-- owned, 409 on the row of another, or on no row and a hold that is not the session's.
abbrev pub ConfirmTold : Str → ℤ → List Event → Response → Type 0
ConfirmTold session seat es resp =
    ((resp.status ≡ 200) × (Any (Won seat session) es ⊎ Any (Owned seat session) es))
    ⊎ ((resp.status ≡ 409)
        × (Any (OwnedByOther seat session) es
            ⊎ (Any (NotBooked seat) es
                × (Any (HeldByOther seat session) es ⊎ Any (NotHeld seat) es))))
    ⊎ (resp.status ≡ 503)

abbrev pub Answered :
    (Str → ℤ → List Event → Response → Type 0)
    → Server
    → SeatRequest
    → List Event
    → Option Response
    → Type 0
Answered Told s r es none = ⊥
Answered Told s r es (some resp) =
    (Rejection resp × (es ≡ []))
    ⊎ ((session : Str) × (seat : ℤ) × Proper s r session seat × Told session seat es resp)

confirm_told :
    (session : Str) (seat : ℤ) (es : List Event) (out : Result Outcome)
    → Backed seat session es out
    → (resp : Response) × (confirm_response seat out ≡ some resp) × ConfirmTold session seat es resp
unfolding confirm_response
confirm_told session seat es (err e) h = (_, refl, inr (inr refl))
confirm_told session seat es (ok confirmed) h = (_, refl, inl (refl, inl h))
confirm_told session seat es (ok already_mine) h = (_, refl, inl (refl, inr h))
confirm_told session seat es (ok conflict) (inl other) = (_, refl, inr (inl (refl, inl other)))
confirm_told session seat es (ok conflict) (inr (free, by)) =
    (_, refl, inr (inl (refl, inr (free, inl by))))
confirm_told session seat es (ok hold_expired) (free, unheld) =
    (_, refl, inr (inl (refl, inr (free, inr unheld))))
confirm_told session seat es (ok held) h = absurd h
confirm_told session seat es (ok taken) h = absurd h
confirm_told session seat es (ok seat_booked) h = absurd h

confirm-Answered :
    (s : Server) (r : SeatRequest) (session : Str) (seat : ℤ) (es : List Event)
    (out : Result Outcome)
    → Proper s r session seat
    → Backed seat session es out
    → Answered ConfirmTold s r es (confirm_response seat out)
confirm-Answered s r session seat es out proper h =
    let (resp, sent, told) = confirm_told session seat es out h in
    rw sent (inr (session, seat, proper, told))

confirm_parsed-Answered :
    (s : Server) (r : SeatRequest) (p : Response ⊎ (Str × ℤ))
    → parse_seat_request s r ≡ p
    → Ensures (Answered ConfirmTold s r) [] (confirm_parsed s p)
unfolding confirm_parsed
confirm_parsed-Answered s r (inl bad) h = inl (parsed_bad s r.session r.seat_id bad h, refl)
confirm_parsed-Answered s r (inr (session, seat)) h =
    Ensures-bind (Backed seat session) (Answered ConfirmTold s r) []
      (confirm (bookings s) seat session) (λ out. ret (confirm_response seat out))
      (confirm-Backed (bookings s) seat session)
      (λ es out.
        confirm-Answered s r session seat es out (parse_seat_request-Proper s r session seat h))

-- Whatever the services reply, a confirm request gets exactly one answer: 400 or 404, without a call
-- to any service, or, to a request of a session for a seat of the venue, 200, 409 or 503 with what
-- its replies show about the seat's row and hold.
pub handle_confirm-Answered :
    (s : Server) (r : SeatRequest) → Ensures (Answered ConfirmTold s r) [] (handle_confirm s r)
unfolding handle_confirm
handle_confirm-Answered s r = confirm_parsed-Answered s r (parse_seat_request s r) refl

-- Redis ran the hold script for the seat and the session, and the script replied `reply`.
abbrev pub Tried : ℤ → Str → Str → Event → Type 0
Tried seat session reply (eval_hold h b s n, ok v) =
    (h ≡ hold_key seat) × (b ≡ booked_key seat) × (s ≡ session) × (v ≡ reply)
Tried seat session reply _ = ⊥

-- 200 rests on a script that set the hold, 409 on one that refused it.
abbrev pub HoldTold : Str → ℤ → List Event → Response → Type 0
HoldTold session seat es resp =
    ((resp.status ≡ 200) × Any (Tried seat session hold_acquired) es)
    ⊎ ((resp.status ≡ 409)
        × ((reply : Str) × (reply ≢ hold_acquired) × Any (Tried seat session reply) es))
    ⊎ (resp.status ≡ 503)

abbrev Attempt : Str → ℤ → List Event → Option Response → Type 0
Attempt session seat es none = ⊥
Attempt session seat es (some resp) = HoldTold session seat es resp

hold_told :
    (s : Server) (session : Str) (seat : ℤ)
    → Ensures
        (Attempt session seat)
        []
        (hold (bookings s) seat session >>= λ out. ret (hold_response seat out))
unfolding hold try_hold hold_reply after_try hold_response publish_event
hold_told s session seat = elim [
  | err e ↦ inr (inr refl)
  | ok v ↦ elim (Bool-cases (str_eq v hold_acquired)) [
    | inl got ↦ rw got (λ t. rw got (λ published.
        inl (refl, inr (inr (inl (refl, refl, refl, str_eq→eq v hold_acquired got))))))
    | inr not_got ↦ elim (Bool-cases (str_eq v hold_booked)) [
      | inl sold ↦
          rw (not_got, not_got, sold)
            (inr (inl (refl, (v, str_eq→ne v hold_acquired not_got, inl (refl, refl, refl, refl)))))
      | inr busy ↦
          rw (not_got, not_got, busy)
            (inr (inl (refl, (v, str_eq→ne v hold_acquired not_got, inl (refl, refl, refl, refl)))))
    ]
  ]
]

hold_parsed-Answered :
    (s : Server) (r : SeatRequest) (p : Response ⊎ (Str × ℤ))
    → parse_seat_request s r ≡ p
    → Ensures (Answered HoldTold s r) [] (hold_parsed s p)
unfolding hold_parsed
hold_parsed-Answered s r (inl bad) h = inl (parsed_bad s r.session r.seat_id bad h, refl)
hold_parsed-Answered s r (inr (session, seat)) h =
    Ensures-mono (Attempt session seat) (Answered HoldTold s r)
      (λ es. elim [
        | none ↦ λ nothing. absurd nothing
        | some resp ↦
            λ told. inr (session, seat, parse_seat_request-Proper s r session seat h, told)
      ])
      [] (hold (bookings s) seat session >>= λ out. ret (hold_response seat out))
      (hold_told s session seat)

-- Whatever the services reply, a hold request gets exactly one answer: 400 or 404, without a call to
-- any service, or, to a request of a session for a seat of the venue, 200 if the hold script set the
-- hold, 409 if it refused, or 503.
pub handle_hold-Answered :
    (s : Server) (r : SeatRequest) → Ensures (Answered HoldTold s r) [] (handle_hold s r)
unfolding handle_hold
handle_hold-Answered s r = hold_parsed-Answered s r (parse_seat_request s r) refl
