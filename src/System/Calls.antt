-- ===== src/System/Calls.antt =====
-- Which calls the code of a request makes.
use grab_seat.Base.{◌/◌, ◌<◌, ◌≡◌, ◌⊎◌, inl, inr}
use grab_seat.Base.Int.{ℤ}
use grab_seat.Base.Text.{Str}
use grab_seat.Service.{Call, eval_hold, eval_book, set, insert_booking}
use grab_seat.Service.Paths.{Only, Only-bind, Only-mono}
use grab_seat.Locking.{second}
use grab_seat.Booking.{BookingService, hold, confirm}
use grab_seat.Booking.Keyed.{
  Tries, Books, hold-Tries, confirm-Books, Keyed, hold-Keyed, confirm-Keyed,
}
use grab_seat.Api.Snapshot.{Server}
use grab_seat.Api.Handlers.{
  Response, bookings, parse_seat_request, hold_parsed, confirm_parsed, handle_hold, handle_confirm,
}
use grab_seat.Api.Server.{seat_request}
use grab_seat.Api.Program.{program}
use grab_seat.Api.Writes.{IsRead, program-Only}
use grab_seat.System.{Request, hold_request, confirm_request, web_request, code}

-- The booking service that serves the request.
abbrev pub service : Request → BookingService
service (hold_request s _ _) = s
service (confirm_request s _ _) = s
service (web_request v) = bookings v.server

abbrev pub MayHold : Request → Type 0
MayHold (confirm_request _ _ _) = ⊥
MayHold _ = Unit

module _ (P : Call → Type 0) (s : Server) where
  hold_parsed-Only :
      (p : Response ⊎ (Str × ℤ))
      → ((seat : ℤ) (session : Str) → Only P (hold (bookings s) seat session))
      → Only P (hold_parsed s p)
  unfolding hold_parsed
  hold_parsed-Only (inl bad) h = tt
  hold_parsed-Only (inr (session, seat)) h =
      Only-bind P (hold (bookings s) seat session) _ (h seat session) (λ a. tt)

  confirm_parsed-Only :
      (p : Response ⊎ (Str × ℤ))
      → ((seat : ℤ) (session : Str) → Only P (confirm (bookings s) seat session))
      → Only P (confirm_parsed s p)
  unfolding confirm_parsed
  confirm_parsed-Only (inl bad) h = tt
  confirm_parsed-Only (inr (session, seat)) h =
      Only-bind P (confirm (bookings s) seat session) _ (h seat session) (λ a. tt)

-- What all reads satisfy, and the calls of Hold and Confirm on the request's service, all calls of
-- the request satisfy.
pub code-Only :
    (P : Call → Type 0)
    → ((c : Call) → IsRead c → P c)
    → (q : Request)
    → (MayHold q → (seat : ℤ) (session : Str) → Only P (hold (service q) seat session))
    → ((seat : ℤ) (session : Str) → Only P (confirm (service q) seat session))
    → Only P (code q)
unfolding code handle_hold handle_confirm
code-Only P reads (hold_request s seat session) holds confirms =
    Only-bind P (hold s seat session) _ (holds tt seat session) (λ a. tt)
code-Only P reads (confirm_request s seat session) holds confirms =
    Only-bind P (confirm s seat session) _ (confirms seat session) (λ a. tt)
code-Only P reads (web_request v) holds confirms =
    Only-bind P (program v) _
      (program-Only P reads v
        (λ _.
          hold_parsed-Only P v.server (parse_seat_request v.server (seat_request v.request))
            (holds tt))
        (λ _.
          confirm_parsed-Only P v.server (parse_seat_request v.server (seat_request v.request))
            confirms))
      (λ a. tt)

-- A request of a service whose holds last a second or more.
abbrev pub Lasting : Request → Type 0
Lasting (confirm_request s seat session) = Unit
Lasting q = 0 < (service q).hold_ttl / second

lasting : (q : Request) → Lasting q → MayHold q → 0 < (service q).hold_ttl / second
lasting (confirm_request s seat session) h may = absurd may
lasting (hold_request s seat session) h may = h
lasting (web_request v) h may = h

Read-Keyed : (c : Call) → IsRead c → Keyed c
Read-Keyed (eval_hold _ _ _ _) h = absurd h
Read-Keyed (eval_book _ _ _) h = absurd h
Read-Keyed (set _ _) h = absurd h
Read-Keyed _ h = tt

pub code-Keyed : (q : Request) → Lasting q → Only Keyed (code q)
code-Keyed q lasts =
    code-Only Keyed Read-Keyed q
      (λ may seat session. hold-Keyed (service q) seat session (lasting q lasts may))
      (confirm-Keyed (service q))

-- Rows are inserted for this event alone.
abbrev pub OfEvent : ℤ → Call → Type 0
OfEvent event (insert_booking e _ _) = e ≡ event
OfEvent event _ = Unit

Read-OfEvent : (event : ℤ) (c : Call) → IsRead c → OfEvent event c
Read-OfEvent event (insert_booking _ _ _) h = absurd h
Read-OfEvent event _ h = tt

Tries-OfEvent : (s : BookingService) (seat : ℤ) (c : Call) → Tries s seat c → OfEvent s.event_id c
Tries-OfEvent s seat (insert_booking _ _ _) h = absurd h
Tries-OfEvent s seat _ h = tt

Books-OfEvent :
    (s : BookingService) (seat : ℤ) (session : Str) (c : Call)
    → Books s seat session c
    → OfEvent s.event_id c
Books-OfEvent s seat session (insert_booking _ _ _) (e, _, _) = e
Books-OfEvent s seat session _ h = tt

pub code-OfEvent : (q : Request) → Only (OfEvent (service q).event_id) (code q)
code-OfEvent q =
    let s = service q in
    code-Only (OfEvent s.event_id) (Read-OfEvent s.event_id) q
      (λ may seat session.
        Only-mono (Tries s seat) _ (Tries-OfEvent s seat) (hold s seat session)
          (hold-Tries s seat session))
      (λ seat session.
        Only-mono (Books s seat session) _ (Books-OfEvent s seat session) (confirm s seat session)
          (confirm-Books s seat session))
