-- ===== src/System/Again.antt =====
-- backend/api over the shared services: a POST of /api/confirm for a seat that is sold already.
use grab_seat.Base.{
  ℕ, Bool, true, false, ◌≡◌, ap, sym, ◌∙◌, subst, ◌⊎◌, List, some, All, if◌then◌else◌, inl, inr,
}
use grab_seat.Base.Int.{ℤ}
use grab_seat.Base.Text.{Str, str_eq}
use grab_seat.Service.{ok, Event}
use grab_seat.Service.Backends.{Redis, Postgres}
use grab_seat.Booking.{Outcome, already_mine, conflict}
use grab_seat.Booking.Paths.{Backed}
use grab_seat.Api.Handlers.{Response, confirm_response}
use grab_seat.Api.Server.{seat_request}
use grab_seat.Api.Program.{Visit}
use grab_seat.Api.Sold.{sold_before, sold_elsewhere, ConfirmSays, some_is}
use grab_seat.World.{World}
use grab_seat.World.Bookings.{owner, exec-Grows}
use grab_seat.System.{past, System, Reach}
use grab_seat.System.Events.{Answers, Reach-AllShow}
use grab_seat.System.Invariant.{Explained, Reach-Explained}
use grab_seat.System.Retry.{Settled, Booked, exec-Settled, outcome_when_owned}
use grab_seat.System.Web.{Responded, Confirms, session_of}

-- The answer is about the seat.
abbrev pub Decided : Response → Type 0
Decided resp = (resp.status ≡ 200) ⊎ (resp.status ≡ 409)

response_when_owned :
    (mine : Bool) (seat : ℤ) (o : Outcome) (resp : Response)
    → o ≡ (if mine then already_mine else conflict)
    → confirm_response seat (ok o) ≡ some resp
    → resp ≡ (if mine then sold_before seat else sold_elsewhere seat)
unfolding confirm_response
response_when_owned true seat o resp same says =
    sym (some_is _ resp (sym (ap (λ z. confirm_response seat (ok z)) same) ∙ says))
response_when_owned false seat o resp same says =
    sym (some_is _ resp (sym (ap (λ z. confirm_response seat (ok z)) same) ∙ says))

module _ (R : Redis) (P : Postgres) (seat : ℤ) (u : Str) where
  says_when_owned :
      (v : Visit) (resp : Response) (es : List Event)
      → All (Settled seat u) es
      → ConfirmSays v.server (seat_request v.request) es resp
      → v.request.seat.seat_id ≡ some seat
      → Decided resp
      → resp ≡ (if str_eq u (session_of v) then sold_before seat else sold_elsewhere seat)
  says_when_owned v resp es h (inl (no_sale, _)) asked (inl d) = absurd (no_sale d)
  says_when_owned v resp es h (inl (_, no_conflict)) asked (inr d) = absurd (no_conflict d)
  says_when_owned v resp es h (inr (session, x, o, (same, given, named, known), says, backed)) asked
        d =
      let is_seat : x ≡ seat = cc (named, asked) in
      let at_seat : Backed seat session es (ok o) =
        subst (λ z. Backed z session es (ok o)) is_seat backed in
      let mine : Backed seat (session_of v) es (ok o) =
        subst (λ z. Backed seat z es (ok o)) (sym same) at_seat in
      response_when_owned (str_eq u (session_of v)) seat o resp
        (outcome_when_owned R P seat u (session_of v) o es h mine)
        (subst (λ z. confirm_response z (ok o) ≡ some resp) is_seat says)

  -- Once a session owns a seat in the table of bookings, a POST of /api/confirm for the seat that is
  -- answered with a 200 or a 409 is told `already_mine` if it is of that session, and `conflict` if
  -- not: whatever other requests do, whatever fails on the way, and whatever Redis still knows.
  pub web_confirm_again :
      {w : World R P} {s : System R P} (i : ℕ) (v : Visit) (resp : Response) (es : List Event)
      → owner P seat w.db ≡ some u
      → Reach R P w s
      → Responded v resp es (s.tasks i)
      → Confirms v seat
      → Decided resp
      → resp ≡ (if str_eq u (session_of v) then sold_before seat else sold_elsewhere seat)
  web_confirm_again {s} i v resp es owned r x (at_confirm, asked) d =
      let (says, _) = subst (Answers Explained) x (Reach-Explained R P r i) in
      says_when_owned v resp es
        (subst (λ z. All (Settled seat u) (past z)) x
          ((Reach-AllShow R P (Booked R P seat u) (Settled seat u)
              (λ c l w h. exec-Grows R P c l w seat u h) (exec-Settled R P seat u) owned r).1
            i))
        (says at_confirm) asked d
