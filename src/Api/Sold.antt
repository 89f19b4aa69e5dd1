-- ===== src/Api/Sold.antt =====
-- backend/api: what the answer to a request to confirm or to hold rests on, at the HTTP level.
use grab_seat.Base.{
  ℕ, Bool, true, false, ◌≡◌, ◌≢◌, refl, sym, ap, ◌∙◌, ◌⊎◌, inl, inr, List, [], ◌∷◌, Option, none,
  some, Any, arith,
}
use grab_seat.Base.Int.{ℤ}
use grab_seat.Base.Text.{Str, codes}
use grab_seat.Service.{Result, ok, err, Event, Prog, ret, call}
use grab_seat.Service.Paths.{Ensures, Ensures-bind, Ensures-mono}
use grab_seat.Booking.{Outcome, confirmed, already_mine, conflict, hold_expired, confirm}
use grab_seat.Booking.Paths.{Won, Owned, Backed, confirm-Backed}
use grab_seat.Api.Snapshot.{Server}
use grab_seat.Api.Handlers.{
  Response, SeatRequest, done, refused, parse_seat_request, confirm_response, bookings,
  confirm_parsed, handle_hold, handle_confirm,
}
use grab_seat.Api.Parsing.{Proper, Rejection, parse_seat_request-Proper, parsed_bad}
use grab_seat.Api.Answers.{Answered, HoldTold, handle_hold-Answered}
use grab_seat.Api.Server.{
  Method, options_method, Route, hold_route, confirm_route, Served, answered, wrote, seat_request,
  route,
}
use grab_seat.Api.Program.{Visit, if_admitted, at_route, for_method, program}

-- The two bodies with which a seat is told to be the session's.
abbrev pub sold_now : ℤ → Response
sold_now seat = record { status = 200; body = done (codes "confirmed") seat }

abbrev pub sold_before : ℤ → Response
sold_before seat = record { status = 200; body = done (codes "already_mine") seat }

abbrev pub Sold : Str → ℤ → List Event → Response → Type 0
Sold session seat es resp =
    ((resp ≡ sold_now seat) × Any (Won seat session) es)
    ⊎ ((resp ≡ sold_before seat) × Any (Owned seat session) es)

-- The refusal of a seat that someone else bought.
abbrev pub sold_elsewhere : ℤ → Response
sold_elsewhere seat = record {
  status = 409;
  body = refused (codes "conflict") seat (codes "this seat belongs to someone else");
}

-- The answer is not about the seat: no 200, and no 409.
abbrev pub Unsaid : Response → Type 0
Unsaid resp = (resp.status ≢ 200) × (resp.status ≢ 409)

-- A 200 and a 409 are for a proper request, and are what the handler makes of an outcome that rests
-- on the calls.
abbrev pub ConfirmSays : Server → SeatRequest → List Event → Response → Type 0
ConfirmSays s r es resp =
    Unsaid resp
    ⊎ ((session : Str) × (seat : ℤ) × (o : Outcome) × Proper s r session seat
        × (confirm_response seat (ok o) ≡ some resp)
        × Backed seat session es (ok o))

pub some_is : (p q : Response) → some p ≡ some q → p ≡ q
some_is p q h = cc h

-- Where such an answer is a 200, the seat is the session's.
pub outcome-Sold :
    (session : Str) (seat : ℤ) (es : List Event) (o : Outcome) (resp : Response)
    → confirm_response seat (ok o) ≡ some resp
    → resp.status ≡ 200
    → Backed seat session es (ok o)
    → Sold session seat es resp
unfolding confirm_response
outcome-Sold session seat es confirmed resp says h b = inl (sym (some_is _ resp says), b)
outcome-Sold session seat es already_mine resp says h b = inr (sym (some_is _ resp says), b)
outcome-Sold session seat es conflict resp says h b =
    let refused : 409 ≡ resp.status = ap (λ (z : Response). z.status) (some_is _ resp says) in
    absurd (omega (arith, refused, h))
outcome-Sold session seat es hold_expired resp says h b =
    let refused : 409 ≡ resp.status = ap (λ (z : Response). z.status) (some_is _ resp says) in
    absurd (omega (arith, refused, h))
outcome-Sold session seat es _ resp says h b = absurd cc

-- A 200 is for a proper request, and the hold script of the seat granted the hold.
abbrev pub HoldSays : Server → SeatRequest → List Event → Response → Type 0
HoldSays s r es resp =
    (resp.status ≢ 200)
    ⊎ ((session : Str) × (seat : ℤ) × Proper s r session seat × HoldTold session seat es resp)

abbrev Written : (List Event → Response → Type 0) → List Event → Option Response → Type 0
Written Q es none = Unit
Written Q es (some resp) = Q es resp

unsaid : (resp : Response) (n : ℕ) → resp.status ≡ n → n ≢ 200 → n ≢ 409 → Unsaid resp
unsaid resp n h k m = ((λ e. k (sym h ∙ e)), (λ e. m (sym h ∙ e)))

rejected : (resp : Response) → Rejection resp → Unsaid resp
rejected resp (inl h) = unsaid resp 400 h (λ e. omega (arith, e)) (λ e. omega (arith, e))
rejected resp (inr h) = unsaid resp 404 h (λ e. omega (arith, e)) (λ e. omega (arith, e))

response-ConfirmSays :
    (s : Server) (r : SeatRequest) (session : Str) (seat : ℤ) (es : List Event)
    (out : Result Outcome)
    → Proper s r session seat
    → Backed seat session es out
    → Written (ConfirmSays s r) es (confirm_response seat out)
unfolding confirm_response
response-ConfirmSays s r session seat es (ok confirmed) p h =
    inr (session, seat, confirmed, p, refl, h)
response-ConfirmSays s r session seat es (ok already_mine) p h =
    inr (session, seat, already_mine, p, refl, h)
response-ConfirmSays s r session seat es (ok conflict) p h =
    inr (session, seat, conflict, p, refl, h)
response-ConfirmSays s r session seat es (ok hold_expired) p h =
    inr (session, seat, hold_expired, p, refl, h)
response-ConfirmSays s r session seat es (ok _) p h = tt
response-ConfirmSays s r session seat es (err _) p h =
    inl ((λ e. omega (arith, e)), (λ e. omega (arith, e)))

parsed-ConfirmSays :
    (s : Server) (r : SeatRequest) (p : Response ⊎ (Str × ℤ))
    → parse_seat_request s r ≡ p
    → Ensures (Written (ConfirmSays s r)) [] (confirm_parsed s p)
unfolding confirm_parsed
parsed-ConfirmSays s r (inl bad) h = inl (rejected bad (parsed_bad s r.session r.seat_id bad h))
parsed-ConfirmSays s r (inr (session, seat)) h =
    Ensures-bind (Backed seat session) (Written (ConfirmSays s r)) []
      (confirm (bookings s) seat session) (λ out. ret (confirm_response seat out))
      (confirm-Backed (bookings s) seat session)
      (λ es out.
        response-ConfirmSays s r session seat es out (parse_seat_request-Proper s r session seat h))

handle_confirm-ConfirmSays :
    (s : Server) (r : SeatRequest) → Ensures (Written (ConfirmSays s r)) [] (handle_confirm s r)
unfolding handle_confirm
handle_confirm-ConfirmSays s r = parsed-ConfirmSays s r (parse_seat_request s r) refl

Written-HoldSays :
    (s : Server) (r : SeatRequest) (es : List Event) (a : Option Response)
    → Answered HoldTold s r es a
    → Written (HoldSays s r) es a
Written-HoldSays s r es none h = tt
Written-HoldSays s r es (some resp) (inl (bad, none_made)) = inl (rejected resp bad).0
Written-HoldSays s r es (some resp) (inr told) = inr told

handle_hold-HoldSays :
    (s : Server) (r : SeatRequest) → Ensures (Written (HoldSays s r)) [] (handle_hold s r)
handle_hold-HoldSays s r =
    Ensures-mono (Answered HoldTold s r) (Written (HoldSays s r)) (Written-HoldSays s r) []
      (handle_hold s r) (handle_hold-Answered s r)

-- What the answer to a request says, by its route.
abbrev pub Says : Visit → List Event → Served → Type 0
Says v es (answered resp) =
    let r = v.request in
    (route r.method r.path ≡ confirm_route → ConfirmSays v.server (seat_request r) es resp)
    × (route r.method r.path ≡ hold_route → HoldSays v.server (seat_request r) es resp)
Says v es _ = Unit

module _ (v : Visit) where
  abbrev to : Route
  to = route v.request.method v.request.path

  -- An answer that is neither a 200 nor a 409 claims nothing.
  plain-Says : (es : List Event) (resp : Response) → Unsaid resp → Says v es (answered resp)
  plain-Says es resp h = ((λ _. inl h), (λ _. inl h.0))

  wrote-Says :
      (Q : List Event → Response → Type 0)
      → ((es : List Event) (resp : Response) → Q es resp → Says v es (answered resp))
      → (es : List Event) (a : Option Response) → Written Q es a
      → Says v es (wrote a)
  wrote-Says Q f es none h = tt
  wrote-Says Q f es (some resp) h = f es resp h

  admitted-Says :
      (passes : Bool) (Q : List Event → Response → Type 0) (next : Prog (Option Response))
      → ((es : List Event) (resp : Response) → Q es resp → Says v es (answered resp))
      → Ensures (Written Q) [] next
      → Ensures (Says v) [] (if_admitted passes next)
  unfolding if_admitted
  admitted-Says false Q next f h =
      plain-Says [] _ ((λ e. omega (arith, e)), (λ e. omega (arith, e)))
  admitted-Says true Q next f h =
      Ensures-bind (Written Q) (Says v) [] next (λ a. ret (wrote a)) h (wrote-Says Q f)

  -- At any other route nothing is claimed.
  elsewhere-Says :
      to ≢ confirm_route
      → to ≢ hold_route
      → (es : List Event) (m : Prog Served) → Ensures (Says v) es m
  elsewhere-Says h k es (ret (answered resp)) = ((λ e. absurd (h e)), (λ e. absurd (k e)))
  elsewhere-Says h k es (ret _) = tt
  elsewhere-Says h k es (call c next) = λ a. elsewhere-Says h k ((c, a) ∷ es) (next a)

  at_route-Says : (at : Route) → to ≡ at → Ensures (Says v) [] (at_route v at)
  unfolding at_route
  at_route-Says hold_route h =
      admitted-Says v.passes (HoldSays v.server (seat_request v.request))
        (handle_hold v.server (seat_request v.request))
        (λ es resp says. ((λ e. cc (h, e)), (λ _. says)))
        (handle_hold-HoldSays v.server (seat_request v.request))
  at_route-Says confirm_route h =
      admitted-Says v.passes (ConfirmSays v.server (seat_request v.request))
        (handle_confirm v.server (seat_request v.request))
        (λ es resp says. ((λ _. says), (λ e. cc (h, e))))
        (handle_confirm-ConfirmSays v.server (seat_request v.request))
  at_route-Says other h = elsewhere-Says (λ e. cc (h, e)) (λ e. cc (h, e)) [] (at_route v other)

  method-Says :
      (m : Method) (next : Prog Served)
      → Ensures (Says v) [] next
      → Ensures (Says v) [] (for_method m next)
  unfolding for_method
  method-Says options_method next h =
      plain-Says [] _ ((λ e. omega (arith, e)), (λ e. omega (arith, e)))
  method-Says _ next h = h

  pub program-Says : Ensures (Says v) [] (program v)
  unfolding program
  program-Says = method-Says v.request.method _ (at_route-Says to refl)
