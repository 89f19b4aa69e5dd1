-- ===== src/Main/Sale.antt =====
-- backend/booking/booking.go, backend/main.go and backend/ws: a purchase on one instance, as the
-- browsers of any instance are told of it.
use grab_seat.Base.{
  ℕ, ◌+◌, ◌/◌, ◌<◌, ◌≤◌, true, ◌≡◌, refl, ◌∙◌, ap, List, [], ◌∷◌, ◌++◌, map, some, length, All,
}
use grab_seat.Base.Int.{ℤ}
use grab_seat.Base.Text.{Str, str_eq_refl}
use grab_seat.Model.{SeatEvent}
use grab_seat.Service.Backends.{Redis, Postgres}
use grab_seat.Locking.{second, millisecond}
use grab_seat.Booking.{BookingService, held_event, booked_event}
use grab_seat.World.{World}
use grab_seat.Spec.{seat_view, hold_step, confirm_step}
use grab_seat.Spec.Hold.{hold_refines}
use grab_seat.Spec.Confirm.{confirm_refines}
use grab_seat.Spec.Journey.{hold_now, confirm_now, free, hold_free, held_by}
use grab_seat.Ws.{Client, Hub, mem, happen_all, send_buffer_size}
use grab_seat.Ws.Valid.{Valid}
use grab_seat.Main.Feed.{Json}
use grab_seat.Main.Fanout.{feed, Decoded, message, feed-Reached, writes, writes_lem}

module _ (R : Redis) (P : Postgres) (b : BookingService) (seat : ℤ) where
  -- What Hold and then Confirm of a free seat publish, in their order.
  abbrev pub sale_events : Str → World R P → List SeatEvent
  sale_events session w =
      held_event b seat session ((w.clock + b.hold_ttl) / millisecond)
      ∷ booked_event b seat session
      ∷ []

  hold_tells :
      (session : Str) (w : World R P)
      → 0 < b.hold_ttl / second
      → seat_view R P w seat ≡ free R P b seat
      → (hold_now R P b seat session w).1.channel
        ≡ held_event b seat session ((w.clock + b.hold_ttl) / millisecond) ∷ w.channel
  unfolding hold_step
  hold_tells session w p is_free =
      (hold_refines R P b seat session w p).1.messages
      ∙ ap (λ v. (hold_step b seat session w.clock v).told ++ w.channel) is_free

  confirm_tells :
      (session : Str) (w : World R P)
      → seat_view R P w seat ≡ held_by R P b seat session
      → (confirm_now R P b seat session w).1.channel ≡ booked_event b seat session ∷ w.channel
  unfolding confirm_step
  confirm_tells session w is_held =
      (confirm_refines R P b seat session w).1.messages
      ∙ (ap (λ v. (confirm_step b seat session v).told ++ w.channel) is_held
          ∙ (rw (str_eq_refl session) refl))

  sale_tells :
      (session : Str) (w : World R P)
      → 0 < b.hold_ttl / second
      → seat_view R P w seat ≡ free R P b seat
      → (confirm_now R P b seat session (hold_now R P b seat session w).1).1.channel
        ≡ booked_event b seat session
          ∷ held_event b seat session ((w.clock + b.hold_ttl) / millisecond)
          ∷ w.channel
  sale_tells session w p is_free =
      confirm_tells session (hold_now R P b seat session w).1
        (hold_free R P b seat session w p is_free)
      ∙ ap (◌∷◌ (booked_event b seat session)) (hold_tells session w p is_free)

  -- While the links are up and no one else interferes, the purchase of a free seat publishes its hold and then its
  -- booking. Whatever instance is handed the two messages: a browser that is registered with its
  -- hub, with room for two messages, is sent what waits in its channel and then the two events, the
  -- hold first, if no write to it fails and their JSON is decoded again; nothing panics.
  pub sale_shown :
      (json : Json) (instance_id session : Str) (w : World R P) (h : Hub) (k : ℕ)
      → 0 < b.hold_ttl / second
      → seat_view R P w seat ≡ free R P b seat
      → All (Decoded json instance_id) (sale_events session w)
      → Valid h
      → mem k h.clients ≡ true
      → (h.conns k).pumping ≡ true
      → length (h.conns k).send + 2 ≤ send_buffer_size
      → let events = sale_events session w in
        let texts = map json.encode events in
        ((confirm_now R P b seat session (hold_now R P b seat session w).1).1.channel
          ≡ booked_event b seat session
            ∷ held_event b seat session ((w.clock + b.hold_ttl) / millisecond)
            ∷ w.channel)
        × (told : Hub) × (feed json instance_id (map (message json instance_id) events) h
            ≡ some told)
        × (sent : Hub) × (happen_all (writes k ((h.conns k).send ++ texts)) told ≡ some sent)
        × ((sent.conns k).written ≡ (h.conns k).written ++ ((h.conns k).send ++ texts))
  sale_shown json instance_id session w h k p is_free decoded v there runs room =
      let texts : List Str = map json.encode (sale_events session w) in
      let (told, fed, reached) =
        feed-Reached json instance_id (sale_events session w) k h decoded v there room in
      let (sent, flushed, wrote) =
        writes_lem ((h.conns k).send ++ texts) k told (rw reached.client refl)
          (rw reached.client runs) in
      (
        sale_tells session w p is_free,
        told,
        fed,
        sent,
        flushed,
        wrote ∙ ap (λ (c : Client). c.written ++ ((h.conns k).send ++ texts)) reached.client,
      )
