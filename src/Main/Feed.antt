-- ===== src/Main/Feed.antt =====
-- backend/main.go and backend/locking/locking.go: what reaches the hub from Redis. The encoding and
-- decoding of an event as JSON are parameters.
use grab_seat.Base.{true, [], Option, none, some, ◌≡◌, refl}
use grab_seat.Base.Int.{ℤ}
use grab_seat.Base.Text.{Str}
use grab_seat.Model.{SeatEvent, msg_freed, status_available}
use grab_seat.Strconv.{fits_int64}
use grab_seat.Locking.Keys.{
  hold_prefix, hold_key, booked_key, seat_id_from_key, seat_id_from_key-hold_key,
  seat_id_from_key-booked_key,
}
use grab_seat.Ws.{Hub, broadcast}

-- encoding/json on a SeatEvent
pub record Json : Type 0 where
  pub encode : SeatEvent → Str
  pub decode : Str → Option SeatEvent

-- A message on one of the two channels of Redis.
pub data Message : Type 0 where
  seat_event : Str → Message
  expired : Str → Message

unfoldable pub freed_event : Str → ℤ → SeatEvent
freed_event instance_id seat = record {
  type = msg_freed;
  seat_id = seat;
  status = status_available;
  held_by = [];
  booked_by = [];
  expires_at_ms = 0;
  served_by = instance_id;
}

freed : Str → Option ℤ → Option SeatEvent
freed instance_id none = none
freed instance_id (some seat) = some (freed_event instance_id seat)

module _ (J : Json) where
  -- The event that a message brings: SubscribeSeatEvents drops what is no event, SubscribeExpiries
  -- what is no hold key.
  unfoldable pub event_of : Str → Message → Option SeatEvent
  unfolding freed
  event_of instance_id (seat_event payload) = J.decode payload
  event_of instance_id (expired key) = freed instance_id (seat_id_from_key key hold_prefix)

  broadcast_event : Option SeatEvent → Hub → Option Hub
  broadcast_event none h = some h
  broadcast_event (some ev) h = broadcast (J.encode ev) h

  -- The two handlers that main passes to the subscriptions.
  unfoldable pub on_message : Str → Message → Hub → Option Hub
  unfolding broadcast_event event_of
  on_message instance_id m h = broadcast_event (event_of instance_id m) h

  -- Every instance sends its clients an event that another published, if its JSON is decoded to the
  -- event again, unchanged; it frees a seat, whose id fits
  -- an int, when the seat's hold runs out; and a booked marker that goes frees nothing.
  pub on_message_lem :
      (instance_id : Str) (ev : SeatEvent) (seat : ℤ) (h : Hub)
      → J.decode (J.encode ev) ≡ some ev
      → fits_int64 seat ≡ true
      → (on_message instance_id (seat_event (J.encode ev)) h ≡ broadcast (J.encode ev) h)
        × (on_message instance_id (expired (hold_key seat)) h
            ≡ broadcast (J.encode (freed_event instance_id seat)) h)
        × (on_message instance_id (expired (booked_key seat)) h ≡ some h)
  unfolding on_message broadcast_event event_of freed
  on_message_lem instance_id ev seat h decoded fits = (
    rw decoded refl,
    rw (seat_id_from_key-hold_key seat fits) refl,
    rw (seat_id_from_key-booked_key seat) refl,
  )
