-- ===== src/Main/Fanout.antt =====
-- backend/main.go with backend/ws: the events that Redis publishes, on their way to the browsers of
-- any instance. The subscription hands over one message after the other, in their order.
use grab_seat.Base.{
  ℕ, suc, ◌+◌, ◌≤◌, true, ◌≡◌, refl, ◌∙◌, ap, List, [], ◌∷◌, ◌++◌, map, Option, some, ==_refl,
  length, length-append, append_nil, append_assoc, All, arith,
}
use grab_seat.Base.Text.{Str}
use grab_seat.Model.{SeatEvent}
use grab_seat.Ws.{
  Client, Hub, mem, has_room, send_buffer_size, write_next, pumped, pump, Happening, broadcasted,
  pumped_one, happen, then_happen, happen_all,
}
use grab_seat.Ws.Dropping.{broadcast_lem}
use grab_seat.Ws.Valid.{Valid, ran-Valid}
use grab_seat.Main.Feed.{Json, Message, seat_event, on_message}

module _ (J : Json) (instance_id : Str) where
  -- SubscribeSeatEvents: the messages of its loop, each handed to the hub.
  unfoldable pub feed : List Message → Hub → Option Hub
  unfolding on_message
  feed [] h = some h
  feed (m ∷ ms) h = then_happen (on_message J instance_id m h) (feed ms)

  abbrev pub Decoded : SeatEvent → Type 0
  Decoded ev = J.decode (J.encode ev) ≡ some ev

  abbrev pub message : SeatEvent → Message
  message ev = seat_event (J.encode ev)

  -- The hub has given the client these messages, behind what was in its channel.
  pub record Reached (k : ℕ) (msgs : List Str) (h h' : Hub) : Type 0 where
    pub valid : Valid h'
    pub stays : mem k h'.clients ≡ true
    pub client : h'.conns k ≡ record (h.conns k) { send = (h.conns k).send ++ msgs }

  event-Reached :
      (ev : SeatEvent) (k : ℕ) (h : Hub)
      → Decoded ev
      → Valid h
      → mem k h.clients ≡ true
      → has_room (h.conns k) ≡ true
      → (h' : Hub) × (on_message J instance_id (message ev) h ≡ some h')
        × Reached k (J.encode ev ∷ []) h h'
  unfolding on_message happen
  event-Reached ev k h decoded v there room =
      let (h', runs, d) = broadcast_lem (J.encode ev) h v.distinct (λ j m. ((v.fit j).0 m).0) in
      (
        h',
        rw decoded runs,
        record {
          valid = ran-Valid (broadcasted (J.encode ev)) h h' v runs;
          stays = d.clients k ∙ (rw (there, room) refl);
          client = d.conns k ∙ (rw (there, room) refl);
        },
      )

  room_for_one : (n : ℕ) (c : Client) → length c.send + suc n ≤ send_buffer_size → has_room c ≡ true
  room_for_one n c h = ground arith

  pub feed-Reached :
      (evs : List SeatEvent) (k : ℕ) (h : Hub)
      → All Decoded evs
      → Valid h
      → mem k h.clients ≡ true
      → length (h.conns k).send + length evs ≤ send_buffer_size
      → (h' : Hub) × (feed (map message evs) h ≡ some h') × Reached k (map J.encode evs) h h'
  unfolding feed
  feed-Reached [] k h decoded v there room = (
    h,
    refl,
    record {
      valid = v;
      stays = there;
      client = ap (λ l. record (h.conns k) { send = l }) (append_nil (h.conns k).send);
    },
  )
  feed-Reached (ev ∷ evs) k h (d, decoded) v there room =
      let (mid, first, reached) =
        event-Reached ev k h d v there (room_for_one (length evs) (h.conns k) room) in
      let (h', rest, reached_all) = feed-Reached evs k mid decoded reached.valid reached.stays (
        rw reached.client
          (omega (arith, room, length-append (h.conns k).send (J.encode ev ∷ [])))) in
      (
        h',
        rw first rest,
        record {
          valid = reached_all.valid;
          stays = reached_all.stays;
          client =
              reached_all.client
              ∙ (rw reached.client (
                  ap (λ l. record (h.conns k) { send = l })
                    (append_assoc (h.conns k).send (J.encode ev ∷ []) (map J.encode evs))));
        },
      )

-- writePump takes and writes each of the messages.
abbrev pub writes : ℕ → List Str → List Happening
writes k [] = []
writes k (m ∷ ms) = pumped_one k true ∷ writes k ms

pub writes_lem :
    (l : List Str) (k : ℕ) (h : Hub)
    → (h.conns k).send ≡ l
    → (h.conns k).pumping ≡ true
    → (h' : Hub) × (happen_all (writes k l) h ≡ some h')
      × ((h'.conns k).written ≡ (h.conns k).written ++ l)
unfolding happen_all happen pump pumped write_next
writes_lem [] k h same runs = (h, refl, append_nil (h.conns k).written)
writes_lem (m ∷ ms) k h same runs =
    let next : pumped true (h.conns k)
        ≡ record (h.conns k) { send = ms; written = (h.conns k).written ++ (m ∷ []) } =
      rw (runs, same) refl in
    let here : (pump k true h).conns k ≡ pumped true (h.conns k) = rw (==_refl k) refl in
    let (h', rest, wrote) =
      writes_lem ms k (pump k true h) (ap (λ (c : Client). c.send) (here ∙ next))
        (ap (λ (c : Client). c.pumping) (here ∙ next) ∙ runs) in
    (
      h',
      rest,
      wrote
          ∙ (ap (λ (c : Client). c.written ++ ms) (here ∙ next)
              ∙ append_assoc (h.conns k).written (m ∷ []) ms),
    )
