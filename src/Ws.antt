-- ===== src/Ws.antt =====
-- backend/ws: the hub and its clients. A client is the number of its connection; a message is a
-- text. One Broadcast is one step, as are the taking of one message by writePump and one send of
-- Serve. A send on a closed channel panics: `none`. A deadline that passes is an
-- error of a read or a write.
pub mod Sending
pub mod Pumping
pub mod Valid
pub mod Delivery
pub mod Dropping
pub mod Serving
use grab_seat.Base.{
  ℕ, suc, Bool, true, false, not, ◌&&◌, ◌||◌, List, [], ◌∷◌, ◌++◌, Option, none, some, ◌==◌, ltb,
  length, if◌then◌else◌,
}
use grab_seat.Base.Text.{Str}

-- sendBufferSize
abbrev pub send_buffer_size : ℕ
send_buffer_size = 64

-- A client: its channel `send`, the messages written to its connection, and whether its writePump
-- still runs.
pub record Client : Type 0 where
  pub send : List Str
  pub closed : Bool
  pub written : List Str
  pub pumping : Bool

-- A hub with the clients that were made so far, the next one's number, and those that are registered.
pub record Hub : Type 0 where
  pub clients : List ℕ
  pub conns : ℕ → Client
  pub next : ℕ

abbrev pub fresh_client : Client
fresh_client = record { send = []; closed = false; written = []; pumping = true }

-- NewHub. A number that no client has yet is given a closed channel.
abbrev pub new_hub : Hub
new_hub = record { clients = []; conns = λ k. record fresh_client { closed = true }; next = 0 }

unfoldable pub mem : ℕ → List ℕ → Bool
mem k [] = false
mem k (c ∷ cs) = (c == k) || mem k cs

unfoldable pub delete : ℕ → List ℕ → List ℕ
delete k [] = []
delete k (c ∷ cs) = let rest = delete k cs in if c == k then rest else c ∷ rest

abbrev pub update : ℕ → Client → (ℕ → Client) → ℕ → Client
update k c conns j = if k == j then c else conns j

-- Serve's new client, and add
unfoldable pub add : Hub → Hub
add h = record {
  clients = h.next ∷ h.clients;
  conns = update h.next fresh_client h.conns;
  next = suc h.next;
}

abbrev pub close : Client → Client
close c = record c { closed = true }

unfoldable pub remove : ℕ → Hub → Hub
unfolding mem delete
remove k h =
    if mem k h.clients
    then record h { clients = delete k h.clients; conns = update k (close (h.conns k)) h.conns }
    else h

abbrev pub has_room : Client → Bool
has_room c = ltb (length c.send) send_buffer_size

abbrev pub push : Str → Client → Client
push msg c = record c { send = c.send ++ (msg ∷ []) }

-- `select { case c.send <- msg: default: }`: the client, and whether the message was taken.
unfoldable pub offer : Str → Client → Option (Client × Bool)
offer msg c = elim c.closed [
  | true ↦ none
  | false ↦ if has_room c then some (push msg c, true) else some (c, false)
]

abbrev with_stuck : List ℕ → Option ((ℕ → Client) × List ℕ) → Option ((ℕ → Client) × List ℕ)
with_stuck ks none = none
with_stuck ks (some (conns, stuck)) = some (conns, ks ++ stuck)

-- The first loop of Broadcast: the clients after it, and those that are stuck.
unfoldable pub fan_out : Str → List ℕ → (ℕ → Client) → Option ((ℕ → Client) × List ℕ)
unfolding offer
fan_out msg [] conns = some (conns, [])
fan_out msg (k ∷ ks) conns = elim (offer msg (conns k)) [
  | none ↦ none
  | some (c, true) ↦ fan_out msg ks (update k c conns)
  | some (c, false) ↦ with_stuck (k ∷ []) (fan_out msg ks conns)
]

-- The second loop: the stuck clients are removed.
unfoldable pub remove_all : List ℕ → Hub → Hub
unfolding remove
remove_all [] h = h
remove_all (k ∷ ks) h = remove_all ks (remove k h)

abbrev drop_stuck : Hub → Option ((ℕ → Client) × List ℕ) → Option Hub
drop_stuck h none = none
drop_stuck h (some (conns, stuck)) = some (remove_all stuck (record h { conns = conns }))

unfoldable pub broadcast : Str → Hub → Option Hub
unfolding fan_out remove_all
broadcast msg h = drop_stuck h (fan_out msg h.clients h.conns)

-- ClientCount
unfoldable pub client_count : Hub → ℕ
client_count h = length h.clients

abbrev pub put_back : ℕ → Hub → Option (Client × Bool) → Option Hub
put_back k h none = none
put_back k h (some (c, taken)) = some (record h { conns = update k c h.conns })

-- Serve's send of the snapshot to the client that it made
unfoldable pub send_snapshot : ℕ → Str → Hub → Option Hub
unfolding offer
send_snapshot k msg h = put_back k h (offer msg (h.conns k))

-- writePump takes one message, and the write succeeds or fails; or it finds the channel closed.
unfoldable pub write_next : Bool → List Str → Client → Client
write_next ok [] c = if c.closed then record c { pumping = false } else c
write_next true (m ∷ rest) c = record c { send = rest; written = c.written ++ (m ∷ []) }
write_next false (m ∷ rest) c = record c { send = rest; pumping = false }

unfoldable pub pumped : Bool → Client → Client
unfolding write_next
pumped ok c = if c.pumping then write_next ok c.send c else c

unfoldable pub pump : ℕ → Bool → Hub → Hub
unfolding pumped
pump k ok h = record h { conns = update k (pumped ok (h.conns k)) h.conns }

-- A tick of writePump: the ping is written, or the pump ends.
unfoldable pub pinged : Bool → Client → Client
pinged true c = c
pinged false c = record c { pumping = false }

unfoldable pub ping_client : ℕ → Bool → Hub → Hub
unfolding pinged
ping_client k ok h = record h { conns = update k (pinged ok (h.conns k)) h.conns }

-- What happens to a hub: a connection, a disconnection that readPump notices, a broadcast, a
-- snapshot for a client, a message or a ping of a client's writePump.
pub data Happening : Type 0 where
  connected : Happening
  disconnected : ℕ → Happening
  broadcasted : Str → Happening
  snapshot_sent : ℕ → Str → Happening
  pumped_one : ℕ → Bool → Happening
  ticked : ℕ → Bool → Happening

unfoldable pub happen : Happening → Hub → Option Hub
unfolding add remove broadcast send_snapshot pump ping_client
happen connected h = some (add h)
happen (disconnected k) h = some (remove k h)
happen (broadcasted msg) h = broadcast msg h
happen (snapshot_sent k msg) h = send_snapshot k msg h
happen (pumped_one k ok) h = some (pump k ok h)
happen (ticked k ok) h = some (ping_client k ok h)

abbrev pub then_happen : Option Hub → (Hub → Option Hub) → Option Hub
then_happen none f = none
then_happen (some h) f = f h

unfoldable pub happen_all : List Happening → Hub → Option Hub
unfolding happen
happen_all [] h = some h
happen_all (e ∷ es) h = then_happen (happen e h) (happen_all es)
