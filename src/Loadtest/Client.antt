-- ===== src/Loadtest/Client.antt =====
-- loadtest/harness.go: the client of the load tests. net/http, gorilla/websocket, crypto/rand and the
-- decoders of JSON are parameters; `t.Fatal` ends a test: `none`.
use grab_seat.Base.{ℕ, Bool, List, [], ◌∷◌, ◌++◌, Option, none, some}
use grab_seat.Base.Int.{ℤ}
use grab_seat.Base.Text.{Str, codes}
use grab_seat.Model.{SeatState}
use grab_seat.Service.{Result, ok, err}
use grab_seat.Config.{Environment}
use grab_seat.Loadtest.{base_url, ws_url, available_seats, WsMessage}

-- The JSON of the backend, as far as the tests read it. A seat's state has the fields of the
-- backend's own; of a seat, the event has the id.
pub record StateResponse : Type 0 where
  pub type : Str
  pub instance_id : Str
  pub seats : List SeatState
  pub redis_healthy : Bool

pub record EventResponse : Type 0 where
  pub seats : List ℤ
  pub hold_ttl_seconds : ℤ

pub record ActionResponse : Type 0 where
  pub status : Str
  pub seat_id : ℤ
  pub expires_at_ms : ℤ
  pub code : Str
  pub error : Str

pub data HttpMethod : Type 0 where
  get post : HttpMethod

pub record Sent : Type 0 where
  pub method : HttpMethod
  pub url : Str
  pub headers : List (Str × Str)
  pub body : Str

pub record Got : Type 0 where
  pub status : ℕ
  pub body : Str

pub record WsClient : Type 0 where
  pub snapshot : StateResponse
  pub events : List WsMessage

-- The libraries, and what is at the other end.
pub record Net : Type 1 where
  -- http.NewRequest refuses an address that is no URL.
  pub new_request : Sent → Result Sent
  pub send : Sent → Result Got
  -- websocket.Dial: what the reads of the connection return, until one fails
  pub dial : Str → Result (List Str)
  -- json.Marshal of {"seat_id": n}
  pub encode_seat : ℤ → Str
  -- json.Unmarshal, whose error is ignored: what is left in the zero value
  pub fill_action : Str → ActionResponse
  -- json.Decoder on a response's body
  pub decode_event : Str → Result EventResponse
  pub decode_state : Str → Result StateResponse
  -- json.Unmarshal of a message into a snapshot, and into a map
  pub decode_snapshot : Str → Result StateResponse
  pub decode_message : Str → Result WsMessage

-- newSession, with the bytes of rand.Read in hexadecimal
unfoldable pub new_session : Str → Str
new_session hex = codes "sess_" ++ hex

-- A test goes on, unless it has ended.
infixl 5 ◌>>=◌
abbrev ◌>>=◌ : {A B : Type 0} → Option A → (A → Option B) → Option B
none >>= f = none
some a >>= f = f a

-- t.Fatalf on an error
unfoldable pub or_fatal : {A : Type 0} → Result A → Option A
or_fatal (ok a) = some a
or_fatal (err e) = none

module _ (N : Net) (env : Environment) where
  unfoldable pub posted : Result Got → Result (ℕ × ActionResponse)
  posted (ok resp) = ok (resp.status, N.fill_action resp.body)
  posted (err e) = err e

  unfoldable pub send_request : Result Sent → Result (ℕ × ActionResponse)
  unfolding posted
  send_request (ok req) = posted (N.send req)
  send_request (err e) = err e

  -- postSeat
  unfoldable pub post_seat : Str → Str → ℤ → Result (ℕ × ActionResponse)
  unfolding send_request
  post_seat path session seat = send_request (
      N.new_request (record {
        method = post;
        url = base_url env ++ path;
        headers =
            (codes "Content-Type", codes "application/json") ∷ (codes "X-Session-Id", session) ∷ [];
        body = N.encode_seat seat;
      }))

  -- hold and confirm
  abbrev pub hold_seat : Str → ℤ → Result (ℕ × ActionResponse)
  hold_seat session seat = post_seat (codes "/api/hold") session seat

  abbrev pub confirm_seat : Str → ℤ → Result (ℕ × ActionResponse)
  confirm_seat session seat = post_seat (codes "/api/confirm") session seat

  -- http.Get
  abbrev get_path : Str → Result Got
  get_path path =
      N.send (record { method = get; url = base_url env ++ path; headers = []; body = [] })

  -- getEvent and getState, which do not look at the status
  unfoldable pub get_event : Option EventResponse
  unfolding or_fatal
  get_event = do
    resp ← or_fatal (get_path (codes "/api/event"))
    or_fatal (N.decode_event resp.body)

  unfoldable pub get_state : Option StateResponse
  unfolding or_fatal
  get_state = do
    resp ← or_fatal (get_path (codes "/api/state"))
    or_fatal (N.decode_state resp.body)

  -- availableSeats
  unfoldable pub take_seats : ℕ → Option (List ℤ)
  unfolding get_event get_state available_seats
  take_seats n = do ev ← get_event; st ← get_state; available_seats n ev.seats st.seats

  -- What the goroutine of connectWS puts on the channel: the messages that are JSON.
  unfoldable pub decoded_events : List Str → List WsMessage
  decoded_events [] = []
  decoded_events (raw ∷ raws) =
      let rest = decoded_events raws in
      elim (N.decode_message raw) [ ok m ↦ m ∷ rest | err e ↦ rest ]

  -- The first message is taken for the snapshot.
  unfoldable pub first_read : List Str → Option WsClient
  unfolding or_fatal decoded_events
  first_read [] = none
  first_read (raw ∷ raws) = do
    snapshot ← or_fatal (N.decode_snapshot raw)
    some (record { snapshot = snapshot; events = decoded_events raws })

  -- connectWS
  unfoldable pub connect_ws : Option WsClient
  unfolding or_fatal first_read
  connect_ws = do reads ← or_fatal (N.dial (ws_url env)); first_read reads
