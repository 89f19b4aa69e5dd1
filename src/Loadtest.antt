-- ===== src/Loadtest.antt =====
-- loadtest/harness.go: what the load tests do before and around a scenario. The backend's responses
-- are given, decoded. `t.Fatal` ends a test: `none`.
pub mod Available
pub mod Client
pub mod Open
use grab_seat.Base.{
  ℕ, zero, suc, Bool, true, false, ◌&&◌, ◌||◌, List, [], ◌∷◌, ◌++◌, Option, none, some, is_some,
  ltb, ◌==◌, length, if◌then◌else◌,
}
use grab_seat.Base.Int.{ℤ, negsuc, int_eq}
use grab_seat.Base.Text.{Str, codes, str_eq}
use grab_seat.Base.Assoc.{lookup, insert}
use grab_seat.Model.{SeatState}
use grab_seat.Service.{Result, ok, err}
use grab_seat.Config.{Environment}

-- baseURL and wsURL
unfoldable pub url_or : Environment → Str → Str → Str
url_or env key fallback = if str_eq (env key) [] then fallback else env key

abbrev pub base_url : Environment → Str
base_url env = url_or env (codes "BASE_URL") (codes "http://localhost:8080")

abbrev pub ws_url : Environment → Str
ws_url env = url_or env (codes "WS_URL") (codes "ws://localhost:8080/ws")

-- requireIntegration: whether the test runs
unfoldable pub require_integration : Environment → Bool
require_integration env = str_eq (env (codes "RUN_INTEGRATION")) (codes "1")

abbrev pub is_taken : SeatState → Bool
is_taken s = str_eq s.status (codes "held") || str_eq s.status (codes "booked")

-- The map `taken`
unfoldable pub taken_map : List SeatState → List (ℤ × Bool) → List (ℤ × Bool)
taken_map [] taken = taken
taken_map (s ∷ ss) taken = taken_map ss (if is_taken s then insert s.seat_id true taken else taken)

-- A read of the map
abbrev pub is_in : ℤ → List (ℤ × Bool) → Bool
is_in seat taken = is_some (lookup seat taken)

-- The loop over the event's seats, which ends with the n-th
unfoldable pub pick : ℕ → List (ℤ × Bool) → List ℤ → List ℤ → List ℤ
pick n taken [] out = out
pick n taken (seat ∷ seats) out =
    let passed = pick n taken seats out in
    let rest = pick n taken seats (out ++ (seat ∷ [])) in
    if is_in seat taken
    then passed
    else if length (out ++ (seat ∷ [])) == n
    then out ++ (seat ∷ [])
    else rest

-- availableSeats, with the seats of GET /api/event and the states of GET /api/state
unfoldable pub available_seats : ℕ → List ℤ → List SeatState → Option (List ℤ)
unfolding taken_map pick
available_seats n seats states =
    let out = pick n (taken_map states []) seats [] in if ltb (length out) n then none else some out

-- A message of the websocket: the number under "seat_id", and the text under "type".
pub record WsMessage : Type 0 where
  pub seat_id : Option ℤ
  pub type : Str

-- numField
unfoldable pub num_field : Option ℤ → ℤ
num_field none = negsuc 0
num_field (some n) = n

-- waitForEvent: what arrives before the deadline or the end of the channel
unfoldable pub wait_for_event : ℤ → Str → List WsMessage → Option (Unit {0})
unfolding num_field
wait_for_event seat type [] = none
wait_for_event seat type (m ∷ ms) =
    let rest = wait_for_event seat type ms in
    if int_eq (num_field m.seat_id) seat && str_eq m.type type then some tt else rest

is_ok_200 : Result ℕ → Bool
is_ok_200 (err e) = false
is_ok_200 (ok status) = status == 200

-- The rounds of waitStackReady that are left, from round `i`.
unfoldable pub ready_within : (ℕ → Result ℕ) → ℕ → ℕ → Option (Unit {0})
unfolding is_ok_200
ready_within health zero i = none
ready_within health (suc n) i =
    let rest = ready_within health n (suc i) in if is_ok_200 (health i) then some tt else rest

-- waitStackReady
unfoldable pub wait_stack_ready : (ℕ → Result ℕ) → Option (Unit {0})
unfolding ready_within
wait_stack_ready health = ready_within health 30 0
