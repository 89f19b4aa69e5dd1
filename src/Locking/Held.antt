-- ===== src/Locking/Held.antt =====
-- backend/locking/locking.go: HeldSeats, the holds as Redis has them now. A page of SCAN comes with
-- a cursor for the next, and 0 ends the scan; the number of pages is Redis's choice, so the loop
-- runs on fuel and `none` is fuel that ran out. `more_pages` of Locking.Pages measures what is enough.
use grab_seat.Base.{
  ℕ, zero, suc, ◌+◌, ◌*◌, ◌/◌, List, [], ◌∷◌, Option, none, some, ◌==◌, if◌then◌else◌,
}
use grab_seat.Base.Int.{ℤ, pos}
use grab_seat.Base.Text.{Str}
use grab_seat.Base.Assoc.{insert}
use grab_seat.Model.{SeatState, status_held}
use grab_seat.Service.{Error, Result, ok, err, get, pttl, scan, now, Prog, ret, call, ask, ◌>>=◌}
use grab_seat.Locking.{millisecond, is_nil}
use grab_seat.Locking.Keys.{hold_prefix, seat_id_from_key}

-- A map from seats to their states.
abbrev pub Held : Type 0
Held = List (ℤ × SeatState)

-- A key with what the pipeline read of it: its value, and its time left in milliseconds.
abbrev pub Fetched : Type 0
Fetched = Str × Result Str × Result ℤ

-- The pipeline: GET and PTTL of each key.
unfoldable pub fetch : List Str → Prog (List Fetched)
fetch [] = ret []
fetch (k ∷ ks) = do
  value ← ask (get k)
  left ← ask (pttl k)
  rest ← fetch ks
  ret ((k, value, left) ∷ rest)

or_error : {A : Type 0} → Result A → Option Error → Option Error
or_error (ok _) later = later
or_error (err e) later = some e

-- The error of the pipeline is that of its first command that failed.
pub first_error : List Fetched → Option Error
unfolding or_error
first_error [] = none
first_error ((k, value, left) ∷ rest) = or_error value (or_error left (first_error rest))

unfoldable pub held_state : ℤ → Str → ℕ → SeatState
held_state seat session expires = record {
  seat_id = seat;
  status = status_held;
  held_by = session;
  booked_by = [];
  expires_at_ms = expires;
}

-- The time when a hold runs out, or 0 if it has no time left.
unfoldable pub expiry : Result ℤ → Prog ℕ
expiry (ok (pos (suc d))) = call now (λ t. ret ((t + suc d * millisecond) / millisecond))
expiry _ = ret 0

-- One key of a page: it is skipped if it names no seat, or has run out since the scan.
unfoldable pub note_key : Option ℤ → Result Str → Result ℤ → Held → Prog Held
unfolding expiry held_state
note_key (some seat) (ok session) left out = do
  expires ← expiry left
  ret (insert seat (held_state seat session expires) out)
note_key _ _ _ out = ret out

unfoldable pub note_keys : List Fetched → Held → Prog Held
unfolding note_key
note_keys [] out = ret out
note_keys ((k, value, left) ∷ rest) out =
    note_key (seat_id_from_key k hold_prefix) value left out >>= note_keys rest

unfoldable pub note_page : Option Error → List Fetched → Held → Prog (Result Held)
unfolding note_keys
note_page (some e) fetched out =
    if is_nil e then (note_keys fetched out >>= λ held. ret (ok held)) else ret (err e)
note_page none fetched out = note_keys fetched out >>= λ held. ret (ok held)

-- The keys of one page.
unfoldable pub take_page : List Str → Held → Prog (Result Held)
unfolding fetch first_error note_page
take_page keys out = fetch keys >>= λ fetched. note_page (first_error fetched) fetched out

-- What follows a page: the next one, `again`, unless its cursor is 0.
unfoldable pub after_page :
    (ℕ → Held → Prog (Option (Result Held))) → ℕ → Result Held → Prog (Option (Result Held))
after_page again next (err e) = ret (some (err e))
after_page again next (ok out) = if next == 0 then ret (some (ok out)) else again next out

unfoldable pub after_scan :
    (ℕ → Held → Prog (Option (Result Held)))
    → Held
    → Result (List Str × ℕ)
    → Prog (Option (Result Held))
unfolding take_page after_page
after_scan again out (err e) = ret (some (err e))
after_scan again out (ok (keys, next)) = take_page keys out >>= after_page again next

-- The loop, from a cursor.
unfoldable pub scan_from : ℕ → ℕ → Held → Prog (Option (Result Held))
scan_from zero cursor out = ret none
scan_from (suc fuel) cursor out = call (scan cursor hold_prefix) (after_scan (scan_from fuel) out)

-- HeldSeats
unfoldable pub held_seats : ℕ → Prog (Option (Result Held))
unfolding scan_from
held_seats fuel = scan_from fuel 0 []
