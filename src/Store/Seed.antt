-- ===== src/Store/Seed.antt =====
-- backend/store/seed.go: SeedIfEmpty, which fills the tables of events and seats at the first start.
-- Postgres may refuse any statement. The statements of a transaction that does not commit have no
-- effect. An error's text leaves out which seat it is about.
pub mod Numbering
pub mod Primary
use grab_seat.Base.{
  ◌^◌, ℕ, zero, suc, ◌+◌, ◌*◌, List, [], ◌∷◌, ◌++◌, Option, none, some, ◌≡◌, refl, ◌∙◌, ap, ◌⊎◌,
  inl, inr, map, arith,
}
use grab_seat.Base.Int.{ℤ}
use grab_seat.Base.Text.{Str, codes}
use grab_seat.Service.{Error, wrapped, Result, ok, err}
use grab_seat.Store.Venue.{Event, SeatRow, primary_event}

pub record SectionSpec : Type 0 where
  pub name : Str
  pub rows : List Str
  pub seats_per : ℕ
  pub price_cents : ℕ

abbrev pub venue : List SectionSpec
venue =
    record {
      name = codes "Pit";
      rows = codes "A" ∷ codes "B" ∷ [];
      seats_per = 12;
      price_cents = 18000;
    }
    ∷ record {
      name = codes "Orchestra";
      rows = codes "A" ∷ codes "B" ∷ codes "C" ∷ codes "D" ∷ codes "E" ∷ codes "F" ∷ [];
      seats_per = 18;
      price_cents = 12500;
    }
    ∷ record {
      name = codes "Mezzanine";
      rows = codes "A" ∷ codes "B" ∷ codes "C" ∷ codes "D" ∷ codes "E" ∷ [];
      seats_per = 20;
      price_cents = 8500;
    }
    ∷ record {
      name = codes "Balcony";
      rows = codes "A" ∷ codes "B" ∷ codes "C" ∷ codes "D" ∷ [];
      seats_per = 22;
      price_cents = 5500;
    }
    ∷ []

-- `pos`, and the seats inserted so far.
abbrev pub Inserted : Type 0
Inserted = ℕ × List SeatRow

abbrev then_insert : Result Inserted → (ℕ → List SeatRow → Result Inserted) → Result Inserted
then_insert (err e) f = err e
then_insert (ok (pos, out)) f = f pos out

module _ (refuses : SeatRow → Option Error) (event : ℤ) where
  abbrev seat_row : SectionSpec → Str → ℕ → ℕ → SeatRow
  seat_row sec row n pos = record {
    event_id = event;
    section = sec.name;
    row_label = row;
    seat_number = n;
    price_cents = sec.price_cents;
    position = pos;
  }

  insert_seat : SeatRow → Option Error → List SeatRow → Result Inserted
  insert_seat r none out = ok (r.position, out ++ (r ∷ []))
  insert_seat r (some e) out = err (wrapped (codes "seed seat") e)

  -- for n := 1; n <= sec.seatsPer; n++, with the rounds that are left
  unfoldable pub row_loop : SectionSpec → Str → ℕ → ℕ → ℕ → List SeatRow → Result Inserted
  unfolding insert_seat
  row_loop sec row zero n pos out = ok (pos, out)
  row_loop sec row (suc left) n pos out =
      let r = seat_row sec row n (suc pos) in
      then_insert (insert_seat r (refuses r) out) (row_loop sec row left (suc n))

  unfoldable pub section_loop : SectionSpec → List Str → ℕ → List SeatRow → Result Inserted
  unfolding row_loop
  section_loop sec [] pos out = ok (pos, out)
  section_loop sec (row ∷ rows) pos out =
      then_insert (row_loop sec row sec.seats_per 1 pos out) (section_loop sec rows)

  unfoldable pub venue_loop : List SectionSpec → ℕ → List SeatRow → Result Inserted
  unfolding section_loop
  venue_loop [] pos out = ok (pos, out)
  venue_loop (sec ∷ secs) pos out =
      then_insert (section_loop sec sec.rows pos out) (venue_loop secs)

-- The event that SeedIfEmpty inserts, with the id that Postgres gives it. The name has a long dash.
abbrev pub demo_event : ℤ → ℕ → Event
demo_event id clock = record {
  id = id;
  slug = codes "aurora-live";
  name = codes "Aurora " ++ (226 ∷ 128 ∷ 148 ∷ codes " Live in Concert");
  venue = codes "GrabSeat Arena";
  starts_at = clock + 21 * 24 * 3600 * 10 ^ 9;
}

-- The two tables.
pub record Tables : Type 0 where
  pub events : List Event
  pub seats : List SeatRow

-- What comes of tx.Commit: it is done, refused, or done with its acknowledgement lost, which the
-- code cannot tell from a refusal.
pub data Commit : Type 0 where
  commit_done : Commit
  commit_refused : Error → Commit
  commit_unknown : Error → Commit

-- What Postgres replies to one run of SeedIfEmpty, and the time.
pub record Replies : Type 0 where
  pub counted : Option Error
  pub primary : Option Error
  pub began : Option Error
  pub clock : ℕ
  pub event_id : Result ℤ
  pub refuses : SeatRow → Option Error
  pub committed : Commit

abbrev committed_tables : Tables → Event → List SeatRow → Tables
committed_tables t event out = record { events = t.events ++ (event ∷ []); seats = t.seats ++ out }

commit : Tables → Event → Commit → List SeatRow → Result ℤ × Tables
commit t event (commit_refused e) out = (err e, t)
commit t event (commit_unknown e) out = (err e, committed_tables t event out)
commit t event commit_done out = (ok event.id, committed_tables t event out)

finish : Replies → Tables → Event → Result Inserted → Result ℤ × Tables
unfolding commit
finish r t event (err e) = (err e, t)
finish r t event (ok (pos, out)) = commit t event r.committed out

transaction : Replies → Tables → Result ℤ → Result ℤ × Tables
unfolding finish venue_loop
transaction r t (err e) = (err (wrapped (codes "seed event") e), t)
transaction r t (ok event) =
    finish r t (demo_event event r.clock) (venue_loop r.refuses event venue 0 [])

begin : Replies → Tables → Option Error → Result ℤ × Tables
unfolding transaction
begin r t (some e) = (err e, t)
begin r t none = transaction r t r.event_id

id_of : Result Event → Result ℤ
id_of (err e) = err e
id_of (ok event) = ok event.id

seed : Replies → Tables → Option Error → List Event → Result ℤ × Tables
unfolding begin id_of
seed r t (some e) events = (err e, t)
seed r t none (event ∷ events) = (id_of (primary_event r.primary (event ∷ events)), t)
seed r t none [] = begin r t r.began

-- SeedIfEmpty: the id of the event, and the tables after it.
unfoldable pub seed_if_empty : Replies → Tables → Result ℤ × Tables
unfolding seed
seed_if_empty r t = seed r t r.counted t.events
