-- ===== src/Store/Seed/Primary.antt =====
-- backend/store/seed.go with backend/store/store.go: the event that SeedIfEmpty returns is the one that
-- PrimaryEvent finds after it.
use grab_seat.Base.{List, [], ◌∷◌, Option, none, some, ◌≡◌, refl, ap, ◌⊎◌, inl, inr}
use grab_seat.Base.Int.{ℤ}
use grab_seat.Service.{Error, Result, ok, err}
use grab_seat.Store.Venue.{Event, SeatRow, primary_query, primary_event}
use grab_seat.Store.Seed.{
  demo_event, Inserted, Tables, Commit, commit_done, commit_refused, commit_unknown, Replies,
  commit, finish, transaction, begin, id_of, seed, seed_if_empty,
}
use grab_seat.Store.Seed.Numbering.{Refusal, Numbered, house-Numbered}

-- The id is that of the first event of the tables.
abbrev pub IsPrimary : Tables → ℤ → Type 0
IsPrimary t id = (event : Event) × (primary_query t.events ≡ some event) × (event.id ≡ id)

-- An error is a statement's, or the commit's whose acknowledgement is lost; otherwise the id is that of the first event.
abbrev pub Named : Replies → Result ℤ × Tables → Type 0
Named r (err e, t) =
    ((e : Error) × (r.primary ≡ some e))
    ⊎ ((e : Error) × (r.committed ≡ commit_unknown e))
    ⊎ Refusal r
Named r (ok id, t) = IsPrimary t id

commit-Named :
    (r : Replies) (t : Tables) (event : Event) (committed : Commit) (out : List SeatRow)
    → r.committed ≡ committed
    → t.events ≡ []
    → Named r (commit t event committed out)
unfolding commit primary_query
commit-Named r t event (commit_refused e) out says no_event =
    inr (inr (inr (inr (inr (inr (e, says))))))
commit-Named r t event (commit_unknown e) out says no_event = inr (inl (e, says))
commit-Named r t event commit_done out says no_event = (event, rw no_event refl, refl)

finish-Named :
    (r : Replies) (t : Tables) (event : Event) (res : Result Inserted)
    → t.events ≡ []
    → Numbered r.refuses 320 res
    → Named r (finish r t event res)
unfolding finish
finish-Named r t event (err e) no_event h = inr (inr (inr (inr (inr (inl h)))))
finish-Named r t event (ok (pos, out)) no_event h =
    commit-Named r t event r.committed out refl no_event

transaction-Named :
    (r : Replies) (t : Tables) (id : Result ℤ)
    → r.event_id ≡ id
    → t.events ≡ []
    → Named r (transaction r t id)
unfolding transaction
transaction-Named r t (err e) says no_event = inr (inr (inr (inr (inl (e, says)))))
transaction-Named r t (ok id) says no_event =
    finish-Named r t (demo_event id r.clock) _ no_event (house-Numbered r id)

begin-Named :
    (r : Replies) (t : Tables) (began : Option Error)
    → r.began ≡ began
    → t.events ≡ []
    → Named r (begin r t began)
unfolding begin
begin-Named r t (some e) says no_event = inr (inr (inr (inl (e, says))))
begin-Named r t none says no_event = transaction-Named r t r.event_id refl no_event

existing-Named :
    (r : Replies) (t : Tables) (primary : Option Error) (event : Event) (events : List Event)
    → r.primary ≡ primary
    → t.events ≡ event ∷ events
    → Named r (id_of (primary_event primary (event ∷ events)), t)
unfolding primary_event id_of primary_query
existing-Named r t (some e) event events says same = inl (e, says)
existing-Named r t none event events says same = (_, ap primary_query same, refl)

seed-Named :
    (r : Replies) (t : Tables) (counted : Option Error) (events : List Event)
    → r.counted ≡ counted
    → t.events ≡ events
    → Named r (seed r t counted events)
unfolding seed
seed-Named r t (some e) events says same = inr (inr (inl (e, says)))
seed-Named r t none (event ∷ events) says same = existing-Named r t r.primary event events refl same
seed-Named r t none [] says same = begin-Named r t r.began refl same

-- SeedIfEmpty fails only if Postgres refuses a statement or the commit's acknowledgement is lost; otherwise it returns the id of the event
-- that comes first in the tables after it.
pub seed_if_empty-Named : (r : Replies) (t : Tables) → Named r (seed_if_empty r t)
unfolding seed_if_empty
seed_if_empty-Named r t = seed-Named r t r.counted t.events refl refl
