-- ===== src/Store/Seed/Numbering.antt =====
-- backend/store/seed.go: the positions of the seats, and what is left of a run that fails.
use grab_seat.Base.{
  ℕ, zero, suc, ◌+◌, List, [], ◌∷◌, ◌++◌, Option, none, some, ◌≡◌, refl, sym, ◌∙◌, ap, subst, ◌⊎◌,
  inl, inr, arith,
}
use grab_seat.Base.Int.{ℤ}
use grab_seat.Base.Text.{Str}
use grab_seat.Service.{Error, Result, ok, err}
use grab_seat.Store.Venue.{Event, SeatRow}
use grab_seat.Store.Seed.{
  SectionSpec, venue, demo_event, Inserted, then_insert, seat_row, insert_seat, row_loop,
  section_loop, venue_loop, Tables, Commit, commit_done, commit_refused, commit_unknown, Replies,
  commit, finish, transaction, begin, seed, seed_if_empty,
}

-- 1, 2, ... n
unfoldable pub upto : ℕ → List ℕ
upto zero = []
upto (suc n) = upto n ++ (suc n ∷ [])

abbrev pub positions : List SeatRow → List ℕ
positions [] = []
positions (r ∷ rs) = r.position ∷ positions rs

rows_of : List Str → ℕ → ℕ
rows_of [] n = 0
rows_of (row ∷ rows) n = n + rows_of rows n

-- The seats of a venue.
unfoldable pub seats_of : List SectionSpec → ℕ
unfolding rows_of
seats_of [] = 0
seats_of (sec ∷ secs) = rows_of sec.rows sec.seats_per + seats_of secs

-- Some row is refused.
abbrev pub Refused : (SeatRow → Option Error) → Type 0
Refused refuses = (r : SeatRow) × (e : Error) × (refuses r ≡ some e)

-- The seats so far stand at 1, 2, ... `n`; or some row is refused.
abbrev pub Numbered : (SeatRow → Option Error) → ℕ → Result Inserted → Type 0
Numbered refuses n (err e) = Refused refuses
Numbered refuses n (ok (pos, out)) = (pos ≡ n) × (positions out ≡ upto pos)

positions-append :
    (xs : List SeatRow) (r : SeatRow)
    → positions (xs ++ (r ∷ [])) ≡ positions xs ++ (r.position ∷ [])
positions-append [] r = refl
positions-append (x ∷ xs) r = ap (◌∷◌ x.position) (positions-append xs r)

then-Numbered :
    (refuses : SeatRow → Option Error) (m n : ℕ) (r : Result Inserted)
    (f : ℕ → List SeatRow → Result Inserted)
    → Numbered refuses m r
    → ((out : List SeatRow) → positions out ≡ upto m → Numbered refuses n (f m out))
    → Numbered refuses n (then_insert r f)
then-Numbered refuses m n (err e) f h g = h
then-Numbered refuses m n (ok (pos, out)) f (same, h) g =
    subst (λ z. Numbered refuses n (f z out)) (sym same)
      (g out (subst (λ z. positions out ≡ upto z) same h))

plus : (a b : ℕ) → suc a + b ≡ a + suc b
plus a b = omega arith

plus_assoc : (a b c : ℕ) → a + b + c ≡ a + (b + c)
plus_assoc a b c = omega arith

module _ (refuses : SeatRow → Option Error) (event : ℤ) where
  insert-Numbered :
      (r : SeatRow) (refused : Option Error) (pos : ℕ) (out : List SeatRow)
      → refuses r ≡ refused
      → r.position ≡ suc pos
      → positions out ≡ upto pos
      → Numbered refuses (suc pos) (insert_seat refuses event r refused out)
  unfolding insert_seat upto
  insert-Numbered r (some e) pos out says at h = (r, e, says)
  insert-Numbered r none pos out says at h = (
    at,
    positions-append out r
        ∙ (ap (λ z. z ++ (r.position ∷ [])) h
            ∙ (ap (λ z. upto pos ++ (z ∷ [])) at ∙ ap upto (sym at))),
  )

  row-Numbered :
      (sec : SectionSpec) (row : Str) (left n pos : ℕ) (out : List SeatRow)
      → positions out ≡ upto pos
      → Numbered refuses (pos + left) (row_loop refuses event sec row left n pos out)
  unfolding row_loop
  row-Numbered sec row zero n pos out h = (omega arith, h)
  row-Numbered sec row (suc left) n pos out h =
      let r = seat_row refuses event sec row n (suc pos) in
      then-Numbered refuses (suc pos) (pos + suc left) (insert_seat refuses event r (refuses r) out)
        (row_loop refuses event sec row left (suc n))
        (insert-Numbered r (refuses r) pos out refl refl h)
        (λ out' h'.
          subst
            (λ z. Numbered refuses z (row_loop refuses event sec row left (suc n) (suc pos) out'))
            (plus pos left) (row-Numbered sec row left (suc n) (suc pos) out' h'))

  section-Numbered :
      (sec : SectionSpec) (rows : List Str) (pos : ℕ) (out : List SeatRow)
      → positions out ≡ upto pos
      → Numbered refuses
          (pos + rows_of rows sec.seats_per)
          (section_loop refuses event sec rows pos out)
  unfolding section_loop rows_of
  section-Numbered sec [] pos out h = (omega arith, h)
  section-Numbered sec (row ∷ rows) pos out h =
      then-Numbered refuses (pos + sec.seats_per)
        (pos + (sec.seats_per + rows_of rows sec.seats_per))
        (row_loop refuses event sec row sec.seats_per 1 pos out)
        (section_loop refuses event sec rows) (row-Numbered sec row sec.seats_per 1 pos out h)
        (λ out' h'.
          subst
            (λ z.
              Numbered refuses z (section_loop refuses event sec rows (pos + sec.seats_per) out'))
            (plus_assoc pos sec.seats_per (rows_of rows sec.seats_per))
            (section-Numbered sec rows (pos + sec.seats_per) out' h'))

  venue-Numbered :
      (secs : List SectionSpec) (pos : ℕ) (out : List SeatRow)
      → positions out ≡ upto pos
      → Numbered refuses (pos + seats_of secs) (venue_loop refuses event secs pos out)
  unfolding venue_loop seats_of
  venue-Numbered [] pos out h = (omega arith, h)
  venue-Numbered (sec ∷ secs) pos out h =
      then-Numbered refuses (pos + rows_of sec.rows sec.seats_per)
        (pos + (rows_of sec.rows sec.seats_per + seats_of secs))
        (section_loop refuses event sec sec.rows pos out) (venue_loop refuses event secs)
        (section-Numbered sec sec.rows pos out h)
        (λ out' h'.
          subst
            (λ z.
              Numbered refuses z
                (venue_loop refuses event secs (pos + rows_of sec.rows sec.seats_per) out'))
            (plus_assoc pos (rows_of sec.rows sec.seats_per) (seats_of secs))
            (venue-Numbered secs (pos + rows_of sec.rows sec.seats_per) out' h'))

nothing_yet : positions [] ≡ upto 0
unfolding upto
nothing_yet = refl

venue_size : seats_of venue ≡ 320
unfolding seats_of rows_of
venue_size = refl

-- The whole venue.
pub house-Numbered :
    (r : Replies) (event : ℤ) → Numbered r.refuses 320 (venue_loop r.refuses event venue 0 [])
house-Numbered r event =
    subst (λ z. Numbered r.refuses z (venue_loop r.refuses event venue 0 []))
      (omega (arith, venue_size)) (venue-Numbered r.refuses event venue 0 [] nothing_yet)

-- Postgres refuses a statement.
abbrev pub Refusal : Replies → Type 0
Refusal r =
    ((e : Error) × (r.counted ≡ some e))
    ⊎ ((e : Error) × (r.began ≡ some e))
    ⊎ ((e : Error) × (r.event_id ≡ err e))
    ⊎ Refused r.refuses
    ⊎ ((e : Error) × (r.committed ≡ commit_refused e))

-- What SeedIfEmpty returns when its transaction is committed: the event's id, or the error of an
-- acknowledgement that was lost.
abbrev pub Acknowledged : Replies → ℤ → Result ℤ → Type 0
Acknowledged r event result =
    (result ≡ ok event) ⊎ ((e : Error) × (r.committed ≡ commit_unknown e) × (result ≡ err e))

-- Either nothing changed, for there is an event or a statement is refused; or the tables had no event
-- and now have one, with 320 seats more, which stand at 1, 2, ... 320.
abbrev pub Seeded : Replies → Tables → Result ℤ × Tables → Type 0
Seeded r t (result, t') =
    ((t' ≡ t)
      × (((event : Event) × (events : List Event) × (t.events ≡ event ∷ events)) ⊎ Refusal r))
    ⊎ ((event : ℤ) × (seats : List SeatRow) × (t.events ≡ [])
        × Acknowledged r event result
        × (t' ≡ record { events = demo_event event r.clock ∷ []; seats = t.seats ++ seats })
        × (positions seats ≡ upto 320))

commit-Seeded :
    (r : Replies) (t : Tables) (event : ℤ) (committed : Commit) (out : List SeatRow)
    → r.committed ≡ committed
    → t.events ≡ []
    → positions out ≡ upto 320
    → Seeded r t (commit t (demo_event event r.clock) committed out)
unfolding commit
commit-Seeded r t event (commit_refused e) out says no_event h =
    inl (refl, inr (inr (inr (inr (inr (e, says))))))
commit-Seeded r t event (commit_unknown e) out says no_event h =
    inr (event, out, no_event, inr (e, says, refl), rw no_event refl, h)
commit-Seeded r t event commit_done out says no_event h =
    inr (event, out, no_event, inl refl, rw no_event refl, h)

finish-Seeded :
    (r : Replies) (t : Tables) (event : ℤ) (res : Result Inserted)
    → t.events ≡ []
    → Numbered r.refuses 320 res
    → Seeded r t (finish r t (demo_event event r.clock) res)
unfolding finish
finish-Seeded r t event (err e) no_event h = inl (refl, inr (inr (inr (inr (inl h)))))
finish-Seeded r t event (ok (pos, out)) no_event (all, h) =
    commit-Seeded r t event r.committed out refl no_event (h ∙ ap upto all)

transaction-Seeded :
    (r : Replies) (t : Tables) (event : Result ℤ)
    → r.event_id ≡ event
    → t.events ≡ []
    → Seeded r t (transaction r t event)
unfolding transaction
transaction-Seeded r t (err e) says no_event = inl (refl, inr (inr (inr (inl (e, says)))))
transaction-Seeded r t (ok event) says no_event =
    finish-Seeded r t event (venue_loop r.refuses event venue 0 []) no_event
      (house-Numbered r event)

begin-Seeded :
    (r : Replies) (t : Tables) (began : Option Error)
    → r.began ≡ began
    → t.events ≡ []
    → Seeded r t (begin r t began)
unfolding begin
begin-Seeded r t (some e) says no_event = inl (refl, inr (inr (inl (e, says))))
begin-Seeded r t none says no_event = transaction-Seeded r t r.event_id refl no_event

seed-Seeded :
    (r : Replies) (t : Tables) (counted : Option Error) (events : List Event)
    → r.counted ≡ counted
    → t.events ≡ events
    → Seeded r t (seed r t counted events)
unfolding seed
seed-Seeded r t (some e) events says same = inl (refl, inr (inl (e, says)))
seed-Seeded r t none (event ∷ events) says same = inl (refl, inl (event, events, same))
seed-Seeded r t none [] says same = begin-Seeded r t r.began refl same

-- SeedIfEmpty does all or nothing: either the tables are as before, and there was an event or
-- Postgres refuses a statement; or there was no event and now there is the demo event, with 320 seats
-- more, at the positions 1, 2, ... 320, and its id is returned unless the commit's acknowledgement is
-- lost.
pub seed_if_empty-Seeded : (r : Replies) (t : Tables) → Seeded r t (seed_if_empty r t)
unfolding seed_if_empty
seed_if_empty-Seeded r t = seed-Seeded r t r.counted t.events refl refl
