-- ===== src/Locking/Listing.antt =====
-- backend/locking/locking.go: where the entries that HeldSeats returns come from.
use grab_seat.Base.{
  ℕ, zero, suc, ◌≡◌, refl, subst, inl, inr, List, [], ◌∷◌, Option, none, some, Bool-cases, All, Any,
  All-mono, ◌==◌,
}
use grab_seat.Base.Int.{ℤ}
use grab_seat.Base.Text.{Str}
use grab_seat.Base.Assoc.{insert, Unique, Unique-insert, All-insert}
use grab_seat.Model.{SeatState}
use grab_seat.Service.{Error, Result, ok, err, get, pttl, scan, Event, Prog, ret, ◌>>=◌}
use grab_seat.Service.Paths.{Ensures, Ensures-bind, Ensures-keeps}
use grab_seat.Locking.{is_nil}
use grab_seat.Locking.Keys.{hold_prefix, seat_id_from_key}
use grab_seat.Locking.Held.{
  Held, Fetched, fetch, first_error, held_state, expiry, note_key, note_keys, note_page, take_page,
  after_page, after_scan, scan_from, held_seats,
}

-- The value of a hold key that names the seat was read as `session`.
abbrev pub Names : ℤ → Str → Event → Type 0
Names seat session (get k, ok v) = (seat_id_from_key k hold_prefix ≡ some seat) × (v ≡ session)
Names seat session _ = ⊥

-- An entry is a hold of its seat whose holder was read from a key of the seat.
abbrev pub Live : List Event → ℤ × SeatState → Type 0
Live es (seat, st) =
    (st ≡ held_state seat st.held_by st.expires_at_ms) × Any (Names seat st.held_by) es

abbrev pub Faithful : List Event → Held → Type 0
Faithful es held = Unique held × All (Live es) held

abbrev Got : List Event → Fetched → Type 0
Got es (k, ok session, left) =
    (seat : ℤ) → seat_id_from_key k hold_prefix ≡ some seat → Any (Names seat session) es
Got es (k, err _, left) = Unit

Live-later : (e : Event) (es : List Event) (p : ℤ × SeatState) → Live es p → Live (e ∷ es) p
Live-later e es p (is_held, read) = (is_held, inr read)

Faithful-later :
    (e : Event) (es : List Event) (held : Held) → Faithful es held → Faithful (e ∷ es) held
Faithful-later e es held (once, live) =
    (once, All-mono (Live es) (Live (e ∷ es)) (Live-later e es) held live)

Got-later : (e : Event) (es : List Event) (f : Fetched) → Got es f → Got (e ∷ es) f
Got-later e es (k, ok session, left) h = λ seat named. inr (h seat named)
Got-later e es (k, err _, left) h = tt

Gots-later :
    (e : Event) (es : List Event) (fs : List Fetched) → All (Got es) fs → All (Got (e ∷ es)) fs
Gots-later e es fs = All-mono (Got es) (Got (e ∷ es)) (Got-later e es) fs

Got-value :
    (k : Str) (v : Result Str) (left : Result ℤ) (es : List Event)
    → Got ((get k, v) ∷ es) (k, v, left)
Got-value k (ok session) left es = λ seat named. inl (named, refl)
Got-value k (err _) left es = tt

-- The pipeline reads what it returns, and whatever more calls cannot undo stays true.
fetch-Got :
    (J : List Event → Type 0)
    → ((e : Event) (es : List Event) → J es → J (e ∷ es))
    → (keys : List Str) (es : List Event) → J es
    → Ensures (λ fs fetched. J fs × All (Got fs) fetched) es (fetch keys)
unfolding fetch
fetch-Got J later [] es h = (h, tt)
fetch-Got J later (k ∷ ks) es h = λ value left.
    Ensures-bind (λ fs rest. (J fs × Got fs (k, value, left)) × All (Got fs) rest)
      (λ fs fetched. J fs × All (Got fs) fetched) _ (fetch ks)
      (λ rest. ret ((k, value, left) ∷ rest))
      (fetch-Got (λ fs. J fs × Got fs (k, value, left))
        (λ e fs (j, g). (later e fs j, Got-later e fs (k, value, left) g)) ks _
        (
          later _ _ (later _ _ h),
          Got-later (pttl k, left) ((get k, value) ∷ es) (k, value, left)
              (Got-value k value left es),
        ))
      (λ fs rest ((j, g), gs). (j, (g, gs)))

insert-Faithful :
    (es : List Event) (seat : ℤ) (session : Str) (t : ℕ) (out : Held)
    → Faithful es out
    → Any (Names seat session) es
    → Faithful es (insert seat (held_state seat session t) out)
unfolding held_state
insert-Faithful es seat session t out (once, live) read = (
  Unique-insert seat (held_state seat session t) out once,
  All-insert (Live es) seat (held_state seat session t) out (refl, read) live,
)

note_key-Faithful :
    (name : Option ℤ) (value : Result Str) (left : Result ℤ) (out : Held) (rest : List Fetched)
    (es : List Event)
    → Faithful es out
    → ((seat : ℤ) (session : Str)
        → name ≡ some seat
        → value ≡ ok session
        → Any (Names seat session) es)
    → All (Got es) rest
    → Ensures (λ fs held. Faithful fs held × All (Got fs) rest) es (note_key name value left out)
unfolding note_key
note_key-Faithful none value left out rest es h read gs = (h, gs)
note_key-Faithful (some seat) (err e) left out rest es h read gs = (h, gs)
note_key-Faithful (some seat) (ok session) left out rest es h read gs =
    let J : List Event → Type 0 =
      λ fs. (Faithful fs out × Any (Names seat session) fs) × All (Got fs) rest in
    let Q : List Event → Held → Type 0 = λ fs held. Faithful fs held × All (Got fs) rest in
    Ensures-bind (λ fs t. J fs) Q es (expiry left)
      (λ t. ret (insert seat (held_state seat session t) out))
      (Ensures-keeps J
        (λ e fs ((a, b), c). ((Faithful-later e fs out a, inr b), Gots-later e fs rest c)) es
        (expiry left) ((h, read seat session refl refl), gs))
      (λ fs t ((a, b), c). (insert-Faithful fs seat session t out a b, c))

Got-reads :
    (es : List Event) (k : Str) (value : Result Str) (left : Result ℤ) (seat : ℤ) (session : Str)
    → Got es (k, value, left)
    → seat_id_from_key k hold_prefix ≡ some seat
    → value ≡ ok session
    → Any (Names seat session) es
Got-reads es k (ok s) left seat session g named e =
    let same : s ≡ session = cc in subst (λ z. Any (Names seat z) es) same (g seat named)
Got-reads es k (err _) left seat session g named e = cc

note_keys-Faithful :
    (fetched : List Fetched) (out : Held) (es : List Event)
    → Faithful es out
    → All (Got es) fetched
    → Ensures Faithful es (note_keys fetched out)
unfolding note_keys
note_keys-Faithful [] out es h gs = h
note_keys-Faithful ((k, value, left) ∷ rest) out es h (g, gs) =
    Ensures-bind (λ fs held. Faithful fs held × All (Got fs) rest) Faithful es
      (note_key (seat_id_from_key k hold_prefix) value left out) (note_keys rest)
      (note_key-Faithful (seat_id_from_key k hold_prefix) value left out rest es h
        (λ seat session. Got-reads es k value left seat session g) gs)
      (λ fs held (a, b). note_keys-Faithful rest held fs a b)

-- What follows the reads of a page, or of the whole scan.
abbrev FaithfulResult : List Event → Result Held → Type 0
FaithfulResult es (ok held) = Faithful es held
FaithfulResult es (err e) = Unit

abbrev pub FaithfulEnd : List Event → Option (Result Held) → Type 0
FaithfulEnd es none = Unit
FaithfulEnd es (some r) = FaithfulResult es r

finish_page :
    (fetched : List Fetched) (out : Held) (es : List Event)
    → Faithful es out
    → All (Got es) fetched
    → Ensures FaithfulResult es (note_keys fetched out >>= λ held. ret (ok held))
finish_page fetched out es h gs =
    Ensures-bind Faithful FaithfulResult es (note_keys fetched out) (λ held. ret (ok held))
      (note_keys-Faithful fetched out es h gs) (λ fs held a. a)

note_page-Faithful :
    (failed : Option Error) (fetched : List Fetched) (out : Held) (es : List Event)
    → Faithful es out
    → All (Got es) fetched
    → Ensures FaithfulResult es (note_page failed fetched out)
unfolding note_page
note_page-Faithful none fetched out es h gs = finish_page fetched out es h gs
note_page-Faithful (some e) fetched out es h gs = elim (Bool-cases (is_nil e)) [
  | inl nil ↦ rw nil (finish_page fetched out es h gs)
  | inr other ↦ rw other tt
]

take_page-Faithful :
    (keys : List Str) (out : Held) (es : List Event)
    → Faithful es out
    → Ensures FaithfulResult es (take_page keys out)
unfolding take_page
take_page-Faithful keys out es h =
    Ensures-bind (λ fs fetched. Faithful fs out × All (Got fs) fetched) FaithfulResult es
      (fetch keys) (λ fetched. note_page (first_error fetched) fetched out)
      (fetch-Got (λ fs. Faithful fs out) (λ e fs. Faithful-later e fs out) keys es h)
      (λ fs fetched (a, b). note_page-Faithful (first_error fetched) fetched out fs a b)

after_page-Faithful :
    (again : ℕ → Held → Prog (Option (Result Held)))
    → ((next : ℕ) (out : Held) (es : List Event)
        → Faithful es out
        → Ensures FaithfulEnd es (again next out))
    → (next : ℕ) (r : Result Held) (es : List Event) → FaithfulResult es r
    → Ensures FaithfulEnd es (after_page again next r)
unfolding after_page
after_page-Faithful again ih next (err e) es h = tt
after_page-Faithful again ih next (ok out) es h = elim (Bool-cases (next == 0)) [
  | inl last ↦ rw last h
  | inr more ↦ rw more (ih next out es h)
]

scan_from-Faithful :
    (fuel cursor : ℕ) (out : Held) (es : List Event)
    → Faithful es out
    → Ensures FaithfulEnd es (scan_from fuel cursor out)
unfolding scan_from after_scan
scan_from-Faithful zero cursor out es h = tt
scan_from-Faithful (suc fuel) cursor out es h = elim [
  | err e ↦ tt
  | ok (keys, next) ↦
      Ensures-bind FaithfulResult FaithfulEnd ((scan cursor hold_prefix, ok (keys, next)) ∷ es)
        (take_page keys out) (after_page (scan_from fuel) next)
        (take_page-Faithful keys out ((scan cursor hold_prefix, ok (keys, next)) ∷ es)
          (Faithful-later (scan cursor hold_prefix, ok (keys, next)) es out h))
        (λ fs r. after_page-Faithful (scan_from fuel) (scan_from-Faithful fuel) next r fs)
]

-- Whatever Redis replies, a list of holds that HeldSeats returns has each seat once, and each entry
-- is a hold whose holder was read, in this call, from a key of that seat.
pub held_seats-Faithful : (fuel : ℕ) (es : List Event) → Ensures FaithfulEnd es (held_seats fuel)
unfolding held_seats
held_seats-Faithful fuel es = scan_from-Faithful fuel 0 [] es (tt, tt)
