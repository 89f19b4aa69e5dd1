-- ===== src/Main/Startup.antt =====
-- backend/main.go: connectStore and rehydrateBooked. pgxpool's connection is a parameter.
use grab_seat.Base.{
  ℕ, zero, suc, ◌+◌, ◌<◌, Bool, true, false, List, [], ◌∷◌, Option, none, some, ◌≡◌, refl, sym, ◌∙◌,
  subst, inl, inr, Bool-cases, arith,
}
use grab_seat.Base.Int.{ℤ, int_eq, int_eq→eq, int_eq→ne}
use grab_seat.Base.Text.{Str, str_eq_refl}
use grab_seat.Base.Assoc.{lookup, insert, Unique, Fresh, Unique-insert}
use grab_seat.Service.{Error, Result, ok, err, set, Prog, ret, ◌>>=◌}
use grab_seat.Service.Backends.{Redis, Postgres}
use grab_seat.Locking.{rehydrate_booked, set_all}
use grab_seat.Locking.Keys.{booked_key, booked_keys_apart}
use grab_seat.Locking.Script.{hold_script}
use grab_seat.Locking.Laws.{hold_script_sold}
use grab_seat.Locking.Keys.{hold_key, hold_booked}
use grab_seat.Store.{booked_seats, collect}
use grab_seat.Store.Table.{booked_query}
use grab_seat.World.{World, Link, delivered, exec, run}

-- What one round of connectStore meets: the result of store.New, and whether the context is done
-- when it has waited two seconds after a failure.
pub record Attempt (S : Type 0) : Type 0 where
  pub outcome : Result S
  pub cancelled : Bool

-- What connectStore returns; `exhausted` is the last error after all its rounds.
pub data Connection (S : Type 0) : Type 0 where
  linked : S → Connection S
  cancelled : Connection S
  exhausted : Option Error → Connection S

zero_plus : (i : ℕ) → 0 + i ≡ i
zero_plus i = omega arith

plus_zero : (i : ℕ) → i + 0 ≡ i
plus_zero i = omega arith

plus_suc : (i j : ℕ) → i + suc j ≡ suc i + j
plus_suc i j = omega arith

module _ {S : Type 0} where
  unfoldable pub after_attempt : (Option Error → Connection S) → Bool → Result S → Connection S
  after_attempt again stop (ok st) = linked st
  after_attempt again true (err e) = cancelled
  after_attempt again false (err e) = again (some e)

  -- The rounds that are left, from round `i`.
  unfoldable pub rounds : (ℕ → Attempt S) → ℕ → Option Error → ℕ → Connection S
  unfolding after_attempt
  rounds attempt zero last i = exhausted last
  rounds attempt (suc n) last i =
      after_attempt (λ e. rounds attempt n e (suc i)) (attempt i).cancelled (attempt i).outcome

  -- connectStore
  unfoldable pub connect_store : (ℕ → Attempt S) → Connection S
  unfolding rounds
  connect_store attempt = rounds attempt 15 none 0

  abbrev pub Failed : Attempt S → Type 0
  Failed a = ((e : Error) × (a.outcome ≡ err e)) × (a.cancelled ≡ false)

  -- The connection of the first round, at most `n` from here, that does not fail.
  rounds_lem :
      (attempt : ℕ → Attempt S) (d n i : ℕ) (last : Option Error) (st : S)
      → d < n
      → ((j : ℕ) → j < d → Failed (attempt (i + j)))
      → (attempt (i + d)).outcome ≡ ok st
      → rounds attempt n last i ≡ linked st
  unfolding rounds after_attempt
  rounds_lem attempt d zero i last st few failed works = absurd (omega (arith, few))
  rounds_lem attempt zero (suc n) i last st few failed works =
      let here : (attempt i).outcome ≡ ok st =
        subst (λ z. (attempt z).outcome ≡ ok st) (omega arith) works in
      rw here refl
  rounds_lem attempt (suc d) (suc n) i last st few failed works =
      let ((e, is_err), goes_on) =
        subst (λ z. Failed (attempt z)) (plus_zero i) (failed 0 (omega arith)) in
      rw (is_err, goes_on)
        (rounds_lem attempt d n (suc i) (some e) st (omega (arith, few))
          (λ j less.
            subst (λ z. Failed (attempt z)) (plus_suc i j) (failed (suc j) (omega (arith, less))))
          (subst (λ z. (attempt z).outcome ≡ ok st) (plus_suc i d) works))

  -- connectStore returns the connection of the first of its fifteen rounds that does not fail.
  pub connect_store_lem :
      (attempt : ℕ → Attempt S) (i : ℕ) (st : S)
      → i < 15
      → ((j : ℕ) → j < i → Failed (attempt j))
      → (attempt i).outcome ≡ ok st
      → connect_store attempt ≡ linked st
  unfolding connect_store
  connect_store_lem attempt i st few failed works =
      rounds_lem attempt i 15 0 none st few
        (λ j less. subst (λ z. Failed (attempt z)) (sym (zero_plus j)) (failed j less))
        (subst (λ z. (attempt z).outcome ≡ ok st) (sym (zero_plus i)) works)

-- rehydrateBooked; its result is only logged.
unfoldable pub after_listing : Result (List (ℤ × Str)) → Prog (Result (Unit {0}))
after_listing (ok booked) = rehydrate_booked booked
after_listing (err e) = ret (err e)

unfoldable pub rehydrate : ℤ → Prog (Result (Unit {0}))
unfolding after_listing
rehydrate event = booked_seats event >>= after_listing

pub collect-Unique : (rows out : List (ℤ × Str)) → Unique out → Unique (collect rows out)
unfolding collect
collect-Unique [] out h = h
collect-Unique ((id, session) ∷ rows) out h =
    collect-Unique rows (insert id session out) (Unique-insert id session out h)

same_if :
    (k seat : ℤ) (session : Str) (l : List (ℤ × Str))
    → int_eq k seat ≡ true
    → lookup seat ((k, session) ∷ l) ≡ some session
unfolding lookup
same_if k seat session l same = rw same refl

other_if :
    (k seat : ℤ) (session : Str) (l : List (ℤ × Str))
    → int_eq k seat ≡ false
    → lookup seat ((k, session) ∷ l) ≡ lookup seat l
unfolding lookup
other_if k seat session l other = rw other refl

module _ (R : Redis) (P : Postgres) where
  abbrev up : ℕ → Link
  up n = delivered

  marked : List (ℤ × Str) → Result (Unit {0}) → World R P → World R P
  marked l first w = (run R P up (set_all l first) w).1

  stays_marked :
      (l : List (ℤ × Str)) (first : Result (Unit {0})) (w : World R P) (seat : ℤ) {v : Str}
      → Fresh seat l
      → R.find w.redis (booked_key seat) ≡ some v
      → R.find (marked l first w).redis (booked_key seat) ≡ some v
  unfolding marked run set_all exec
  stays_marked [] first w seat fresh h = h
  stays_marked ((k, session) ∷ l) first w seat (other, fresh) h =
      stays_marked l _ (exec R P (set (booked_key k) session) delivered w).1 seat fresh (
        rw
          (
            R.find-put (booked_key k) session w.redis (booked_key seat),
            booked_keys_apart k seat (int_eq→ne k seat other),
          )
          h)

  marks :
      (l : List (ℤ × Str)) (first : Result (Unit {0})) (w : World R P) (seat : ℤ) {v : Str}
      → Unique l
      → lookup seat l ≡ some v
      → R.find (marked l first w).redis (booked_key seat) ≡ some v
  unfolding marked run set_all exec lookup
  marks [] first w seat unique h = absurd cc
  marks ((k, session) ∷ l) first w seat {v} (fresh, unique) h =
      let w' : World R P = (exec R P (set (booked_key k) session) delivered w).1 in
      elim (Bool-cases (int_eq k seat)) [
        | inl same ↦
            let is_seat : k ≡ seat = int_eq→eq k seat same in
            let found : some session ≡ some v = sym (same_if k seat session l same) ∙ h in
            stays_marked l _ w' seat (subst (λ z. Fresh z l) is_seat fresh) (
              R.find-put (booked_key k) session w.redis (booked_key seat)
              ∙ (rw (is_seat, str_eq_refl (booked_key seat)) found))
        | inr other ↦ marks l _ w' seat unique (sym (other_if k seat session l other) ∙ h)
      ]

  -- When Redis and Postgres answer, then after rehydrateBooked every seat that the event's bookings
  -- list is refused by the hold script as booked, whatever Redis had kept before, to any session.
  pub rehydrate_marks :
      (event seat : ℤ) (w : World R P) (session : Str) (seconds : ℕ) {v : Str}
      → lookup seat (collect (booked_query event (P.rows w.db)) []) ≡ some v
      → let s = (run R P up (rehydrate event) w).1.redis in
        hold_script R (hold_key seat) (booked_key seat) session seconds s ≡ (hold_booked, s)
  unfolding rehydrate booked_seats run exec rehydrate_booked marked
  rehydrate_marks event seat w session seconds h =
      hold_script_sold R (hold_key seat) (booked_key seat) session seconds _ (
        marks (collect (booked_query event (P.rows w.db)) []) (ok tt) w seat
          (collect-Unique (booked_query event (P.rows w.db)) [] tt) h)
