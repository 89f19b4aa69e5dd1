-- ===== src/Main/Boot/Ready.antt =====
-- backend/main.go: what holds when the process begins to serve, and what alone can stop it before.
use mathlib.Core.List.{Perm}
use grab_seat.Base.{
  ◌≡◌, ◌≢◌, refl, sym, ◌∙◌, ap, subst, ◌⊎◌, List, [], ◌∷◌, map, Option, none, some,
}
use grab_seat.Base.Int.{ℤ}
use grab_seat.Base.Text.{Str, codes, str_eq}
use grab_seat.Model.{Seat}
use grab_seat.Service.{Error, Result, ok, err}
use grab_seat.Config.{Config, load}
use grab_seat.Observability.{init_tracer}
use grab_seat.Store.Venue.{
  Event, one_event, primary_event, Stored, numbered, seats_of_event, seat_of, seats,
}
use grab_seat.Store.Venue.Order.{Ascending, Fails, Listed, seats-Listed}
use grab_seat.Store.Seed.{Tables, seed_if_empty}
use grab_seat.Store.Seed.{commit_unknown}
use grab_seat.Store.Seed.Numbering.{Refusal}
use grab_seat.Store.Seed.Primary.{IsPrimary, Named, seed_if_empty-Named}
use grab_seat.Main.Startup.{Connection, linked, cancelled, exhausted, connect_store}
use grab_seat.Main.Boot.{
  Surroundings, Running, Boot, exited, goes_on, ◌>>=◌, or_exit, unless_error, connected,
  instance_of, running, open_store, boot,
}

-- What alone can stop main: the settings, the tracer, no connection to Postgres, or an error of
-- Postgres.
pub data Excuse (g : Surroundings) : Type 0 where
  bad_settings : (e : Error) → (load g.env).1 ≡ some e → Excuse g
  no_tracer :
      (e : Error)
      → init_tracer (load g.env).0.otel_exporter g.exporter g.resource ≡ err e
      → Excuse g
  no_connection : connect_store g.attempts ≢ linked tt → Excuse g
  no_schema : (e : Error) → g.migrated ≡ some e → Excuse g
  no_seed :
      ((e : Error) × (g.seeding.primary ≡ some e))
        ⊎ ((e : Error) × (g.seeding.committed ≡ commit_unknown e))
        ⊎ Refusal g.seeding
      → Excuse g
  no_event : (e : Error) → g.primary ≡ some e → Excuse g
  no_seats : (e : Error) → Fails g.listing e → Excuse g

-- The rows of an event in the tables, with their ids.
abbrev pub rows_of_event : Surroundings → ℤ → Tables → List Stored
rows_of_event g event t = seats_of_event event (numbered g.serial 0 t.seats)

-- The seats are exactly the rows of the event, in the order of their positions.
abbrev pub Lists : Surroundings → Running → Type 0
Lists g st =
    (ss : List Stored) × (st.seats ≡ map seat_of ss)
    × Ascending ss
    × Perm ss (rows_of_event g st.event_id st.tables)

-- The settings are the ones that Load accepted, the instance has a name, the event that clients see
-- is the one whose seats are sold, and the seats are those of that event.
abbrev pub Fit : Surroundings → Running → Type 0
Fit g st =
    (load g.env ≡ (st.config, none))
    × (st.instance_id ≢ [])
    × (st.event.id ≡ st.event_id)
    × Lists g st

unfoldable pub Ends {ℓ} : {A : Type ℓ} → Surroundings → (A → Type 0) → Boot A → Type 0
Ends g Q (exited what e) = Excuse g
Ends g Q (goes_on a) = Q a

-- A check that succeeds goes on with the rest, and one that fails is excused.
or_exit-Ends :
    {A B : Type 0} (g : Surroundings) (Q : B → Type 0) (what : Str) (r : Result A) (f : A → Boot B)
    → ((e : Error) → r ≡ err e → Excuse g)
    → ((a : A) → r ≡ ok a → Ends g Q (f a))
    → Ends g Q (or_exit what r >>= f)
unfolding Ends ◌>>=◌ or_exit
or_exit-Ends g Q what (err e) f h k = h e refl
or_exit-Ends g Q what (ok a) f h k = k a refl

unless_error-Ends :
    {B : Type 0} (g : Surroundings) (Q : B → Type 0) (what : Str) (o : Option Error)
    (f : Unit {0} → Boot B)
    → ((e : Error) → o ≡ some e → Excuse g)
    → (o ≡ none → Ends g Q (f tt))
    → Ends g Q (unless_error what o >>= f)
unfolding Ends ◌>>=◌ unless_error
unless_error-Ends g Q what (some e) f h k = h e refl
unless_error-Ends g Q what none f h k = k refl

ruleset checks = (or_exit-Ends, unless_error-Ends)

unlinked : (c : Connection (Unit {0})) (e : Error) → connected c ≡ err e → c ≢ linked tt
unfolding connected
unlinked (linked st) e h k = absurd cc
unlinked cancelled e h k = cc
unlinked (exhausted o) e h k = cc

has_name : (hostname : Str) → instance_of hostname ≢ []
unfolding instance_of str_eq
has_name [] h = cc
has_name (c ∷ hostname) h = cc

-- The event that PrimaryEvent returns.
primary-found :
    (o : Option Error) (t : Tables) (id : ℤ) (event : Event)
    → IsPrimary t id
    → primary_event o t.events ≡ ok event
    → event.id ≡ id
unfolding primary_event one_event
primary-found (some e) t id event p h = absurd cc
primary-found none t id event (first, found, same) h =
    let here : one_event (some first) ≡ ok event = sym (ap one_event found) ∙ h in
    let is_first : first ≡ event = cc in sym (ap (λ (v : Event). v.id) is_first) ∙ same

primary-failed :
    (o : Option Error) (t : Tables) (id : ℤ) (e : Error)
    → IsPrimary t id
    → primary_event o t.events ≡ err e
    → o ≡ some e
unfolding primary_event one_event
primary-failed (some e') t id e p h = cc
primary-failed none t id e (first, found, same) h =
    let here : one_event (some first) ≡ err e = sym (ap one_event found) ∙ h in absurd cc

module _ (g : Surroundings) where
  seed-failed : (s : Result ℤ × Tables) (e : Error) → Named g.seeding s → s.0 ≡ err e → Excuse g
  seed-failed (err e', t) e why h = no_seed why
  seed-failed (ok id, t) e p h = absurd cc

  seed-found : (s : Result ℤ × Tables) (id : ℤ) → Named g.seeding s → s.0 ≡ ok id → IsPrimary s.1 id
  seed-found (err e, t) id p h = absurd cc
  seed-found (ok id', t) id p h = let same : id' ≡ id = cc in subst (IsPrimary t) same p

  abbrev seeded : Result ℤ × Tables
  seeded = seed_if_empty g.seeding g.tables

  abbrev stored : List Stored
  stored = numbered g.serial 0 seeded.1.seats

  event-failed :
      (e : Error) (id : ℤ)
      → seeded.0 ≡ ok id
      → primary_event g.primary seeded.1.events ≡ err e
      → Excuse g
  event-failed e id is_seeded failed =
      let found = seed-found seeded id (seed_if_empty-Named g.seeding g.tables) is_seeded in
      no_event e (primary-failed g.primary seeded.1 id e found failed)

  seats-failed : (e : Error) (id : ℤ) → seats g.listing id stored ≡ err e → Excuse g
  seats-failed e id failed =
      no_seats e (subst (Listed g.listing id stored) failed (seats-Listed g.listing id stored))

  fit :
      (cfg : Config) (id : ℤ) (event : Event) (listed : List Seat)
      → load g.env ≡ (cfg, none)
      → seeded.0 ≡ ok id
      → primary_event g.primary seeded.1.events ≡ ok event
      → seats g.listing id stored ≡ ok listed
      → Ends g (Fit g) (goes_on (running g cfg id event listed))
  unfolding Ends running
  fit cfg id event listed loaded is_seeded is_loaded is_listed =
      let found = seed-found seeded id (seed_if_empty-Named g.seeding g.tables) is_seeded in
      (
        loaded,
        has_name g.hostname,
        primary-found g.primary seeded.1 id event found is_loaded,
        subst (Listed g.listing id stored) is_listed (seats-Listed g.listing id stored),
      )

  connection-failed : (e : Error) → connected (connect_store g.attempts) ≡ err e → Excuse g
  connection-failed e failed = no_connection (unlinked (connect_store g.attempts) e failed)

  seeding-failed : (e : Error) → seeded.0 ≡ err e → Excuse g
  seeding-failed e failed = seed-failed seeded e (seed_if_empty-Named g.seeding g.tables) failed

  open_store-Ends : (cfg : Config) → load g.env ≡ (cfg, none) → Ends g (Fit g) (open_store g cfg)
  unfolding open_store
  open_store-Ends cfg loaded =
      search (checks, connection-failed, no_schema, seeding-failed, event-failed, seats-failed, fit)
        depth 20

  -- main exits before it serves only if the settings are refused, the tracer fails, connectStore
  -- finds no connection, or Postgres or a scan fails. Otherwise it serves with accepted settings, an
  -- instance that has a name, the event whose seats it sells, and exactly that event's seats in the
  -- order of their positions.
  pub boot-Ends : Ends g (Fit g) (boot g)
  unfolding boot
  boot-Ends =
      unless_error-Ends g (Fit g) (codes "config error") (load g.env).1 _ bad_settings (λ accepted.
        or_exit-Ends g (Fit g) (codes "tracer init failed")
          (init_tracer (load g.env).0.otel_exporter g.exporter g.resource) _ no_tracer
          (λ tracer made. open_store-Ends (load g.env).0 (ap (λ z. ((load g.env).0, z)) accepted)))
