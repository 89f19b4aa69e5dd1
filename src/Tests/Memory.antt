-- ===== src/Tests/Memory.antt =====
-- Redis and Postgres in memory: both meet what Service.Backends asks of them, and they run.
use grab_seat.Base.{
  ℕ, ◌*◌, ◌-◌, ◌<◌, ◌≤◌, Bool, true, false, ◌≡◌, refl, ◌⊎◌, inl, List, [], ◌∷◌, Option, none, some,
  is_some, ltb, leb, arith, if◌then◌else◌,
}
use grab_seat.Base.Int.{ℤ, pos, negsuc}
use grab_seat.Base.Text.{Str, str_eq, str_eq_refl, has_prefix}
use grab_seat.Service.Backends.{Redis, Booking, Postgres, owner_of}

-- What the last write to a key left: nothing, a value, or a value for some milliseconds more.
pub data Entry : Type 0 where
  gone : Entry
  kept : Str → Entry
  expiring : Str → ℕ → Entry

abbrev pub Keys : Type 0
Keys = List (Str × Entry)

live : Entry → Option Str
live gone = none
live (kept v) = some v
live (expiring v t) = some v

unfoldable pub find : Keys → Str → Option Str
unfolding live
find [] j = none
find ((k, e) ∷ s) j = if str_eq k j then live e else find s j

unfoldable pub exists : Keys → Str → Bool
unfolding find
exists s j = is_some (find s j)

unfoldable pub put : Str → Str → Keys → Keys
put k v s = (k, kept v) ∷ s

unfoldable pub remove : Str → Keys → Keys
remove k s = (k, gone) ∷ s

unfoldable pub put_nx_ex : Str → Str → ℕ → Keys → Bool × Keys
unfolding find
put_nx_ex k v n s =
    if is_some (find s k)
    then (false, s)
    else if ltb 0 n
    then (true, (k, expiring v (1000 * n)) ∷ s)
    else (false, s)

unfoldable pub remaining : Keys → Str → ℤ
remaining [] j = negsuc 1
remaining ((k, gone) ∷ s) j = if str_eq k j then negsuc 1 else remaining s j
remaining ((k, kept v) ∷ s) j = if str_eq k j then negsuc 0 else remaining s j
remaining ((k, expiring v t) ∷ s) j = if str_eq k j then pos t else remaining s j

names : Keys → Str → List Str
names [] prefix = []
names ((k, e) ∷ s) prefix =
    let rest = names s prefix in if has_prefix k prefix then k ∷ rest else rest

unfoldable pub page : Keys → ℕ → Str → List Str × ℕ
unfolding names
page s cursor prefix = (names s prefix, 0)

age : ℕ → Entry → Entry
age d gone = gone
age d (kept v) = kept v
age d (expiring v t) = if leb t d then gone else expiring v (t - d)

unfoldable pub elapse : ℕ → Keys → Keys
unfolding age
elapse d [] = []
elapse d ((k, e) ∷ s) = (k, age d e) ∷ elapse d s

pub nx_taken :
    (k v : Str) (n : ℕ) (s : Keys) {w : Str} → find s k ≡ some w → put_nx_ex k v n s ≡ (false, s)
unfolding put_nx_ex
nx_taken k v n s h = ground arith

pub nx_free :
    (k v : Str) (n : ℕ) (s : Keys) → 0 < n → find s k ≡ none → (put_nx_ex k v n s).0 ≡ true
unfolding put_nx_ex
nx_free k v n s p h = ground arith

pub find-nx :
    (k v : Str) (n : ℕ) (s : Keys) (j : Str)
    → 0 < n
    → find s k ≡ none
    → find (put_nx_ex k v n s).1 j ≡ (if str_eq k j then some v else find s j)
unfolding put_nx_ex
find-nx k v n s j p h = ground arith

live-age : (d : ℕ) (e : Entry) → (live (age d e) ≡ live e) ⊎ (live (age d e) ≡ none)
unfolding live age
live-age d gone = inl refl
live-age d (kept v) = inl refl
live-age d (expiring v t) = ground arith

pub find-elapse :
    (d : ℕ) (s : Keys) (k : Str) → (find (elapse d s) k ≡ find s k) ⊎ (find (elapse d s) k ≡ none)
unfolding find elapse
find-elapse d [] k = inl refl
find-elapse d ((j, e) ∷ s) k = ground (arith, live-age d e, find-elapse d s k)

pub nx_lives :
    (k v : Str) (n d : ℕ) (s : Keys)
    → find s k ≡ none
    → d < 1000 * n
    → find (elapse d (put_nx_ex k v n s).1) k ≡ some v
unfolding find put_nx_ex elapse live age
nx_lives k v n d s free h = ground (arith, str_eq_refl k)

pub nx_expires :
    (k v : Str) (n d : ℕ) (s : Keys)
    → 0 < n
    → find s k ≡ none
    → 1000 * n ≤ d
    → find (elapse d (put_nx_ex k v n s).1) k ≡ none
unfolding find put_nx_ex elapse live age
nx_expires k v n d s p free h = ground (arith, str_eq_refl k)

pub exists_lem : (s : Keys) (k : Str) → exists s k ≡ is_some (find s k)
unfolding exists
exists_lem s k = refl

pub find-put :
    (k v : Str) (s : Keys) (j : Str)
    → find (put k v s) j ≡ (if str_eq k j then some v else find s j)
unfolding find put
find-put k v s j = refl

pub find-remove :
    (k : Str) (s : Keys) (j : Str) → find (remove k s) j ≡ (if str_eq k j then none else find s j)
unfolding find remove
find-remove k s j = refl

abbrev pub redis : Redis
redis = record {
  Keyspace = Keys;
  find = find;
  exists = exists;
  put = put;
  remove = remove;
  put_nx_ex = put_nx_ex;
  remaining = remaining;
  page = page;
  elapse = elapse;
  exists_lem = exists_lem;
  find-put = find-put;
  find-remove = find-remove;
  nx_taken = nx_taken;
  nx_free = nx_free;
  find-nx = find-nx;
  find-elapse = find-elapse;
  nx_lives = nx_lives;
  nx_expires = nx_expires;
}

unfoldable pub insert : Booking → List Booking → Option Str × List Booking
insert b d = elim (owner_of b.seat_id d) [ some _ ↦ (none, d) | none ↦ (some b.session_id, b ∷ d) ]

pub insert_conflict :
    (b : Booking) (d : List Booking) {o : Str}
    → owner_of b.seat_id d ≡ some o
    → insert b d ≡ (none, d)
unfolding insert
insert_conflict b d h = rw (h, insert)

pub insert_returns :
    (b : Booking) (d : List Booking)
    → owner_of b.seat_id d ≡ none
    → (insert b d).0 ≡ some b.session_id
unfolding insert
insert_returns b d h = rw (h, insert)

pub rows-insert :
    (b : Booking) (d : List Booking) → owner_of b.seat_id d ≡ none → (insert b d).1 ≡ b ∷ d
unfolding insert
rows-insert b d h = rw (h, insert)

abbrev pub postgres : Postgres
postgres = record {
  Db = List Booking;
  rows = λ d. d;
  insert = insert;
  insert_conflict = insert_conflict;
  insert_returns = insert_returns;
  rows-insert = rows-insert;
}

-- A test that runs the two services unfolds this.
unfoldable pub memory : Unit {0}
unfolding find exists put remove put_nx_ex remaining page elapse insert owner_of str_eq has_prefix
memory = tt
