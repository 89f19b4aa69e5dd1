-- ===== src/Service.antt =====
-- Go code that talks to Redis and Postgres, as a program: a tree of calls, each followed by what the
-- code does with the reply. One tree serves every use: replies chosen by an adversary (Service.Paths),
-- a run against one world, and interleaved runs of many requests (System).
pub mod Backends
pub mod Paths
use grab_seat.Base.{ℕ, Bool, true, false, ◌≡◌, refl, List, [], ◌∷◌}
use grab_seat.Base.Int.{ℤ}
use grab_seat.Base.Text.{Str}
use grab_seat.Model.{SeatEvent}

-- A Go error: the two sentinels that the code compares with, a broken link to a service, a text of
-- its own, and `fmt.Errorf("...: %w", err)`.
pub data Error : Type 0 where
  redis_nil : Error
  no_rows : Error
  link_down : Error
  message : Str → Error
  wrapped : Str → Error → Error

-- A pair of a value and an error, of which Go code reads one.
pub data Result {ℓ} (A : Type ℓ) : Type ℓ where
  ok : A → Result A
  err : Error → Result A

-- One request to a service, or one reading of the clock.
pub data Call : Type 0 where
  -- the two Lua scripts, with their KEYS and ARGV
  eval_hold : Str → Str → Str → ℕ → Call
  eval_book : Str → Str → Str → Call
  -- GET, SET with no expiry, PTTL, SCAN with a cursor and a prefix, PUBLISH, PING
  get : Str → Call
  set : Str → Str → Call
  pttl : Str → Call
  scan : ℕ → Str → Call
  publish : SeatEvent → Call
  ping_redis : Call
  -- the statements of backend/store/store.go
  insert_booking : ℤ → ℤ → Str → Call
  select_owner : ℤ → Call
  select_booked : ℤ → Call
  select_stats : ℤ → Call
  ping_postgres : Call
  -- time.Now(), in nanoseconds
  now : Call

abbrev pub Reply : Call → Type 0
Reply (eval_hold _ _ _ _) = Result Str
Reply (eval_book _ _ _) = Result Str
Reply (get _) = Result Str
Reply (set _ _) = Result Unit
Reply (pttl _) = Result ℤ
Reply (scan _ _) = Result (List Str × ℕ)
Reply (publish _) = Result Unit
Reply ping_redis = Result Unit
Reply (insert_booking _ _ _) = Result Str
Reply (select_owner _) = Result Str
Reply (select_booked _) = Result (List (ℤ × Str))
Reply (select_stats _) = Result (ℕ × ℕ)
Reply ping_postgres = Result Unit
Reply now = ℕ

pub data Prog (A : Type 0) : Type 0 where
  ret : A → Prog A
  call : (c : Call) → (Reply c → Prog A) → Prog A

abbrev pub ask : (c : Call) → Prog (Reply c)
ask c = call c ret

infixl 5 ◌>>=◌ ◌>>◌
abbrev pub ◌>>=◌ : {A B : Type 0} → Prog A → (A → Prog B) → Prog B
ret a >>= f = f a
call c k >>= f = call c (λ r. k r >>= f)

abbrev pub ◌>>◌ : {A B : Type 0} → Prog A → Prog B → Prog B
m >> n = m >>= λ _. n

-- A call that took place, with its reply.
abbrev pub Event : Type 0
Event = (c : Call) × Reply c

-- The number of calls that a program makes at most, along replies that `pick` chooses.
pub calls_along : {A : Type 0} → ((c : Call) → Reply c) → Prog A → ℕ
calls_along pick (ret a) = 0
calls_along pick (call c k) = ℕ.suc (calls_along pick (k (pick c)))

-- The result of a program, along replies that `pick` chooses.
abbrev pub result_along : {A : Type 0} → ((c : Call) → Reply c) → Prog A → A
result_along pick (ret a) = a
result_along pick (call c k) = result_along pick (k (pick c))
