-- ===== src/RateLimit.antt =====
-- backend/ratelimit/ratelimit.go. The token bucket of golang.org/x/time/rate is a parameter; a map
-- from keys is a function. `get` and `Allow` of one request are one step.
pub mod Keys
pub mod Isolation
pub mod Burst
use grab_seat.Base.{
  ℕ, suc, ◌+◌, ◌-◌, ◌*◌, ◌^◌, ◌<◌, ◌≤◌, ◌≡◌, Bool, true, false, List, [], ◌∷◌, Option, none, some,
  ltb, if◌then◌else◌,
}
use grab_seat.Base.Int.{ℤ, pos, negsuc}
use grab_seat.Base.Text.{Str, str_eq}

-- What golang.org/x/time/rate provides: NewLimiter(rate, burst), and Allow at a time. `tokens` is
-- the whole tokens in the bucket as of the last call; a new bucket is full, a call with a token
-- passes and takes one, and time only adds tokens.
pub record Rate : Type 1 where
  pub Limit : Type 0
  pub Limiter : Type 0
  -- float64(perMinute) / 60.0 a second
  pub per_minute : ℤ → Limit
  pub new_limiter : Limit → ℕ → Limiter
  pub allow : ℕ → Limiter → Bool × Limiter
  pub tokens : Limiter → ℕ
  pub tokens-new_limiter : (r : Limit) (burst : ℕ) → tokens (new_limiter r burst) ≡ burst
  pub allow_with_token : (t : ℕ) (l : Limiter) → 0 < tokens l → (allow t l).0 ≡ true
  pub tokens-allow : (t : ℕ) (l : Limiter) → tokens l ≤ suc (tokens (allow t l).1)

abbrev pub minute : ℕ
minute = 60 * 10 ^ 9

abbrev pub burst : ℕ
burst = 10

-- What the limiter is asked: a request of a client at a time, or a tick of the cleanup loop.
pub data Ask : Type 0 where
  request : Str → ℕ → Ask
  cleanup : ℕ → Ask

module _ (T : Rate) where
  pub record Bucket : Type 0 where
    pub limiter : T.Limiter
    pub last_seen : ℕ

  pub record Limiter : Type 0 where
    pub buckets : Str → Option Bucket
    pub limit : T.Limit

  -- New
  unfoldable pub new : ℤ → Limiter
  new (pos (suc n)) = record { buckets = λ k. none; limit = T.per_minute (pos (suc n)) }
  new _ = record { buckets = λ k. none; limit = T.per_minute (pos 60) }

  abbrev set : (Str → Option Bucket) → Str → Option Bucket → Str → Option Bucket
  set m k b j = if str_eq k j then b else m j

  unfoldable pub seen : Option Bucket → T.Limit → ℕ → Bucket
  seen none limit now = record { limiter = T.new_limiter limit burst; last_seen = now }
  seen (some b) limit now = record b { last_seen = now }

  -- get: the client's bucket, or a new one, seen now.
  unfoldable pub get : Limiter → Str → ℕ → Bucket
  unfolding seen
  get l key now = seen (l.buckets key) l.limit now

  -- The decision of Middleware, and the limiter that it leaves.
  unfoldable pub admit : Limiter → Str → ℕ → Bool × Limiter
  unfolding get
  admit l key now =
      let b = get l key now in
      let (allowed, spent) = T.allow now b.limiter in
      (allowed, record l { buckets = set l.buckets key (some (record b { limiter = spent })) })

  -- A bucket that no request has used for more than ten minutes is dropped.
  unfoldable pub sweep : ℕ → Option Bucket → Option Bucket
  sweep now none = none
  sweep now (some b) = if ltb (10 * minute) (now - b.last_seen) then none else some b

  -- One round of cleanupLoop
  unfoldable pub clean : Limiter → ℕ → Limiter
  unfolding sweep
  clean l now = record l { buckets = λ k. sweep now (l.buckets k) }

  -- The decisions on a sequence of requests, each with its client.
  unfoldable pub decisions : Limiter → List Ask → List (Str × Bool)
  decisions l [] = []
  decisions l (request k t ∷ rest) = let (ok, l') = admit l k t in (k, ok) ∷ decisions l' rest
  decisions l (cleanup t ∷ rest) = decisions (clean l t) rest
