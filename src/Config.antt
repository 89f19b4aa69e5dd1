-- ===== src/Config.antt =====
-- backend/config/config.go: the settings, read from the environment; and the hold time that
-- backend/main.go makes of them.
pub mod Loading
use grab_seat.Base.{
  ℕ, ◌*◌, ◌+◌, ◌-◌, ◌%◌, ◌^◌, Bool, true, false, [], Option, none, some, ltb, if◌then◌else◌,
}
use grab_seat.Base.Int.{ℤ, pos, negsuc}
use grab_seat.Base.Text.{Str, codes, str_eq}
use grab_seat.Strconv.{atoi}
use grab_seat.Service.{Error, message}

pub record Config : Type 0 where
  pub port : Str
  pub database_url : Str
  pub redis_addr : Str
  pub redis_password : Str
  pub hold_ttl_seconds : ℤ
  pub rate_limit_per_min : ℤ
  pub allowed_origin : Str
  pub otel_exporter : Str
  pub log_level : Str

-- os.Getenv: the empty text for a variable that is not set
abbrev pub Environment : Type 0
Environment = Str → Str

-- getenv
unfoldable pub getenv : Environment → Str → Str → Str
getenv env key fallback = if str_eq (env key) [] then fallback else env key

-- The value of an integer variable, or the fallback where it is not one.
unfoldable pub number_or : ℤ → Option ℤ → ℤ
number_or fallback none = fallback
number_or fallback (some n) = n

-- getenvInt
unfoldable pub getenv_int : Environment → Str → ℤ → ℤ
unfolding number_or
getenv_int env key fallback =
    if str_eq (env key) [] then fallback else number_or fallback (atoi (env key))

unfoldable pub read_config : Environment → Config
unfolding getenv getenv_int
read_config env = record {
  port = getenv env (codes "BACKEND_PORT") (codes "8080");
  database_url = env (codes "DATABASE_URL");
  redis_addr = getenv env (codes "REDIS_ADDR") (codes "redis:6379");
  redis_password = env (codes "REDIS_PASSWORD");
  hold_ttl_seconds = getenv_int env (codes "HOLD_TTL_SECONDS") (pos 120);
  rate_limit_per_min = getenv_int env (codes "RATE_LIMIT_PER_MINUTE") (pos 60);
  allowed_origin = getenv env (codes "ALLOWED_ORIGIN") (codes "http://localhost:3000");
  otel_exporter = getenv env (codes "OTEL_TRACES_EXPORTER") (codes "stdout");
  log_level = getenv env (codes "LOG_LEVEL") (codes "info");
}

abbrev pub is_positive : ℤ → Bool
is_positive (pos n) = ltb 0 n
is_positive (negsuc n) = false

-- The two tests of Load, in order.
unfoldable pub refusal : Config → Option Error
refusal c =
    if str_eq c.database_url []
    then some (message (codes "DATABASE_URL is required"))
    else if is_positive c.hold_ttl_seconds
    then none
    else some (message (codes "HOLD_TTL_SECONDS must be positive"))

-- Load: the settings, and the error that refuses them.
unfoldable pub load : Environment → Config × Option Error
unfolding read_config
load env = let c = read_config env in (c, refusal c)

-- A product of nanoseconds in int64, which wraps around.
unfoldable pub int64 : ℕ → ℤ
int64 n = let m = n % 2 ^ 64 in if ltb m (2 ^ 63) then pos m else negsuc (2 ^ 64 - m - 1)

-- main: time.Duration(cfg.HoldTTLSeconds) * time.Second, for a positive setting
unfoldable pub hold_ttl_of : ℕ → ℤ
unfolding int64
hold_ttl_of seconds = int64 (seconds * 10 ^ 9)
