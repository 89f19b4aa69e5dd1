-- ===== src/Tests/Wire.antt =====
-- Numbers, keys, settings and the rate limiter at concrete inputs.
use grab_seat.Base.{
  ℕ, zero, suc, ◌<◌, ◌≤◌, Bool, true, false, ◌≡◌, ◌↔◌, ◌⊎◌, ◌≢◌, refl, List, [], ◌∷◌, none, some,
  All, arith,
}
use grab_seat.Base.Int.{pos, negsuc}
use grab_seat.Base.Text.{codes, str_eq}
use grab_seat.Locking.Keys.{hold_key, hold_prefix, seat_id_from_key, seat_id_from_key-hold_key}
use grab_seat.Config.{Environment, load, hold_ttl_of}
use grab_seat.Config.Loading.{AsksFor, load_accepts, hold_ttl_overflow}
use grab_seat.RateLimit.{Rate, Ask, request, cleanup, new, decisions}
use grab_seat.RateLimit.Isolation.{answers, only, answers_alone}
use grab_seat.RateLimit.Burst.{first_requests_pass}
use grab_seat.RateLimit.Keys.{Client, client_key, client_key_iff, is_plain, direct}

seat_id_from_key-hold_key_example :
    seat_id_from_key (hold_key (pos 317)) hold_prefix ≡ some (pos 317)
seat_id_from_key-hold_key_example = seat_id_from_key-hold_key (pos 317) refl

-- The database is set and the hold time is 90 seconds.
abbrev pub env : Environment
env key = elim (str_eq key (codes "DATABASE_URL")) [
  | true ↦ codes "postgres://db"
  | false ↦ elim (str_eq key (codes "HOLD_TTL_SECONDS")) [ true ↦ codes "90" | false ↦ [] ]
]

load_accepts_example :
    (((load env).1 ≡ none) ↔ (
      (env (codes "DATABASE_URL") ≢ [])
      × (n : ℕ) × (0 < n)
      × ((load env).0.hold_ttl_seconds ≡ pos n)))
    × AsksFor env (load env).0.hold_ttl_seconds
load_accepts_example = load_accepts env

hold_ttl_overflow_example : (n : ℕ) × (hold_ttl_of 9223372037 ≡ negsuc n)
hold_ttl_overflow_example = hold_ttl_overflow 9223372037 (omega arith) (omega arith)

-- A bucket of tokens that time never refills.
unfoldable pub spend : ℕ → Bool × ℕ
spend zero = (false, 0)
spend (suc n) = (true, n)

pub spend_token : (l : ℕ) → 0 < l → (spend l).0 ≡ true
unfolding spend
spend_token zero h = absurd (omega (arith, h))
spend_token (suc n) h = refl

pub tokens_spent : (l : ℕ) → l ≤ suc (spend l).1
unfolding spend
tokens_spent zero = omega arith
tokens_spent (suc n) = omega arith

abbrev pub drained : Rate
drained = record {
  Limit = Unit {0};
  Limiter = ℕ;
  per_minute = λ n. tt;
  new_limiter = λ r b. b;
  allow = λ t l. spend l;
  tokens = λ l. l;
  tokens-new_limiter = λ r b. refl;
  allow_with_token = λ t l. spend_token l;
  tokens-allow = λ t l. tokens_spent l;
}

abbrev asks : List Ask
asks =
    request (codes "sess:a") 1
    ∷ request (codes "sess:b") 2
    ∷ cleanup 3
    ∷ request (codes "sess:a") 4
    ∷ []

answers_alone_example :
    answers (codes "sess:a") (decisions drained (new drained (pos 60)) asks)
    ≡ answers
        (codes "sess:a")
        (decisions drained (new drained (pos 60)) (only (codes "sess:a") asks))
answers_alone_example = answers_alone drained (codes "sess:a") (new drained (pos 60)) asks

first_requests_pass_example :
    All (λ a. a ≡ true) (answers (codes "sess:a") (decisions drained (new drained (pos 60)) asks))
unfolding answers decisions str_eq
first_requests_pass_example =
    first_requests_pass drained (codes "sess:a") (pos 60) asks (omega arith)

abbrev pub tab : Client
tab = record {
  session_id = codes "s1";
  forwarded_for = codes "10.0.0.1";
  remote_addr = codes "10.0.0.9:4711";
}

abbrev stranger : Client
stranger = record { session_id = []; forwarded_for = []; remote_addr = codes "10.0.0.9:4711" }

abbrev direct_tab : Client
direct_tab = record { session_id = []; forwarded_for = []; remote_addr = codes "10.0.0.9:5122" }

client_key_iff_example : (client_key stranger ≡ client_key direct_tab) ↔ (
    ((stranger.session_id ≢ []) × (stranger.session_id ≡ direct_tab.session_id))
    ⊎ ((stranger.session_id ≡ [])
        × (direct_tab.session_id ≡ [])
        × (codes "10.0.0.9" ≡ codes "10.0.0.9")))
unfolding is_plain
client_key_iff_example =
    client_key_iff stranger direct_tab (codes "10.0.0.9") (codes "10.0.0.9")
      (direct 49 (codes "0.0.0.9") (codes "4711") refl refl refl refl)
      (direct 49 (codes "0.0.0.9") (codes "5122") refl refl refl refl)
