-- ===== src/Config/Loading.antt =====
-- Which settings Load accepts, and what they come to.
use grab_seat.Base.{
  Bool-cases, Option-cases, ◌⊎◌, some, inl, inr, ◌-◌, ℕ, ◌*◌, ◌^◌, ◌≤◌, ◌<◌, true, ◌≡◌, ◌≢◌, ◌↔◌,
  refl, [], none, arith,
}
use grab_seat.Base.Int.{ℤ, pos, negsuc}
use grab_seat.Base.Text.{codes, str_eq, str_eq→eq, str_eq→ne}
use grab_seat.Strconv.{atoi}
use grab_seat.Config.{
  number_or, Config, Environment, getenv_int, load, refusal, read_config, is_positive, hold_ttl_of,
}

-- The hold time that the environment asks for: 120 seconds where HOLD_TTL_SECONDS is unset or no
-- integer, else its value.
abbrev pub AsksFor : Environment → ℤ → Type 0
AsksFor env n =
    (((env (codes "HOLD_TTL_SECONDS") ≡ []) ⊎ (atoi (env (codes "HOLD_TTL_SECONDS")) ≡ none))
      × (n ≡ pos 120))
    ⊎ ((env (codes "HOLD_TTL_SECONDS") ≢ []) × (atoi (env (codes "HOLD_TTL_SECONDS")) ≡ some n))

-- The settings have the hold time that the environment asks for.
ttl-AsksFor : (env : Environment) → AsksFor env (load env).0.hold_ttl_seconds
unfolding load read_config getenv_int number_or
ttl-AsksFor env =
    let v = env (codes "HOLD_TTL_SECONDS") in
    elim (Bool-cases (str_eq v [])) [
      | inl unset ↦ rw unset (inl (inl (str_eq→eq v [] unset), refl))
      | inr set ↦ elim (Option-cases (atoi v)) [
        | inl bad ↦ rw (set, bad) (inl (inr refl, refl))
        | inr (n, good) ↦ rw (set, good) (inr (str_eq→ne v [] set, refl))
      ]
    ]

positive : (z : ℤ) → is_positive z ≡ true → (n : ℕ) × (0 < n) × (z ≡ pos n)
positive (pos n) h = (n, ground (arith, h), refl)
positive (negsuc n) h = absurd cc

is_positive-pos : (n : ℕ) → 0 < n → is_positive (pos n) ≡ true
is_positive-pos n h = ground arith

refusal_iff :
    (c : Config)
    → (refusal c ≡ none)
      ↔ ((c.database_url ≢ []) × (n : ℕ) × (0 < n) × (c.hold_ttl_seconds ≡ pos n))
unfolding refusal
refusal_iff c = elim (Bool-cases (str_eq c.database_url [])) [
  | inl unset ↦
      (λ h. cc (rw unset at h), λ (url, _, _, _). absurd (url (str_eq→eq c.database_url [] unset)))
  | inr url ↦ elim (Bool-cases (is_positive c.hold_ttl_seconds)) [
    | inl ttl ↦
        rw (url, ttl)
          (
            (λ _.
                let (n, more, same) = positive c.hold_ttl_seconds ttl in
                (str_eq→ne c.database_url [] url, n, more, same)),
            λ _. refl,
          )
    | inr bad ↦
        rw (url, bad) (λ h. cc, λ (_, n, more, same). cc (is_positive-pos n more, same, bad))
  ]
]

accepts :
    (env : Environment)
    → ((load env).1 ≡ none) ↔ (
        (env (codes "DATABASE_URL") ≢ [])
        × (n : ℕ) × (0 < n)
        × ((load env).0.hold_ttl_seconds ≡ pos n))
unfolding load read_config
accepts env = refusal_iff (load env).0

-- Load accepts the environment exactly when DATABASE_URL is set and the hold time of the settings is
-- one second or more; and that is the one that HOLD_TTL_SECONDS asks for: 120 seconds where it is unset
-- or no integer, else its value.
pub load_accepts :
    (env : Environment)
    → (((load env).1 ≡ none) ↔ (
        (env (codes "DATABASE_URL") ≢ [])
        × (n : ℕ) × (0 < n)
        × ((load env).0.hold_ttl_seconds ≡ pos n)))
      × AsksFor env (load env).0.hold_ttl_seconds
load_accepts env = (accepts env, ttl-AsksFor env)

-- A hold time of up to 9223372036 seconds is that many nanoseconds.
pub hold_ttl_exact : (s : ℕ) → s ≤ 9223372036 → hold_ttl_of s ≡ pos (s * 10 ^ 9)
unfolding hold_ttl_of
hold_ttl_exact s h = ground arith

-- From one second more up to 18446744073 seconds, the duration wraps around to a negative one.
pub hold_ttl_overflow :
    (s : ℕ) → 9223372036 < s → s ≤ 18446744073 → (n : ℕ) × (hold_ttl_of s ≡ negsuc n)
unfolding hold_ttl_of
hold_ttl_overflow s h k = (18446744073709551616 - s * 10 ^ 9 - 1, ground arith)
