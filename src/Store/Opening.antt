-- ===== src/Store/Opening.antt =====
-- backend/store/store.go: New and RunMigrations. pgxpool is a parameter; what it returns may differ from round to round.
use grab_seat.Base.{ℕ, ◌≡◌, refl, subst, List, [], ◌∷◌, Option, none, some}
use grab_seat.Base.Text.{Str, codes}
use grab_seat.Service.{Error, wrapped, Result, ok, err}

-- ParseConfig, NewWithConfig in a round, with MaxConns, Ping, and Exec
pub record PgxPool : Type 1 where
  pub Settings : Type 0
  pub Pool : Type 0
  pub parse : Str → Result Settings
  pub connect : ℕ → ℕ → Settings → Result Pool
  pub ping : ℕ → Pool → Result (Unit {0})
  pub exec : Pool → Str → Result (Unit {0})

module _ (L : PgxPool) where
  -- What New returns, and the pools that it has closed.
  pub record Opened : Type 0 where
    pub outcome : Result L.Pool
    pub closed : List L.Pool

  abbrev pub failed : Str → Error → List L.Pool → Opened
  failed step e closed = record { outcome = err (wrapped step e); closed = closed }

  unfoldable pub pinged : L.Pool → Result (Unit {0}) → Opened
  pinged pool (err e) = failed (codes "ping postgres") e (pool ∷ [])
  pinged pool (ok _) = record { outcome = ok pool; closed = [] }

  unfoldable pub pooled : ℕ → Result L.Pool → Opened
  unfolding pinged
  pooled i (err e) = failed (codes "connect postgres") e []
  pooled i (ok pool) = pinged pool (L.ping i pool)

  unfoldable pub configured : ℕ → Result L.Settings → Opened
  unfolding pooled
  configured i (err e) = failed (codes "parse database url") e []
  configured i (ok cfg) = pooled i (L.connect i 20 cfg)

  -- New, in a round of connectStore
  unfoldable pub open_pool : Str → ℕ → Opened
  unfolding configured
  open_pool url i = configured i (L.parse url)

  -- RunMigrations: the error of Exec, which main has
  unfoldable pub run_migrations : L.Pool → Str → Option Error
  run_migrations pool schema = elim (L.exec pool schema) [ ok done ↦ none | err e ↦ some e ]

  -- The pools that New connected in a round.
  unfoldable pub pools_of : Result L.Pool → List L.Pool
  pools_of (err e) = []
  pools_of (ok pool) = pool ∷ []

  unfoldable pub connected_from : ℕ → Result L.Settings → List L.Pool
  unfolding pools_of
  connected_from i (err e) = []
  connected_from i (ok cfg) = pools_of (L.connect i 20 cfg)

  -- A pool that is returned has answered its ping and is open; on an error, every pool is closed.
  abbrev pub Tidy : ℕ → List L.Pool → Opened → Type 0
  Tidy i pools o =
      ((pool : L.Pool) → o.outcome ≡ ok pool → (L.ping i pool ≡ ok tt) × (o.closed ≡ []))
      × ((e : Error) → o.outcome ≡ err e → o.closed ≡ pools)

  ok_is : (p q : L.Pool) → ◌≡◌ {A = Result L.Pool} (ok p) (ok q) → p ≡ q
  ok_is p q h = cc h

  pinged-Tidy :
      (i : ℕ) (pool : L.Pool) (r : Result (Unit {0}))
      → L.ping i pool ≡ r
      → Tidy i (pool ∷ []) (pinged pool r)
  unfolding pinged
  pinged-Tidy i pool (err e) h = ((λ p eq. cc eq), (λ e' eq. refl))
  pinged-Tidy i pool (ok _) h =
      ((λ p eq. (subst (λ z. L.ping i z ≡ ok tt) (ok_is pool p eq) h, refl)), (λ e' eq. cc eq))

  pooled-Tidy : (i : ℕ) (r : Result L.Pool) → Tidy i (pools_of r) (pooled i r)
  unfolding pooled pools_of
  pooled-Tidy i (err e) = ((λ p eq. cc eq), (λ e' eq. refl))
  pooled-Tidy i (ok pool) = pinged-Tidy i pool (L.ping i pool) refl

  configured-Tidy : (i : ℕ) (r : Result L.Settings) → Tidy i (connected_from i r) (configured i r)
  unfolding configured connected_from
  configured-Tidy i (err e) = ((λ p eq. cc eq), (λ e' eq. refl))
  configured-Tidy i (ok cfg) = pooled-Tidy i (L.connect i 20 cfg)

  pub open_pool-Tidy :
      (url : Str) (i : ℕ) → Tidy i (connected_from i (L.parse url)) (open_pool url i)
  unfolding open_pool
  open_pool-Tidy url i = configured-Tidy i (L.parse url)
