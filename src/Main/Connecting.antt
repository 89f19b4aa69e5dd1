-- ===== src/Main/Connecting.antt =====
-- backend/main.go with backend/store/store.go: connectStore over New.
use grab_seat.Base.{
  ℕ, zero, suc, ◌+◌, ◌<◌, Bool, true, false, ◌≡◌, ◌↔◌, refl, subst, [], arith, Option, none,
}
use grab_seat.Base.Text.{Str}
use grab_seat.Service.{Error, Result, ok, err}
use grab_seat.Store.Opening.{PgxPool, open_pool, connected_from, open_pool-Tidy}
use grab_seat.Main.Startup.{
  Attempt, Failed, linked, after_attempt, rounds, connect_store, connect_store_lem,
}

module _ {S : Type 0} (attempt : ℕ → Attempt S) where
  -- From round `i` on, of `n` that are left, the round `i + d` is the first that does not fail.
  abbrev First : ℕ → ℕ → S → Type 0
  First n i st =
      (d : ℕ) × (d < n)
      × ((attempt (i + d)).outcome ≡ ok st)
      × ((j : ℕ) → j < d → Failed (attempt (i + j)))

  same_link : (s t : S) → linked s ≡ linked t → s ≡ t
  same_link s t h = cc h

  earlier :
      (i d : ℕ)
      → Failed (attempt i)
      → ((j : ℕ) → j < d → Failed (attempt (suc i + j)))
      → (j : ℕ) → j < suc d
      → Failed (attempt (i + j))
  earlier i d failed before zero less =
      let here : i ≡ i + 0 = omega arith in subst (λ z. Failed (attempt z)) here failed
  earlier i d failed before (suc j) less =
      let here : suc i + j ≡ i + suc j = omega arith in
      subst (λ z. Failed (attempt z)) here (before j (omega (arith, less)))

  now_or_later : (n i : ℕ) (st : S) → Failed (attempt i) → First n (suc i) st → First (suc n) i st
  now_or_later n i st failed (d, few, works, before) =
      let here : suc i + d ≡ i + suc d = omega arith in
      (
        suc d,
        omega (arith, few),
        subst (λ z. (attempt z).outcome ≡ ok st) here works,
        earlier i d failed before,
      )

  after_attempt-First :
      (n i : ℕ) (last : Option Error) (st : S) (r : Result S) (stop : Bool)
      → (attempt i).outcome ≡ r
      → (attempt i).cancelled ≡ stop
      → ((last : Option Error) → rounds attempt n last (suc i) ≡ linked st → First n (suc i) st)
      → after_attempt (λ e. rounds attempt n e (suc i)) stop r ≡ linked st
      → First (suc n) i st
  unfolding after_attempt
  after_attempt-First n i last st (ok s) stop p q ih h =
      let here : i ≡ i + 0 = omega arith in
      (
        0,
        omega arith,
        subst (λ z. (attempt z).outcome ≡ ok st) here
            (subst (λ z. (attempt i).outcome ≡ ok z) (same_link s st h) p),
        (λ j less. absurd (omega (arith, less))),
      )
  after_attempt-First n i last st (err e) true p q ih h = cc h
  after_attempt-First n i last st (err e) false p q ih h = now_or_later n i st ((e, p), q) (ih _ h)

  rounds-First :
      (n i : ℕ) (last : Option Error) (st : S) → rounds attempt n last i ≡ linked st → First n i st
  unfolding rounds
  rounds-First zero i last st h = cc h
  rounds-First (suc n) i last st h =
      after_attempt-First n i last st (attempt i).outcome (attempt i).cancelled refl refl
        (λ l. rounds-First n (suc i) l st) h

module _ (L : PgxPool) (stop : ℕ → Bool) (url : Str) where
  -- What the rounds of connectStore meet: New, and the context after a failure.
  abbrev pub meets : ℕ → Attempt L.Pool
  meets i = record { outcome = (open_pool L url i).outcome; cancelled = stop i }

  -- The round returns the pool, which has answered its ping, and closes none.
  abbrev pub Serves : ℕ → L.Pool → Type 0
  Serves i pool =
      ((open_pool L url i).outcome ≡ ok pool)
      × (L.ping i pool ≡ ok tt)
      × ((open_pool L url i).closed ≡ [])

  -- The round fails, the context goes on, and every pool that the round connected is closed.
  abbrev pub GaveUp : ℕ → Type 0
  GaveUp i =
      ((e : Error) × ((open_pool L url i).outcome ≡ err e))
      × (stop i ≡ false)
      × ((open_pool L url i).closed ≡ connected_from L i (L.parse url))

  Failed-GaveUp : (i : ℕ) → Failed (meets i) → GaveUp i
  Failed-GaveUp i ((e, is_err), goes_on) =
      ((e, is_err), goes_on, (open_pool-Tidy L url i).1 e is_err)

  served :
      (pool : L.Pool)
      → First meets 15 0 pool
      → (i : ℕ) × (i < 15) × Serves i pool × ((j : ℕ) → j < i → GaveUp j)
  served pool (i, few, works, before) =
      let here : 0 + i ≡ i = omega arith in
      let found : (open_pool L url i).outcome ≡ ok pool =
        subst (λ z. (meets z).outcome ≡ ok pool) here works in
      let (answers, kept) = (open_pool-Tidy L url i).0 pool found in
      (
        i,
        few,
        (found, answers, kept),
        λ j less.
            let there : 0 + j ≡ j = omega arith in
            Failed-GaveUp j (subst (λ z. Failed (meets z)) there (before j less)),
      )

  -- connectStore returns a pool exactly if one of its fifteen rounds connects it and gets an answer to
  -- the ping, and all rounds before fail without the context being done; every pool that these
  -- connected is closed.
  pub connect_iff :
      (pool : L.Pool)
      → (connect_store meets ≡ linked pool)
        ↔ ((i : ℕ) × (i < 15) × Serves i pool × ((j : ℕ) → j < i → GaveUp j))
  unfolding connect_store
  connect_iff pool = (
    λ h. served pool (rounds-First meets 15 0 none pool h),
    λ (i, few, serves, before).
        connect_store_lem meets i pool few
          (λ j less. let (failed, goes_on, closed) = before j less in (failed, goes_on)) serves.0,
  )
