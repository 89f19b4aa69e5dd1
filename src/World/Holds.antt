-- ===== src/World/Holds.antt =====
-- What one call, whatever becomes of its link, does to the hold and the booked marker of a seat.
use grab_seat.Base.{
  ℕ, ◌<◌, ◌≡◌, ◌≢◌, refl, sym, ◌∙◌, subst, ◌⊎◌, inl, inr, none, some, Option-cases, Bool-cases,
}
use grab_seat.Base.Int.{ℤ, int_eq, int_eq→eq, int_eq→ne}
use grab_seat.Base.Text.{Str, str_eq, str_eq_refl, str_eq→ne}
use grab_seat.Service.{
  Result, Call, eval_hold, eval_book, get, set, pttl, scan, publish, ping_redis, insert_booking,
  select_owner, select_booked, select_stats, ping_postgres, now,
}
use grab_seat.Service.Backends.{Redis, Postgres}
use grab_seat.Locking.Keys.{
  hold_key_injective, hold_key, booked_key, hold_acquired, hold_taken, hold_booked, hold_keys_apart,
  booked_keys_apart, hold_booked_apart, booked_hold_apart,
}
use grab_seat.Locking.Script.{hold_script, book_script}
use grab_seat.Locking.Laws.{hold_script_sold, hold_script_held, hold_script_free}
use grab_seat.Booking.Keyed.{Keyed, Acquired}
use grab_seat.World.{Link, delivered, refused, reply_lost, World, exec, served}

sold_is_other : hold_booked ≢ hold_acquired
unfolding str_eq
sold_is_other = str_eq→ne hold_booked hold_acquired refl

taken_is_other : hold_taken ≢ hold_acquired
unfolding str_eq
taken_is_other = str_eq→ne hold_taken hold_acquired refl

module _ (R : Redis) where
  -- Redis has a hold of the seat, or its booked marker.
  abbrev pub Locked : ℤ → R.Keyspace → Type 0
  Locked seat s =
      ((v : Str) × (R.find s (hold_key seat) ≡ some v))
      ⊎ ((v : Str) × (R.find s (booked_key seat) ≡ some v))

  -- The hold script of a seat, with its own keys: it grants the hold and sets it, or it changes
  -- nothing and refuses.
  hold_script_cases :
      (x : ℤ) (t : Str) (n : ℕ) (s : R.Keyspace)
      → 0 < n
      → let (reply, s') = hold_script R (hold_key x) (booked_key x) t n s in
        ((R.find s (hold_key x) ≡ none)
          × (R.find s (booked_key x) ≡ none)
          × (s' ≡ (R.put_nx_ex (hold_key x) t n s).1))
        ⊎ ((reply ≢ hold_acquired) × (s' ≡ s))
  hold_script_cases x t n s p = elim (Option-cases (R.find s (booked_key x))) [
    | inr (v, sold) ↦
        rw (hold_script_sold R (hold_key x) (booked_key x) t n s sold) (inr (sold_is_other, refl))
    | inl unmarked ↦ elim (Option-cases (R.find s (hold_key x))) [
      | inr (v, taken) ↦
          rw (hold_script_held R (hold_key x) (booked_key x) t n s unmarked taken)
            (inr (taken_is_other, refl))
      | inl free ↦
          rw (hold_script_free R (hold_key x) (booked_key x) t n s p unmarked free)
            (inl (free, unmarked, refl))
    ]
  ]

  nx-Locked :
      (x seat : ℤ) (t : Str) (n : ℕ) (s : R.Keyspace)
      → 0 < n
      → R.find s (hold_key x) ≡ none
      → Locked seat s
      → Locked seat (R.put_nx_ex (hold_key x) t n s).1
  nx-Locked x seat t n s p free (inl (v, h)) =
      elim (Bool-cases (str_eq (hold_key x) (hold_key seat))) [
        | inl same ↦ inl (t, R.find-nx (hold_key x) t n s (hold_key seat) p free ∙ (rw same refl))
        | inr other ↦ inl (v, R.find-nx (hold_key x) t n s (hold_key seat) p free ∙ (rw other h))
      ]
  nx-Locked x seat t n s p free (inr (v, h)) =
      inr (
        v,
        R.find-nx (hold_key x) t n s (booked_key seat) p free ∙ (rw (hold_booked_apart x seat) h),
      )

  script-Locked :
      (x seat : ℤ) (t : Str) (n : ℕ) (s : R.Keyspace)
      → 0 < n
      → Locked seat s
      → Locked seat (hold_script R (hold_key x) (booked_key x) t n s).1
  script-Locked x seat t n s p h = elim (hold_script_cases x t n s p) [
    | inl (free, unmarked, sets) ↦ subst (Locked seat) (sym sets) (nx-Locked x seat t n s p free h)
    | inr (no_hold, same) ↦ subst (Locked seat) (sym same) h
  ]

  -- The book script marks its seat, and leaves the others alone.
  book-Locked :
      (x seat : ℤ) (t : Str) (s : R.Keyspace)
      → Locked seat s
      → Locked seat (book_script R (hold_key x) (booked_key x) t s).1
  unfolding book_script
  book-Locked x seat t s h =
      let put = R.find-put (booked_key x) t (R.remove (hold_key x) s) in
      let gone = R.find-remove (hold_key x) s in
      elim (Bool-cases (int_eq x seat)) [
        | inl same ↦ inr (
          t,
          put (booked_key seat) ∙ (rw (int_eq→eq x seat same, str_eq_refl (booked_key seat)) refl),
        )
        | inr other ↦ elim h [
          | inl (v, holds) ↦ inl (
            v,
            put (hold_key seat)
                ∙ (rw (booked_hold_apart x seat) (
                    gone (hold_key seat)
                    ∙ (rw (hold_keys_apart x seat (int_eq→ne x seat other)) holds))),
          )
          | inr (v, marks) ↦ inr (
            v,
            put (booked_key seat)
                ∙ (rw (booked_keys_apart x seat (int_eq→ne x seat other))
                    (gone (booked_key seat) ∙ (rw (hold_booked_apart x seat) marks))),
          )
        ]
      ]

  -- The seat is neither held nor marked.
  abbrev pub Free : ℤ → R.Keyspace → Type 0
  Free seat s = (R.find s (hold_key seat) ≡ none) × (R.find s (booked_key seat) ≡ none)

  pub Free-Locked : (seat : ℤ) (s : R.Keyspace) → Free seat s → Locked seat s → ⊥
  Free-Locked seat s (no_hold, no_mark) (inl (v, h)) = cc
  Free-Locked seat s (no_hold, no_mark) (inr (v, h)) = cc

  acquires :
      (x seat : ℤ) (t : Str) (n : ℕ) (s : R.Keyspace)
      → 0 < n
      → hold_key x ≡ hold_key seat
      → (hold_script R (hold_key x) (booked_key x) t n s).0 ≡ hold_acquired
      → Free seat s × Locked seat (hold_script R (hold_key x) (booked_key x) t n s).1
  acquires x seat t n s p same got = elim (hold_script_cases x t n s p) [
    | inr (not_got, _) ↦ absurd (not_got got)
    | inl (free, unmarked, sets) ↦
        let is_seat : x ≡ seat = hold_key_injective x seat same in
        let held_now : R.find (R.put_nx_ex (hold_key x) t n s).1 (hold_key x) ≡ some t =
          R.find-nx (hold_key x) t n s (hold_key x) p free ∙ (rw (str_eq_refl (hold_key x)) refl) in
        (
          subst (λ z. Free z s) is_seat (free, unmarked),
          subst (λ z. Locked z (hold_script R (hold_key x) (booked_key x) t n s).1) is_seat
              (subst (Locked x) (sym sets) (inl (t, held_now))),
        )
  ]

module _ (R : Redis) (P : Postgres) where
  served-Locked :
      {A : Type 0} (seat : ℤ) (l : Link) (f : World R P → Result A × World R P) (w : World R P)
      → Locked R seat w.redis
      → Locked R seat (f w).1.redis
      → Locked R seat (served R P l f w).1.redis
  unfolding served
  served-Locked seat delivered f w h g = g
  served-Locked seat refused f w h g = h
  served-Locked seat reply_lost f w h g = g

  -- A call of Hold or Confirm never frees a seat in Redis.
  pub exec-Locked :
      (c : Call) (l : Link) (w : World R P) (seat : ℤ)
      → Keyed c
      → Locked R seat w.redis
      → Locked R seat (exec R P c l w).1.redis
  unfolding exec
  exec-Locked (eval_hold a b t n) l w seat (x, is_hold, is_booked, p) h =
      served-Locked seat l _ w h (rw (is_hold, is_booked) (script-Locked R x seat t n w.redis p h))
  exec-Locked (eval_book a b t) l w seat (x, is_hold, is_booked) h =
      served-Locked seat l _ w h (rw (is_hold, is_booked) (book-Locked R x seat t w.redis h))
  exec-Locked (set _ _) l w seat k h = absurd k
  exec-Locked (get _) l w seat k h = served-Locked seat l _ w h h
  exec-Locked (pttl _) l w seat k h = served-Locked seat l _ w h h
  exec-Locked (scan _ _) l w seat k h = served-Locked seat l _ w h h
  exec-Locked (publish _) l w seat k h = served-Locked seat l _ w h h
  exec-Locked ping_redis l w seat k h = served-Locked seat l _ w h h
  exec-Locked (insert_booking _ _ _) l w seat k h = served-Locked seat l _ w h h
  exec-Locked (select_owner _) l w seat k h = served-Locked seat l _ w h h
  exec-Locked (select_booked _) l w seat k h = served-Locked seat l _ w h h
  exec-Locked (select_stats _) l w seat k h = served-Locked seat l _ w h h
  exec-Locked ping_postgres l w seat k h = served-Locked seat l _ w h h
  exec-Locked now l w seat k h = h

  -- A call that acquires the hold found the seat free, and locks it.
  pub exec-acquires :
      (c : Call) (l : Link) (w : World R P) (seat : ℤ)
      → Keyed c
      → Acquired seat (c, (exec R P c l w).0)
      → Free R seat w.redis × Locked R seat (exec R P c l w).1.redis
  unfolding exec served
  exec-acquires (eval_hold a b t n) delivered w seat (x, is_hold, is_booked, p) =
      rw (is_hold, is_booked) (λ (same, got). acquires R x seat t n w.redis p same got)
  exec-acquires (eval_hold a b t n) refused w seat k = λ got. absurd got
  exec-acquires (eval_hold a b t n) reply_lost w seat k = λ got. absurd got
  exec-acquires _ l w seat k = λ got. absurd got
