-- ===== src/RateLimit/Isolation.antt =====
-- backend/ratelimit/ratelimit.go: one client among others.
use grab_seat.Base.{
  ℕ, ◌≡◌, refl, sym, ap, subst, inl, inr, Bool, false, List, [], ◌∷◌, some, Bool-cases,
  if◌then◌else◌,
}
use grab_seat.Base.Text.{Str, str_eq, str_eq→eq, str_eq_refl}
use grab_seat.RateLimit.{
  Rate, Ask, request, cleanup, Bucket, Limiter, get, admit, sweep, clean, decisions,
}

-- The requests of one client, and every cleanup.
unfoldable pub only : Str → List Ask → List Ask
only k [] = []
only k (request j t ∷ rest) =
    let others = only k rest in if str_eq j k then request j t ∷ others else others
only k (cleanup t ∷ rest) = cleanup t ∷ only k rest

-- The answers to one client.
unfoldable pub answers : Str → List (Str × Bool) → List Bool
answers k [] = []
answers k ((j, a) ∷ rest) = let others = answers k rest in if str_eq j k then a ∷ others else others

module _ (T : Rate) (k : Str) where
  -- Two limiters are alike to client `k`.
  record Alike (l m : Limiter T) : Type 0 where
    bucket : l.buckets k ≡ m.buckets k
    limit : l.limit ≡ m.limit

  same_bucket : (l m : Limiter T) (t : ℕ) → Alike l m → get T l k t ≡ get T m k t
  unfolding get
  same_bucket l m t h = rw (h.bucket, h.limit)

  admit-Alike :
      (l m : Limiter T) (t : ℕ)
      → Alike l m
      → ((admit T l k t).0 ≡ (admit T m k t).0) × Alike (admit T l k t).1 (admit T m k t).1
  unfolding admit
  admit-Alike l m t h =
      let same = same_bucket l m t h in
      (
        ap (λ (b : Bucket T). (T.allow t b.limiter).0) same,
        record {
          bucket =
              rw (str_eq_refl k)
                (ap (λ (b : Bucket T). some (record b { limiter = (T.allow t b.limiter).1 })) same);
          limit = h.limit;
        },
      )

  admit_other :
      (l m : Limiter T) (j : Str) (t : ℕ)
      → str_eq j k ≡ false
      → Alike l m
      → Alike (admit T l j t).1 m
  unfolding admit
  admit_other l m j t other h = record { bucket = rw other h.bucket; limit = h.limit }

  clean-Alike : (l m : Limiter T) (t : ℕ) → Alike l m → Alike (clean T l t) (clean T m t)
  unfolding clean
  clean-Alike l m t h = record { bucket = ap (sweep T t) h.bucket; limit = h.limit }

  answers-Alike :
      (l m : Limiter T) (asks : List Ask)
      → Alike l m
      → answers k (decisions T l asks) ≡ answers k (decisions T m (only k asks))
  unfolding decisions answers only
  answers-Alike l m [] h = refl
  answers-Alike l m (cleanup t ∷ rest) h =
      answers-Alike (clean T l t) (clean T m t) rest (clean-Alike l m t h)
  answers-Alike l m (request j t ∷ rest) h = elim (Bool-cases (str_eq j k)) [
    | inl same ↦
        subst
          (λ z.
            answers k (decisions T l (request z t ∷ rest))
            ≡ answers k (decisions T m (only k (request z t ∷ rest))))
          (sym (str_eq→eq j k same))
          (let (now, after) = admit-Alike l m t h in
            rw (str_eq_refl k, now, str_eq_refl k)
              (ap (◌∷◌ (admit T m k t).0)
                (answers-Alike (admit T l k t).1 (admit T m k t).1 rest after)))
    | inr other ↦ rw other (answers-Alike (admit T l j t).1 m rest (admit_other l m j t other h))
  ]

  -- Whatever other clients send in between, a client is answered exactly as if it were alone.
  pub answers_alone :
      (l : Limiter T) (asks : List Ask)
      → answers k (decisions T l asks) ≡ answers k (decisions T l (only k asks))
  answers_alone l asks = answers-Alike l l asks (record { bucket = refl; limit = refl })
