-- ===== src/RateLimit/Burst.antt =====
-- backend/ratelimit/ratelimit.go: the burst that every client has.
use grab_seat.Base.{
  ℕ, zero, suc, ◌≤◌, ◌≡◌, refl, sym, subst, inl, inr, Bool, true, false, List, [], ◌∷◌, Option,
  none, some, Bool-cases, arith, length, All,
}
use grab_seat.Base.Int.{ℤ, pos, negsuc}
use grab_seat.Base.Text.{Str, str_eq, str_eq_refl, str_eq→eq}
use grab_seat.RateLimit.{
  Rate, Ask, request, cleanup, Bucket, Limiter, new, get, seen, admit, sweep, clean, decisions,
  burst,
}
use grab_seat.RateLimit.Isolation.{answers}

module _ (T : Rate) (k : Str) where
  -- The tokens that the client has: those of its bucket, or a new bucket's.
  left : Option (Bucket T) → ℕ
  left none = burst
  left (some b) = T.tokens b.limiter

  -- The client has at least `n` tokens, and `n` is no more than a new bucket has.
  Has : ℕ → Limiter T → Type 0
  unfolding left
  Has n l = (n ≤ left (l.buckets k)) × (n ≤ burst)

  tokens-seen :
      (o : Option (Bucket T)) (t : ℕ) (l : Limiter T)
      → T.tokens (seen T o l.limit t).limiter ≡ left o
  unfolding seen left
  tokens-seen none t l = T.tokens-new_limiter l.limit burst
  tokens-seen (some b) t l = refl

  admit-Has :
      (n t : ℕ) (l : Limiter T)
      → Has (suc n) l
      → ((admit T l k t).0 ≡ true) × Has n (admit T l k t).1
  unfolding Has admit get left
  admit-Has n t l h =
      let b = get T l k t in
      let same = tokens-seen (l.buckets k) t l in
      let spent = T.tokens-allow t b.limiter in
      (
        T.allow_with_token t b.limiter (omega (arith, same, h.0)),
        rw (str_eq_refl k) (omega (arith, same, spent, h.0), omega (arith, h.1)),
      )

  sweep-Has : (n t : ℕ) (o : Option (Bucket T)) → n ≤ left o → n ≤ burst → n ≤ left (sweep T t o)
  unfolding left sweep
  sweep-Has n t none h b = h
  sweep-Has n t (some x) h b = ground arith

  other-Has :
      (n t : ℕ) (j : Str) (l : Limiter T) → str_eq j k ≡ false → Has n l → Has n (admit T l j t).1
  unfolding Has admit
  other-Has n t j l other h = rw other h

  new-Has : (per_minute : ℤ) (n : ℕ) → n ≤ burst → Has n (new T per_minute)
  unfolding Has left new
  new-Has (pos (suc m)) n h = (h, h)
  new-Has (pos zero) n h = (h, h)
  new-Has (negsuc m) n h = (h, h)

  Pass : List Bool → Type 0
  Pass = All (λ a. a ≡ true)

  more-Pass :
      (l : Limiter T) (t : ℕ) (later : List Bool)
      → (Has (length later) (admit T l k t).1 → Pass later)
      → Has (suc (length later)) l
      → Pass ((admit T l k t).0 ∷ later)
  unfolding Pass
  more-Pass l t later ih h = let (now, has) = admit-Has (length later) t l h in (now, ih has)

  clean-Has : (n t : ℕ) (l : Limiter T) → Has n l → Has n (clean T l t)
  unfolding Has clean
  clean-Has n t l h = (sweep-Has n t (l.buckets k) h.0 h.1, h.1)

  asks-Pass :
      (l : Limiter T) (asks : List Ask)
      → Has (length (answers k (decisions T l asks))) l
      → Pass (answers k (decisions T l asks))
  unfolding decisions answers Pass
  asks-Pass l [] = λ h. tt
  asks-Pass l (cleanup t ∷ rest) = λ h. asks-Pass (clean T l t) rest (clean-Has _ t l h)
  asks-Pass l (request j t ∷ rest) = elim (Bool-cases (str_eq j k)) [
    | inl same ↦
        subst
          (λ z.
            Has (length (answers k (decisions T l (request z t ∷ rest)))) l
            → Pass (answers k (decisions T l (request z t ∷ rest))))
          (sym (str_eq→eq j k same))
          (rw (str_eq_refl k) (
            more-Pass l t (answers k (decisions T (admit T l k t).1 rest))
              (asks-Pass (admit T l k t).1 rest)))
    | inr other ↦ rw other (λ h. asks-Pass (admit T l j t).1 rest (other-Has _ t j l other h))
  ]

  -- From the start, a client's requests are all admitted as long as they are no more than the burst,
  -- at whatever times, and whatever other clients and the cleanup do.
  pub first_requests_pass :
      (per_minute : ℤ) (asks : List Ask)
      → length (answers k (decisions T (new T per_minute) asks)) ≤ burst
      → All (λ a. a ≡ true) (answers k (decisions T (new T per_minute) asks))
  unfolding Pass
  first_requests_pass per_minute asks short =
      asks-Pass (new T per_minute) asks (new-Has per_minute _ short)
