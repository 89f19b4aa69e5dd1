-- ===== src/Base/Assoc.antt =====
-- A Go map with int keys, as an association list with each key once.
use mathlib.Core.Path.{◌≡◌, refl, subst}
use mathlib.Core.Logic.{inl, inr}
use mathlib.Core.Bool.{false}
use mathlib.Core.Option.{Option, none, some}
use mathlib.Core.List.{List, [], ◌∷◌}
use native.Mathlib.Omega.{arith}
use grab_seat.Base.Tests.{if◌then◌else◌, Bool-cases}
use grab_seat.Base.Lists.{All}
use grab_seat.Base.Int.{ℤ, int_eq, int_eq_iff, int_eq→eq}

module _ {ℓ} {V : Type ℓ} where
  unfoldable pub lookup : ℤ → List (ℤ × V) → Option V
  lookup k [] = none
  lookup k ((j, v) ∷ m) = if int_eq j k then some v else lookup k m

  unfoldable pub insert : ℤ → V → List (ℤ × V) → List (ℤ × V)
  insert k v [] = (k, v) ∷ []
  insert k v ((j, w) ∷ m) = if int_eq j k then (k, v) ∷ m else (j, w) ∷ insert k v m

  pub lookup-insert :
      (k j : ℤ) (v : V) (m : List (ℤ × V))
      → lookup j (insert k v m) ≡ (if int_eq k j then some v else lookup j m)
  unfolding lookup insert
  lookup-insert k j v [] = refl
  lookup-insert k j v ((i, w) ∷ m) =
      ground (arith, int_eq_iff k j, int_eq_iff i k, int_eq_iff i j, lookup-insert k j v m)

  -- No entry has the key `k`; every key occurs once.
  abbrev pub Fresh : ℤ → List (ℤ × V) → Type 0
  Fresh k m = All (λ p. int_eq p.0 k ≡ false) m

  abbrev pub Unique : List (ℤ × V) → Type 0
  Unique [] = Unit
  Unique (p ∷ m) = Fresh p.0 m × Unique m

  pub All-insert :
      (P : ℤ × V → Type 0) (k : ℤ) (v : V) (m : List (ℤ × V))
      → P (k, v)
      → All P m
      → All P (insert k v m)
  unfolding insert
  All-insert P k v [] p h = (p, tt)
  All-insert P k v ((j, w) ∷ m) p h = elim (Bool-cases (int_eq j k)) [
    | inl same ↦ rw same (p, h.1)
    | inr other ↦ rw other (h.0, All-insert P k v m p h.1)
  ]

  pub Unique-insert : (k : ℤ) (v : V) (m : List (ℤ × V)) → Unique m → Unique (insert k v m)
  unfolding insert
  Unique-insert k v [] h = (tt, tt)
  Unique-insert k v ((j, w) ∷ m) h = elim (Bool-cases (int_eq j k)) [
    | inl same ↦ rw same (subst (λ z. Fresh z m) (int_eq→eq j k same) h.0, h.1)
    | inr other ↦ rw other (
      All-insert (λ p. int_eq p.0 j ≡ false) k v m (ground (arith, int_eq_iff j k, int_eq_iff k j))
          h.0,
      Unique-insert k v m h.1,
    )
  ]
