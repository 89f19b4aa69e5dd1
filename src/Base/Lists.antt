-- ===== src/Base/Lists.antt =====
-- Lists measured by native numbers, and predicates on lists by recursion.
use Prim.Native.Nat.{ℕ, suc, ◌+◌}
use mathlib.Core.Path.{◌≡◌, refl, ap}
use mathlib.Core.Logic.{◌⊎◌, inl, inr}
use mathlib.Core.List.{List, [], ◌∷◌, ◌++◌}
use native.Mathlib.Omega.{arith}

module _ {ℓ} {A : Type ℓ} where
  abbrev pub length : List A → ℕ
  length [] = 0
  length (x ∷ xs) = suc (length xs)

  pub length-append : (xs ys : List A) → length (xs ++ ys) ≡ length xs + length ys
  length-append [] ys = omega arith
  length-append (x ∷ xs) ys = omega (arith, length-append xs ys)

  pub append_nil : (xs : List A) → xs ≡ xs ++ []
  append_nil [] = refl
  append_nil (x ∷ xs) = ap (◌∷◌ x) (append_nil xs)

  pub append_assoc : (xs ys zs : List A) → (xs ++ ys) ++ zs ≡ xs ++ (ys ++ zs)
  append_assoc [] ys zs = refl
  append_assoc (x ∷ xs) ys zs = ap (◌∷◌ x) (append_assoc xs ys zs)

  -- Every element satisfies `P`; some element does.
  abbrev pub All {κ} : (A → Type κ) → List A → Type κ
  All P [] = Unit
  All P (x ∷ xs) = P x × All P xs

  abbrev pub Any : (A → Type 0) → List A → Type 0
  Any P [] = ⊥
  Any P (x ∷ xs) = P x ⊎ Any P xs

module _ {ℓ} {A : Type ℓ} (P Q : A → Type 0) where
  pub All-mono : ((a : A) → P a → Q a) → (xs : List A) → All P xs → All Q xs
  All-mono f [] h = tt
  All-mono f (x ∷ xs) h = (f x h.0, All-mono f xs h.1)

  pub All-Any : (R : Type 0) → ((a : A) → P a → Q a → R) → (xs : List A) → All P xs → Any Q xs → R
  All-Any R f [] h e = absurd e
  All-Any R f (x ∷ xs) h (inl e) = f x h.0 e
  All-Any R f (x ∷ xs) h (inr e) = All-Any R f xs h.1 e

module _ {ℓ} {A : Type ℓ} (P Q : A → Type 0) where
  pub Any-mono : ((a : A) → P a → Q a) → (xs : List A) → Any P xs → Any Q xs
  Any-mono f [] h = absurd h
  Any-mono f (x ∷ xs) (inl h) = inl (f x h)
  Any-mono f (x ∷ xs) (inr h) = inr (Any-mono f xs h)

  -- The element that satisfies `Q` satisfies `P` as well.
  pub Any-both : (xs : List A) → All P xs → Any Q xs → Any (λ a. P a × Q a) xs
  Any-both [] h e = absurd e
  Any-both (x ∷ xs) h (inl e) = inl (h.0, e)
  Any-both (x ∷ xs) h (inr e) = inr (Any-both xs h.1 e)

module _ {ℓ} {A : Type ℓ} (P : A → Type 0) where
  pub All-append : (xs ys : List A) → All P xs → All P ys → All P (xs ++ ys)
  All-append [] ys h k = k
  All-append (x ∷ xs) ys h k = (h.0, All-append xs ys h.1 k)
