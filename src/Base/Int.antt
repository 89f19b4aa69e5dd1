-- ===== src/Base/Int.antt =====
-- Signed integers over the native numbers: Go's `int`, whose range is a hypothesis where it matters.
use mathlib.Core.Path.{◌≡◌, refl}
use mathlib.Core.Logic.{◌↔◌, ◌≢◌, inl, inr}
use mathlib.Core.Bool.{Bool, true, false}
use Prim.Native.Nat.{ℕ}
use native.Mathlib.Omega.{arith}
use grab_seat.Base.Tests.{◌==◌, ltb, Bool-cases}

-- `negsuc n` is -(n + 1).
pub data ℤ : Type 0 where
  pos : ℕ → ℤ
  negsuc : ℕ → ℤ

abbrev pub int_eq : ℤ → ℤ → Bool
int_eq (pos m) (pos n) = m == n
int_eq (negsuc m) (negsuc n) = m == n
int_eq _ _ = false

pub int_eq_iff : (a b : ℤ) → (int_eq a b ≡ true) ↔ (a ≡ b)
int_eq_iff (pos m) (pos n) = (λ h. ground arith, λ h. ground arith)
int_eq_iff (pos m) (negsuc n) = (λ h. cc, λ h. cc)
int_eq_iff (negsuc m) (pos n) = (λ h. cc, λ h. cc)
int_eq_iff (negsuc m) (negsuc n) = (λ h. ground arith, λ h. ground arith)

pub int_eq_refl : (a : ℤ) → int_eq a a ≡ true
int_eq_refl a = (int_eq_iff a a).1 refl

pub int_eq→eq : (a b : ℤ) → int_eq a b ≡ true → a ≡ b
int_eq→eq a b = (int_eq_iff a b).0

pub int_eq→ne : (a b : ℤ) → int_eq a b ≡ false → a ≢ b
int_eq→ne a b h e = cc ((int_eq_iff a b).1 e)

pub ne→int_eq : (a b : ℤ) → a ≢ b → int_eq a b ≡ false
ne→int_eq a b h = elim (Bool-cases (int_eq a b)) [
  | inl same ↦ absurd (h (int_eq→eq a b same))
  | inr other ↦ other
]

abbrev pub int_ltb : ℤ → ℤ → Bool
int_ltb (pos m) (pos n) = ltb m n
int_ltb (pos m) (negsuc n) = false
int_ltb (negsuc m) (pos n) = true
int_ltb (negsuc m) (negsuc n) = ltb n m
