-- ===== src/Base/Text.antt =====
-- Go strings as their bytes.
use Prim.Native.Nat.{ℕ}
use Prim.Native.Char.{code}
use Prim.Native.String.{String}
use mathlib.Core.Path.{◌≡◌, refl}
use mathlib.Core.Logic.{◌↔◌, ◌≢◌, inl, inr}
use mathlib.Core.Bool.{Bool, true, false, ◌&&◌}
use mathlib.Core.List.{List, [], ◌∷◌, ◌++◌}
use native.Mathlib.Omega.{arith}
use grab_seat.Base.Tests.{◌==◌, Bool-cases}

abbrev pub Str : Type 0
Str = List ℕ

-- The bytes of an ASCII literal.
abbrev pub codes : String → Str
codes String.[] = []
codes (String.◌∷◌ c s) = code c ∷ codes s

unfoldable pub str_eq : Str → Str → Bool
str_eq [] [] = true
str_eq (c ∷ s) (d ∷ t) = (c == d) && str_eq s t
str_eq _ _ = false

pub str_eq_iff : (s t : Str) → (str_eq s t ≡ true) ↔ (s ≡ t)
unfolding str_eq
str_eq_iff [] [] = (λ h. refl, λ h. refl)
str_eq_iff [] (d ∷ t) = (λ h. cc, λ h. cc)
str_eq_iff (c ∷ s) [] = (λ h. cc, λ h. cc)
str_eq_iff (c ∷ s) (d ∷ t) =
    (λ h. ground (arith, str_eq_iff s t), λ h. ground (arith, str_eq_iff s t))

pub str_eq_refl : (s : Str) → str_eq s s ≡ true
str_eq_refl s = (str_eq_iff s s).1 refl

-- strings.HasPrefix and strings.TrimPrefix
unfoldable pub has_prefix : Str → Str → Bool
has_prefix s [] = true
has_prefix [] (p ∷ ps) = false
has_prefix (c ∷ s) (p ∷ ps) = (c == p) && has_prefix s ps

drop_as : Str → Str → Str
drop_as s [] = s
drop_as [] (p ∷ ps) = []
drop_as (c ∷ s) (p ∷ ps) = drop_as s ps

unfoldable pub trim_prefix : Str → Str → Str
unfolding has_prefix drop_as
trim_prefix s p = elim (has_prefix s p) [ true ↦ drop_as s p | false ↦ s ]

pub has_prefix-append : (p s : Str) → has_prefix (p ++ s) p ≡ true
unfolding has_prefix
has_prefix-append [] s = refl
has_prefix-append (c ∷ p) s = ground (arith, has_prefix-append p s)

drop_as-append : (p s : Str) → drop_as (p ++ s) p ≡ s
unfolding drop_as
drop_as-append [] s = refl
drop_as-append (c ∷ p) s = drop_as-append p s

pub trim_prefix-append : (p s : Str) → trim_prefix (p ++ s) p ≡ s
unfolding trim_prefix
trim_prefix-append p s = ground (arith, has_prefix-append p s, drop_as-append p s)

pub str_eq→eq : (s t : Str) → str_eq s t ≡ true → s ≡ t
str_eq→eq s t = (str_eq_iff s t).0

pub str_eq→ne : (s t : Str) → str_eq s t ≡ false → s ≢ t
str_eq→ne s t h e = cc ((str_eq_iff s t).1 e)

pub ne→str_eq : (s t : Str) → s ≢ t → str_eq s t ≡ false
ne→str_eq s t h = elim (Bool-cases (str_eq s t)) [
  | inl same ↦ absurd (h (str_eq→eq s t same))
  | inr other ↦ other
]
