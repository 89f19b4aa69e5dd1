-- ===== src/Strconv.antt =====
-- Go's strconv.Itoa and strconv.Atoi, as backend/locking/locking.go and backend/config/config.go
-- use them. An `int` is 64 bits wide.
pub mod RoundTrip
use Prim.Native.Nat.{zero, suc, ◌+◌, ◌-◌, ◌*◌, ◌/◌, ◌%◌, ◌^◌}
use grab_seat.Base.{
  ℕ, Bool, true, false, ◌&&◌, ◌≡◌, refl, List, [], ◌∷◌, ◌++◌, Option, none, some, ltb, leb, ◌==◌,
  if◌then◌else◌, arith,
}
use grab_seat.Base.Int.{ℤ, pos, negsuc}
use grab_seat.Base.Text.{Str, codes}

-- The decimal digits of `n`, the last one last; the fuel is spent one unit for each digit.
digits : ℕ → ℕ → Str
digits zero n = []
digits (suc f) n =
    let front = digits f (n / 10) in
    if ltb n 10 then (b'0' + n) ∷ [] else front ++ (b'0' + n % 10) ∷ []

unfoldable pub itoa : ℤ → Str
unfolding digits
itoa (pos n) = digits (suc n) n
itoa (negsuc n) = b'-' ∷ digits (suc (suc n)) (suc n)

is_digit : ℕ → Bool
is_digit c = leb b'0' c && leb c b'9'

-- The number that the digits of a text spell behind `acc`.
scan : Str → ℕ → Option ℕ
unfolding is_digit
scan [] acc = some acc
scan (c ∷ s) acc = let rest = scan s (acc * 10 + (c - b'0')) in if is_digit c then rest else none

-- At least one digit.
unsigned : Str → Option ℕ
unfolding scan
unsigned [] = none
unsigned (c ∷ s) = scan (c ∷ s) 0

negated : ℕ → ℤ
negated zero = pos zero
negated (suc n) = negsuc n

-- An optional sign and digits, of any size.
unfoldable pub signed : Str → Option ℤ
unfolding unsigned negated
signed [] = none
signed (c ∷ s) =
    if c == b'-'
    then elim (unsigned s) [ none ↦ none | some n ↦ some (negated n) ]
    else if c == b'+'
    then elim (unsigned s) [ none ↦ none | some n ↦ some (pos n) ]
    else elim (unsigned (c ∷ s)) [ none ↦ none | some n ↦ some (pos n) ]

abbrev pub fits_int64 : ℤ → Bool
fits_int64 (pos n) = ltb n (2 ^ 63)
fits_int64 (negsuc n) = ltb n (2 ^ 63)

in_int64 : Option ℤ → Option ℤ
in_int64 none = none
in_int64 (some z) = if fits_int64 z then some z else none

-- `none` stands for a syntax error or a range error; no caller tells them apart.
unfoldable pub atoi : Str → Option ℤ
unfolding in_int64
atoi s = in_int64 (signed s)

itoa_samples :
    (itoa (pos 0) ≡ codes "0") × (itoa (pos 42) ≡ codes "42") × (itoa (negsuc 6) ≡ codes "-7")
unfolding itoa
itoa_samples = (refl, refl, refl)

atoi_samples :
    (atoi (codes "+5") ≡ some (pos 5))
    × (atoi (codes "") ≡ none)
    × (atoi (codes "12x") ≡ none)
    × (atoi (codes "9223372036854775808") ≡ none)
    × (atoi (codes "-9223372036854775808") ≡ some (negsuc 9223372036854775807))
unfolding atoi signed
atoi_samples = (refl, refl, refl, refl, refl)
