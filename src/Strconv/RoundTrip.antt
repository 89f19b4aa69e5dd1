-- ===== src/Strconv/RoundTrip.antt =====
-- strconv.Itoa and strconv.Atoi one after the other.
use Prim.Native.Nat.{zero, suc, ◌+◌, ◌-◌, ◌*◌, ◌/◌, ◌%◌, ◌<◌}
use grab_seat.Base.{ℕ, true, ◌≡◌, ap, inl, inr, [], ◌∷◌, ◌++◌, none, some, ltb, Bool-cases, arith}
use grab_seat.Base.Int.{ℤ, pos, negsuc}
use grab_seat.Base.Text.{Str}
use grab_seat.Strconv.{digits, itoa, is_digit, scan, unsigned, signed, negated, fits_int64, atoi}

-- Reading goes through the digits before the last one first.
scan-snoc :
    (s : Str) (c acc : ℕ)
    → scan (s ++ c ∷ []) acc ≡ (elim (scan s acc) [ none ↦ none | some m ↦ scan (c ∷ []) m ])
unfolding scan
scan-snoc [] c acc = ground arith
scan-snoc (d ∷ s) c acc = ground (arith, scan-snoc s c (acc * 10 + (d - b'0')))

scan-digits : (f n : ℕ) → n < f → scan (digits f n) 0 ≡ some n
unfolding digits
scan-digits zero n h = absurd (omega arith)
scan-digits (suc f) n h = elim (Bool-cases (ltb n 10)) [
  | inl small ↦ rw small (unfold scan in ground arith)
  | inr big ↦
      rw
        (
          big,
          scan-snoc (digits f (n / 10)) (b'0' + n % 10) 0,
          scan-digits f (n / 10) (ground arith),
        )
        (unfold scan in ground arith)
]

-- The digits start with a digit, which is no sign.
abbrev StartsWithDigit : Str → Type 0
StartsWithDigit [] = ⊥
StartsWithDigit (c ∷ s) = is_digit c ≡ true

StartsWithDigit-append : (s t : Str) → StartsWithDigit s → StartsWithDigit (s ++ t)
StartsWithDigit-append [] t h = absurd h
StartsWithDigit-append (c ∷ s) t h = h

digits-StartsWithDigit : (f n : ℕ) → n < f → StartsWithDigit (digits f n)
unfolding digits
digits-StartsWithDigit zero n h = absurd (omega arith)
digits-StartsWithDigit (suc f) n h = elim (Bool-cases (ltb n 10)) [
  | inl small ↦ rw small (unfold is_digit in ground arith)
  | inr big ↦ rw big (
      StartsWithDigit-append (digits f (n / 10)) _
        (digits-StartsWithDigit f (n / 10) (ground arith)))
]

unsigned-digits : (s : Str) {n : ℕ} → StartsWithDigit s → scan s 0 ≡ some n → unsigned s ≡ some n
unfolding unsigned
unsigned-digits [] h e = absurd h
unsigned-digits (c ∷ s) h e = e

signed-digits :
    (s : Str) {n : ℕ} → StartsWithDigit s → unsigned s ≡ some n → signed s ≡ some (pos n)
unfolding signed is_digit
signed-digits [] h e = absurd h
signed-digits (c ∷ s) h e = ground arith

unsigned_printed : (n : ℕ) → unsigned (digits (suc n) n) ≡ some n
unsigned_printed n =
    unsigned-digits (digits (suc n) n) (digits-StartsWithDigit (suc n) n (omega arith))
      (scan-digits (suc n) n (omega arith))

-- Every integer is read back, whatever its size.
pub signed-itoa : (z : ℤ) → signed (itoa z) ≡ some z
unfolding itoa
signed-itoa (pos n) =
    signed-digits (digits (suc n) n) (digits-StartsWithDigit (suc n) n (omega arith))
      (unsigned_printed n)
signed-itoa (negsuc n) = unfold signed negated in rw (unsigned_printed (suc n))

-- An integer of 64 bits that is printed is read back.
pub atoi-itoa : (z : ℤ) → fits_int64 z ≡ true → atoi (itoa z) ≡ some z
unfolding atoi
atoi-itoa z h = rw (signed-itoa z, h)

-- Two integers never print alike.
pub itoa_injective : (y z : ℤ) → itoa y ≡ itoa z → y ≡ z
itoa_injective y z e = cc (signed-itoa y, signed-itoa z, ap signed e)
