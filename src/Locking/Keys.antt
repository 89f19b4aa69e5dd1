-- ===== src/Locking/Keys.antt =====
-- The Redis keys and result codes of backend/locking/locking.go.
use grab_seat.Base.{
  true, false, ◌≡◌, ◌≢◌, refl, sym, ◌++◌, Option, none, some, arith, if◌then◌else◌,
}
use grab_seat.Base.Int.{ℤ, pos}
use grab_seat.Base.Text.{
  Str, codes, str_eq, ne→str_eq, has_prefix, trim_prefix, has_prefix-append, trim_prefix-append,
}
use grab_seat.Strconv.{itoa, atoi, signed, fits_int64}
use grab_seat.Strconv.RoundTrip.{atoi-itoa, itoa_injective}

abbrev pub hold_prefix : Str
hold_prefix = codes "hold:"

abbrev pub booked_prefix : Str
booked_prefix = codes "booked:"

abbrev pub hold_acquired : Str
hold_acquired = codes "OK"

abbrev pub hold_taken : Str
hold_taken = codes "HELD"

abbrev pub hold_booked : Str
hold_booked = codes "BOOKED"

-- holdKey, bookedKey
unfoldable pub hold_key : ℤ → Str
hold_key seat = hold_prefix ++ itoa seat

unfoldable pub booked_key : ℤ → Str
booked_key seat = booked_prefix ++ itoa seat

-- seatIDFromKey: `none` for the result (0, false)
unfoldable pub seat_id_from_key : Str → Str → Option ℤ
seat_id_from_key key prefix = if has_prefix key prefix then atoi (trim_prefix key prefix) else none

-- The key of a seat whose id fits in an int is read back as that seat.
pub seat_id_from_key-hold_key :
    (seat : ℤ) → fits_int64 seat ≡ true → seat_id_from_key (hold_key seat) hold_prefix ≡ some seat
unfolding seat_id_from_key hold_key
seat_id_from_key-hold_key seat h =
    rw (has_prefix-append hold_prefix (itoa seat), trim_prefix-append hold_prefix (itoa seat))
      (atoi-itoa seat h)

-- A booked marker is not taken for a hold.
pub seat_id_from_key-booked_key : (seat : ℤ) → seat_id_from_key (booked_key seat) hold_prefix ≡ none
unfolding seat_id_from_key booked_key has_prefix
seat_id_from_key-booked_key seat = refl

pub hold_key_injective : (x y : ℤ) → hold_key x ≡ hold_key y → x ≡ y
unfolding hold_key
hold_key_injective x y e = itoa_injective x y (cc)

pub booked_key_injective : (x y : ℤ) → booked_key x ≡ booked_key y → x ≡ y
unfolding booked_key
booked_key_injective x y e = itoa_injective x y (cc)

pub hold_key-ne-booked_key : (x y : ℤ) → hold_key x ≢ booked_key y
unfolding hold_key booked_key
hold_key-ne-booked_key x y e = ground arith

-- The cases of backend/locking/keys_test.go.
keys_test :
    (seat_id_from_key (codes "hold:42") hold_prefix ≡ some (pos 42))
    × (seat_id_from_key (codes "booked:7") booked_prefix ≡ some (pos 7))
    × (seat_id_from_key (codes "hold:notanumber") hold_prefix ≡ none)
    × (seat_id_from_key (codes "other:5") hold_prefix ≡ none)
    × (seat_id_from_key (codes "hold:") hold_prefix ≡ none)
unfolding seat_id_from_key atoi has_prefix trim_prefix signed
keys_test = (refl, refl, refl, refl, refl)

-- Keys of different seats, and of different kinds, are different.
pub hold_keys_apart : (x y : ℤ) → x ≢ y → str_eq (hold_key x) (hold_key y) ≡ false
hold_keys_apart x y h = ne→str_eq _ _ (λ e. h (hold_key_injective x y e))

pub booked_keys_apart : (x y : ℤ) → x ≢ y → str_eq (booked_key x) (booked_key y) ≡ false
booked_keys_apart x y h = ne→str_eq _ _ (λ e. h (booked_key_injective x y e))

pub hold_booked_apart : (x y : ℤ) → str_eq (hold_key x) (booked_key y) ≡ false
hold_booked_apart x y = ne→str_eq _ _ (hold_key-ne-booked_key x y)

pub booked_hold_apart : (x y : ℤ) → str_eq (booked_key x) (hold_key y) ≡ false
booked_hold_apart x y = ne→str_eq _ _ (λ e. hold_key-ne-booked_key y x (sym e))
