-- ===== src/Support/Int4/Bits.antt =====
-- support/int_types.h: bit operations as arithmetic, and the value of a four-bit integer.
use fusilli.Base.{
  ℕ, zero, suc, ◌+◌, ◌*◌, ◌/◌, ◌%◌, ◌^◌, ◌<◌, ltb, ◌≡◌, refl, if◌then◌else◌, ℤ, pos, negsuc, arith,
  sub_ℕ,
}
use fusilli.Support.Int4.{
  bit_and, bit_or, Int4, clamp, to_uint8, to_int8, from_int, to_bits, to_int,
}

bit_and_zero : (width a : ℕ) → bit_and width a 0 ≡ 0
unfolding bit_and
bit_and_zero zero a = refl
bit_and_zero (suc width) a = omega (arith, bit_and_zero width (a / 2))

bit_and_odd :
    (width a b : ℕ) → bit_and (suc width) a (2 * b + 1) ≡ a % 2 + 2 * bit_and width (a / 2) b
unfolding bit_and
bit_and_odd width a b = let half : (2 * b + 1) / 2 ≡ b = omega arith in rw half (omega arith)

bit_and_even : (width a b : ℕ) → bit_and (suc width) a (2 * b) ≡ 2 * bit_and width (a / 2) b
unfolding bit_and
bit_and_even width a b = let half : (2 * b) / 2 ≡ b = omega arith in rw half (omega arith)

bit_or_even : (width a b : ℕ) → bit_or (suc width) a (2 * b) ≡ a % 2 + 2 * bit_or width (a / 2) b
unfolding bit_or
bit_or_even width a b = let half : (2 * b) / 2 ≡ b = omega arith in rw half (omega arith)

bit_or_zero : (width b : ℕ) → b < 2 ^ width → bit_or width 0 b ≡ b
unfolding bit_or
bit_or_zero zero b small = omega arith
bit_or_zero (suc width) b small =
    let power : 2 ^ suc width ≡ 2 * 2 ^ width = ground arith in
    omega (arith, bit_or_zero width (b / 2) (omega arith))

pub low_nibble : (a : ℕ) → bit_and 8 a 15 ≡ a % 16
low_nibble a = omega (
  arith,
  bit_and_odd 7 a 7,
  bit_and_odd 6 (a / 2) 3,
  bit_and_odd 5 (a / 2 / 2) 1,
  bit_and_odd 4 (a / 2 / 2 / 2) 0,
  bit_and_zero 4 (a / 2 / 2 / 2 / 2),
)

pub sign_bit : (a : ℕ) → bit_and 8 a 8 ≡ 8 * (a / 8 % 2)
sign_bit a = omega (
  arith,
  bit_and_even 7 a 4,
  bit_and_even 6 (a / 2) 2,
  bit_and_even 5 (a / 2 / 2) 1,
  bit_and_odd 4 (a / 2 / 2 / 2) 0,
  bit_and_zero 4 (a / 2 / 2 / 2 / 2),
)

pub bit_or-byte : (b : ℕ) → b < 2 ^ 8 → bit_or 8 0 b ≡ b
bit_or-byte b small = bit_or_zero 8 b small

pub bit_or-nibbles : (a b : ℕ) → a < 16 → b < 16 → bit_or 8 a (16 * b) ≡ a + 16 * b
bit_or-nibbles a b la lb =
    let none_left : a / 2 / 2 / 2 / 2 ≡ 0 = omega arith in
    let high : bit_or 4 (a / 2 / 2 / 2 / 2) b ≡ b = rw none_left (bit_or_zero 4 b (omega arith)) in
    let same : 16 * b ≡ 2 * (2 * (2 * (2 * b))) = omega arith in
    rw same (
      omega (
        arith,
        high,
        bit_or_even 7 a (2 * (2 * (2 * b))),
        bit_or_even 6 (a / 2) (2 * (2 * b)),
        bit_or_even 5 (a / 2 / 2) (2 * b),
        bit_or_even 4 (a / 2 / 2 / 2) b,
      ))

pub to_bits_lem : (element : Int4) → to_bits element ≡ element.data_ % 16
unfolding to_bits
to_bits_lem element = low_nibble element.data_

-- The value of a four-bit integer is its bits read as two's complement.
pub to_int_lem :
    (element : Int4)
    → to_int element ≡ (
        if ltb (element.data_ % 16) 8
        then pos (element.data_ % 16)
        else sub_ℕ (element.data_ % 16) 16)
unfolding to_int to_int8
to_int_lem element =
    let bits = to_bits_lem element in
    let negative = sign_bit (element.data_ % 16) in
    let all = bit_or-nibbles (element.data_ % 16) 15 (omega arith) (omega arith) in
    rw (bits, negative, all) ground arith

-- An integer that is stored in four bits is read back as itself between -8 and 7, as -8 below and
-- as 7 above.
pub to_int-from_int : (value : ℤ) → to_int (from_int value) ≡ clamp value (negsuc 7) (pos 7)
unfolding from_int clamp to_uint8
to_int-from_int (pos n) = rw (to_int_lem (from_int (pos n))) (ground arith)
to_int-from_int (negsuc n) = rw (to_int_lem (from_int (negsuc n))) (ground arith)
