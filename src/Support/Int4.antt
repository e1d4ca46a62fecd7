-- ===== src/Support/Int4.antt =====
-- support/int_types.h: the signed four-bit integer and its packing, two to a byte.
use fusilli.Base.{
  ℕ, zero, suc, ◌+◌, ◌-◌, ◌*◌, ◌/◌, ◌%◌, ◌^◌, min, max, List, ℤ, pos, negsuc, sub_ℕ, ltb_ℤ, ◌==◌,
  if◌then◌else◌, ltb, length, replicate, Outcome, ok, error, fault, ◌>>=◌, at, put, for_range,
}
pub mod Bits
pub mod Packing

-- `a & b` and `a | b` of unsigned integers of `width` bits.
unfoldable pub bit_and : ℕ → ℕ → ℕ → ℕ
bit_and zero a b = 0
bit_and (suc width) a b = min (a % 2) (b % 2) + 2 * bit_and width (a / 2) (b / 2)

unfoldable pub bit_or : ℕ → ℕ → ℕ → ℕ
bit_or zero a b = 0
bit_or (suc width) a b = max (a % 2) (b % 2) + 2 * bit_or width (a / 2) (b / 2)

-- `data_`, the byte that the class stores, is below 2 ^ 8.
pub record Int4 : Type 0 where
  data_ : ℕ

-- `std::clamp`
unfoldable pub clamp : ℤ → ℤ → ℤ → ℤ
clamp value low high = if ltb_ℤ value low then low else if ltb_ℤ high value then high else value

-- The casts from an integer to `uint8_t` and from `uint8_t` to `int8_t`.
unfoldable pub to_uint8 : ℤ → ℕ
to_uint8 (pos n) = n % 2 ^ 8
to_uint8 (negsuc n) = 2 ^ 8 * (n / 2 ^ 8 + 1) - (n + 1)

unfoldable pub to_int8 : ℕ → ℤ
to_int8 byte = if ltb byte (2 ^ 7) then pos byte else sub_ℕ byte (2 ^ 8)

-- The constructor takes an `int8_t`; any integer is taken here, and it is clamped the same way.
unfoldable pub from_int : ℤ → Int4
from_int value = record { data_ = to_uint8 (clamp value (negsuc 7) (pos 7)) }

unfoldable pub to_bits : Int4 → ℕ
to_bits element = bit_and 8 element.data_ 15

unfoldable pub to_int : Int4 → ℤ
to_int element =
    let bits = to_bits element in
    if bit_and 8 bits 8 == 0 then to_int8 bits else to_int8 (bit_or 8 bits 240)

unfoldable pub from_bits : ℕ → Int4
from_bits bits = record { data_ = bit_and 8 bits 15 }

unfoldable pub pack : List Int4 → Outcome (List ℕ)
pack elements =
    for_range 0 (length elements)
      (λ i packed. do
        element ← at elements i
        byte ← at packed (i / 2)
        put packed (i / 2) (bit_or 8 byte (to_bits element * 2 ^ (i % 2 * 4) % 2 ^ 8)))
      (replicate ((length elements + 1) / 2) 0)

unfoldable pub unpack : List ℕ → ℕ → Outcome (List Int4)
unpack bytes count =
    for_range 0 count
      (λ i elements. do
        byte ← at bytes (i / 2)
        put elements i (from_bits (byte / 2 ^ (i % 2 * 4) % 2 ^ 8)))
      (replicate count (record { data_ = 0 }))
