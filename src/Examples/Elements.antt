-- ===== src/Examples/Elements.antt =====
-- Packing three four-bit integers.
use fusilli.Base.{ℕ, ◌≡◌, List, [], ◌∷◌, map, length, pos, negsuc, ok}
use fusilli.Support.Int4.{Int4, clamp, from_int, to_bits, to_int, pack, unpack}
use fusilli.Support.Int4.Bits.{to_int-from_int}
use fusilli.Support.Int4.Packing.{unpack-pack}

abbrev three : List Int4
three = from_int (negsuc 2) ∷ from_int (pos 5) ∷ from_int (pos 100) ∷ []

unpack-pack_example :
    (bytes : List ℕ) × (es' : List Int4) × (pack three ≡ ok bytes)
    × (length bytes ≡ 2)
    × (unpack bytes 3 ≡ ok es')
    × (map to_bits es' ≡ map to_bits three)
    × (map to_int es' ≡ map to_int three)
unpack-pack_example = unpack-pack three

to_int-from_int_example : to_int (from_int (negsuc 99)) ≡ negsuc 7
unfolding clamp
to_int-from_int_example = to_int-from_int (negsuc 99)
