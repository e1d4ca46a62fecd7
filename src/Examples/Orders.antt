-- ===== src/Examples/Orders.antt =====
-- A stride order for the strides of a channels-last image.
use fusilli.Base.{ℕ, ◌<◌, ◌≡◌, refl, List, [], ◌∷◌, ℤ, pos, length, ok, at}
use fusilli.Tensor.Order.{generate_stride_order_preserving_format}
use fusilli.Tensor.Order.Monotone.{generate_stride_order_preserving_format_monotone}

abbrev strides : List ℤ
strides = pos 24 ∷ pos 1 ∷ pos 6 ∷ pos 2 ∷ []

generate_stride_order_preserving_format_example :
    (order : List ℕ) × (i : ℕ) × (i' : ℕ) × (generate_stride_order_preserving_format strides 5
      ≡ ok order)
    × (length order ≡ 5)
    × (at order 1 ≡ ok i)
    × (at order 0 ≡ ok i')
    × (i < i')
unfolding at
generate_stride_order_preserving_format_example =
    generate_stride_order_preserving_format_monotone strides 5 1 0 (pos 1) (pos 24) refl refl refl
