-- ===== src/Examples/Shapes.antt =====
-- attributes/: theorems at concrete tensors.
use fusilli.Base.{
  Bool, All, for_range, put, ◌<◌, ◌*◌, sym, ◌∙◌, ok-injective, ℕ, zero, suc, ◌≡◌, refl, ◌↔◌, true,
  some, List, [], ◌∷◌, map, pos, ok, ◌>>=◌, length, at, arith, product,
}
use fusilli.Tensor.Attr.{TensorAttr, default_tensor, canonicalize_dynamic_dims}
use fusilli.Tensor.Attr.Dynamic.{canonicalize_dynamic_dims_lem, StrictlyAscending}
use fusilli.Tensor.Broadcast.{
  compute_broadcast_shape, broadcast_shapes, max_size, non_empty_shapes, broadcast_dim,
}
use fusilli.Tensor.Broadcast.Laws.{Suits, compute_broadcast_shape_lem}
use fusilli.Tensor.Layout.{is_contiguous, is_channels_last, contains_index}
use fusilli.Tensor.Layout.Laws.{is_contiguous_iff, is_channels_last_iff}
use fusilli.Tensor.Order.{
  get_contiguous_stride_order, get_channels_last_stride_order, inverse_permutation,
}
use fusilli.Tensor.Order.Inverse.{IsPermutation, inverse_permutation_lem}
use fusilli.Tensor.Stride.{generate_stride_from_dim}
use fusilli.Tensor.Stride.Rounds.{suffix_products, times}
use fusilli.Tensor.Stride.Laws.{Extents, contiguous_strides, channels_last_strides}
use fusilli.Tensor.Types.{DataType, mlir_type_asm, data_type_of_asm}
use fusilli.Tensor.Types.Laws.{data_type_of_asm-mlir_type_asm}
use fusilli.Tensor.Validate.{validate}
use fusilli.Tensor.Validate.Laws.{IsValid, validate_iff}

abbrev image_dims : List ℕ
image_dims = 2 ∷ 3 ∷ 4 ∷ 5 ∷ []

abbrev image : TensorAttr
image = record default_tensor {
  name = "x";
  data_type = DataType.float;
  dim = map pos image_dims;
  stride = pos 60 ∷ pos 20 ∷ pos 5 ∷ pos 1 ∷ [];
}

image-Extents : Extents image_dims
image-Extents = ((omega arith, (omega arith, (omega arith, (omega arith, tt)))), omega arith)

contiguous_strides_example :
    (get_contiguous_stride_order (length (map pos image_dims))
      >>= generate_stride_from_dim (map pos image_dims))
    ≡ ok (map pos (suffix_products image_dims))
contiguous_strides_example = contiguous_strides 2 (3 ∷ 4 ∷ 5 ∷ []) image-Extents

channels_last_strides_example :
    (get_channels_last_stride_order (length (map pos image_dims))
      >>= generate_stride_from_dim (map pos image_dims))
    ≡ ok (pos (3 * product (4 ∷ 5 ∷ [])) ∷ pos 1 ∷ times 3 (suffix_products (4 ∷ 5 ∷ [])))
channels_last_strides_example = channels_last_strides 2 3 4 (5 ∷ []) image-Extents

is_contiguous_iff_example :
    (b : Bool) × (is_contiguous image ≡ ok b)
    × ((b ≡ true) ↔ (image.stride ≡ map pos (suffix_products image_dims)))
is_contiguous_iff_example = is_contiguous_iff image 2 (3 ∷ 4 ∷ 5 ∷ []) refl image-Extents

is_channels_last_iff_example :
    (b : Bool) × (is_channels_last image ≡ ok b)
    × ((b ≡ true) ↔ (
        image.stride
        ≡ pos (3 * product (4 ∷ 5 ∷ [])) ∷ pos 1 ∷ times 3 (suffix_products (4 ∷ 5 ∷ []))))
is_channels_last_iff_example = is_channels_last_iff image 2 3 4 (5 ∷ []) refl image-Extents

swap-IsPermutation : IsPermutation (1 ∷ 0 ∷ [])
unfolding at
swap-IsPermutation = (below, distinct)
  where
    below : (i j : ℕ) → at (1 ∷ 0 ∷ []) i ≡ ok j → j < 2
    below zero j h = let e = ok-injective h in omega arith
    below (suc zero) j h = let e = ok-injective h in omega arith
    below (suc (suc i)) j h = cc

    distinct : (i i' j : ℕ) → at (1 ∷ 0 ∷ []) i ≡ ok j → at (1 ∷ 0 ∷ []) i' ≡ ok j → i ≡ i'
    distinct zero zero j h h' = refl
    distinct zero (suc zero) j h h' = let e = ok-injective (h ∙ sym h') in absurd (omega arith)
    distinct zero (suc (suc i)) j h h' = cc
    distinct (suc zero) zero j h h' = let e = ok-injective (h ∙ sym h') in absurd (omega arith)
    distinct (suc zero) (suc zero) j h h' = refl
    distinct (suc zero) (suc (suc i)) j h h' = cc
    distinct (suc (suc i)) i' j h h' = cc

inverse_permutation_example :
    (q : List ℕ) × (inverse_permutation (1 ∷ 0 ∷ []) ≡ ok q)
    × (length q ≡ 2)
    × ((i j : ℕ) → at (1 ∷ 0 ∷ []) i ≡ ok j → at q j ≡ ok i)
inverse_permutation_example = inverse_permutation_lem (1 ∷ 0 ∷ []) swap-IsPermutation

data_type_example : data_type_of_asm "f8E5M2" ≡ some DataType.fp8e5m2
unfolding mlir_type_asm
data_type_example = data_type_of_asm-mlir_type_asm DataType.fp8e5m2 {asm = "f8E5M2"} refl

validate_iff_example : (validate image ≡ ok tt) ↔ IsValid image
validate_iff_example = validate_iff image

canonicalize_dynamic_dims_example :
    StrictlyAscending (canonicalize_dynamic_dims (2 ∷ 0 ∷ 2 ∷ []))
    × ((i : ℕ)
        → contains_index i (canonicalize_dynamic_dims (2 ∷ 0 ∷ 2 ∷ []))
          ≡ contains_index i (2 ∷ 0 ∷ 2 ∷ []))
canonicalize_dynamic_dims_example = canonicalize_dynamic_dims_lem (2 ∷ 0 ∷ 2 ∷ [])

two_shapes_common :
    compute_broadcast_shape ((pos 3 ∷ pos 1 ∷ []) ∷ (pos 4 ∷ []) ∷ []) ≡ ok (pos 3 ∷ pos 4 ∷ [])
unfolding compute_broadcast_shape broadcast_shapes max_size non_empty_shapes broadcast_dim for_range
    at put
two_shapes_common = refl

compute_broadcast_shape_example :
    (2 ≡ max_size (non_empty_shapes ((pos 3 ∷ pos 1 ∷ []) ∷ (pos 4 ∷ []) ∷ [])))
    × All
        (λ shape. Suits (length shape) shape (pos 3 ∷ pos 4 ∷ []))
        (non_empty_shapes ((pos 3 ∷ pos 1 ∷ []) ∷ (pos 4 ∷ []) ∷ []))
compute_broadcast_shape_example =
    compute_broadcast_shape_lem ((pos 3 ∷ pos 1 ∷ []) ∷ (pos 4 ∷ []) ∷ []) (pos 3 ∷ pos 4 ∷ [])
      two_shapes_common
