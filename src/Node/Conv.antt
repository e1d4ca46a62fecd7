-- ===== src/Node/Conv.antt =====
-- node/conv_node.h: what the three convolution nodes share.
pub mod FProp
pub mod WGrad
pub mod DGrad
pub mod Shape
pub mod Unset
pub mod Laws
use fusilli.Base.{
  ℕ, ◌+◌, ◌-◌, ◌!=◌, Bool, true, false, ◌||◌, not, List, [], ◌∷◌, ℤ, pos, ◌==ℤ◌, ltb_ℤ, leb_ℤ,
  length, replicate, Outcome, ok, error_if, invalid_attribute, ◌>>=◌, ◌>>◌, at, put, for_range,
  add64, sub64, mul64, div64, mod64,
}
use fusilli.Tensor.Attr.{TensorAttr}
use fusilli.Tensor.Layout.{is_contiguous}
use fusilli.Tensor.Order.{get_contiguous_stride_order, get_channels_last_stride_order}
use fusilli.Tensor.Stride.{generate_stride_from_dim}

-- `1 + (x - (w - 1) * dilation + 2 * padding - 1) / stride`
unfoldable pub conv_extent : ℤ → ℤ → ℤ → ℤ → ℤ → Outcome ℤ
conv_extent x w dilation padding stride = do
  w' ← sub64 w (pos 1)
  reach ← mul64 w' dilation
  left ← sub64 x reach
  pads ← mul64 (pos 2) padding
  padded ← add64 left pads
  last ← sub64 padded (pos 1)
  steps ← div64 last stride
  add64 (pos 1) steps

unfoldable pub get_conv_inferred_output_shape :
    List ℤ → List ℤ → List ℤ → List ℤ → List ℤ → Outcome (List ℤ)
unfolding conv_extent
get_conv_inferred_output_shape x_dim w_dim dilation padding stride = do
  n ← at x_dim 0
  y ← put (replicate (length x_dim) (pos 0)) 0 n
  k ← at w_dim 0
  y' ← put y 1 k
  for_range 2 (length x_dim - 2)
      (λ i y. do
        x ← at x_dim i
        w ← at w_dim i
        d ← at dilation (i - 2)
        p ← at padding (i - 2)
        s ← at stride (i - 2)
        extent ← conv_extent x w d p s
        put y i extent)
      y'

-- The sizes of `padding`, `stride` and `dilation` against the number of spatial dimensions.
unfoldable pub check_spatial_sizes : ℕ → List ℤ → List ℤ → List ℤ → Outcome (Unit {0})
check_spatial_sizes rank padding stride dilation = do
  error_if (length padding != rank - 2) invalid_attribute
  error_if (length stride != rank - 2) invalid_attribute
  error_if (length dilation != rank - 2) invalid_attribute

-- The group count checks.
unfoldable pub check_groups : ℤ → ℤ → ℤ → Outcome (Unit {0})
check_groups in_channels out_channels filter_channels = do
  r ← mod64 in_channels filter_channels
  error_if (not (r ==ℤ pos 0)) invalid_attribute
  group_count ← div64 in_channels filter_channels
  error_if
      (leb_ℤ group_count (pos 0)
        || (ltb_ℤ in_channels group_count || ltb_ℤ out_channels group_count))
      invalid_attribute
  r' ← mod64 out_channels group_count
  error_if (not (r' ==ℤ pos 0)) invalid_attribute

-- The strides for `dim` in the stride order of `t`, which is contiguous or channels-last.
unfoldable pub stride_like : TensorAttr → List ℤ → Outcome (List ℤ)
stride_like t dim = do
  contiguous ← is_contiguous t
  order ← elim contiguous [
    | true ↦ get_contiguous_stride_order (length dim)
    | false ↦ get_channels_last_stride_order (length dim)
  ]
  generate_stride_from_dim dim order
