-- ===== src/Node/Conv/WGrad.antt =====
-- node/conv_node.h, attributes/conv_attributes.h: the gradient of a convolution by its weights.
use fusilli.Base.{
  ◌!=◌, ltb, ◌||◌, not, List, [], ◌∷◌, ℤ, ints_eq, length, is_empty, String, Outcome, ok, error_if,
  attribute_not_set, invalid_attribute, ◌>>=◌, ◌>>◌, at, if◌then◌else◌,
}
use fusilli.Graph.Context.{Context}
use fusilli.Tensor.Types.{DataType}
use fusilli.Node.Store.{
  Store, Ptr, deref, modify, set_stride, require, fill_tensors, fill_compute, check_layout,
}
use fusilli.Node.Conv.{
  get_conv_inferred_output_shape, check_spatial_sizes, check_groups, stride_like,
}

pub record ConvWGradAttr : Type 0 where
  pub name : String
  pub compute_data_type : DataType
  pub dy : Ptr
  pub x : Ptr
  pub dw : Ptr
  pub stride : List ℤ
  pub padding : List ℤ
  pub dilation : List ℤ

unfoldable pub pre_validate_node : ConvWGradAttr → Store → Outcome (Unit {0})
pre_validate_node attr st = do
  error_if (is_empty attr.padding) attribute_not_set
  error_if (is_empty attr.stride) attribute_not_set
  error_if (is_empty attr.dilation) attribute_not_set
  require attr.dy
  require attr.x
  require attr.dw
  dy ← deref st attr.dy
  x ← deref st attr.x
  error_if (ltb (length dy.dim) 3 || ltb (length x.dim) 3) invalid_attribute
  error_if (length dy.dim != length x.dim) invalid_attribute
  check_spatial_sizes (length dy.dim) attr.padding attr.stride attr.dilation
  check_layout dy
  check_layout x
  in_channels ← at x.dim 1
  out_channels ← at dy.dim 1
  dw ← deref st attr.dw
  filter_channels ← at dw.dim 1
  check_groups in_channels out_channels filter_channels

unfoldable pub infer_properties_node :
    Context → ConvWGradAttr → Store → Outcome (ConvWGradAttr × Store)
infer_properties_node context attr st = do
  let attr' = record attr { compute_data_type = fill_compute context attr.compute_data_type }
  st₁ ← fill_tensors context (attr.dy ∷ attr.x ∷ attr.dw ∷ []) st
  dw ← deref st₁ attr.dw
  st₂ ←
      (if is_empty dw.stride
        then (do
          dy ← deref st₁ attr.dy
          stride ← stride_like dy dw.dim
          modify attr.dw (set_stride stride) st₁)
        else ok st₁)
  ok (attr', st₂)

unfoldable pub post_validate_node : ConvWGradAttr → Store → Outcome (Unit {0})
post_validate_node attr st = do
  dy ← deref st attr.dy
  x ← deref st attr.x
  dw ← deref st attr.dw
  error_if (ltb (length dw.dim) 3) invalid_attribute
  expected ← get_conv_inferred_output_shape x.dim dw.dim attr.dilation attr.padding attr.stride
  error_if (not (ints_eq dy.dim expected)) invalid_attribute
  check_layout dw
