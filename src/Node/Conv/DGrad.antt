-- ===== src/Node/Conv/DGrad.antt =====
-- node/conv_node.h, attributes/conv_attributes.h: the gradient of a convolution by its input.
use fusilli.Base.{
  ◌!=◌, ltb, ◌||◌, not, List, [], ◌∷◌, ℤ, ints_eq, length, is_empty, String, Outcome, ok, error_if,
  attribute_not_set, invalid_attribute, ◌>>=◌, ◌>>◌, at, if◌then◌else◌,
}
use fusilli.Graph.Context.{Context}
use fusilli.Tensor.Types.{DataType}
use fusilli.Node.Store.{
  Store, Ptr, deref, modify, set_stride, require, fill_tensors, fill_compute, check_layout,
}
use fusilli.Node.Conv.{
  get_conv_inferred_output_shape, check_spatial_sizes, check_groups, stride_like,
}

pub record ConvDGradAttr : Type 0 where
  pub name : String
  pub compute_data_type : DataType
  pub dy : Ptr
  pub w : Ptr
  pub dx : Ptr
  pub stride : List ℤ
  pub padding : List ℤ
  pub dilation : List ℤ

unfoldable pub pre_validate_node : ConvDGradAttr → Store → Outcome (Unit {0})
pre_validate_node attr st = do
  error_if (is_empty attr.padding) attribute_not_set
  error_if (is_empty attr.stride) attribute_not_set
  error_if (is_empty attr.dilation) attribute_not_set
  require attr.dy
  require attr.w
  require attr.dx
  dy ← deref st attr.dy
  w ← deref st attr.w
  error_if (ltb (length dy.dim) 3 || ltb (length w.dim) 3) invalid_attribute
  check_spatial_sizes (length dy.dim) attr.padding attr.stride attr.dilation
  check_layout dy
  check_layout w
  dx ← deref st attr.dx
  in_channels ← at dx.dim 1
  out_channels ← at w.dim 0
  filter_channels ← at w.dim 1
  check_groups in_channels out_channels filter_channels

unfoldable pub infer_properties_node :
    Context → ConvDGradAttr → Store → Outcome (ConvDGradAttr × Store)
infer_properties_node context attr st = do
  let attr' = record attr { compute_data_type = fill_compute context attr.compute_data_type }
  st₁ ← fill_tensors context (attr.dy ∷ attr.w ∷ attr.dx ∷ []) st
  dx ← deref st₁ attr.dx
  st₂ ←
      (if is_empty dx.stride
        then (do
          dy ← deref st₁ attr.dy
          stride ← stride_like dy dx.dim
          modify attr.dx (set_stride stride) st₁)
        else ok st₁)
  ok (attr', st₂)

unfoldable pub post_validate_node : ConvDGradAttr → Store → Outcome (Unit {0})
post_validate_node attr st = do
  dy ← deref st attr.dy
  w ← deref st attr.w
  dx ← deref st attr.dx
  error_if (ltb (length dx.dim) 3) invalid_attribute
  error_if (length dy.dim != length dx.dim) invalid_attribute
  expected ← get_conv_inferred_output_shape dx.dim w.dim attr.dilation attr.padding attr.stride
  error_if (not (ints_eq dy.dim expected)) invalid_attribute
  check_layout dx
