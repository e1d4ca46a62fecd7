-- ===== src/Node/Conv/FProp.antt =====
-- node/conv_node.h, attributes/conv_attributes.h: the forward convolution.
use fusilli.Base.{
  ◌!=◌, ltb, not, List, [], ◌∷◌, ℤ, ints_eq, length, is_empty, String, Outcome, ok, error_if,
  attribute_not_set, invalid_attribute, ◌>>=◌, ◌>>◌, at, if◌then◌else◌,
}
use fusilli.Graph.Context.{Context}
use fusilli.Tensor.Types.{DataType}
use fusilli.Node.Store.{
  Store, Ptr, deref, modify, set_dim, set_stride, require, fill_tensors, fill_compute, check_layout,
}
use fusilli.Node.Conv.{
  get_conv_inferred_output_shape, check_spatial_sizes, check_groups, stride_like,
}

pub record ConvFPropAttr : Type 0 where
  pub name : String
  pub compute_data_type : DataType
  pub x : Ptr
  pub w : Ptr
  pub y : Ptr
  pub stride : List ℤ
  pub padding : List ℤ
  pub dilation : List ℤ

unfoldable pub pre_validate_node : ConvFPropAttr → Store → Outcome (Unit {0})
pre_validate_node attr st = do
  error_if (is_empty attr.padding) attribute_not_set
  error_if (is_empty attr.stride) attribute_not_set
  error_if (is_empty attr.dilation) attribute_not_set
  require attr.x
  require attr.w
  require attr.y
  x ← deref st attr.x
  w ← deref st attr.w
  error_if (ltb (length x.dim) 3) invalid_attribute
  error_if (length x.dim != length w.dim) invalid_attribute
  check_spatial_sizes (length x.dim) attr.padding attr.stride attr.dilation
  check_layout x
  check_layout w
  in_channels ← at x.dim 1
  out_channels ← at w.dim 0
  filter_channels ← at w.dim 1
  check_groups in_channels out_channels filter_channels

unfoldable pub infer_properties_node :
    Context → ConvFPropAttr → Store → Outcome (ConvFPropAttr × Store)
infer_properties_node context attr st = do
  let attr' = record attr { compute_data_type = fill_compute context attr.compute_data_type }
  st₁ ← fill_tensors context (attr.x ∷ attr.w ∷ attr.y ∷ []) st
  x ← deref st₁ attr.x
  w ← deref st₁ attr.w
  y ← deref st₁ attr.y
  (y_dim, st₂) ←
      (if is_empty y.dim
        then (do
          dim ← get_conv_inferred_output_shape x.dim w.dim attr.dilation attr.padding attr.stride
          st' ← modify attr.y (set_dim dim) st₁
          ok (dim, st'))
        else ok (y.dim, st₁))
  st₃ ←
      (if is_empty y.stride
        then (do
          x' ← deref st₂ attr.x
          stride ← stride_like x' y_dim
          modify attr.y (set_stride stride) st₂)
        else ok st₂)
  ok (attr', st₃)

unfoldable pub post_validate_node : ConvFPropAttr → Store → Outcome (Unit {0})
post_validate_node attr st = do
  x ← deref st attr.x
  w ← deref st attr.w
  y ← deref st attr.y
  error_if (ltb (length y.dim) 3) invalid_attribute
  error_if (length x.dim != length y.dim) invalid_attribute
  expected ← get_conv_inferred_output_shape x.dim w.dim attr.dilation attr.padding attr.stride
  error_if (not (ints_eq y.dim expected)) invalid_attribute
  check_layout y
