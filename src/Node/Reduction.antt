-- ===== src/Node/Reduction.antt =====
-- node/reduction_node.h, attributes/reduction_attributes.h: reductions.
pub mod Laws
use fusilli.Base.{
  ℕ, zero, suc, ◌!=◌, Bool, true, false, not, ◌&&◌, ◌||◌, List, [], ◌∷◌, ◌++◌, ℤ, pos, ◌==ℤ◌, ltb_ℤ,
  length, is_empty, String, Outcome, ok, error_if, attribute_not_set, invalid_attribute, ◌>>=◌,
  ◌>>◌, at, for_range, if◌then◌else◌,
}
use fusilli.Graph.Context.{Context}
use fusilli.Tensor.Types.{DataType, is_integral_or_bool_type}
use fusilli.Tensor.Order.{get_contiguous_stride_order}
use fusilli.Tensor.Stride.{generate_stride_from_dim}
use fusilli.Node.Store.{
  Store, Ptr, deref, modify, set_dim, set_stride, require, fill_tensors, fill_compute, infer_dim,
}

pub data Mode : Type 0 where
  not_set add sum mul min max amax avg norm1 norm2 mul_no_zeros : Mode

pub record ReductionAttr : Type 0 where
  pub name : String
  pub compute_data_type : DataType
  pub mode : Mode
  pub x : Ptr
  pub y : Ptr

abbrev pub is_not_set : Mode → Bool
is_not_set not_set = true
is_not_set _ = false

abbrev pub is_avg : Mode → Bool
is_avg avg = true
is_avg _ = false

unfoldable pub reduction_dims : List ℤ → List ℤ → Outcome (List ℕ)
reduction_dims x_dim y_dim =
    for_range 0 (length x_dim)
      (λ i dims. do
        y ← at y_dim i
        x ← at x_dim i
        ok (if y ==ℤ pos 1 && ltb_ℤ (pos 1) x then dims ++ i ∷ [] else dims))
      []

unfoldable pub get_reduction_dims : ReductionAttr → Store → Outcome (List ℕ)
unfolding reduction_dims
get_reduction_dims attr st = do x ← deref st attr.x; y ← deref st attr.y; reduction_dims x.dim y.dim

unfoldable pub pre_validate_node : ReductionAttr → Store → Outcome (Unit {0})
pre_validate_node attr st = do
  error_if (is_not_set attr.mode) attribute_not_set
  require attr.x
  require attr.y
  x ← deref st attr.x
  error_if (is_empty x.dim) attribute_not_set

unfoldable pub infer_properties_node :
    Context → ReductionAttr → Store → Outcome (ReductionAttr × Store)
infer_properties_node context attr st = do
  let attr' = record attr { compute_data_type = fill_compute context attr.compute_data_type }
  st₁ ← fill_tensors context (attr.x ∷ attr.y ∷ []) st
  x ← deref st₁ attr.x
  st₂ ← infer_dim attr.y x.dim st₁
  y ← deref st₂ attr.y
  st₃ ←
      (if is_empty y.stride
        then (do
          order ← get_contiguous_stride_order (length y.dim)
          stride ← generate_stride_from_dim y.dim order
          modify attr.y (set_stride stride) st₂)
        else ok st₂)
  ok (attr', st₃)

-- An output dimension is 1 or that of the input.
unfoldable pub check_reduced : List ℤ → List ℤ → Outcome (Unit {0})
check_reduced x_dim y_dim =
    for_range 0 (length x_dim)
      (λ i _. do
        y ← at y_dim i
        x ← at x_dim i
        error_if (not (y ==ℤ pos 1) && not (y ==ℤ x)) invalid_attribute)
      tt

unfoldable pub post_validate_node : ReductionAttr → Store → Outcome (Unit {0})
unfolding check_reduced reduction_dims
post_validate_node attr st = do
  x ← deref st attr.x
  y ← deref st attr.y
  error_if (length x.dim != length y.dim) invalid_attribute
  error_if
      (is_avg attr.mode
        && (is_integral_or_bool_type x.data_type || is_integral_or_bool_type y.data_type))
      invalid_attribute
  check_reduced x.dim y.dim
  dims ← reduction_dims x.dim y.dim
  error_if (is_empty dims) invalid_attribute
