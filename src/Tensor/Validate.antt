-- ===== src/Tensor/Validate.antt =====
-- attributes/tensor_attributes.h: `TensorAttr::validate`.
pub mod Laws
use fusilli.Base.{
  ℕ, ◌!=◌, leb, Bool, true, false, ◌&&◌, not, is_some, List, [], ◌∷◌, ℤ, pos, ◌==ℤ◌, length,
  is_empty, Outcome, ok, error_if, attribute_not_set, invalid_attribute, ◌>>=◌, ◌>>◌, at,
}
use fusilli.Tensor.Attr.{TensorAttr}
use fusilli.Tensor.Types.{is_set}
use fusilli.Tensor.Layout.{has_broadcast_dims, has_dynamic_dims}
use fusilli.Tensor.Physical.{has_valid_physical_representation}

unfoldable pub check_dynamic_dims : TensorAttr → List ℕ → Outcome (Unit {0})
check_dynamic_dims t [] = ok tt
check_dynamic_dims t (i ∷ rest) = do
  error_if (leb (length t.dim) i) invalid_attribute
  s ← at t.stride i
  error_if (s ==ℤ pos 0) invalid_attribute
  d ← at t.dim i
  error_if (d ==ℤ pos 1) invalid_attribute
  check_dynamic_dims t rest

unfoldable pub validate : TensorAttr → Outcome (Unit {0})
unfolding check_dynamic_dims has_dynamic_dims has_broadcast_dims
validate t = do
  error_if (is_empty t.dim) attribute_not_set
  error_if (is_empty t.stride) attribute_not_set
  error_if (length t.dim != length t.stride) invalid_attribute
  check_dynamic_dims t t.dynamic_dims
  error_if (has_broadcast_dims t && has_dynamic_dims t) invalid_attribute
  valid ← has_valid_physical_representation t
  error_if (not valid) invalid_attribute
  error_if (not (is_set t.data_type)) attribute_not_set
  error_if (t.is_virtual && t.is_scalar) invalid_attribute
  error_if (is_some t.scalar_value && not t.is_scalar) invalid_attribute
  error_if (not (is_some t.scalar_value) && t.is_scalar) invalid_attribute
  ok tt
