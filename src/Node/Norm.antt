-- ===== src/Node/Norm.antt =====
-- node/norm_utils.h, attributes/common.h: what the normalization nodes share.
pub mod Layer
pub mod Rms
pub mod Batch
pub mod Frame
pub mod Laws
use fusilli.Base.{
  ℕ, zero, suc, ◌==◌, Bool, true, false, not, is_some, Option, none, some, List, [], ◌∷◌, ℤ, pos,
  ints_eq, length, replicate, is_empty, Outcome, ok, error_if, attribute_not_set, invalid_attribute,
  ◌>>=◌, ◌>>◌, at, put, if◌then◌else◌,
}
use fusilli.Tensor.Attr.{TensorAttr}
use fusilli.Tensor.Order.{get_contiguous_stride_order, generate_stride_order_preserving_format}
use fusilli.Tensor.Stride.{generate_stride_from_dim}
use fusilli.Node.Store.{Store, Ptr, deref, check_layout, infer_dim, infer_stride, require}

pub data NormFwdPhase : Type 0 where
  not_set training inference : NormFwdPhase

abbrev pub is_not_set : NormFwdPhase → Bool
is_not_set not_set = true
is_not_set _ = false

abbrev pub is_training : NormFwdPhase → Bool
is_training training = true
is_training _ = false

abbrev pub is_inference : NormFwdPhase → Bool
is_inference inference = true
is_inference _ = false

-- The shape without dimension `batch_dim`; `i` is the index of the first element.
unfoldable pub normalized_from : ℕ → ℕ → List ℤ → List ℤ
normalized_from batch_dim i [] = []
normalized_from batch_dim i (d ∷ ds) =
    let rest = normalized_from batch_dim (suc i) ds in if i == batch_dim then rest else d ∷ rest

unfoldable pub get_normalized_shape : List ℤ → ℕ → List ℤ
unfolding normalized_from
get_normalized_shape x_dim batch_dim = normalized_from batch_dim 0 x_dim

unfoldable pub get_training_forward_output_dim_and_stride : List ℤ → ℕ → Outcome (List ℤ × List ℤ)
get_training_forward_output_dim_and_stride x_dim batch_dim = do
  batch ← at x_dim batch_dim
  dim ← put (replicate (length x_dim) (pos 1)) batch_dim batch
  order ← get_contiguous_stride_order (length dim)
  stride ← generate_stride_from_dim dim order
  ok (dim, stride)

unfoldable pub get_scale_bias_dim : List ℤ → ℕ → Outcome (List ℤ)
get_scale_bias_dim x_dim batch_dim = put x_dim batch_dim (pos 1)

unfoldable pub get_scale_bias_stride : List ℤ → List ℤ → Outcome (List ℤ)
get_scale_bias_stride scale_bias_dim x_stride = do
  order ← generate_stride_order_preserving_format x_stride (length scale_bias_dim)
  generate_stride_from_dim scale_bias_dim order

unfoldable pub infer_dim_and_stride : Ptr → List ℤ → List ℤ → Store → Outcome Store
infer_dim_and_stride p dim stride st = infer_dim p dim st >>= infer_stride p stride

unfoldable pub infer_scale_bias_dim_and_stride : Ptr → List ℤ → List ℤ → Store → Outcome Store
unfolding get_scale_bias_dim get_scale_bias_stride
infer_scale_bias_dim_and_stride p x_dim x_stride st = do
  dim ← get_scale_bias_dim x_dim 0
  st₁ ← infer_dim p dim st
  t ← deref st₁ p
  stride ← get_scale_bias_stride t.dim x_stride
  infer_stride p stride st₁

-- `if (t) inferScaleBiasDimAndStride(t, ...)`
unfoldable pub infer_scale_bias : Ptr → TensorAttr → Store → Outcome Store
unfolding infer_scale_bias_dim_and_stride
infer_scale_bias none x st = ok st
infer_scale_bias (some i) x st = infer_scale_bias_dim_and_stride (some i) x.dim x.stride st

-- The checks of an input scale or bias, for what is set already.
unfoldable pub check_scale_bias : Ptr → List ℤ → Store → Outcome (Unit {0})
unfolding get_scale_bias_dim
check_scale_bias none x_dim st = ok tt
check_scale_bias (some i) x_dim st = do
  t ← deref st (some i)
  (if is_empty t.dim then ok tt else (do
    expected ← get_scale_bias_dim x_dim 0
    error_if (not (ints_eq t.dim expected)) invalid_attribute))
  if is_empty t.stride then ok tt else check_layout t

-- The checks of a constant such as epsilon.
unfoldable pub check_scalar_constant : Ptr → Store → Outcome (Unit {0})
check_scalar_constant p st = do
  require p
  t ← deref st p
  error_if (not t.is_scalar) invalid_attribute
