-- ===== src/Node/Norm/Batch.antt =====
-- node/batchnorm_node.h, attributes/batchnorm_attributes.h: batch normalization.
use fusilli.Base.{
  ltb, not, is_some, none, some, [], ◌∷◌, ℤ, pos, ints_eq, length, String, Outcome, ok, error_if,
  attribute_not_set, invalid_attribute, ◌>>=◌, ◌>>◌, at, if◌then◌else◌,
}
use fusilli.Graph.Context.{Context}
use fusilli.Tensor.Types.{DataType}
use fusilli.Node.Store.{Store, Ptr, deref, require, fill_tensors, fill_compute, check_layout}
use fusilli.Node.Norm.{
  NormFwdPhase, is_not_set, is_training, is_inference, infer_dim_and_stride, check_scalar_constant,
}

pub record BatchnormAttr : Type 0 where
  pub name : String
  pub compute_data_type : DataType
  pub forward_phase : NormFwdPhase
  pub x : Ptr
  pub scale : Ptr
  pub bias : Ptr
  pub mean : Ptr
  pub var : Ptr
  pub epsilon : Ptr
  pub momentum : Ptr
  pub y : Ptr
  pub saved_mean : Ptr
  pub saved_inv_variance : Ptr

unfoldable pub check_phase : BatchnormAttr → Outcome (Unit {0})
check_phase attr =
    if is_inference attr.forward_phase
    then (do
      require attr.mean
      require attr.var
      error_if (is_some attr.saved_mean) invalid_attribute
      error_if (is_some attr.saved_inv_variance) invalid_attribute)
    else require attr.saved_mean >> require attr.saved_inv_variance

unfoldable pub pre_validate_node : BatchnormAttr → Store → Outcome (Unit {0})
unfolding check_phase
pre_validate_node attr st = do
  error_if (is_not_set attr.forward_phase) attribute_not_set
  require attr.x
  require attr.y
  x ← deref st attr.x
  error_if (ltb (length x.dim) 2) invalid_attribute
  check_layout x
  check_phase attr
  check_scalar_constant attr.epsilon st
  check_scalar_constant attr.momentum st

-- `infer1DTensor`, where the tensor is there.
unfoldable pub infer_1d_tensor : ℤ → Ptr → Store → Outcome Store
infer_1d_tensor c none st = ok st
infer_1d_tensor c (some i) st = infer_dim_and_stride (some i) (c ∷ []) (pos 1 ∷ []) st

unfoldable pub infer_properties_node :
    Context → BatchnormAttr → Store → Outcome (BatchnormAttr × Store)
unfolding infer_1d_tensor
infer_properties_node context attr st = do
  let attr' = record attr { compute_data_type = fill_compute context attr.compute_data_type }
  st₁ ←
      fill_tensors context
        (attr.x ∷ attr.scale ∷ attr.bias ∷ attr.mean ∷ attr.var ∷ attr.epsilon ∷ attr.momentum
          ∷ attr.y ∷ attr.saved_mean ∷ attr.saved_inv_variance ∷ [])
        st
  x ← deref st₁ attr.x
  c ← at x.dim 1
  st₂ ← infer_1d_tensor c attr.scale st₁
  st₃ ← infer_1d_tensor c attr.bias st₂
  st₄ ← infer_1d_tensor c attr.mean st₃
  st₅ ← infer_1d_tensor c attr.var st₄
  st₆ ← infer_dim_and_stride attr.y x.dim x.stride st₅
  st₇ ←
      (if is_training attr.forward_phase
        then (do
          st' ← infer_dim_and_stride attr.saved_mean (c ∷ []) (pos 1 ∷ []) st₆
          infer_dim_and_stride attr.saved_inv_variance (c ∷ []) (pos 1 ∷ []) st')
        else ok st₆)
  ok (attr', st₇)

-- `check1DShape`
unfoldable pub check_1d_shape : ℤ → Store → Ptr → Outcome (Unit {0})
check_1d_shape c st none = ok tt
check_1d_shape c st (some i) = do
  t ← deref st (some i)
  error_if (not (ints_eq t.dim (c ∷ []))) invalid_attribute
  error_if (not (ints_eq t.stride (pos 1 ∷ []))) invalid_attribute

unfoldable pub post_validate_node : BatchnormAttr → Store → Outcome (Unit {0})
unfolding check_1d_shape
post_validate_node attr st = do
  x ← deref st attr.x
  y ← deref st attr.y
  c ← at x.dim 1
  error_if (not (ints_eq x.dim y.dim)) invalid_attribute
  check_layout y
  check_1d_shape c st attr.scale
  check_1d_shape c st attr.bias
  check_1d_shape c st attr.mean
  check_1d_shape c st attr.var
  if is_training attr.forward_phase
      then check_1d_shape c st attr.saved_mean >> check_1d_shape c st attr.saved_inv_variance
      else ok tt
