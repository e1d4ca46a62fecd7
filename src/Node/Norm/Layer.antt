-- ===== src/Node/Norm/Layer.antt =====
-- node/layernorm_node.h, attributes/layernorm_attributes.h: layer normalization.
use fusilli.Base.{
  ltb, not, is_some, [], ◌∷◌, ints_eq, length, String, Outcome, ok, error_if, attribute_not_set,
  invalid_attribute, ◌>>=◌, ◌>>◌, if◌then◌else◌,
}
use fusilli.Graph.Context.{Context}
use fusilli.Tensor.Types.{DataType}
use fusilli.Node.Store.{Store, Ptr, deref, require, fill_tensors, fill_compute, check_layout}
use fusilli.Node.Norm.{
  NormFwdPhase, is_not_set, is_training, get_training_forward_output_dim_and_stride,
  infer_dim_and_stride, infer_scale_bias, check_scale_bias, check_scalar_constant,
}

pub record LayernormAttr : Type 0 where
  pub name : String
  pub compute_data_type : DataType
  pub forward_phase : NormFwdPhase
  pub x : Ptr
  pub scale : Ptr
  pub bias : Ptr
  pub epsilon : Ptr
  pub y : Ptr
  pub mean : Ptr
  pub inv_variance : Ptr

-- The outputs of the forward phase.
unfoldable pub check_statistics : LayernormAttr → Outcome (Unit {0})
check_statistics attr =
    if is_training attr.forward_phase
    then require attr.mean >> require attr.inv_variance
    else error_if (is_some attr.mean) invalid_attribute
      >> error_if (is_some attr.inv_variance) invalid_attribute

unfoldable pub pre_validate_node : LayernormAttr → Store → Outcome (Unit {0})
unfolding check_statistics
pre_validate_node attr st = do
  error_if (is_not_set attr.forward_phase) attribute_not_set
  require attr.x
  require attr.y
  x ← deref st attr.x
  error_if (ltb (length x.dim) 2) invalid_attribute
  check_layout x
  check_scale_bias attr.scale x.dim st
  check_scale_bias attr.bias x.dim st
  check_statistics attr
  check_scalar_constant attr.epsilon st

-- `MEAN` and `INV_VARIANCE`, when training.
unfoldable pub infer_statistics : LayernormAttr → Store → Outcome Store
infer_statistics attr st =
    if is_training attr.forward_phase
    then (do
      x ← deref st attr.x
      (dim, stride) ← get_training_forward_output_dim_and_stride x.dim 0
      st₁ ← infer_dim_and_stride attr.mean dim stride st
      infer_dim_and_stride attr.inv_variance dim stride st₁)
    else ok st

unfoldable pub infer_properties_node :
    Context → LayernormAttr → Store → Outcome (LayernormAttr × Store)
unfolding infer_statistics
infer_properties_node context attr st = do
  let attr' = record attr { compute_data_type = fill_compute context attr.compute_data_type }
  st₁ ←
      fill_tensors context
        (attr.x ∷ attr.scale ∷ attr.bias ∷ attr.epsilon ∷ attr.y ∷ attr.mean ∷ attr.inv_variance
          ∷ [])
        st
  x ← deref st₁ attr.x
  st₂ ← infer_scale_bias attr.scale x st₁
  st₃ ← infer_scale_bias attr.bias x st₂
  st₄ ← infer_dim_and_stride attr.y x.dim x.stride st₃
  st₅ ← infer_statistics attr st₄
  ok (attr', st₅)

unfoldable pub check_training_outputs : LayernormAttr → Store → Outcome (Unit {0})
check_training_outputs attr st =
    if is_training attr.forward_phase
    then (do
      x ← deref st attr.x
      (dim, stride) ← get_training_forward_output_dim_and_stride x.dim 0
      m ← deref st attr.mean
      v ← deref st attr.inv_variance
      error_if (not (ints_eq dim m.dim)) invalid_attribute
      error_if (not (ints_eq dim v.dim)) invalid_attribute
      error_if (not (ints_eq stride m.stride)) invalid_attribute
      error_if (not (ints_eq stride v.stride)) invalid_attribute)
    else ok tt

unfoldable pub post_validate_node : LayernormAttr → Store → Outcome (Unit {0})
unfolding check_training_outputs
post_validate_node attr st = do
  x ← deref st attr.x
  y ← deref st attr.y
  error_if (not (ints_eq x.dim y.dim)) invalid_attribute
  check_layout y
  check_training_outputs attr st
