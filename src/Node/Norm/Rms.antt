-- ===== src/Node/Norm/Rms.antt =====
-- node/rmsnorm_node.h, attributes/rmsnorm_attributes.h: normalization by the root mean square.
use fusilli.Base.{
  ltb, not, is_some, [], ◌∷◌, ints_eq, length, String, Outcome, ok, error_if, attribute_not_set,
  invalid_attribute, not_implemented, ◌>>=◌, ◌>>◌, if◌then◌else◌,
}
use fusilli.Graph.Context.{Context}
use fusilli.Tensor.Types.{DataType}
use fusilli.Node.Store.{Store, Ptr, deref, require, fill_tensors, fill_compute, check_layout}
use fusilli.Node.Norm.{
  NormFwdPhase, is_not_set, is_training, get_training_forward_output_dim_and_stride,
  infer_dim_and_stride, infer_scale_bias, check_scale_bias, check_scalar_constant,
}

pub record RmsnormAttr : Type 0 where
  pub name : String
  pub compute_data_type : DataType
  pub forward_phase : NormFwdPhase
  pub x : Ptr
  pub scale : Ptr
  pub epsilon : Ptr
  pub y : Ptr
  pub inv_rms : Ptr

unfoldable pub pre_validate_node : RmsnormAttr → Store → Outcome (Unit {0})
pre_validate_node attr st = do
  error_if (is_not_set attr.forward_phase) attribute_not_set
  require attr.x
  require attr.y
  x ← deref st attr.x
  error_if (ltb (length x.dim) 2) invalid_attribute
  check_layout x
  check_scale_bias attr.scale x.dim st
  (if is_training attr.forward_phase
      then require attr.inv_rms
      else error_if (is_some attr.inv_rms) invalid_attribute)
  check_scalar_constant attr.epsilon st

unfoldable pub infer_properties_node : Context → RmsnormAttr → Store → Outcome (RmsnormAttr × Store)
infer_properties_node context attr st = do
  let attr' = record attr { compute_data_type = fill_compute context attr.compute_data_type }
  st₁ ← fill_tensors context (attr.x ∷ attr.scale ∷ attr.epsilon ∷ attr.y ∷ attr.inv_rms ∷ []) st
  x ← deref st₁ attr.x
  st₂ ← infer_scale_bias attr.scale x st₁
  st₃ ← infer_dim_and_stride attr.y x.dim x.stride st₂
  st₄ ←
      (if is_training attr.forward_phase
        then (do
          x' ← deref st₃ attr.x
          (dim, stride) ← get_training_forward_output_dim_and_stride x'.dim 0
          infer_dim_and_stride attr.inv_rms dim stride st₃)
        else ok st₃)
  ok (attr', st₄)

unfoldable pub post_validate_node : RmsnormAttr → Store → Outcome (Unit {0})
post_validate_node attr st = do
  x ← deref st attr.x
  y ← deref st attr.y
  error_if (not (ints_eq x.dim y.dim)) invalid_attribute
  check_layout y
  (if is_training attr.forward_phase
      then (do
        (dim, stride) ← get_training_forward_output_dim_and_stride x.dim 0
        r ← deref st attr.inv_rms
        error_if (not (ints_eq dim r.dim)) invalid_attribute
        error_if (not (ints_eq stride r.stride)) invalid_attribute)
      else ok tt)
  error_if (is_training attr.forward_phase) not_implemented
