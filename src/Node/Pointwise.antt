-- ===== src/Node/Pointwise.antt =====
-- node/pointwise_node.h, attributes/pointwise_attributes.h: elementwise operations.
pub mod Modes
pub mod Laws
pub mod Frame
use fusilli.Base.{
  ℕ, zero, suc, ltb, Bool, true, false, not, is_some, Option, none, some, List, [], ◌∷◌, ℤ, ints_eq,
  length, is_empty, String, Outcome, ok, fault, error_if, attribute_not_set, invalid_attribute,
  ◌>>=◌, ◌>>◌, if◌then◌else◌, ◌&&◌,
}
use fusilli.Graph.Context.{Context}
use fusilli.Tensor.Types.{DataType}
use fusilli.Tensor.Order.{generate_stride_order_preserving_format}
use fusilli.Tensor.Stride.{generate_stride_from_dim}
use fusilli.Tensor.Broadcast.{compute_broadcast_shape}
use fusilli.Node.Store.{
  Store, Ptr, deref, modify, set_dim, set_stride, set_data_type, require, fill_tensors,
  fill_compute,
}
use Modes.{Mode, required_input_count, forced_data_type, is_not_set}

-- The last four are floats, which the emitter reads only.
pub record PointwiseAttr : Type 0 where
  pub name : String
  pub compute_data_type : DataType
  pub mode : Mode
  pub in_0 : Ptr
  pub in_1 : Ptr
  pub in_2 : Ptr
  pub out_0 : Ptr
  pub elu_alpha : ℕ
  pub softplus_beta : ℕ
  pub softplus_threshold : ℕ
  pub swish_beta : ℕ

abbrev pub inputs : PointwiseAttr → List Ptr
inputs attr = attr.in_0 ∷ attr.in_1 ∷ attr.in_2 ∷ []

-- The loop over the input names from `i` on.
unfoldable pub check_inputs : ℕ → ℕ → List Ptr → Outcome (Unit {0})
check_inputs required i [] = ok tt
check_inputs required i (p ∷ ps) = do
  (if ltb i required
      then error_if (not (is_some p)) attribute_not_set
      else error_if (is_some p) invalid_attribute)
  check_inputs required (suc i) ps

unfoldable pub pre_validate_node : PointwiseAttr → Outcome (Unit {0})
unfolding check_inputs required_input_count
pre_validate_node attr = do
  error_if (is_not_set attr.mode) attribute_not_set
  required ← elim (required_input_count attr.mode) [ none ↦ fault | some n ↦ ok n ]
  check_inputs required 0 (inputs attr)
  require attr.out_0

unfoldable pub input_shapes : Store → List Ptr → Outcome (List (List ℤ))
input_shapes st [] = ok []
input_shapes st (none ∷ ps) = input_shapes st ps
input_shapes st (some i ∷ ps) = do
  t ← deref st (some i)
  shapes ← input_shapes st ps
  ok (t.dim ∷ shapes)

-- The strides of the first input whose shape is `dim`, if there is one.
unfoldable pub matching_stride : Store → List ℤ → List Ptr → Outcome (Option (List ℤ))
matching_stride st dim [] = ok none
matching_stride st dim (none ∷ ps) = matching_stride st dim ps
matching_stride st dim (some i ∷ ps) = do
  t ← deref st (some i)
  elim (ints_eq t.dim dim) [ true ↦ ok (some t.stride) | false ↦ matching_stride st dim ps ]

unfoldable pub force_type : PointwiseAttr → Store → Outcome Store
unfolding forced_data_type
force_type attr st = elim (forced_data_type attr.mode) [
  | none ↦ ok st
  | some type ↦ modify attr.out_0 (set_data_type type) st
]

unfoldable pub infer_out_dim : PointwiseAttr → Store → Outcome Store
unfolding input_shapes
infer_out_dim attr st = do
  out ← deref st attr.out_0
  if is_empty out.dim
      then (do
        shapes ← input_shapes st (inputs attr)
        dim ← compute_broadcast_shape shapes
        modify attr.out_0 (set_dim dim) st)
      else ok st

-- The strides of a virtual output in the format of the first input.
unfoldable pub infer_virtual_stride : PointwiseAttr → Store → Outcome Store
infer_virtual_stride attr st = do
  out ← deref st attr.out_0
  if is_empty out.stride && out.is_virtual
      then (do
        in_0 ← deref st attr.in_0
        order ← generate_stride_order_preserving_format in_0.stride (length out.dim)
        stride ← generate_stride_from_dim out.dim order
        modify attr.out_0 (set_stride stride) st)
      else ok st

unfoldable pub infer_out_stride : PointwiseAttr → Store → Outcome Store
unfolding matching_stride infer_virtual_stride
infer_out_stride attr st = do
  out ← deref st attr.out_0
  if is_empty out.stride
      then (do
        found ← matching_stride st out.dim (inputs attr)
        st₁ ← elim found [ none ↦ ok st | some stride ↦ modify attr.out_0 (set_stride stride) st ]
        st₂ ← infer_virtual_stride attr st₁
        out₂ ← deref st₂ attr.out_0
        error_if (is_empty out₂.stride) invalid_attribute
        ok st₂)
      else ok st

unfoldable pub infer_properties_node :
    Context → PointwiseAttr → Store → Outcome (PointwiseAttr × Store)
unfolding force_type infer_out_dim infer_out_stride
infer_properties_node context attr st = do
  st₁ ← force_type attr st
  let attr' = record attr { compute_data_type = fill_compute context attr.compute_data_type }
  st₂ ← fill_tensors context (attr.in_0 ∷ attr.in_1 ∷ attr.in_2 ∷ attr.out_0 ∷ []) st₁
  st₃ ← infer_out_dim attr st₂
  st₄ ← infer_out_stride attr st₃
  ok (attr', st₄)
