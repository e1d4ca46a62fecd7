-- ===== src/Node/CustomOp.antt =====
-- node/custom_op_node.h, attributes/custom_op_attributes.h: operations that the user writes in MLIR.
pub mod Laws
use Prim.Native.String.{len}
use fusilli.Base.{
  ℕ, ◌==◌, Bool, Option, none, some, List, [], ◌∷◌, is_empty, String, Outcome, ok, error_if,
  attribute_not_set, invalid_attribute, ◌>>=◌, ◌>>◌,
}
use fusilli.Graph.Context.{Context}
use fusilli.Tensor.Attr.{fill_from_context}
use fusilli.Node.Store.{Store, Ptr, deref, modify, require}

pub record CustomOpNode : Type 0 where
  pub name : String
  pub mlir : String
  pub num_outputs : ℕ
  pub inputs : List Ptr
  pub outputs : List Ptr

unfoldable pub check_inputs : List Ptr → Store → Outcome (Unit {0})
check_inputs [] st = ok tt
check_inputs (p ∷ ps) st = do
  require p
  t ← deref st p
  error_if t.is_scalar invalid_attribute
  check_inputs ps st

-- An output that is null is read all the same.
unfoldable pub check_outputs : List Ptr → Store → Outcome (Unit {0})
check_outputs [] st = ok tt
check_outputs (p ∷ ps) st = do
  t ← deref st p
  error_if t.is_scalar invalid_attribute
  check_outputs ps st

unfoldable pub pre_validate_node : CustomOpNode → Store → Outcome (Unit {0})
unfolding check_inputs check_outputs
pre_validate_node node st = do
  error_if (len node.mlir == 0) attribute_not_set
  error_if (is_empty node.inputs) attribute_not_set
  error_if (is_empty node.outputs) attribute_not_set
  check_inputs node.inputs st
  check_outputs node.outputs st

-- Every input is filled in; unlike `fillFromContext` of the other nodes, none may be null.
unfoldable pub fill_inputs : Context → List Ptr → Store → Outcome Store
fill_inputs context [] st = ok st
fill_inputs context (p ∷ ps) st = modify p (fill_from_context context) st >>= fill_inputs context ps

unfoldable pub infer_properties_node : Context → CustomOpNode → Store → Outcome Store
unfolding fill_inputs
infer_properties_node context node st = fill_inputs context node.inputs st
