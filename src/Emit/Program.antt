-- ===== src/Emit/Program.antt =====
-- support/asm_emitter.h: the function that a graph becomes, around what its nodes emit.
pub mod Percent
pub mod Laws
use fusilli.Base.{Bool, true, false, List, [], ◌∷◌, ◌++◌, ℕ, some, Text, codes, Outcome, ok, ◌>>=◌}
use fusilli.Tensor.Attr.{TensorAttr}
use fusilli.Node.Store.{Store, deref}
use fusilli.Graph.Validate.{Graph}
use fusilli.Emit.Format.{format, interleave_skip}
use fusilli.Emit.Values.{get_value_name_asm, get_tensor_type_asm, get_scalar_constant_asm}

-- The tensors at the given places.
unfoldable pub derefs : Store → List ℕ → Outcome (List TensorAttr)
unfolding deref
derefs st [] = ok []
derefs st (i ∷ is) = do t ← deref st (some i); ts ← derefs st is; ok (t ∷ ts)

unfoldable pub operand_asm : TensorAttr → Outcome Text
unfolding get_value_name_asm get_tensor_type_asm
operand_asm t = do
  name ← get_value_name_asm false t
  type ← get_tensor_type_asm true false t
  ok (name ++ codes ": " ++ type)

unfoldable pub result_asm : TensorAttr → Outcome Text
unfolding get_value_name_asm get_tensor_type_asm
result_asm t = do
  name ← get_value_name_asm true t
  type ← get_tensor_type_asm false false t
  ok (name ++ codes ": " ++ type)

unfoldable pub get_operand_names_and_types_asm : Graph → Outcome Text
unfolding derefs operand_asm interleave_skip
get_operand_names_and_types_asm g = do
  inputs ← derefs g.tensors g.full_graph_inputs_sorted
  interleave_skip operand_asm (codes ", ") (λ t. t.is_scalar) true inputs

unfoldable pub get_result_names_and_types_asm : Graph → Outcome Text
unfolding derefs result_asm interleave_skip
get_result_names_and_types_asm g = do
  outputs ← derefs g.tensors g.full_graph_outputs_sorted
  interleave_skip result_asm (codes ", ") (λ t. t.is_virtual) true outputs

-- The loop over the scalar inputs.
unfoldable pub scalar_constants : List TensorAttr → Outcome Text
unfolding get_scalar_constant_asm
scalar_constants [] = ok []
scalar_constants (t ∷ ts) = elim t.is_scalar [
  | false ↦ scalar_constants ts
  | true ↦ do text ← get_scalar_constant_asm t; rest ← scalar_constants ts; ok (text ++ rest)
]

abbrev pub pre_schema : Text
pre_schema =
    codes "\nmodule @module {{\n  {0}\n  func.func @main({1}, {2}) attributes "
    ++ codes "{{torch.assume_strict_symbolic_shapes}} {{\n  "

-- `module_scope` is what the nodes declare outside the function.
unfoldable pub emit_node_pre_asm : Graph → Text → Outcome Text
unfolding get_operand_names_and_types_asm get_result_names_and_types_asm derefs scalar_constants
    format
emit_node_pre_asm g module_scope = do
  results ← get_result_names_and_types_asm g
  operands ← get_operand_names_and_types_asm g
  inputs ← derefs g.tensors g.full_graph_inputs_sorted
  constants ← scalar_constants inputs
  ok (format pre_schema (module_scope ∷ results ∷ operands ∷ []) ++ constants)

unfoldable pub overwrite_asm : TensorAttr → Outcome Text
unfolding get_value_name_asm get_tensor_type_asm
overwrite_asm t = do
  name ← get_value_name_asm false t
  aliased ← get_value_name_asm true t
  value_type ← get_tensor_type_asm true false t
  tensor_type ← get_tensor_type_asm false false t
  ok (
      codes "torch.overwrite.tensor.contents "
      ++ name
      ++ codes " overwrites "
      ++ aliased
      ++ codes " : "
      ++ value_type
      ++ codes ", "
      ++ tensor_type)

abbrev post_schema : Text
post_schema = codes "\n    {0}\n\n    return\n  }}\n}}\n  "

unfoldable pub emit_node_post_asm : Graph → Outcome Text
unfolding derefs overwrite_asm interleave_skip format
emit_node_post_asm g = do
  outputs ← derefs g.tensors g.full_graph_outputs_sorted
  text ← interleave_skip overwrite_asm (codes "\n    ") (λ t. t.is_virtual) true outputs
  ok (format post_schema (text ∷ []))
