-- ===== src/Emit/CustomOp.antt =====
-- support/asm_emitter.h: operations that the user writes in MLIR.
use fusilli.Base.{
  ℕ, suc, ltb, ◌==◌, Bool, true, false, not, ◌&&◌, List, [], ◌∷◌, ◌++◌, ℤ, Text, codes, decimal,
  decimal_ℤ, length, is_empty, Outcome, ok, ◌>>=◌, at, if◌then◌else◌,
}
use fusilli.Support.Shell.{newline}
use fusilli.Tensor.Attr.{TensorAttr}
use fusilli.Tensor.Layout.{is_dynamic_dim}
use fusilli.Node.Store.{Store, Ptr, deref}
use fusilli.Node.CustomOp.{CustomOpNode}
use fusilli.Emit.Format.{format, interleave_ok}
use fusilli.Emit.Values.{type_asm, get_tensor_type_asm, get_value_name_asm}
use fusilli.Emit.Layout.{perm_name, get_layout_conversion_ops_asm, convert_input, logical_type}
use fusilli.Emit.Replace.{replace_all}

abbrev placeholder : Text → ℕ → Text → Text
placeholder kind i what = codes "{" ++ kind ++ decimal i ++ codes "_" ++ what ++ codes "}"

-- The loop over the dimensions of one tensor.
unfoldable pub resolve_dims : Text → ℕ → TensorAttr → ℕ → List ℤ → Text → Outcome Text
unfolding replace_all is_dynamic_dim
resolve_dims kind i t d [] mlir = ok mlir
resolve_dims kind i t d (n ∷ ns) mlir =
    replace_all mlir (placeholder kind i (codes "DIM" ++ decimal d))
      (if is_dynamic_dim t d then codes "?" else decimal_ℤ n)
    >>= resolve_dims kind i t (suc d) ns

-- The loops over the inputs, and over the outputs.
unfoldable pub resolve_tensors : Store → Text → ℕ → List Ptr → Text → Outcome Text
unfolding replace_all resolve_dims type_asm get_tensor_type_asm deref
resolve_tensors st kind i [] mlir = ok mlir
resolve_tensors st kind i (p ∷ ps) mlir = do
  t ← deref st p
  dtype ← type_asm t.data_type
  mlir₁ ← replace_all mlir (placeholder kind i (codes "DTYPE")) dtype
  type ← get_tensor_type_asm true true t
  mlir₂ ← replace_all mlir₁ (placeholder kind i (codes "TYPE")) type
  mlir₃ ← resolve_dims kind i t 0 t.dim mlir₂
  resolve_tensors st kind (suc i) ps mlir₃

unfoldable pub resolve_mlir_placeholders : CustomOpNode → Store → Outcome Text
unfolding replace_all resolve_tensors
resolve_mlir_placeholders node st = do
  mlir₁ ← replace_all (codes node.mlir) (codes "{FUNC_NAME}") (codes node.name)
  mlir₂ ← resolve_tensors st (codes "IN") 0 node.inputs mlir₁
  resolve_tensors st (codes "OUT") 0 node.outputs mlir₂

unfoldable pub ends_in_newline : Text → Bool
ends_in_newline [] = false
ends_in_newline (c ∷ []) = c == newline
ends_in_newline (c ∷ d ∷ cs) = ends_in_newline (d ∷ cs)

unfoldable pub emit_module_scope_asm : CustomOpNode → Store → Outcome Text
unfolding resolve_mlir_placeholders ends_in_newline
emit_module_scope_asm node st = do
  mlir ← resolve_mlir_placeholders node st
  ok (if not (is_empty mlir) && not (ends_in_newline mlir) then mlir ++ newline ∷ [] else mlir)

-- Each pointer with its place.
abbrev pub numbered : ℕ → List Ptr → List (ℕ × Ptr)
numbered i [] = []
numbered i (p ∷ ps) = (i, p) ∷ numbered (suc i) ps

unfoldable pub get_call_operand_names_asm : CustomOpNode → Store → Outcome Text
unfolding interleave_ok get_value_name_asm deref
get_call_operand_names_asm node st =
    interleave_ok
      (λ input. do
        t ← deref st input.1
        name ← get_value_name_asm false t
        ok (perm_name name (codes node.name ++ codes "_i" ++ decimal input.0)))
      (codes ", ") (numbered 0 node.inputs)

unfoldable pub get_call_operand_types_asm : CustomOpNode → Store → Outcome Text
unfolding interleave_ok logical_type
get_call_operand_types_asm node st = interleave_ok (logical_type st) (codes ", ") node.inputs

unfoldable pub get_call_result_names_asm : CustomOpNode → Store → Outcome Text
unfolding get_value_name_asm deref
get_call_result_names_asm node st = do
  p ← at node.outputs 0
  t ← deref st p
  name ← get_value_name_asm false t
  let count = length node.outputs
  ok (
      if count == 1
      then perm_name name (codes node.name)
      else name ++ codes "_" ++ codes node.name ++ codes "_res:" ++ decimal count)

unfoldable pub get_call_result_types_asm : CustomOpNode → Store → Outcome Text
unfolding interleave_ok logical_type
get_call_result_types_asm node st = interleave_ok (logical_type st) (codes ", ") node.outputs

-- The loop that converts the inputs.
unfoldable pub convert_inputs : Store → Text → List (ℕ × Ptr) → Outcome Text
unfolding convert_input
convert_inputs st suffix [] = ok []
convert_inputs st suffix ((i, p) ∷ ps) = do
  text ← convert_input st p (codes "permute_IN_" ++ decimal i) (suffix ++ codes "_i" ++ decimal i)
  rest ← convert_inputs st suffix ps
  ok (codes "\n    " ++ text ++ rest)

-- The loop that converts the outputs, where `base` is the name of several results, if there are any.
unfoldable pub convert_outputs : Store → Text → Text → List (ℕ × Ptr) → Outcome Text
unfolding get_layout_conversion_ops_asm deref
convert_outputs st suffix base [] = ok []
convert_outputs st suffix base ((i, p) ∷ ps) = do
  t ← deref st p
  text ←
      get_layout_conversion_ops_asm t (codes "permute_OUT_" ++ decimal i) suffix false
        (if is_empty base then [] else base ++ codes "#" ++ decimal i)
  rest ← convert_outputs st suffix base ps
  ok (codes "\n    " ++ text ++ rest)

abbrev pub call_schema : Text
call_schema = codes "\n    {0} = func.call @{1}({2}) : ({3}) -> {4}"

unfoldable pub emit_node_pre_asm : CustomOpNode → Store → Outcome Text
unfolding convert_inputs convert_outputs get_call_operand_names_asm get_call_operand_types_asm
    get_call_result_names_asm get_call_result_types_asm get_value_name_asm deref format
emit_node_pre_asm node st = do
  let suffix = codes node.name
  inputs ← convert_inputs st suffix (numbered 0 node.inputs)
  result_types ← get_call_result_types_asm node st
  let several = ltb 1 (length node.outputs)
  let wrapped = if several then codes "(" ++ result_types ++ codes ")" else result_types
  result_names ← get_call_result_names_asm node st
  operand_names ← get_call_operand_names_asm node st
  operand_types ← get_call_operand_types_asm node st
  p ← at node.outputs 0
  t ← deref st p
  name ← get_value_name_asm false t
  let base = name ++ codes "_" ++ suffix ++ codes "_res"
  outputs ← convert_outputs st suffix (if several then base else []) (numbered 0 node.outputs)
  ok (
      inputs
      ++ format call_schema (result_names ∷ suffix ∷ operand_names ∷ operand_types ∷ wrapped ∷ [])
      ++ outputs)
