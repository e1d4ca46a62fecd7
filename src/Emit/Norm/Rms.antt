-- ===== src/Emit/Norm/Rms.antt =====
-- support/asm_emitter.h: root mean square normalization.
use fusilli.Base.{not, [], ◌∷◌, ◌++◌, Text, codes, Outcome, ok, assert, ◌>>=◌, ◌>>◌}
use fusilli.Node.Store.{Store}
use fusilli.Node.Norm.{is_training}
use fusilli.Node.Norm.Rms.{RmsnormAttr}
use fusilli.Emit.Format.{format, join}
use fusilli.Emit.Layout.{convert_input, convert_output, logical_name, logical_type}
use fusilli.Emit.Norm.{
  normalized_shape_ops_asm, item_ops_asm, optional_name, optional_type, optional_input,
}

unfoldable pub get_operand_names_asm : RmsnormAttr → Store → Outcome Text
unfolding logical_name optional_name join
get_operand_names_asm attr st = do
  let suffix = codes attr.name
  x ← logical_name st attr.x suffix
  scale ← optional_name st attr.scale (codes "scale") suffix
  ok (
      join (codes ", ")
        (x ∷ (codes "%normalized_shape_" ++ suffix) ∷ scale ∷ (codes "%eps_" ++ suffix) ∷ []))

unfoldable pub get_operand_types_asm : RmsnormAttr → Store → Outcome Text
unfolding logical_type optional_type join
get_operand_types_asm attr st = do
  x ← logical_type st attr.x
  scale ← optional_type st attr.scale
  ok (join (codes ", ") (x ∷ codes "!torch.list<int>" ∷ scale ∷ codes "!torch.float" ∷ []))

unfoldable pub get_result_names_asm : RmsnormAttr → Store → Outcome Text
unfolding logical_name
get_result_names_asm attr st = logical_name st attr.y (codes attr.name)

unfoldable pub get_result_types_asm : RmsnormAttr → Store → Outcome Text
unfolding logical_type
get_result_types_asm attr st = logical_type st attr.y

abbrev pub schema : Text
schema =
    codes "\n    {0}\n    {1}\n    {2}\n    {3}\n"
    ++ codes "    {4} = torch.aten.rms_norm {5} : {6} -> {7}\n    {8}\n  "

unfoldable pub emit_node_pre_asm : RmsnormAttr → Store → Outcome Text
unfolding convert_input convert_output optional_input normalized_shape_ops_asm item_ops_asm
    get_operand_names_asm get_operand_types_asm get_result_names_asm get_result_types_asm format
emit_node_pre_asm attr st = do
  assert (not (is_training attr.forward_phase))
  let suffix = codes attr.name
  permute_x ← convert_input st attr.x (codes "permute_x") suffix
  permute_y ← convert_output st attr.y (codes "permute_y") suffix
  permute_scale ← optional_input st attr.scale (codes "scale") suffix
  shape ← normalized_shape_ops_asm st attr.x suffix
  epsilon ← item_ops_asm (codes "eps") st attr.epsilon suffix
  result_names ← get_result_names_asm attr st
  operand_names ← get_operand_names_asm attr st
  operand_types ← get_operand_types_asm attr st
  result_types ← get_result_types_asm attr st
  ok (
      format schema (
        shape ∷ epsilon ∷ permute_x ∷ permute_scale ∷ result_names ∷ operand_names ∷ operand_types
        ∷ result_types ∷ permute_y ∷ []))
