-- ===== src/Emit/Norm/Layer.antt =====
-- support/asm_emitter.h: layer normalization.
use fusilli.Base.{[], ◌∷◌, ◌++◌, Text, codes, Outcome, ok, ◌>>=◌, if◌then◌else◌}
use fusilli.Node.Store.{Store}
use fusilli.Node.Norm.{is_training}
use fusilli.Node.Norm.Layer.{LayernormAttr}
use fusilli.Emit.Format.{format, join}
use fusilli.Emit.Layout.{convert_input, convert_output, logical_name, logical_type}
use fusilli.Emit.Norm.{
  normalized_shape_ops_asm, item_ops_asm, optional_name, optional_type, optional_input,
}

unfoldable pub get_operand_names_asm : LayernormAttr → Store → Outcome Text
unfolding logical_name optional_name join
get_operand_names_asm attr st = do
  let suffix = codes attr.name
  x ← logical_name st attr.x suffix
  scale ← optional_name st attr.scale (codes "scale") suffix
  bias ← optional_name st attr.bias (codes "bias") suffix
  ok (
      join (codes ", ") (
        x ∷ (codes "%normalized_shape_" ++ suffix) ∷ scale ∷ bias ∷ (codes "%eps_" ++ suffix) ∷ []))

unfoldable pub get_operand_types_asm : LayernormAttr → Store → Outcome Text
unfolding logical_type optional_type join
get_operand_types_asm attr st = do
  x ← logical_type st attr.x
  scale ← optional_type st attr.scale
  bias ← optional_type st attr.bias
  ok (join (codes ", ") (x ∷ codes "!torch.list<int>" ∷ scale ∷ bias ∷ codes "!torch.float" ∷ []))

unfoldable pub get_result_names_asm : LayernormAttr → Store → Outcome Text
unfolding logical_name join
get_result_names_asm attr st = do
  let suffix = codes attr.name
  y ← logical_name st attr.y suffix
  if is_training attr.forward_phase
      then (do
        mean ← logical_name st attr.mean suffix
        inv_variance ← logical_name st attr.inv_variance suffix
        ok (join (codes ", ") (y ∷ mean ∷ inv_variance ∷ [])))
      else ok y

unfoldable pub get_result_types_asm : LayernormAttr → Store → Outcome Text
unfolding logical_type join
get_result_types_asm attr st = do
  y ← logical_type st attr.y
  if is_training attr.forward_phase
      then (do
        mean ← logical_type st attr.mean
        inv_variance ← logical_type st attr.inv_variance
        ok (join (codes ", ") (y ∷ mean ∷ inv_variance ∷ [])))
      else ok y

abbrev pub training_schema : Text
training_schema =
    codes "\n    {0}\n    {1}\n    {2}\n    {3}\n    {4}\n"
    ++ codes "    {5} = torch.aten.native_layer_norm {6} : {7} -> {8}\n    {9}\n"
    ++ codes "    {10}\n    {11}\n    "

abbrev pub inference_schema : Text
inference_schema =
    codes "\n    {1}\n    {2}\n    {3}\n    {4}\n    {5}\n"
    ++ codes "    %cudnn_enable_{0} = torch.constant.bool false\n"
    ++ codes "    {6} = torch.aten.layer_norm {7}, %cudnn_enable_{0} : {8}, !torch.bool "
    ++ codes "-> {9}\n    {10}\n  "

unfoldable pub emit_node_pre_asm : LayernormAttr → Store → Outcome Text
unfolding convert_input convert_output optional_input normalized_shape_ops_asm item_ops_asm
    get_operand_names_asm get_operand_types_asm get_result_names_asm get_result_types_asm format
emit_node_pre_asm attr st = do
  let suffix = codes attr.name
  permute_x ← convert_input st attr.x (codes "permute_x") suffix
  permute_y ← convert_output st attr.y (codes "permute_y") suffix
  permute_scale ← optional_input st attr.scale (codes "scale") suffix
  permute_bias ← optional_input st attr.bias (codes "bias") suffix
  shape ← normalized_shape_ops_asm st attr.x suffix
  epsilon ← item_ops_asm (codes "eps") st attr.epsilon suffix
  result_names ← get_result_names_asm attr st
  operand_names ← get_operand_names_asm attr st
  operand_types ← get_operand_types_asm attr st
  result_types ← get_result_types_asm attr st
  if is_training attr.forward_phase
      then (do
        permute_mean ← convert_output st attr.mean (codes "permute_mean") suffix
        permute_inv ← convert_output st attr.inv_variance (codes "permute_inv_variance") suffix
        ok (
            format training_schema (
              shape ∷ epsilon ∷ permute_x ∷ permute_scale ∷ permute_bias ∷ result_names
              ∷ operand_names ∷ operand_types ∷ result_types ∷ permute_y ∷ permute_mean
              ∷ permute_inv ∷ [])))
      else ok (
          format inference_schema (
            suffix ∷ shape ∷ epsilon ∷ permute_x ∷ permute_scale ∷ permute_bias ∷ result_names
            ∷ operand_names ∷ operand_types ∷ result_types ∷ permute_y ∷ []))
