-- ===== src/Emit/Norm/Batch.antt =====
-- support/asm_emitter.h: batch normalization.
use fusilli.Base.{
  Bool, true, false, none, some, [], ◌∷◌, ◌++◌, Text, codes, Outcome, ok, ◌>>=◌, if◌then◌else◌,
}
use fusilli.Node.Store.{Store, Ptr, deref}
use fusilli.Node.Norm.{is_training}
use fusilli.Node.Norm.Batch.{BatchnormAttr}
use fusilli.Emit.Format.{format, join}
use fusilli.Emit.Values.{get_value_name_asm, torch_none_asm}
use fusilli.Emit.Layout.{convert_input, convert_output, logical_name, logical_type}
use fusilli.Emit.Norm.{item_ops_asm, none_name, optional_type}

-- `getOptional1DName`: the tensor itself, in its own layout.
unfoldable pub optional_1d_name : Store → Ptr → Text → Text → Outcome Text
unfolding deref get_value_name_asm
optional_1d_name st none name suffix = ok (none_name name suffix)
optional_1d_name st (some i) name suffix = deref st (some i) >>= get_value_name_asm false

unfoldable pub get_operand_names_asm : BatchnormAttr → Store → Outcome Text
unfolding logical_name optional_1d_name join
get_operand_names_asm attr st = do
  let suffix = codes attr.name
  x ← logical_name st attr.x suffix
  scale ← optional_1d_name st attr.scale (codes "scale") suffix
  bias ← optional_1d_name st attr.bias (codes "bias") suffix
  mean ← optional_1d_name st attr.mean (codes "mean") suffix
  var ← optional_1d_name st attr.var (codes "var") suffix
  ok (
      join (codes ", ") (
        x
        ∷ scale
        ∷ bias
        ∷ mean
        ∷ var
        ∷ (codes "%training_" ++ suffix)
        ∷ (codes "%momentum_" ++ suffix)
        ∷ (codes "%eps_" ++ suffix)
        ∷ []))

unfoldable pub get_operand_types_asm : BatchnormAttr → Store → Outcome Text
unfolding logical_type optional_type join
get_operand_types_asm attr st = do
  x ← logical_type st attr.x
  scale ← optional_type st attr.scale
  bias ← optional_type st attr.bias
  mean ← optional_type st attr.mean
  var ← optional_type st attr.var
  ok (
      join (codes ", ") (
        x
        ∷ scale
        ∷ bias
        ∷ mean
        ∷ var
        ∷ codes "!torch.bool"
        ∷ codes "!torch.float"
        ∷ codes "!torch.float"
        ∷ []))

unfoldable pub get_result_names_asm : BatchnormAttr → Store → Outcome Text
unfolding logical_name join
get_result_names_asm attr st = do
  let suffix = codes attr.name
  y ← logical_name st attr.y suffix
  if is_training attr.forward_phase
      then (do
        mean ← logical_name st attr.saved_mean suffix
        inv_variance ← logical_name st attr.saved_inv_variance suffix
        ok (join (codes ", ") (y ∷ mean ∷ inv_variance ∷ [])))
      else ok (
          join (codes ", ") (
            y
            ∷ (codes "%_infer_saved_mean_" ++ suffix ++ codes "_perm")
            ∷ (codes "%_infer_saved_invstd_" ++ suffix ++ codes "_perm")
            ∷ []))

unfoldable pub get_result_types_asm : BatchnormAttr → Store → Outcome Text
unfolding logical_type join
get_result_types_asm attr st = do
  let training = is_training attr.forward_phase
  y ← logical_type st attr.y
  mean ← logical_type st (if training then attr.saved_mean else attr.mean)
  var ← logical_type st (if training then attr.saved_inv_variance else attr.var)
  ok (join (codes ", ") (y ∷ mean ∷ var ∷ []))

-- `getNoneOrEmpty`
unfoldable pub none_or_empty : Ptr → Text → Text → Text
none_or_empty none name suffix = torch_none_asm (codes "none_" ++ name) suffix
none_or_empty (some i) name suffix = []

-- A conversion of a statistic, which training has only.
unfoldable pub convert_saved : Bool → Store → Ptr → Text → Text → Outcome Text
unfolding convert_output
convert_saved true st p prefix suffix = convert_output st p prefix suffix
convert_saved false st p prefix suffix = ok []

abbrev pub schema : Text
schema =
    codes "\n    {1}\n    {2}\n    {3}\n    {4}\n    {5}\n    {6}\n    {7}\n"
    ++ codes "    %training_{0} = torch.constant.bool {15}\n"
    ++ codes "    {8} = torch.aten.native_batch_norm {9} : {10} -> {11}\n    {12}\n"
    ++ codes "    {13}\n    {14}\n    "

unfoldable pub emit_node_pre_asm : BatchnormAttr → Store → Outcome Text
unfolding convert_input convert_output convert_saved none_or_empty item_ops_asm
    get_operand_names_asm get_operand_types_asm get_result_names_asm get_result_types_asm format
emit_node_pre_asm attr st = do
  let suffix = codes attr.name
  let training = is_training attr.forward_phase
  permute_x ← convert_input st attr.x (codes "permute_x") suffix
  permute_y ← convert_output st attr.y (codes "permute_y") suffix
  saved_mean ← convert_saved training st attr.saved_mean (codes "permute_saved_mean") suffix
  saved_inv ←
      convert_saved training st attr.saved_inv_variance (codes "permute_saved_inv_variance") suffix
  epsilon ← item_ops_asm (codes "eps") st attr.epsilon suffix
  momentum ← item_ops_asm (codes "momentum") st attr.momentum suffix
  result_names ← get_result_names_asm attr st
  operand_names ← get_operand_names_asm attr st
  operand_types ← get_operand_types_asm attr st
  result_types ← get_result_types_asm attr st
  ok (
      format schema (
        suffix
        ∷ epsilon
        ∷ momentum
        ∷ permute_x
        ∷ none_or_empty attr.scale (codes "scale") suffix
        ∷ none_or_empty attr.bias (codes "bias") suffix
        ∷ none_or_empty attr.mean (codes "mean") suffix
        ∷ none_or_empty attr.var (codes "var") suffix
        ∷ result_names
        ∷ operand_names
        ∷ operand_types
        ∷ result_types
        ∷ permute_y
        ∷ saved_mean
        ∷ saved_inv
        ∷ (if training then codes "true" else codes "false")
        ∷ []))
