-- ===== src/Emit/Conv/WGrad.antt =====
-- support/asm_emitter.h: the gradient of a convolution by its weights.
use fusilli.Base.{true, [], ◌∷◌, ◌++◌, ℤ, Text, codes, decimal_ℤ, Outcome, ok, ◌>>=◌}
use fusilli.Tensor.Types.{DataType}
use fusilli.Node.Store.{Store, deref}
use fusilli.Node.Conv.WGrad.{ConvWGradAttr}
use fusilli.Emit.Format.{format}
use fusilli.Emit.Values.{get_list_of_int_ops_asm, get_tensor_type_asm}
use fusilli.Emit.Layout.{convert_input, convert_output, logical_name, logical_type}
use fusilli.Emit.Conv.{pair_asm, group_ops_asm, spatial_ops_asm}

unfoldable pub get_operand_names_asm : ConvWGradAttr → Store → Outcome Text
unfolding logical_name
get_operand_names_asm attr st = do
  names ←
      pair_asm (logical_name st attr.dy (codes attr.name))
        (logical_name st attr.x (codes attr.name))
  ok (names ++ codes ", %empty_w_" ++ codes attr.name)

unfoldable pub get_operand_types_asm : ConvWGradAttr → Store → Outcome Text
unfolding logical_type
get_operand_types_asm attr st =
    pair_asm (pair_asm (logical_type st attr.dy) (logical_type st attr.x)) (logical_type st attr.dw)

unfoldable pub get_result_names_asm : ConvWGradAttr → Store → Outcome Text
unfolding logical_name
get_result_names_asm attr st = logical_name st attr.dw (codes attr.name)

unfoldable pub get_result_types_asm : ConvWGradAttr → Store → Outcome Text
unfolding logical_type
get_result_types_asm attr st = logical_type st attr.dw

unfoldable pub get_group_ops_asm : ConvWGradAttr → Store → Outcome Text
unfolding group_ops_asm
get_group_ops_asm attr st = group_ops_asm st attr.x attr.dw (codes attr.name)

abbrev pub empty_schema : Text
empty_schema =
    codes "\n    %none_DW_{0} = torch.constant.none\n"
    ++ codes "    %dtype_DW_{0} = torch.constant.int {3}\n"
    ++ codes "    %empty_w_{0} = torch.aten.empty.memory_format {1}, %dtype_DW_{0}, "
    ++ codes "%none_DW_{0}, %none_DW_{0}, %none_DW_{0}, %none_DW_{0} : !torch.list<int>, "
    ++ codes "!torch.int, !torch.none, !torch.none, !torch.none, !torch.none -> {2}\n"
    ++ codes "  "

-- The empty tensor that stands for the operand not there. `torch_type` is the number of an element
-- type in the headers of torch.
unfoldable pub get_permute_empty_w_ops_asm : (DataType → ℤ) → ConvWGradAttr → Store → Outcome Text
unfolding get_list_of_int_ops_asm get_tensor_type_asm deref format
get_permute_empty_w_ops_asm torch_type attr st = do
  let prefix = codes "empty_DW"
  let suffix = codes attr.name
  t ← deref st attr.dw
  type ← get_tensor_type_asm true true t
  ok (
      get_list_of_int_ops_asm t.dim prefix suffix
      ++ format empty_schema (
          suffix
          ∷ (codes "%" ++ prefix ++ codes "_" ++ suffix)
          ∷ type
          ∷ decimal_ℤ (torch_type t.data_type)
          ∷ []))

abbrev pub schema : Text
schema =
    codes "\n    %bias_{0} = torch.constant.none\n"
    ++ codes "    %transposed_{0} = torch.constant.bool false\n"
    ++ codes "    %output_padding_{0} = torch.prim.ListConstruct  : () -> !torch.list<int>\n"
    ++ codes "    {1}\n    {2}\n    {3}\n    {4}\n    {5}\n    {6}\n    {7}\n"
    ++ codes "    %true_{0} = torch.constant.bool true\n"
    ++ codes "    %false_{0} = torch.constant.bool false\n"
    ++ codes "    %output_mask_{0} = torch.prim.ListConstruct %false_{0}, %true_{0}, "
    ++ codes "%false_{0} : (!torch.bool, !torch.bool, !torch.bool) -> !torch.list<bool>\n"
    ++ codes "    %grad_input_{0}, {8}, %grad_bias_{0} = torch.aten.convolution_backward "
    ++ codes "{9}, %bias_{0}, %stride_{0}, %padding_{0}, %dilation_{0}, %transposed_{0}, "
    ++ codes "%output_padding_{0}, %groups_{0}, %output_mask_{0} : {10}, !torch.none, "
    ++ codes "!torch.list<int>, !torch.list<int>, !torch.list<int>, !torch.bool, "
    ++ codes "!torch.list<int>, !torch.int, !torch.list<bool> -> !torch.none, {11}, "
    ++ codes "!torch.none\n    {12}\n    "

unfoldable pub emit_node_pre_asm : (DataType → ℤ) → ConvWGradAttr → Store → Outcome Text
unfolding convert_input convert_output get_group_ops_asm spatial_ops_asm get_permute_empty_w_ops_asm
    get_result_names_asm get_operand_names_asm get_operand_types_asm get_result_types_asm format
emit_node_pre_asm torch_type attr st = do
  let suffix = codes attr.name
  permute_dy ← convert_input st attr.dy (codes "permute_DY") suffix
  permute_x ← convert_input st attr.x (codes "permute_X") suffix
  permute_dw ← convert_output st attr.dw (codes "permute_DW") suffix
  groups ← get_group_ops_asm attr st
  empty ← get_permute_empty_w_ops_asm torch_type attr st
  result_names ← get_result_names_asm attr st
  operand_names ← get_operand_names_asm attr st
  operand_types ← get_operand_types_asm attr st
  result_types ← get_result_types_asm attr st
  ok (
      format schema (
        suffix
        ∷ groups
        ∷ spatial_ops_asm (codes "stride") attr.stride attr.name
        ∷ spatial_ops_asm (codes "padding") attr.padding attr.name
        ∷ spatial_ops_asm (codes "dilation") attr.dilation attr.name
        ∷ permute_dy
        ∷ permute_x
        ∷ empty
        ∷ result_names
        ∷ operand_names
        ∷ operand_types
        ∷ result_types
        ∷ permute_dw
        ∷ []))
