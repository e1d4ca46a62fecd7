-- ===== src/Emit/Conv.antt =====
-- support/asm_emitter.h: the forward convolution, and what its gradients share with it.
pub mod WGrad
pub mod DGrad
use fusilli.Base.{List, [], ◌∷◌, ◌++◌, ℤ, String, Text, codes, Outcome, ok, ◌>>=◌, at, div64}
use fusilli.Node.Store.{Store, Ptr, deref}
use fusilli.Node.Conv.FProp.{ConvFPropAttr}
use fusilli.Emit.Format.{format}
use fusilli.Emit.Values.{get_list_of_int_ops_asm, torch_int_asm}
use fusilli.Emit.Layout.{convert_input, convert_output, logical_name, logical_type}

-- Two names or types.
abbrev pub pair_asm : Outcome Text → Outcome Text → Outcome Text
pair_asm first second = do a ← first; b ← second; ok (a ++ codes ", " ++ b)

unfoldable pub group_ops_asm : Store → Ptr → Ptr → Text → Outcome Text
unfolding deref
group_ops_asm st image filter suffix = do
  x ← deref st image
  w ← deref st filter
  in_channels ← at x.dim 1
  filter_channels ← at w.dim 1
  group_count ← div64 in_channels filter_channels
  ok (torch_int_asm (codes "groups") suffix group_count)

unfoldable pub get_operand_names_asm : ConvFPropAttr → Store → Outcome Text
unfolding logical_name
get_operand_names_asm attr st =
    pair_asm (logical_name st attr.x (codes attr.name)) (logical_name st attr.w (codes attr.name))

unfoldable pub get_operand_types_asm : ConvFPropAttr → Store → Outcome Text
unfolding logical_type
get_operand_types_asm attr st = pair_asm (logical_type st attr.x) (logical_type st attr.w)

unfoldable pub get_result_names_asm : ConvFPropAttr → Store → Outcome Text
unfolding logical_name
get_result_names_asm attr st = logical_name st attr.y (codes attr.name)

unfoldable pub get_result_types_asm : ConvFPropAttr → Store → Outcome Text
unfolding logical_type
get_result_types_asm attr st = logical_type st attr.y

unfoldable pub get_group_ops_asm : ConvFPropAttr → Store → Outcome Text
unfolding group_ops_asm
get_group_ops_asm attr st = group_ops_asm st attr.x attr.w (codes attr.name)

-- `getStrideOpsAsm`, `getPaddingOpsAsm` and `getDilationOpsAsm`.
unfoldable pub spatial_ops_asm : Text → List ℤ → String → Text
unfolding get_list_of_int_ops_asm
spatial_ops_asm prefix values name = get_list_of_int_ops_asm values prefix (codes name)

abbrev pub fprop_schema : Text
fprop_schema =
    codes "\n    %bias_{0} = torch.constant.none\n"
    ++ codes "    %transposed_{0} = torch.constant.bool false\n"
    ++ codes "    %output_padding_{0} = torch.prim.ListConstruct  : () -> !torch.list<int>\n"
    ++ codes "    {1}\n    {2}\n    {3}\n    {4}\n    {5}\n    {6}\n"
    ++ codes "    {7} = torch.aten.convolution {8}, %bias_{0}, %stride_{0}, %padding_{0}, "
    ++ codes "%dilation_{0}, %transposed_{0}, %output_padding_{0}, %groups_{0} : {9}, "
    ++ codes "!torch.none, !torch.list<int>, !torch.list<int>, !torch.list<int>, "
    ++ codes "!torch.bool, !torch.list<int>, !torch.int -> {10}\n    {11}\n    "

unfoldable pub emit_node_pre_asm : ConvFPropAttr → Store → Outcome Text
unfolding convert_input convert_output get_group_ops_asm spatial_ops_asm get_result_names_asm
    get_operand_names_asm get_operand_types_asm get_result_types_asm format
emit_node_pre_asm attr st = do
  let suffix = codes attr.name
  permute_x ← convert_input st attr.x (codes "permute_X") suffix
  permute_w ← convert_input st attr.w (codes "permute_W") suffix
  permute_y ← convert_output st attr.y (codes "permute_Y") suffix
  groups ← get_group_ops_asm attr st
  result_names ← get_result_names_asm attr st
  operand_names ← get_operand_names_asm attr st
  operand_types ← get_operand_types_asm attr st
  result_types ← get_result_types_asm attr st
  ok (
      format fprop_schema (
        suffix
        ∷ groups
        ∷ spatial_ops_asm (codes "stride") attr.stride attr.name
        ∷ spatial_ops_asm (codes "padding") attr.padding attr.name
        ∷ spatial_ops_asm (codes "dilation") attr.dilation attr.name
        ∷ permute_x
        ∷ permute_w
        ∷ result_names
        ∷ operand_names
        ∷ operand_types
        ∷ result_types
        ∷ permute_y
        ∷ []))
