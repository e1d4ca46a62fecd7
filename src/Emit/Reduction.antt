-- ===== src/Emit/Reduction.antt =====
-- support/asm_emitter.h: reductions.
use fusilli.Base.{
  ℤ, false, List, [], ◌∷◌, ◌++◌, pos, map, Text, codes, decimal_ℤ, Outcome, ok, fault, ◌>>=◌,
}
use fusilli.Support.Shell.{interleave, interleave_next}
use fusilli.Node.Store.{Store, deref}
use fusilli.Node.Reduction.{ReductionAttr, Mode, get_reduction_dims}
use fusilli.Emit.Format.{format}
use fusilli.Emit.Values.{get_list_of_int_ops_asm, get_value_name_asm}
use fusilli.Emit.Layout.{convert_input, convert_output, logical_name, logical_type}

unfoldable pub get_operand_names_asm : ReductionAttr → Store → Outcome Text
unfolding logical_name
get_operand_names_asm attr st = logical_name st attr.x (codes attr.name)

unfoldable pub get_operand_types_asm : ReductionAttr → Store → Outcome Text
unfolding logical_type
get_operand_types_asm attr st = logical_type st attr.x

unfoldable pub get_result_names_asm : ReductionAttr → Store → Outcome Text
unfolding get_value_name_asm deref
get_result_names_asm attr st = deref st attr.y >>= get_value_name_asm false

unfoldable pub get_result_types_asm : ReductionAttr → Store → Outcome Text
unfolding logical_type
get_result_types_asm attr st = logical_type st attr.y

abbrev pub keepdim_schema : Text
keepdim_schema =
    codes "\n    {0}\n    {1}\n    %keepdim_{2} = torch.constant.bool true\n"
    ++ codes "    {3}_{2}_perm = {8} {4}, %reduction_dims_{2}, %keepdim_{2} : {5}, "
    ++ codes "!torch.list<int>, !torch.bool -> {6}\n    {7}\n    "

abbrev pub keepdim_dtype_schema : Text
keepdim_dtype_schema =
    codes "\n    {0}\n    {1}\n    %keepdim_{2} = torch.constant.bool true\n"
    ++ codes "    %dtype_{2} = torch.constant.none\n"
    ++ codes "    {3}_{2}_perm = {8} {4}, %reduction_dims_{2}, %keepdim_{2}, %dtype_{2} : "
    ++ codes "{5}, !torch.list<int>, !torch.bool, !torch.none -> {6}\n    {7}\n    "

abbrev pub norm1_schema : Text
norm1_schema =
    codes "\n    {0}\n    {1}\n    %abs_{2} = torch.aten.abs {4} : {5} -> {5}\n"
    ++ codes "    %keepdim_{2} = torch.constant.bool true\n"
    ++ codes "    %dtype_{2} = torch.constant.none\n"
    ++ codes "    {3}_{2}_perm = torch.aten.sum.dim_IntList %abs_{2}, "
    ++ codes "%reduction_dims_{2}, %keepdim_{2}, %dtype_{2} : {5}, !torch.list<int>, "
    ++ codes "!torch.bool, !torch.none -> {6}\n    {7}\n    "

abbrev pub norm2_schema : Text
norm2_schema =
    codes "\n    {0}\n    {1}\n"
    ++ codes "    %sq_{2} = torch.aten.mul.Tensor {4}, {4} : {5}, {5} -> {5}\n"
    ++ codes "    %keepdim_{2} = torch.constant.bool true\n"
    ++ codes "    %dtype_{2} = torch.constant.none\n"
    ++ codes "    %sumsq_{2} = torch.aten.sum.dim_IntList %sq_{2}, %reduction_dims_{2}, "
    ++ codes "%keepdim_{2}, %dtype_{2} : {5}, !torch.list<int>, !torch.bool, !torch.none "
    ++ codes "-> {6}\n    {3}_{2}_perm = torch.aten.sqrt %sumsq_{2} : {6} -> {6}\n"
    ++ codes "    {7}\n    "

abbrev pub abs_amax_schema : Text
abs_amax_schema =
    codes "\n    {0}\n    {1}\n    %abs_{2} = torch.aten.abs {4} : {5} -> {5}\n"
    ++ codes "    %keepdim_{2} = torch.constant.bool true\n"
    ++ codes "    {3}_{2}_perm = torch.aten.amax %abs_{2}, %reduction_dims_{2}, "
    ++ codes "%keepdim_{2} : {5}, !torch.list<int>, !torch.bool -> {6}\n    {7}\n    "

abbrev pub mul_schema : Text
mul_schema =
    codes "\n    {0}\n    {1}\n    %dtype_{2} = torch.constant.none\n"
    ++ codes "    {3}_{2}_perm = torch.prims.prod {4}, %reduction_dims_{2}, %dtype_{2} : "
    ++ codes "{5}, !torch.list<int>, !torch.none -> {6}\n    {7}\n    "

abbrev pub mul_no_zeros_schema : Text
mul_no_zeros_schema =
    codes "\n    {0}\n    {1}\n    %zero_{2} = torch.constant.int 0\n"
    ++ codes "    %mask_{2} = torch.aten.ne.Scalar {4}, %zero_{2} : {5}, !torch.int -> {8}\n"
    ++ codes "    %one_{2} = torch.constant.int 1\n"
    ++ codes "    %fixed_{2} = torch.aten.where.ScalarOther %mask_{2}, {4}, %one_{2} : "
    ++ codes "{8}, {5}, !torch.int -> {5}\n    %dtype_{2} = torch.constant.none\n"
    ++ codes "    {3}_{2}_perm = torch.prims.prod %fixed_{2}, %reduction_dims_{2}, "
    ++ codes "%dtype_{2} : {5}, !torch.list<int>, !torch.none -> {6}\n    {7}\n    "

-- The type of the mask of `mul_no_zeros`: the shape of X, with Boolean elements.
unfoldable pub bool_type : List ℤ → Text
unfolding interleave interleave_next
bool_type dims = codes "!torch.vtensor<[" ++ interleave decimal_ℤ (codes ",") dims ++ codes "],i1>"

-- The `switch`: the schema of a mode, and what stands in its field {8}, if it has one.
unfoldable pub schema_of : Mode → List ℤ → Outcome (Text × List Text)
unfolding bool_type
schema_of Mode.not_set x_dim = fault
schema_of Mode.add x_dim = ok (keepdim_dtype_schema, codes "torch.aten.sum.dim_IntList" ∷ [])
schema_of Mode.sum x_dim = ok (keepdim_dtype_schema, codes "torch.aten.sum.dim_IntList" ∷ [])
schema_of Mode.min x_dim = ok (keepdim_schema, codes "torch.aten.amin" ∷ [])
schema_of Mode.max x_dim = ok (keepdim_schema, codes "torch.aten.amax" ∷ [])
schema_of Mode.avg x_dim = ok (keepdim_dtype_schema, codes "torch.aten.mean.dim" ∷ [])
schema_of Mode.norm1 x_dim = ok (norm1_schema, [])
schema_of Mode.norm2 x_dim = ok (norm2_schema, [])
schema_of Mode.amax x_dim = ok (abs_amax_schema, [])
schema_of Mode.mul x_dim = ok (mul_schema, [])
schema_of Mode.mul_no_zeros x_dim = ok (mul_no_zeros_schema, bool_type x_dim ∷ [])

unfoldable pub emit_node_pre_asm : ReductionAttr → Store → Outcome Text
unfolding convert_input convert_output get_reduction_dims get_list_of_int_ops_asm
    get_result_names_asm get_operand_names_asm get_operand_types_asm get_result_types_asm schema_of
    deref format
emit_node_pre_asm attr st = do
  let suffix = codes attr.name
  dims ← get_reduction_dims attr st
  permute_x ← convert_input st attr.x (codes "permute_X") suffix
  permute_y ← convert_output st attr.y (codes "permute_Y") suffix
  result_names ← get_result_names_asm attr st
  operand_names ← get_operand_names_asm attr st
  operand_types ← get_operand_types_asm attr st
  result_types ← get_result_types_asm attr st
  x ← deref st attr.x
  (schema, extra) ← schema_of attr.mode x.dim
  ok (
      format schema (
        permute_x
        ∷ get_list_of_int_ops_asm (map pos dims) (codes "reduction_dims") suffix
        ∷ suffix
        ∷ result_names
        ∷ operand_names
        ∷ operand_types
        ∷ result_types
        ∷ permute_y
        ∷ extra))
