-- ===== src/Emit/Matmul.antt =====
-- support/asm_emitter.h: the matrix product.
pub mod Laws
use fusilli.Base.{List, [], ◌∷◌, ◌++◌, Text, codes, Outcome, ok, ◌>>=◌}
use fusilli.Node.Store.{Store}
use fusilli.Node.Matmul.{MatmulAttr}
use fusilli.Emit.Format.{format}
use fusilli.Emit.Layout.{convert_input, convert_output, logical_name, logical_type}
use fusilli.Emit.Conv.{pair_asm}

unfoldable pub get_operand_names_asm : MatmulAttr → Store → Outcome Text
unfolding logical_name
get_operand_names_asm attr st =
    pair_asm (logical_name st attr.a (codes attr.name)) (logical_name st attr.b (codes attr.name))

unfoldable pub get_operand_types_asm : MatmulAttr → Store → Outcome Text
unfolding logical_type
get_operand_types_asm attr st = pair_asm (logical_type st attr.a) (logical_type st attr.b)

unfoldable pub get_result_names_asm : MatmulAttr → Store → Outcome Text
unfolding logical_name
get_result_names_asm attr st = logical_name st attr.c (codes attr.name)

unfoldable pub get_result_types_asm : MatmulAttr → Store → Outcome Text
unfolding logical_type
get_result_types_asm attr st = logical_type st attr.c

abbrev pub schema : Text
schema =
    codes "\n    {0}\n    {1}\n    {2} = torch.aten.matmul {3} : {4} -> {5}\n"
    ++ codes "    {6}\n  "

unfoldable pub emit_node_pre_asm : MatmulAttr → Store → Outcome Text
unfolding convert_input convert_output get_result_names_asm get_operand_names_asm
    get_operand_types_asm get_result_types_asm format
emit_node_pre_asm attr st = do
  let suffix = codes attr.name
  permute_a ← convert_input st attr.a (codes "permute_A") suffix
  permute_b ← convert_input st attr.b (codes "permute_B") suffix
  permute_c ← convert_output st attr.c (codes "permute_C") suffix
  result_names ← get_result_names_asm attr st
  operand_names ← get_operand_names_asm attr st
  operand_types ← get_operand_types_asm attr st
  result_types ← get_result_types_asm attr st
  ok (
      format schema (
        permute_a ∷ permute_b ∷ result_names ∷ operand_names ∷ operand_types ∷ result_types
        ∷ permute_c ∷ []))
