-- ===== src/Emit/Sdpa.antt =====
-- support/asm_emitter.h: scaled dot-product attention. `float_asm` is how `std::format` writes a float
-- with the format {:e}.
use fusilli.Base.{
  ℕ, is_some, none, some, [], ◌∷◌, ◌++◌, Text, codes, Outcome, ok, ◌>>=◌, if◌then◌else◌,
}
use fusilli.Node.Store.{Store}
use fusilli.Node.Sdpa.{SdpaAttr}
use fusilli.Emit.Format.{format, join}
use fusilli.Emit.Values.{torch_none_asm, torch_bool_asm}
use fusilli.Emit.Layout.{convert_input, convert_output, logical_name, logical_type}

module _ (float_asm : ℕ → Text) where
  unfoldable pub torch_float_asm : Text → Text → ℕ → Text
  torch_float_asm name suffix value =
      codes "%"
      ++ name
      ++ codes "_"
      ++ suffix
      ++ codes " = torch.constant.float "
      ++ float_asm value

  unfoldable pub get_dropout_ops_asm : SdpaAttr → Text
  unfolding torch_float_asm
  get_dropout_ops_asm attr = torch_float_asm (codes "dropout") (codes attr.name) attr.dropout

  unfoldable pub get_scale_ops_asm : SdpaAttr → Text
  unfolding torch_float_asm
  get_scale_ops_asm attr = elim attr.scale [
    | some scale ↦ torch_float_asm (codes "scale") (codes attr.name) scale
    | none ↦ torch_none_asm (codes "scale") (codes attr.name)
  ]

unfoldable pub get_is_causal_ops_asm : SdpaAttr → Text
get_is_causal_ops_asm attr = torch_bool_asm (codes "is_causal") (codes attr.name) attr.is_causal

unfoldable pub get_enable_gqa_ops_asm : SdpaAttr → Text
get_enable_gqa_ops_asm attr = torch_bool_asm (codes "enable_gqa") (codes attr.name) attr.enable_gqa

unfoldable pub get_operand_names_asm : SdpaAttr → Store → Outcome Text
unfolding logical_name join
get_operand_names_asm attr st = do
  let suffix = codes attr.name
  q ← logical_name st attr.q suffix
  k ← logical_name st attr.k suffix
  v ← logical_name st attr.v suffix
  mask ← elim attr.mask [
    | some i ↦ logical_name st (some i) suffix
    | none ↦ ok (codes "%none_mask_" ++ suffix)
  ]
  ok (join (codes ", ") (q ∷ k ∷ v ∷ mask ∷ []))

unfoldable pub get_operand_types_asm : SdpaAttr → Store → Outcome Text
unfolding logical_type join
get_operand_types_asm attr st = do
  q ← logical_type st attr.q
  k ← logical_type st attr.k
  v ← logical_type st attr.v
  mask ← elim attr.mask [ some i ↦ logical_type st (some i) | none ↦ ok (codes "!torch.none") ]
  ok (join (codes ", ") (q ∷ k ∷ v ∷ mask ∷ []))

unfoldable pub get_result_names_asm : SdpaAttr → Store → Outcome Text
unfolding logical_name
get_result_names_asm attr st = logical_name st attr.o (codes attr.name)

unfoldable pub get_result_types_asm : SdpaAttr → Store → Outcome Text
unfolding logical_type
get_result_types_asm attr st = logical_type st attr.o

abbrev pub schema : Text
schema =
    codes "\n    {0}\n    {1}\n    {2}\n    {3}\n    {4}\n    {5}\n    {6}\n    {7}\n"
    ++ codes "    {8} = torch.aten.scaled_dot_product_attention {9} : {10}, !torch.float, "
    ++ codes "!torch.bool, {11}, !torch.bool -> {12}\n    {13}\n  "

unfoldable pub emit_node_pre_asm : (ℕ → Text) → SdpaAttr → Store → Outcome Text
unfolding convert_input convert_output get_operand_names_asm get_operand_types_asm
    get_result_names_asm get_result_types_asm get_dropout_ops_asm get_scale_ops_asm
    get_is_causal_ops_asm get_enable_gqa_ops_asm format
emit_node_pre_asm float_asm attr st = do
  let suffix = codes attr.name
  permute_q ← convert_input st attr.q (codes "permute_Q") suffix
  permute_k ← convert_input st attr.k (codes "permute_K") suffix
  permute_v ← convert_input st attr.v (codes "permute_V") suffix
  mask ← elim attr.mask [
    | some i ↦ convert_input st (some i) (codes "permute_mask") suffix
    | none ↦ ok (torch_none_asm (codes "none_mask") suffix)
  ]
  permute_o ← convert_output st attr.o (codes "permute_O") suffix
  names ← get_operand_names_asm attr st
  let operand_names =
      names
      ++ codes ", %dropout_"
      ++ suffix
      ++ codes ", %is_causal_"
      ++ suffix
      ++ codes ", %scale_"
      ++ suffix
      ++ codes ", %enable_gqa_"
      ++ suffix
  let scale_type = if is_some attr.scale then codes "!torch.float" else codes "!torch.none"
  result_names ← get_result_names_asm attr st
  operand_types ← get_operand_types_asm attr st
  result_types ← get_result_types_asm attr st
  ok (
      format schema (
        permute_q
        ∷ permute_k
        ∷ permute_v
        ∷ mask
        ∷ get_dropout_ops_asm float_asm attr
        ∷ get_is_causal_ops_asm attr
        ∷ get_scale_ops_asm float_asm attr
        ∷ get_enable_gqa_ops_asm attr
        ∷ result_names
        ∷ operand_names
        ∷ operand_types
        ∷ scale_type
        ∷ result_types
        ∷ permute_o
        ∷ []))
