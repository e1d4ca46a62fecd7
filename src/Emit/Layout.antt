-- ===== src/Emit/Layout.antt =====
-- support/asm_emitter.h: the conversion between the layout of a tensor in memory and its logical one.
pub mod Laws
use fusilli.Base.{
  Bool, true, false, not, ◌&&◌, List, [], ◌∷◌, ◌++◌, ℤ, pos, map, is_empty, Text, codes, Outcome,
  ok, ◌>>=◌, if◌then◌else◌,
}
use fusilli.Tensor.Attr.{TensorAttr}
use fusilli.Tensor.Layout.{has_broadcast_dims, get_unexpanded_dim}
use fusilli.Tensor.Physical.{
  get_logical_to_physical_permute_order, get_physical_to_logical_permute_order,
}
use fusilli.Node.Store.{Store, Ptr, deref}
use fusilli.Emit.Format.{format}
use fusilli.Emit.Values.{
  get_list_of_int_ops_asm, build_tensor_type_str, get_tensor_type_asm, get_value_name_asm,
}

-- The name of a tensor in its logical layout, for the node with the name `suffix`.
abbrev pub perm_name : Text → Text → Text
perm_name name suffix = name ++ codes "_" ++ suffix ++ codes "_perm"

unfoldable pub permute_order : Bool → TensorAttr → Outcome (List ℤ)
unfolding get_logical_to_physical_permute_order get_physical_to_logical_permute_order
permute_order is_input t = elim is_input [
  | true ↦ get_physical_to_logical_permute_order t >>= λ order. ok (map pos order)
  | false ↦ get_logical_to_physical_permute_order t >>= λ order. ok (map pos order)
]

unfoldable pub permute_result_name : Bool → Bool → Text → Text → Text
permute_result_name is_input has_broadcast name suffix =
    if not is_input
    then name
    else if has_broadcast
    then name ++ codes "_" ++ suffix ++ codes "_perm_unexpanded"
    else perm_name name suffix

unfoldable pub permute_operand_name : Bool → Text → Text → Text → Text
permute_operand_name is_input name suffix operand_override =
    if is_empty operand_override
    then (if is_input then name else perm_name name suffix)
    else operand_override

abbrev pub permute_schema : Text
permute_schema = codes "\n    {0} = torch.aten.permute {1}, {2} : {3}, !torch.list<int> -> {4}\n  "

abbrev pub expand_schema : Text
expand_schema =
    codes "{0} = torch.aten.expand {1}, {2}, {3} : {4}, !torch.list<int>, !torch.bool -> {5}\n  "

-- The operations that expand the broadcast dimensions.
unfoldable pub expand_asm : TensorAttr → Text → Text → Text → Text → Outcome Text
unfolding get_list_of_int_ops_asm build_tensor_type_str get_tensor_type_asm get_unexpanded_dim
    format
expand_asm t prefix suffix name permute_result = do
  let size_prefix = codes "expand_size_" ++ prefix
  let implicit_name = codes "%expand_implicit_" ++ prefix ++ codes "_" ++ suffix
  from_type ← build_tensor_type_str (get_unexpanded_dim t) t.data_type true
  to_type ← get_tensor_type_asm true true t
  ok (
      codes "    "
      ++ get_list_of_int_ops_asm t.dim size_prefix suffix
      ++ implicit_name
      ++ codes " = torch.constant.bool false\n    "
      ++ format expand_schema (
          perm_name name suffix
          ∷ permute_result
          ∷ (codes "%" ++ size_prefix ++ codes "_" ++ suffix)
          ∷ implicit_name
          ∷ from_type
          ∷ to_type
          ∷ []))

-- The end of `getLayoutConversionOpsAsm`.
unfoldable pub append_expand : Bool → Text → Outcome Text → Outcome Text
append_expand false permute expand = ok permute
append_expand true permute expand = expand >>= λ text. ok (permute ++ text)

unfoldable pub get_layout_conversion_ops_asm : TensorAttr → Text → Text → Bool → Text → Outcome Text
unfolding permute_order permute_result_name permute_operand_name expand_asm append_expand
    get_list_of_int_ops_asm get_value_name_asm get_tensor_type_asm build_tensor_type_str
    get_unexpanded_dim has_broadcast_dims format
get_layout_conversion_ops_asm t prefix suffix is_input operand_override = do
  let has_broadcast = is_input && has_broadcast_dims t
  order ← permute_order is_input t
  name ← get_value_name_asm false t
  let result = permute_result_name is_input has_broadcast name suffix
  let operand = permute_operand_name is_input name suffix operand_override
  from_type ← get_tensor_type_asm true (not is_input) t
  to_type ← elim has_broadcast [
    | true ↦ build_tensor_type_str (get_unexpanded_dim t) t.data_type true
    | false ↦ get_tensor_type_asm true is_input t
  ]
  let permute =
      get_list_of_int_ops_asm order prefix suffix
      ++ format permute_schema (
          result
          ∷ operand
          ∷ (codes "%" ++ prefix ++ codes "_" ++ suffix)
          ∷ from_type
          ∷ to_type
          ∷ [])
  append_expand has_broadcast permute (expand_asm t prefix suffix name result)

-- What the emitters of the nodes ask of a tensor: its conversions, its name in the logical layout,
-- and its type there.
unfoldable pub convert_input : Store → Ptr → Text → Text → Outcome Text
unfolding get_layout_conversion_ops_asm deref
convert_input st p prefix suffix = do
  t ← deref st p
  get_layout_conversion_ops_asm t prefix suffix true []

unfoldable pub convert_output : Store → Ptr → Text → Text → Outcome Text
unfolding get_layout_conversion_ops_asm deref
convert_output st p prefix suffix = do
  t ← deref st p
  get_layout_conversion_ops_asm t prefix suffix false []

unfoldable pub logical_name : Store → Ptr → Text → Outcome Text
unfolding get_value_name_asm deref
logical_name st p suffix = do
  t ← deref st p
  name ← get_value_name_asm false t
  ok (perm_name name suffix)

unfoldable pub logical_type : Store → Ptr → Outcome Text
unfolding get_tensor_type_asm deref
logical_type st p = deref st p >>= get_tensor_type_asm true true
