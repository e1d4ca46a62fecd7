-- ===== src/Examples/Emitted.antt =====
-- The MLIR of a matrix product of a tensor with itself, of a graph's signature, and of placeholders.
use fusilli.Base.{
  ◌≡◌, refl, [], ◌∷◌, ◌++◌, some, true, at, int64, ◌*ℤ◌, for_range, put, iota, decimal_ℤ, decimal,
  ◌+◌, if◌then◌else◌, pos, Text, codes, ok,
}
use fusilli.Tensor.Types.{DataType, is_set}
use fusilli.Tensor.Order.{insert_by}
use fusilli.Tensor.Physical.{get_physical_dim}
use fusilli.Tensor.Attr.{TensorAttr, default_tensor}
use fusilli.Node.Store.{Store, deref}
use fusilli.Node.Matmul.{MatmulAttr}
use fusilli.Examples.Graphs.{validated}
use fusilli.Emit.Layout.{logical_name}
use fusilli.Emit.Layout.Laws.{assigned}
use fusilli.Emit.Matmul.{emit_node_pre_asm}
use fusilli.Emit.Matmul.Laws.{
  DefinesBeforeUse, emit_node_pre_asm-defined_twice, emit_node_pre_asm-DefinesBeforeUse,
}
use fusilli.Emit.Program.{get_result_names_and_types_asm, get_operand_names_and_types_asm}
use fusilli.Emit.Replace.{replace_all}
use fusilli.Emit.Replace.Laws.{substitute, replace_all_lem}
use fusilli.Emit.Program.Percent.{percent, count}
use fusilli.Emit.Program.Laws.{signature-input_list_capacity}
use fusilli.Graph.Runtime.{input_list_capacity, count_outputs, count_inputs}

abbrev square : TensorAttr
square = record default_tensor {
  name = "a";
  data_type = DataType.float;
  dim = pos 2 ∷ pos 2 ∷ [];
  stride = pos 2 ∷ pos 1 ∷ [];
}

abbrev tensors : Store
tensors = square ∷ record square { name = "c" } ∷ []

abbrev power : MatmulAttr
power = record {
  name = "mm";
  compute_data_type = DataType.float;
  a = some 0;
  b = some 0;
  c = some 1;
}

abbrev emitted : Text
emitted =
    codes "\n    %permute_A_val_0_mm = torch.constant.int 0\n"
    ++ codes "    %permute_A_val_1_mm = torch.constant.int 1\n"
    ++ codes "    %permute_A_mm = torch.prim.ListConstruct %permute_A_val_0_mm, "
    ++ codes "%permute_A_val_1_mm : (!torch.int, !torch.int) -> !torch.list<int>\n\n"
    ++ codes "    %a_mm_perm = torch.aten.permute %a, %permute_A_mm : "
    ++ codes "!torch.vtensor<[2,2],f32>, !torch.list<int> -> !torch.vtensor<[2,2],f32>\n"
    ++ codes "  \n    %permute_B_val_0_mm = torch.constant.int 0\n"
    ++ codes "    %permute_B_val_1_mm = torch.constant.int 1\n"
    ++ codes "    %permute_B_mm = torch.prim.ListConstruct %permute_B_val_0_mm, "
    ++ codes "%permute_B_val_1_mm : (!torch.int, !torch.int) -> !torch.list<int>\n\n"
    ++ codes "    %a_mm_perm = torch.aten.permute %a, %permute_B_mm : "
    ++ codes "!torch.vtensor<[2,2],f32>, !torch.list<int> -> !torch.vtensor<[2,2],f32>\n"
    ++ codes "  \n"
    ++ codes "    %c_mm_perm = torch.aten.matmul %a_mm_perm, %a_mm_perm : "
    ++ codes "!torch.vtensor<[2,2],f32>, !torch.vtensor<[2,2],f32> -> "
    ++ codes "!torch.vtensor<[2,2],f32>\n"
    ++ codes "    %permute_C_val_0_mm = torch.constant.int 0\n"
    ++ codes "    %permute_C_val_1_mm = torch.constant.int 1\n"
    ++ codes "    %permute_C_mm = torch.prim.ListConstruct %permute_C_val_0_mm, "
    ++ codes "%permute_C_val_1_mm : (!torch.int, !torch.int) -> !torch.list<int>\n\n"
    ++ codes "    %c = torch.aten.permute %c_mm_perm, %permute_C_mm : "
    ++ codes "!torch.vtensor<[2,2],f32>, !torch.list<int> -> !torch.vtensor<[2,2],f32>\n"
    ++ codes "  \n  "

emits : emit_node_pre_asm power tensors ≡ ok emitted
unfolding emit_node_pre_asm at is_set get_physical_dim insert_by int64 ◌*ℤ◌ for_range put iota
    decimal_ℤ decimal
emits = refl

abbrev results : Text
results = codes "%mm_C_: !torch.tensor<[2,4],f32>"

abbrev operands : Text
operands = codes "%a: !torch.vtensor<[2,3],f32>, %b: !torch.vtensor<[3,4],f32>"

has_results : get_result_names_and_types_asm validated ≡ ok results
unfolding get_result_names_and_types_asm at is_set get_physical_dim insert_by int64 ◌*ℤ◌ for_range
    put iota decimal_ℤ
has_results = refl

has_operands : get_operand_names_and_types_asm validated ≡ ok operands
unfolding get_operand_names_and_types_asm at is_set get_physical_dim insert_by int64 ◌*ℤ◌ for_range
    put iota decimal_ℤ
has_operands = refl

has_capacity : input_list_capacity validated true ≡ ok 6
unfolding input_list_capacity count_outputs count_inputs at deref
has_capacity = refl

emit_node_pre_asm-DefinesBeforeUse_example :
    (a : Text) × (b : Text) × (logical_name tensors power.a (codes power.name) ≡ ok a)
    × (logical_name tensors power.b (codes power.name) ≡ ok b)
    × DefinesBeforeUse a b emitted
emit_node_pre_asm-DefinesBeforeUse_example =
    emit_node_pre_asm-DefinesBeforeUse power tensors emitted emits

emit_node_pre_asm-defined_twice_example :
    (a : Text) × (logical_name tensors power.a (codes power.name) ≡ ok a)
    × ((before : Text) × (between : Text) × (after : Text) × (emitted
          ≡ before ++ a ++ assigned ++ between ++ a ++ assigned ++ after))
emit_node_pre_asm-defined_twice_example =
    emit_node_pre_asm-defined_twice power tensors emitted refl emits

signature_example : count percent results + count percent operands + 1 + (if true then 2 else 0) ≡ 6
signature_example =
    signature-input_list_capacity validated true results operands 6 has_results has_operands
      has_capacity

replace_all_example :
    replace_all (codes "{X}{Y}{X}") (codes "{X}") (codes "{X}1")
    ≡ ok (substitute (codes "{X}") (codes "{X}1") 0 (codes "{X}{Y}{X}"))
replace_all_example = replace_all_lem 123 (codes "X}") (codes "{X}1") (codes "{X}{Y}{X}")

replaced : replace_all (codes "{X}{Y}{X}") (codes "{X}") (codes "{X}1") ≡ ok (codes "{X}1{Y}{X}1")
unfolding replace_all
replaced = refl
