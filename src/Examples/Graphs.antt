-- ===== src/Examples/Graphs.antt =====
-- graph/graph.h: a graph with one matrix product, from its first tensor to its validation.
use mathlib.Core.List.{Nodup}
use fusilli.Base.{
  ◌≡◌, refl, ◌↔◌, true, false, some, none, List, [], ◌∷◌, ◌++◌, pos, ok, String, length, at, put,
  for_range, iota, int64, ◌*ℤ◌, ints_eq,
}
use fusilli.Graph.Context.{Context}
use fusilli.Graph.Names.{is_used, check_names_are_unique}
use fusilli.Graph.Names.Laws.{check_names_are_unique_iff}
use fusilli.Graph.Op.{
  Op, infer_op, pre_validate_op, post_validate_op, validate_sub_node, validate_sub_nodes, op_name,
}
use fusilli.Graph.Op.Laws.{infer_op-Keeps}
use fusilli.Graph.Build.{tensor, node_name, name_unnamed, output_tensor, add_node}
use fusilli.Graph.Build.Laws.{IsWellFormed}
use fusilli.Graph.Build.Products.{matmul}
use fusilli.Graph.Build.Steps.{Step, Reachable, empty_graph}
use fusilli.Graph.Build.Steps.Laws.{Reachable-IsWellFormed}
use fusilli.Graph.Validate.{
  Graph, tensor_names, node_names, pre_validate_node, insert_sorted, insert_all_sorted,
  infer_properties_node, validate_subtree, validate_inputs, validate_outputs, validate,
}
use fusilli.Graph.Validate.Laws.{IsValidated, pre_validate_node_iff, validate_lem}
use fusilli.Graph.Validate.Frame.{validate-Keeps}
use fusilli.Node.Frame.{Keeps}
use fusilli.Node.Store.{Store, deref, modify, fill_tensors, fill_compute}
use fusilli.Node.Matmul.{
  MatmulAttr, get_matmul_inferred_output_shape, check_broadcastable, check_batch_dims,
  check_mixed_precision,
}
use fusilli.Node.Matmul
use fusilli.Tensor.Attr.{TensorAttr, default_tensor, fill_from_context}
use fusilli.Tensor.Layout.{has_broadcast_dims, any_broadcast, has_dynamic_dims}
use fusilli.Tensor.Order.{sort_by, insert_by, get_contiguous_stride_order, fill_back}
use fusilli.Tensor.Physical.{
  get_logical_to_physical_permute_order, reorderable_from, has_valid_physical_representation,
  any_negative, check_strides,
}
use fusilli.Tensor.Stride.{generate_stride_from_dim, place_dim, write_stride}
use fusilli.Tensor.Types.{DataType, is_set, same_type, type_code}
use fusilli.Tensor.Validate.{check_dynamic_dims}
use fusilli.Tensor.Validate

abbrev pub context : Context
context = record {
  compute_data_type = DataType.float;
  intermediate_data_type = DataType.float;
  io_data_type = DataType.float;
  name = "g";
}

abbrev pub left : TensorAttr
left = record default_tensor { name = "a"; dim = pos 2 ∷ pos 3 ∷ []; stride = pos 3 ∷ pos 1 ∷ [] }

abbrev pub right : TensorAttr
right = record default_tensor { name = "b"; dim = pos 3 ∷ pos 4 ∷ []; stride = pos 4 ∷ pos 1 ∷ [] }

abbrev pub result : TensorAttr
result = record default_tensor { name = "mm_C"; is_virtual = true }

abbrev pub request : MatmulAttr
request = record { name = "mm"; compute_data_type = DataType.not_set; a = none; b = none; c = none }

abbrev pub node : MatmulAttr
node = record request { a = some 0; b = some 1; c = some 2 }

abbrev pub with_inputs : Graph
with_inputs = record (empty_graph context) {
  tensors = left ∷ right ∷ [];
  full_graph_inputs = 0 ∷ 1 ∷ [];
}

abbrev pub built : Graph
built = record with_inputs {
  tensors = left ∷ right ∷ result ∷ [];
  sub_nodes = record { context = context; op = Op.matmul node } ∷ [];
  full_graph_outputs = 2 ∷ [];
}

built-Reachable : Reachable context built
unfolding tensor matmul node_name name_unnamed deref at output_tensor add_node
built-Reachable =
    Reachable.step
      (Reachable.step (Reachable.step Reachable.start (Step.add_tensor left))
        (Step.add_tensor right))
      (Step.add_matmul (some 0) (some 1) request {r = (2, built)} refl)

Reachable_example : IsWellFormed built
Reachable_example = Reachable-IsWellFormed built-Reachable

-- The output is no longer virtual.
abbrev pub ready : Graph
ready = record built { tensors = left ∷ right ∷ record result { is_virtual = false } ∷ [] }

abbrev pub filled : Store
filled =
    record left { data_type = DataType.float }
    ∷ record right { data_type = DataType.float }
    ∷ record result {
      is_virtual = false;
      data_type = DataType.float;
      dim = pos 2 ∷ pos 4 ∷ [];
      stride = pos 4 ∷ pos 1 ∷ [];
    }
    ∷ []

abbrev pub node_done : MatmulAttr
node_done = record node { compute_data_type = DataType.float }

node-inferred : infer_op context (Op.matmul node) ready.tensors ≡ ok (Op.matmul node_done, filled)
unfolding infer_op Matmul.infer_properties_node fill_compute is_set fill_tensors fill_from_context
    deref modify at put get_matmul_inferred_output_shape for_range get_contiguous_stride_order
    fill_back generate_stride_from_dim place_dim write_stride int64 ◌*ℤ◌
node-inferred = refl

infer_op_example :
    (t' : TensorAttr) × (at filled 2 ≡ ok t') × Keeps (record result { is_virtual = false }) t'
unfolding at
infer_op_example =
    infer_op-Keeps context (Op.matmul node) (Op.matmul node_done) ready.tensors filled 2
      (record result { is_virtual = false }) node-inferred refl

abbrev pub validated : Graph
validated = record ready {
  tensors = filled;
  sub_nodes = record { context = context; op = Op.matmul node_done } ∷ [];
  full_graph_inputs_sorted = 0 ∷ 1 ∷ [];
  full_graph_outputs_sorted = 2 ∷ [];
  is_validated = true;
}

ready-validated : validate ready ≡ ok validated
unfolding validate validate_subtree pre_validate_node tensor_names node_names op_name
    check_names_are_unique is_used infer_properties_node insert_all_sorted insert_sorted
    validate_sub_nodes validate_sub_node pre_validate_op post_validate_op Matmul.pre_validate_node
    Matmul.post_validate_node check_broadcastable check_batch_dims check_mixed_precision
    get_logical_to_physical_permute_order reorderable_from sort_by insert_by iota same_type
    type_code ints_eq validate_inputs validate_outputs Validate.validate check_dynamic_dims
    has_dynamic_dims has_broadcast_dims any_broadcast has_valid_physical_representation any_negative
    check_strides infer_op Matmul.infer_properties_node fill_compute is_set fill_tensors
    fill_from_context deref modify at put get_matmul_inferred_output_shape for_range
    get_contiguous_stride_order fill_back generate_stride_from_dim place_dim write_stride int64 ◌*ℤ◌
ready-validated = refl

validate_example :
    IsValidated validated
    × (validated.full_graph_inputs ≡ ready.full_graph_inputs)
    × (validated.full_graph_outputs ≡ ready.full_graph_outputs)
    × Nodup (("a" ∷ "b" ∷ []) ++ (("mm_C" ∷ []) ++ node_names ready.sub_nodes))
unfolding tensor_names deref at
validate_example =
    validate_lem ready validated ("a" ∷ "b" ∷ []) ("mm_C" ∷ []) refl refl ready-validated

validate-Keeps_example :
    (length validated.tensors ≡ length ready.tensors)
    × ((t' : TensorAttr) × (at validated.tensors 0 ≡ ok t') × Keeps left t')
unfolding at
validate-Keeps_example = validate-Keeps ready validated 0 left ready-validated refl

pre_validate_example :
    (pre_validate_node ready ≡ ok tt)
    ↔ Nodup (("a" ∷ "b" ∷ []) ++ (("mm_C" ∷ []) ++ node_names ready.sub_nodes))
unfolding tensor_names deref at
pre_validate_example = pre_validate_node_iff ready ("a" ∷ "b" ∷ []) ("mm_C" ∷ []) refl refl

check_names_example :
    ((u : List String) × (check_names_are_unique ("a" ∷ "b" ∷ []) [] ≡ ok u))
    ↔ Nodup {A = String} ("a" ∷ "b" ∷ [])
check_names_example = check_names_are_unique_iff ("a" ∷ "b" ∷ [])
