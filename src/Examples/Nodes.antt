-- ===== src/Examples/Nodes.antt =====
-- node/: theorems at concrete nodes.
use fusilli.Base.{
  ℕ, ◌≡◌, refl, ◌↔◌, true, some, none, List, [], ◌∷◌, ℤ, pos, ok, fault, at, for_range, iota, put,
  int64, ◌*ℤ◌, ints_eq,
}
use fusilli.Tensor.Attr.{TensorAttr, default_tensor}
use fusilli.Tensor.Types.{DataType}
use fusilli.Tensor.Layout.{is_contiguous}
use fusilli.Tensor.Types.{same_type, type_code}
use fusilli.Tensor.Order.{sort_by, insert_by, get_contiguous_stride_order, fill_back}
use fusilli.Tensor.Stride.{generate_stride_from_dim, place_dim, write_stride}
use fusilli.Tensor.Physical.{get_logical_to_physical_permute_order, reorderable_from}
use fusilli.Node.Store.{Store, deref}
use fusilli.Node.Matmul.{
  MatmulAttr, get_matmul_inferred_output_shape, check_broadcastable, check_batch_dims,
  check_mixed_precision,
}
use fusilli.Node.Matmul
use fusilli.Node.Matmul.Shape.{IsProduct, pre_validate_node-output_shape}
use fusilli.Node.Norm.{NormFwdPhase}
use fusilli.Node.Norm.Layer.{LayernormAttr}
use fusilli.Node.Norm.Layer
use fusilli.Node.Norm.Rms.{RmsnormAttr}
use fusilli.Node.Norm.Rms
use fusilli.Node.Norm.Batch.{BatchnormAttr}
use fusilli.Node.Norm.Batch
use fusilli.Node.Norm.Laws.{rms_post_validate-training, norm_pre_validate-two_dims}
use fusilli.Node.Pointwise.{PointwiseAttr, inputs}
use fusilli.Node.Pointwise
use fusilli.Node.Pointwise.Modes.{Mode, required_input_count}
use fusilli.Node.Pointwise.Laws.{ExactlyFirst, pointwise_pre_validate_iff}
use fusilli.Node.Reduction.{check_reduced}
use fusilli.Node.Reduction.Laws.{IsReduced, check_reduced_iff}

abbrev left : TensorAttr
left = record default_tensor {
  name = "a";
  data_type = DataType.float;
  dim = pos 2 ∷ pos 3 ∷ [];
  stride = pos 3 ∷ pos 1 ∷ [];
}

abbrev right : TensorAttr
right = record default_tensor {
  name = "b";
  data_type = DataType.float;
  dim = pos 3 ∷ pos 4 ∷ [];
  stride = pos 4 ∷ pos 1 ∷ [];
}

abbrev operands : Store
operands = left ∷ right ∷ default_tensor ∷ []

abbrev product_node : MatmulAttr
product_node = record {
  name = "mm";
  compute_data_type = DataType.float;
  a = some 0;
  b = some 1;
  c = some 2;
}

product_node-accepted : Matmul.pre_validate_node product_node operands ≡ ok tt
unfolding Matmul.pre_validate_node deref at check_broadcastable check_batch_dims
    check_mixed_precision for_range get_logical_to_physical_permute_order reorderable_from sort_by
    insert_by iota put same_type type_code
product_node-accepted = refl

output_shape_example :
    (c : List ℤ) × (get_matmul_inferred_output_shape left.dim right.dim ≡ ok c)
    × IsProduct left.dim right.dim c
unfolding deref at
output_shape_example =
    pre_validate_node-output_shape product_node operands left right refl refl product_node-accepted

abbrev relu : PointwiseAttr
relu = record {
  name = "relu";
  compute_data_type = DataType.float;
  mode = Mode.relu_fwd;
  in_0 = some 0;
  in_1 = none;
  in_2 = none;
  out_0 = some 1;
  elu_alpha = 1065353216;
  softplus_beta = 1065353216;
  softplus_threshold = 1101004800;
  swish_beta = 1065353216;
}

pointwise_pre_validate_example : (Pointwise.pre_validate_node relu ≡ ok tt) ↔ (
    (n : ℕ) × (required_input_count Mode.relu_fwd ≡ some n)
    × ExactlyFirst n (inputs relu)
    × (true ≡ true))
pointwise_pre_validate_example = pointwise_pre_validate_iff relu

check_reduced_example :
    (check_reduced (pos 2 ∷ pos 3 ∷ []) (pos 2 ∷ pos 1 ∷ []) ≡ ok tt)
    ↔ IsReduced (pos 2 ∷ pos 3 ∷ []) (pos 2 ∷ pos 1 ∷ [])
check_reduced_example = check_reduced_iff (pos 2 ∷ pos 3 ∷ []) (pos 2 ∷ pos 1 ∷ []) refl

abbrev rms : RmsnormAttr
rms = record {
  name = "rms";
  compute_data_type = DataType.float;
  forward_phase = NormFwdPhase.training;
  x = some 0;
  scale = none;
  epsilon = some 1;
  y = some 2;
  inv_rms = some 3;
}

rms_post_validate_example : ¬ (Rms.post_validate_node rms operands ≡ ok tt)
rms_post_validate_example = rms_post_validate-training rms operands refl

-- A matrix that is stored by columns.
abbrev transposed : TensorAttr
transposed = record default_tensor {
  name = "x";
  data_type = DataType.float;
  dim = pos 2 ∷ pos 3 ∷ [];
  stride = pos 1 ∷ pos 2 ∷ [];
}

abbrev layer : LayernormAttr
layer = record {
  name = "ln";
  compute_data_type = DataType.float;
  forward_phase = NormFwdPhase.inference;
  x = some 0;
  scale = none;
  bias = none;
  epsilon = some 2;
  y = some 1;
  mean = none;
  inv_variance = none;
}

abbrev batch : BatchnormAttr
batch = record {
  name = "bn";
  compute_data_type = DataType.float;
  forward_phase = NormFwdPhase.inference;
  x = some 0;
  scale = none;
  bias = none;
  mean = some 2;
  var = some 2;
  epsilon = some 2;
  momentum = some 2;
  y = some 1;
  saved_mean = none;
  saved_inv_variance = none;
}

norm_two_dims_example :
    (Layer.pre_validate_node layer (transposed ∷ []) ≡ fault)
    × (Rms.pre_validate_node
          (record rms { forward_phase = NormFwdPhase.inference; x = some 0; y = some 1 })
          (transposed ∷ [])
        ≡ fault)
    × (Batch.pre_validate_node batch (transposed ∷ []) ≡ fault)
unfolding at is_contiguous get_contiguous_stride_order generate_stride_from_dim for_range fill_back
    put place_dim write_stride int64 ◌*ℤ◌ ints_eq
norm_two_dims_example =
    norm_pre_validate-two_dims layer rms batch NormFwdPhase.inference (transposed ∷ []) transposed 0
      1 refl refl refl refl
