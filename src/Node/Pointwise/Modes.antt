-- ===== src/Node/Pointwise/Modes.antt =====
-- attributes/pointwise_attributes.h: the modes of a pointwise operation.
use fusilli.Base.{ℕ, Bool, true, false, Option, none, some}
use fusilli.Tensor.Types.{DataType}

pub data Mode : Type 0 where
  not_set : Mode
  abs add add_square binary_select ceil cmp_eq : Mode
  cmp_ge cmp_gt cmp_le cmp_lt cmp_neq div : Mode
  elu_fwd erf exp floor gelu_approx_tanh_bwd gelu_approx_tanh_fwd : Mode
  gelu_bwd gelu_fwd identity log logical_and logical_not : Mode
  logical_or max_op min_op mul neg reciprocal : Mode
  relu_bwd relu_fwd rsqrt sigmoid_fwd sin softplus_fwd : Mode
  sqrt sub swish_bwd swish_fwd tan tanh_bwd : Mode
  tanh_fwd : Mode

-- `kModeToRequiredInputCount`; `none` is a key that the map lacks.
unfoldable pub required_input_count : Mode → Option ℕ
required_input_count not_set = none
required_input_count abs = some 1
required_input_count add = some 2
required_input_count add_square = some 2
required_input_count binary_select = some 3
required_input_count ceil = some 1
required_input_count cmp_eq = some 2
required_input_count cmp_ge = some 2
required_input_count cmp_gt = some 2
required_input_count cmp_le = some 2
required_input_count cmp_lt = some 2
required_input_count cmp_neq = some 2
required_input_count div = some 2
required_input_count elu_fwd = some 1
required_input_count erf = some 1
required_input_count exp = some 1
required_input_count floor = some 1
required_input_count gelu_approx_tanh_bwd = some 2
required_input_count gelu_approx_tanh_fwd = some 1
required_input_count gelu_bwd = some 2
required_input_count gelu_fwd = some 1
required_input_count identity = some 1
required_input_count log = some 1
required_input_count logical_and = some 2
required_input_count logical_not = some 1
required_input_count logical_or = some 2
required_input_count max_op = some 2
required_input_count min_op = some 2
required_input_count mul = some 2
required_input_count neg = some 1
required_input_count reciprocal = some 1
required_input_count relu_bwd = some 2
required_input_count relu_fwd = some 1
required_input_count rsqrt = some 1
required_input_count sigmoid_fwd = some 1
required_input_count sin = some 1
required_input_count softplus_fwd = some 1
required_input_count sqrt = some 1
required_input_count sub = some 2
required_input_count swish_bwd = some 2
required_input_count swish_fwd = some 1
required_input_count tan = some 1
required_input_count tanh_bwd = some 2
required_input_count tanh_fwd = some 1

-- node/pointwise_node.h: `kPointwiseForcedDataTypes`.
unfoldable pub forced_data_type : Mode → Option DataType
forced_data_type cmp_eq = some DataType.boolean
forced_data_type cmp_neq = some DataType.boolean
forced_data_type cmp_lt = some DataType.boolean
forced_data_type cmp_le = some DataType.boolean
forced_data_type cmp_gt = some DataType.boolean
forced_data_type cmp_ge = some DataType.boolean
forced_data_type logical_and = some DataType.boolean
forced_data_type logical_not = some DataType.boolean
forced_data_type logical_or = some DataType.boolean
forced_data_type _ = none

abbrev pub is_not_set : Mode → Bool
is_not_set not_set = true
is_not_set _ = false
