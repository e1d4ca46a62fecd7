-- ===== src/Tensor/Attr.antt =====
-- attributes/tensor_attributes.h: the class `TensorAttr`, its constructors and setters. A setter
-- returns the changed attribute. A float or double is its bit pattern.
pub mod Dynamic
use fusilli.Base.{
  ℕ, Bool, true, false, not, ltb, ◌==◌, Option, none, some, List, [], ◌∷◌, ◌++◌, ℤ, pos, String,
  if◌then◌else◌,
}
use fusilli.Tensor.Types.{DataType, not_set, is_set}
use fusilli.Tensor.Types
use fusilli.Tensor.Order.{sort_by}
use fusilli.Graph.Context.{Context}

pub data Scalar : Type 0 where
  long int : ℤ → Scalar
  float double : ℕ → Scalar

pub record TensorAttr : Type 0 where
  pub name : String
  pub data_type : DataType
  pub dim : List ℤ
  pub stride : List ℤ
  pub dynamic_dims : List ℕ
  pub is_virtual : Bool
  pub is_scalar : Bool
  pub scalar_value : Option Scalar

abbrev pub default_tensor : TensorAttr
default_tensor = record {
  name = "";
  data_type = not_set;
  dim = [];
  stride = [];
  dynamic_dims = [];
  is_virtual = false;
  is_scalar = false;
  scalar_value = none;
}

-- The constructors from a value.
scalar_type : Scalar → DataType
scalar_type (long n) = DataType.int64
scalar_type (int n) = DataType.int32
scalar_type (float n) = DataType.float
scalar_type (double n) = DataType.double

unfoldable pub scalar_tensor : Scalar → TensorAttr
unfolding scalar_type
scalar_tensor value = record default_tensor {
  scalar_value = some value;
  is_scalar = true;
  dim = pos 1 ∷ [];
  stride = pos 1 ∷ [];
  data_type = scalar_type value;
}

unfoldable pub fill_from_context : Context → TensorAttr → TensorAttr
fill_from_context context t =
    if is_set t.data_type
    then t
    else if t.is_virtual
    then record t { data_type = context.intermediate_data_type }
    else record t { data_type = context.io_data_type }

-- `std::unique` keeps the first of each run of equal elements.
unfoldable pub unique_from : ℕ → List ℕ → List ℕ
unique_from last [] = []
unique_from last (x ∷ xs) = elim (last == x) [
  | true ↦ unique_from last xs
  | false ↦ x ∷ unique_from x xs
]

unfoldable pub unique : List ℕ → List ℕ
unfolding unique_from
unique [] = []
unique (x ∷ xs) = x ∷ unique_from x xs

unfoldable pub canonicalize_dynamic_dims : List ℕ → List ℕ
unfolding unique sort_by
canonicalize_dynamic_dims dims = unique (sort_by ltb dims)

unfoldable pub set_dynamic_dim : ℕ → TensorAttr → TensorAttr
unfolding canonicalize_dynamic_dims
set_dynamic_dim index t = record t {
  dynamic_dims = canonicalize_dynamic_dims (t.dynamic_dims ++ index ∷ []);
}

unfoldable pub set_dynamic_dims : List ℕ → TensorAttr → TensorAttr
unfolding canonicalize_dynamic_dims
set_dynamic_dims indices t = record t { dynamic_dims = canonicalize_dynamic_dims indices }

unfoldable pub set_output : Bool → TensorAttr → TensorAttr
set_output is_output t = record t { is_virtual = not is_output }
