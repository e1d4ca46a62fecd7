-- ===== src/Node/Matmul.antt =====
-- node/matmul_node.h, attributes/matmul_attributes.h: matrix multiplication.
pub mod Laws
pub mod Shape
use fusilli.Base.{
  ℕ, ◌-◌, ◌==◌, ◌!=◌, leb, ltb, Bool, true, false, not, List, [], ◌∷◌, ℤ, pos, ◌==ℤ◌, ltb_ℤ,
  ints_eq, length, replicate, is_empty, String, Outcome, ok, error_if, assert, attribute_not_set,
  invalid_attribute, ◌>>=◌, ◌>>◌, at, put, for_range, mod64, if◌then◌else◌,
}
use fusilli.Graph.Context.{Context}
use fusilli.Tensor.Attr.{TensorAttr}
use fusilli.Tensor.Types.{DataType, same_type}
use fusilli.Tensor.Order.{get_contiguous_stride_order}
use fusilli.Tensor.Stride.{generate_stride_from_dim}
use fusilli.Tensor.Physical.{get_logical_to_physical_permute_order}
use fusilli.Node.Store.{
  Store, Ptr, deref, modify, set_dim, set_stride, require, fill_tensors, fill_compute,
}

pub record MatmulAttr : Type 0 where
  pub name : String
  pub compute_data_type : DataType
  pub a : Ptr
  pub b : Ptr
  pub c : Ptr

-- `a % b == 0 || b % a == 0`
unfoldable pub divides_either_way : ℤ → ℤ → Outcome Bool
divides_either_way a b = do
  r ← mod64 a b
  elim (r ==ℤ pos 0) [ true ↦ ok true | false ↦ mod64 b a >>= λ r'. ok (r' ==ℤ pos 0) ]

abbrev pub max_ℤ : ℤ → ℤ → ℤ
max_ℤ a b = if ltb_ℤ a b then b else a

unfoldable pub get_matmul_inferred_output_shape : List ℤ → List ℤ → Outcome (List ℤ)
unfolding divides_either_way
get_matmul_inferred_output_shape a_dim b_dim = do
  let rank = length a_dim
  assert (rank == length b_dim)
  assert (leb 2 rank)
  c ←
      for_range 0 (rank - 2)
        (λ i c. do
          a ← at a_dim i
          b ← at b_dim i
          compatible ← divides_either_way a b
          assert compatible
          put c i (max_ℤ a b))
        (replicate rank (pos 0))
  m ← at a_dim (rank - 2)
  c' ← put c (rank - 2) m
  n ← at b_dim (rank - 1)
  put c' (rank - 1) n

-- Only called for tensors of rank two or more.
unfoldable pub check_batch_dims : TensorAttr → Outcome (Unit {0})
check_batch_dims t = do
  order ← get_logical_to_physical_permute_order t
  for_range 0 (length t.dim - 2) (λ i _. do j ← at order i; error_if (j != i) invalid_attribute) tt

unfoldable pub check_broadcastable : List ℤ → List ℤ → ℕ → Outcome (Unit {0})
check_broadcastable a_dim b_dim count =
    for_range 0 count
      (λ i _. do
        a ← at a_dim i
        b ← at b_dim i
        compatible ← divides_either_way a b
        error_if (not compatible) invalid_attribute)
      tt

unfoldable pub check_mixed_precision : TensorAttr → TensorAttr → Outcome (Unit {0})
check_mixed_precision a b = if same_type a.data_type b.data_type then ok tt else (do
  error_if (length a.dim != 3) invalid_attribute
  a₀ ← at a.dim 0
  b₀ ← at b.dim 0
  error_if (not (a₀ ==ℤ b₀)) invalid_attribute)

unfoldable pub pre_validate_node : MatmulAttr → Store → Outcome (Unit {0})
pre_validate_node attr st = do
  require attr.a
  require attr.b
  require attr.c
  a ← deref st attr.a
  b ← deref st attr.b
  error_if (ltb (length a.dim) 2) invalid_attribute
  error_if (ltb (length b.dim) 2) invalid_attribute
  error_if (length a.dim != length b.dim) invalid_attribute
  a_k ← at a.dim (length a.dim - 1)
  b_k ← at b.dim (length b.dim - 2)
  error_if (not (a_k ==ℤ b_k)) invalid_attribute
  check_broadcastable a.dim b.dim (length a.dim - 2)
  check_batch_dims a
  check_batch_dims b
  check_mixed_precision a b

unfoldable pub infer_properties_node : Context → MatmulAttr → Store → Outcome (MatmulAttr × Store)
infer_properties_node context attr st = do
  let attr' = record attr { compute_data_type = fill_compute context attr.compute_data_type }
  st₁ ← fill_tensors context (attr.a ∷ attr.b ∷ attr.c ∷ []) st
  a ← deref st₁ attr.a
  b ← deref st₁ attr.b
  c ← deref st₁ attr.c
  st₂ ←
      (if is_empty c.dim
        then (do
          dim ← get_matmul_inferred_output_shape a.dim b.dim
          modify attr.c (set_dim dim) st₁)
        else ok st₁)
  c' ← deref st₂ attr.c
  st₃ ←
      (if is_empty c'.stride
        then (do
          order ← get_contiguous_stride_order (length c'.dim)
          stride ← generate_stride_from_dim c'.dim order
          modify attr.c (set_stride stride) st₂)
        else ok st₂)
  ok (attr', st₃)

unfoldable pub post_validate_node : MatmulAttr → Store → Outcome (Unit {0})
post_validate_node attr st = do
  a ← deref st attr.a
  b ← deref st attr.b
  c ← deref st attr.c
  error_if (ltb (length c.dim) 2) invalid_attribute
  expected ← get_matmul_inferred_output_shape a.dim b.dim
  error_if (not (ints_eq c.dim expected)) invalid_attribute
  check_batch_dims c
