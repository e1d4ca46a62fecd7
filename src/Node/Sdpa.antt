-- ===== src/Node/Sdpa.antt =====
-- node/sdpa_node.h, attributes/sdpa_attributes.h: scaled dot-product attention.
pub mod Laws
pub mod Inferred
use fusilli.Base.{
  ℕ, ◌%◌, ◌^◌, ◌!=◌, ltb, leb, Bool, true, false, not, ◌&&◌, ◌||◌, is_some, Option, none, some,
  List, [], ◌∷◌, ℤ, pos, ◌==ℤ◌, ints_eq, length, is_empty, String, Outcome, ok, error_if,
  attribute_not_set, invalid_attribute, ◌>>=◌, ◌>>◌, at, mod64, if◌then◌else◌, ◌==◌,
}
use fusilli.Graph.Context.{Context}
use fusilli.Tensor.Types.{DataType}
use fusilli.Tensor.Order.{get_contiguous_stride_order}
use fusilli.Tensor.Stride.{generate_stride_from_dim}
use fusilli.Node.Store.{
  Store, Ptr, deref, modify, set_stride, require, fill_tensors, fill_compute, infer_dim,
}

-- `dropout` and `scale` are the bit patterns of 32-bit floats.
pub record SdpaAttr : Type 0 where
  pub name : String
  pub compute_data_type : DataType
  pub q : Ptr
  pub k : Ptr
  pub v : Ptr
  pub mask : Ptr
  pub o : Ptr
  pub dropout : ℕ
  pub is_causal : Bool
  pub scale : Option ℕ
  pub enable_gqa : Bool

-- Below the sign bit a float is its magnitude; above that of infinity it is not a number.
abbrev pub is_nan : ℕ → Bool
is_nan f = ltb 0x7f80_0000 (f % 2 ^ 31)

-- `f < 0.0f`
abbrev pub lt_zero : ℕ → Bool
lt_zero f = not (is_nan f) && (leb (2 ^ 31) f && not (f % 2 ^ 31 == 0))

-- `f >= 1.0f`
abbrev pub ge_one : ℕ → Bool
ge_one f = not (is_nan f) && (ltb f (2 ^ 31) && leb 0x3f80_0000 f)

-- The head counts, with grouped queries or without.
unfoldable pub check_heads : Bool → ℤ → ℤ → ℤ → Outcome (Unit {0})
check_heads true heads_q heads_k heads_v = do
  r ← mod64 heads_q heads_k
  error_if (not (r ==ℤ pos 0)) invalid_attribute
  r' ← mod64 heads_q heads_v
  error_if (not (r' ==ℤ pos 0)) invalid_attribute
check_heads false heads_q heads_k heads_v = do
  error_if (not (heads_q ==ℤ heads_k)) invalid_attribute
  error_if (not (heads_q ==ℤ heads_v)) invalid_attribute

abbrev pub one_or : ℤ → ℤ → Bool
one_or m d = m ==ℤ pos 1 || m ==ℤ d

-- The mask is broadcast to `[batch, heads_q, seq_q, seq_kv]`.
unfoldable pub check_mask : Ptr → List ℤ → List ℤ → Store → Outcome (Unit {0})
check_mask none q_dim k_dim st = ok tt
check_mask (some i) q_dim k_dim st = do
  mask ← deref st (some i)
  seq_q ← at q_dim 2
  seq_kv ← at k_dim 2
  error_if (length mask.dim != 4) invalid_attribute
  batch ← at q_dim 0
  m₀ ← at mask.dim 0
  error_if (not (one_or m₀ batch)) invalid_attribute
  heads_q ← at q_dim 1
  m₁ ← at mask.dim 1
  error_if (not (one_or m₁ heads_q)) invalid_attribute
  m₂ ← at mask.dim 2
  error_if (not (one_or m₂ seq_q)) invalid_attribute
  m₃ ← at mask.dim 3
  error_if (not (one_or m₃ seq_kv)) invalid_attribute

-- Ranks, then the dimensions that `Q`, `K` and `V` share.
unfoldable pub check_operands : List ℤ → List ℤ → List ℤ → Outcome (Unit {0})
check_operands q_dim k_dim v_dim = do
  error_if (length q_dim != 4) invalid_attribute
  error_if (length k_dim != 4) invalid_attribute
  error_if (length v_dim != 4) invalid_attribute
  q₀ ← at q_dim 0
  k₀ ← at k_dim 0
  v₀ ← at v_dim 0
  error_if (not (q₀ ==ℤ k₀) || not (q₀ ==ℤ v₀)) invalid_attribute
  q₃ ← at q_dim 3
  k₃ ← at k_dim 3
  error_if (not (q₃ ==ℤ k₃)) invalid_attribute
  k₂ ← at k_dim 2
  v₂ ← at v_dim 2
  error_if (not (k₂ ==ℤ v₂)) invalid_attribute

unfoldable pub pre_validate_node : SdpaAttr → Store → Outcome (Unit {0})
unfolding check_operands check_heads check_mask
pre_validate_node attr st = do
  require attr.q
  require attr.k
  require attr.v
  require attr.o
  q ← deref st attr.q
  k ← deref st attr.k
  v ← deref st attr.v
  check_operands q.dim k.dim v.dim
  heads_q ← at q.dim 1
  heads_k ← at k.dim 1
  heads_v ← at v.dim 1
  check_heads attr.enable_gqa heads_q heads_k heads_v
  error_if (is_some attr.mask && attr.is_causal) invalid_attribute
  check_mask attr.mask q.dim k.dim st
  error_if (lt_zero attr.dropout || ge_one attr.dropout) invalid_attribute

-- `{qDim[0], qDim[1], qDim[2], vDim[3]}`
unfoldable pub output_dim : List ℤ → List ℤ → Outcome (List ℤ)
output_dim q_dim v_dim = do
  batch ← at q_dim 0
  heads ← at q_dim 1
  seq ← at q_dim 2
  head_dim ← at v_dim 3
  ok (batch ∷ heads ∷ seq ∷ head_dim ∷ [])

unfoldable pub infer_properties_node : Context → SdpaAttr → Store → Outcome (SdpaAttr × Store)
unfolding output_dim
infer_properties_node context attr st = do
  let attr' = record attr { compute_data_type = fill_compute context attr.compute_data_type }
  st₁ ← fill_tensors context (attr.q ∷ attr.k ∷ attr.v ∷ attr.mask ∷ attr.o ∷ []) st
  q ← deref st₁ attr.q
  v ← deref st₁ attr.v
  o_dim ← output_dim q.dim v.dim
  st₂ ← infer_dim attr.o o_dim st₁
  o ← deref st₂ attr.o
  st₃ ←
      (if is_empty o.stride
        then (do
          order ← get_contiguous_stride_order (length o_dim)
          stride ← generate_stride_from_dim o_dim order
          modify attr.o (set_stride stride) st₂)
        else ok st₂)
  ok (attr', st₃)

unfoldable pub post_validate_node : SdpaAttr → Store → Outcome (Unit {0})
unfolding output_dim
post_validate_node attr st = do
  q ← deref st attr.q
  v ← deref st attr.v
  expected ← output_dim q.dim v.dim
  o ← deref st attr.o
  error_if (not (ints_eq o.dim expected)) invalid_attribute
