-- ===== src/Tensor/Stride.antt =====
-- attributes/tensor_attributes.h: strides from dimensions and an order, or from a named layout.
pub mod Rounds
pub mod Laws
use fusilli.Base.{
  ℕ, zero, ◌+◌, ◌!=◌, List, Bool, [], ◌∷◌, ℤ, pos, length, replicate, Outcome, ok, error, ErrorCode,
  error_if, ◌>>=◌, ◌>>◌, at, put, for_range, mul64, if◌then◌else◌, ◌||◌, String, str_eq,
  invalid_argument,
}
use Prim.Native.String.{len}
use fusilli.Tensor.Order.{get_contiguous_stride_order, get_channels_last_stride_order}

-- `idxToDimInStrideOrder[strideOrder[i]] = std::make_pair(i, dim[i]);`
unfoldable pub place_dim : List ℤ → List ℕ → ℕ → List (ℕ × ℤ) → Outcome (List (ℕ × ℤ))
place_dim dim order i pairs = do o ← at order i; d ← at dim i; put pairs o (i, d)

-- One dimension, from the fastest to the slowest: write its stride, and take it into the product.
unfoldable pub write_stride : ℕ × ℤ → List ℤ × ℤ → Outcome (List ℤ × ℤ)
write_stride (i, d) (stride, cumulative) = do
  stride' ← put stride i cumulative
  cumulative' ← mul64 cumulative d
  ok (stride', cumulative')

unfoldable pub generate_stride_from_dim : List ℤ → List ℕ → Outcome (List ℤ)
generate_stride_from_dim dim order = do
  let n = length dim
  pairs ← for_range 0 n (place_dim dim order) (replicate n (0, pos 0))
  (stride, _) ←
      for_range 0 n (λ i s. do p ← at pairs i; write_stride p s) (replicate n (pos 0), pos 1)
  ok stride

channels_last_layout : String → Bool
channels_last_layout layout = str_eq layout "NHC" || (str_eq layout "NHWC" || str_eq layout "NDHWC")

contiguous_layout : String → Bool
contiguous_layout layout =
    str_eq layout "N"
    || (str_eq layout "NC"
        || (str_eq layout "NCH" || (str_eq layout "NCHW" || str_eq layout "NCDHW")))

-- `len` counts bytes, as `layout.size()` does.
unfoldable pub generate_stride_from_layout : List ℤ → String → Outcome (List ℤ)
unfolding channels_last_layout contiguous_layout
generate_stride_from_layout dims layout = do
  error_if (length dims != len layout) invalid_argument
  if channels_last_layout layout
      then (do
        order ← get_channels_last_stride_order (length dims)
        generate_stride_from_dim dims order)
      else (if contiguous_layout layout
          then (do
            order ← get_contiguous_stride_order (length dims)
            generate_stride_from_dim dims order)
          else error invalid_argument)
