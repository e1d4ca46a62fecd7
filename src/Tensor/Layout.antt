-- ===== src/Tensor/Layout.antt =====
-- attributes/tensor_attributes.h: the queries of `TensorAttr` about its dimensions and strides.
pub mod Laws
use fusilli.Base.{
  ℕ, zero, suc, ◌==◌, ltb, Bool, true, false, ◌&&◌, ◌||◌, List, [], ◌∷◌, ℤ, pos, ltb_ℤ, ◌==ℤ◌,
  ints_eq, length, is_empty, not, Outcome, ok, ◌>>=◌, ◌>>◌, mul64, if◌then◌else◌,
}
use fusilli.Tensor.Attr.{TensorAttr}
use fusilli.Tensor.Order.{get_contiguous_stride_order, get_channels_last_stride_order}
use fusilli.Tensor.Stride.{generate_stride_from_dim}

unfoldable pub contains_index : ℕ → List ℕ → Bool
contains_index index [] = false
contains_index index (x ∷ xs) = index == x || contains_index index xs

-- `std::binary_search` on the sorted indices.
unfoldable pub is_dynamic_dim : TensorAttr → ℕ → Bool
unfolding contains_index
is_dynamic_dim t index = contains_index index t.dynamic_dims

unfoldable pub has_dynamic_dims : TensorAttr → Bool
has_dynamic_dims t = not (is_empty t.dynamic_dims)

unfoldable pub volume_from : ℤ → List ℤ → Outcome ℤ
volume_from volume [] = ok volume
volume_from volume (d ∷ ds) = mul64 volume d >>= λ v. volume_from v ds

unfoldable pub get_volume : TensorAttr → Outcome ℤ
unfolding volume_from
get_volume t = volume_from (pos 1) t.dim

unfoldable pub is_contiguous : TensorAttr → Outcome Bool
unfolding ints_eq
is_contiguous t = do
  order ← get_contiguous_stride_order (length t.dim)
  expected ← generate_stride_from_dim t.dim order
  ok (ints_eq expected t.stride)

unfoldable pub is_channels_last : TensorAttr → Outcome Bool
unfolding ints_eq
is_channels_last t = do
  order ← get_channels_last_stride_order (length t.dim)
  expected ← generate_stride_from_dim t.dim order
  ok (ints_eq expected t.stride)

-- `!t->isContiguous() && !t->isChannelsLast()`
unfoldable pub is_neither_layout : TensorAttr → Outcome Bool
is_neither_layout t = do
  contiguous ← is_contiguous t
  elim contiguous [ true ↦ ok false | false ↦ is_channels_last t >>= λ last. ok (not last) ]

abbrev pub is_broadcast : ℤ → ℤ → Bool
is_broadcast d s = ltb_ℤ (pos 1) d && s ==ℤ pos 0

unfoldable pub any_broadcast : List ℤ → List ℤ → Bool
any_broadcast (d ∷ ds) (s ∷ ss) = is_broadcast d s || any_broadcast ds ss
any_broadcast _ _ = false

unfoldable pub has_broadcast_dims : TensorAttr → Bool
unfolding any_broadcast
has_broadcast_dims t = any_broadcast t.dim t.stride

unfoldable pub unexpanded : List ℤ → List ℤ → List ℤ
unexpanded (d ∷ ds) (s ∷ ss) = (if is_broadcast d s then pos 1 else d) ∷ unexpanded ds ss
unexpanded ds _ = ds

unfoldable pub get_unexpanded_dim : TensorAttr → List ℤ
unfolding unexpanded
get_unexpanded_dim t = unexpanded t.dim t.stride
