-- ===== src/Tensor/Broadcast.antt =====
-- attributes/tensor_attributes.h: the common shape of right-aligned shapes.
pub mod Laws
use fusilli.Base.{
  ℕ, ◌-◌, max, Bool, not, List, [], ◌∷◌, ℤ, pos, ◌==ℤ◌, length, replicate, is_empty, Outcome, ok,
  error_if, invalid_attribute, ◌>>=◌, ◌>>◌, at, put, for_range, if◌then◌else◌, ◌&&◌, true, false,
}

unfoldable pub non_empty_shapes : List (List ℤ) → List (List ℤ)
non_empty_shapes [] = []
non_empty_shapes (shape ∷ shapes) =
    if is_empty shape then non_empty_shapes shapes else shape ∷ non_empty_shapes shapes

-- `std::max_element` by size, then `->size()`.
unfoldable pub max_size : List (List ℤ) → ℕ
max_size [] = 0
max_size (shape ∷ shapes) = max (length shape) (max_size shapes)

-- One dimension, counted from the right.
unfoldable pub broadcast_dim : List ℤ → ℕ → List ℤ → Outcome (List ℤ)
broadcast_dim shape offset common = do
  let common_idx = length common - 1 - offset
  c ← at common common_idx
  s ← at shape (length shape - 1 - offset)
  common' ← (if c ==ℤ pos 1 then put common common_idx s else ok common)
  c' ← at common' common_idx
  error_if (not (s ==ℤ pos 1) && not (c' ==ℤ s)) invalid_attribute
  ok common'

unfoldable pub broadcast_shapes : List (List ℤ) → List ℤ → Outcome (List ℤ)
unfolding broadcast_dim
broadcast_shapes [] common = ok common
broadcast_shapes (shape ∷ shapes) common =
    for_range 0 (length shape) (broadcast_dim shape) common >>= broadcast_shapes shapes

unfoldable pub compute_broadcast_shape : List (List ℤ) → Outcome (List ℤ)
unfolding broadcast_shapes max_size non_empty_shapes
compute_broadcast_shape shapes = do
  let filtered = non_empty_shapes shapes
  error_if (is_empty filtered) invalid_attribute
  broadcast_shapes filtered (replicate (max_size filtered) (pos 1))
