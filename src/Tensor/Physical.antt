-- ===== src/Tensor/Physical.antt =====
-- attributes/tensor_attributes.h: whether strides describe a tensor in memory, the permutation
-- between the logical and the physical dimensions, and the physical dimensions.
use fusilli.Base.{
  ℕ, suc, ◌==◌, ◌!=◌, leb, Bool, true, false, ◌&&◌, ◌||◌, not, List, [], ◌∷◌, ℤ, pos, ltb_ℤ, ◌==ℤ◌,
  length, replicate, iota, is_empty, Outcome, ok, assert, ◌>>=◌, ◌>>◌, mul64, at, put, for_range,
  if◌then◌else◌,
}
use fusilli.Tensor.Attr.{TensorAttr}
use fusilli.Tensor.Layout.{is_broadcast}
use fusilli.Tensor.Order.{sort_by, inverse_permutation}

-- A stride with the dimension that it belongs to.
abbrev pub by_stride : ℤ × ℤ → ℤ × ℤ → Bool
by_stride (s, d) (s', d') = ltb_ℤ s s'

abbrev pub pair_up : List ℤ → List ℤ → List (ℤ × ℤ)
pair_up (s ∷ ss) (d ∷ ds) = (s, d) ∷ pair_up ss ds
pair_up _ _ = []

unfoldable pub any_negative : List ℤ → Bool
any_negative [] = false
any_negative (s ∷ ss) = ltb_ℤ s (pos 0) || any_negative ss

-- The loop over the sorted pairs, with `expectedStride` as its variable.
unfoldable pub check_strides : ℤ → List (ℤ × ℤ) → Outcome Bool
check_strides expected [] = ok true
check_strides expected ((actual, size) ∷ rest) = elim (size ==ℤ pos 1 || actual ==ℤ pos 0) [
  | true ↦ check_strides expected rest
  | false ↦ elim (actual ==ℤ expected) [
    | true ↦ mul64 actual size >>= λ next. check_strides next rest
    | false ↦ ok false
  ]
]

unfoldable pub has_valid_physical_representation : TensorAttr → Outcome Bool
unfolding any_negative check_strides sort_by
has_valid_physical_representation t =
    if length t.dim != length t.stride
    then ok false
    else if is_empty t.dim
    then ok true
    else if any_negative t.stride
    then ok false
    else check_strides (pos 1) (sort_by by_stride (pair_up t.stride t.dim))

-- `strideWithIndex`: the dimensions that take part in the layout.
unfoldable pub reorderable_from : ℕ → List ℤ → List ℤ → List (ℤ × ℕ)
reorderable_from i (d ∷ ds) (s ∷ ss) =
    let rest = reorderable_from (suc i) ds ss in
    if not (d ==ℤ pos 1) && not (s ==ℤ pos 0) then (s, i) ∷ rest else rest
reorderable_from i _ _ = []

abbrev pub by_descending_stride : ℤ × ℕ → ℤ × ℕ → Bool
by_descending_stride (s, i) (s', i') = ltb_ℤ s' s

unfoldable pub get_logical_to_physical_permute_order : TensorAttr → Outcome (List ℕ)
unfolding reorderable_from sort_by
get_logical_to_physical_permute_order t = do
  let n = length t.dim
  assert (leb 1 n)
  assert (n == length t.stride)
  let reorderable = reorderable_from 0 t.dim t.stride
  let sorted = sort_by by_descending_stride reorderable
  if is_empty reorderable
      then ok (iota 0 n)
      else for_range 0 (length reorderable)
          (λ i order. do
            (_, logical_idx) ← at reorderable i
            (_, target_idx) ← at sorted i
            put order logical_idx target_idx)
          (iota 0 n)

unfoldable pub get_physical_to_logical_permute_order : TensorAttr → Outcome (List ℕ)
unfolding get_logical_to_physical_permute_order inverse_permutation
get_physical_to_logical_permute_order t =
    get_logical_to_physical_permute_order t >>= inverse_permutation

unfoldable pub get_physical_dim : TensorAttr → Outcome (List ℤ)
unfolding get_logical_to_physical_permute_order has_valid_physical_representation
get_physical_dim t = do
  valid ← has_valid_physical_representation t
  assert valid
  order ← get_logical_to_physical_permute_order t
  for_range 0 (length t.dim)
      (λ i dims. do
        src ← at order i
        d ← at t.dim src
        s ← at t.stride src
        put dims i (if is_broadcast d s then pos 1 else d))
      (replicate (length t.dim) (pos 0))
