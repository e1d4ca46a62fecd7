-- ===== src/Tensor/Order.antt =====
-- attributes/tensor_attributes.h: stride orders and permutation vectors. A stride order gives each
-- dimension its place, counted from the one that changes fastest.
pub mod Laws
pub mod Inverse
pub mod Sorted
pub mod Monotone
use fusilli.Base.{
  ℕ, ◌+◌, ◌-◌, ◌<◌, ltb, leb, List, [], ◌∷◌, ◌++◌, ℤ, ltb_ℤ, length, replicate, iota, Outcome, ok,
  assert, ◌>>=◌, ◌>>◌, at, put, for_range, if◌then◌else◌, Bool, zero, suc,
}

-- One round of `for (size_t i = numDims; i > 0; --i) strideOrder[i - 1] = order++;`, the `k`-th.
unfoldable pub fill_back : ℕ → ℕ → List ℕ × ℕ → Outcome (List ℕ × ℕ)
fill_back n k (v, order) = do v' ← put v (n - 1 - k) order; ok (v', order + 1)

unfoldable pub get_contiguous_stride_order : ℕ → Outcome (List ℕ)
get_contiguous_stride_order n = do
  assert (leb 1 n)
  (v, _) ← for_range 0 n (fill_back n) (replicate n 0, 0)
  ok v

unfoldable pub get_channels_last_stride_order : ℕ → Outcome (List ℕ)
get_channels_last_stride_order n = do
  assert (leb 3 n)
  v ← put (replicate n 0) 1 0
  (v', order) ← for_range 0 (n - 2) (fill_back n) (v, 1)
  put v' 0 order

-- `std::sort` and `std::stable_sort` by a strict order, as the insertion sort that keeps equal
-- elements in place (which is what the usual library does to ranges of up to sixteen elements).
module _ {ℓ} {A : Type ℓ} where
  unfoldable pub insert_by : (A → A → Bool) → A → List A → List A
  insert_by lt x [] = x ∷ []
  insert_by lt x (y ∷ ys) = if lt y x then y ∷ insert_by lt x ys else x ∷ y ∷ ys

  unfoldable pub sort_by : (A → A → Bool) → List A → List A
  sort_by lt [] = []
  sort_by lt (x ∷ xs) = insert_by lt x (sort_by lt xs)

-- `v[i]` where `i` runs over a vector of indices and the values are kept beside them.
abbrev pub by_value : ℕ × ℤ → ℕ × ℤ → Bool
by_value (i, a) (j, b) = ltb_ℤ a b

abbrev pub enumerate_from {ℓ} : {A : Type ℓ} → ℕ → List A → List (ℕ × A)
enumerate_from k [] = []
enumerate_from k (x ∷ xs) = (k, x) ∷ enumerate_from (suc k) xs

abbrev pub firsts {ℓ} : {A : Type ℓ} → List (ℕ × A) → List ℕ
firsts [] = []
firsts ((i, a) ∷ xs) = i ∷ firsts xs

-- The indices, sorted by the strides that they lead to.
unfoldable pub sorted_indices : List ℤ → List ℕ
sorted_indices strides = firsts (sort_by by_value (enumerate_from 0 strides))

unfoldable pub generate_stride_order_preserving_format : List ℤ → ℕ → Outcome (List ℕ)
unfolding sorted_indices
generate_stride_order_preserving_format strides output_dim_size = do
  let n = length strides
  let indices = sorted_indices strides
  order ← for_range 0 n (λ i order. do j ← at indices i; put order j i) (replicate n 0)
  ok (if ltb n output_dim_size then order ++ iota n (output_dim_size - n) else order)

unfoldable pub get_preserve_contiguous_permute_order : ℕ → Outcome (List ℕ)
get_preserve_contiguous_permute_order n = do assert (leb 1 n); ok (iota 0 n)

unfoldable pub get_channels_last_to_contiguous_permute_order : ℕ → Outcome (List ℕ)
get_channels_last_to_contiguous_permute_order n = do
  assert (leb 3 n)
  v ← put (replicate n 0) 0 0
  (v', order) ←
      for_range 2 (n - 2) (λ i (v, order). do v' ← put v i order; ok (v', order + 1)) (v, 1)
  put v' 1 order

unfoldable pub get_contiguous_to_channels_last_permute_order : ℕ → Outcome (List ℕ)
get_contiguous_to_channels_last_permute_order n = do
  assert (leb 3 n)
  v ← put (replicate n 0) 0 0
  v' ← put v (n - 1) 1
  (v'', _) ← for_range 1 (n - 2) (λ i (v, order). do w ← put v i order; ok (w, order + 1)) (v', 2)
  ok v''

-- `inverse[permutation[i]] = i` for every `i`.
unfoldable pub inverse_permutation : List ℕ → Outcome (List ℕ)
inverse_permutation permutation =
    for_range 0 (length permutation) (λ i inverse. do j ← at permutation i; put inverse j i)
      (replicate (length permutation) 0)
