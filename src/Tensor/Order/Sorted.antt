-- ===== src/Tensor/Order/Sorted.antt =====
-- attributes/tensor_attributes.h: `generateStrideOrderPreservingFormat`.
use fusilli.Base.{
  ℕ, zero, suc, ◌+◌, ◌-◌, ◌<◌, ◌≤◌, ◌==◌, ltb, leb, ◌≡◌, refl, ap, ◌∙◌, inl, inr, Bool-cases, List,
  [], ◌∷◌, ◌++◌, ℤ, length, length-append, iota, arith, ok, ◌>>=◌, at, put, at-append_right,
  for_range, replicate, if◌then◌else◌, max,
}
use mathlib.Core.Path.{subst}
use fusilli.Tensor.Order.{
  insert_by, sort_by, by_value, enumerate_from, firsts, sorted_indices,
  generate_stride_order_preserving_format, inverse_permutation,
}
use fusilli.Tensor.Order.Inverse.{IsPermutation, inverse_permutation_lem}

-- How often an index occurs.
abbrev pub count : ℕ → List ℕ → ℕ
count j [] = 0
count j (x ∷ xs) = (if x == j then 1 else 0) + count j xs

count-insert_by :
    (j : ℕ) (p : ℕ × ℤ) (xs : List (ℕ × ℤ))
    → count j (firsts (insert_by by_value p xs)) ≡ count j (firsts (p ∷ xs))
unfolding insert_by
count-insert_by j p [] = refl
count-insert_by j p (x ∷ xs) =
    let rest = count-insert_by j p xs in
    elim (Bool-cases (by_value x p)) [ inl e ↦ rw e (omega (arith, rest)) | inr e ↦ rw e refl ]

pub count-sort_by :
    (j : ℕ) (xs : List (ℕ × ℤ)) → count j (firsts (sort_by by_value xs)) ≡ count j (firsts xs)
unfolding sort_by
count-sort_by j [] = refl
count-sort_by j ((i, a) ∷ xs) =
    count-insert_by j (i, a) (sort_by by_value xs)
    ∙ ap (λ n. (if i == j then 1 else 0) + n) (count-sort_by j xs)

pub count-enumerate_from :
    (j k : ℕ) (xs : List ℤ)
    → count j (firsts (enumerate_from k xs))
      ≡ (if leb k j then (if ltb j (k + length xs) then 1 else 0) else 0)
count-enumerate_from j k [] = ground arith
count-enumerate_from j k (x ∷ xs) =
    let rest = count-enumerate_from j (suc k) xs in ground (arith, rest)

length-insert_by :
    (p : ℕ × ℤ) (xs : List (ℕ × ℤ))
    → length (firsts (insert_by by_value p xs)) ≡ suc (length (firsts xs))
unfolding insert_by
length-insert_by p [] = refl
length-insert_by p (x ∷ xs) = elim (Bool-cases (by_value x p)) [
  | inl e ↦ rw e (ap suc (length-insert_by p xs))
  | inr e ↦ rw e refl
]

length-sorted :
    (k : ℕ) (xs : List ℤ) → length (firsts (sort_by by_value (enumerate_from k xs))) ≡ length xs
unfolding sort_by
length-sorted k [] = refl
length-sorted k (x ∷ xs) =
    length-insert_by (k, x) (sort_by by_value (enumerate_from (suc k) xs))
    ∙ ap suc (length-sorted (suc k) xs)

at-counted : (xs : List ℕ) (i j : ℕ) → at xs i ≡ ok j → 1 ≤ count j xs
unfolding at
at-counted [] i j h = absurd cc
at-counted (x ∷ xs) zero j h = ground arith
at-counted (x ∷ xs) (suc i) j h = let rest = at-counted xs i j h in omega (arith, rest)

counted_once :
    (xs : List ℕ) (i i' j : ℕ) → count j xs ≤ 1 → at xs i ≡ ok j → at xs i' ≡ ok j → i ≡ i'
unfolding at
counted_once [] i i' j one h h' = absurd cc
counted_once (x ∷ xs) zero zero j one h h' = refl
counted_once (x ∷ xs) zero (suc i') j one h h' =
    let more = at-counted xs i' j h' in absurd (ground arith)
counted_once (x ∷ xs) (suc i) zero j one h h' =
    let more = at-counted xs i j h in absurd (ground arith)
counted_once (x ∷ xs) (suc i) (suc i') j one h h' =
    ap suc (counted_once xs i i' j (ground arith) h h')

sorted_indices-IsPermutation : (strides : List ℤ) → IsPermutation (sorted_indices strides)
unfolding sorted_indices
sorted_indices-IsPermutation strides =
    let indices = firsts (sort_by by_value (enumerate_from 0 strides)) in
    let counts =
      λ (j : ℕ). count-sort_by j (enumerate_from 0 strides) ∙ count-enumerate_from j 0 strides in
    let len = length-sorted 0 strides in
    (
      λ i j h. let some_ = at-counted indices i j h in let c = counts j in ground arith,
      λ i i' j h h'. let c = counts j in counted_once indices i i' j (ground arith) h h',
    )

at-append_left : (xs ys : List ℕ) (i a : ℕ) → at xs i ≡ ok a → at (xs ++ ys) i ≡ ok a
unfolding at
at-append_left [] ys i a h = absurd cc
at-append_left (x ∷ xs) ys zero a h = h
at-append_left (x ∷ xs) ys (suc i) a h = at-append_left xs ys i a h

at-iota : (first n i : ℕ) → i < n → at (iota first n) i ≡ ok (first + i)
unfolding at iota
at-iota first zero i h = absurd (omega arith)
at-iota first (suc n) zero h = ap ok (omega arith)
at-iota first (suc n) (suc i) h = at-iota (suc first) n i (omega arith) ∙ ap ok (omega arith)

length-iota : (first n : ℕ) → length (iota first n) ≡ n
unfolding iota
length-iota first zero = refl
length-iota first (suc n) = ap suc (length-iota (suc first) n)

module _ (strides : List ℤ) where
  length-sorted_indices : length (sorted_indices strides) ≡ length strides
  unfolding sorted_indices
  length-sorted_indices = length-sorted 0 strides

  inverse_order :
      (q : List ℕ) × (for_range 0
          (length strides)
          (λ i order. at (sorted_indices strides) i >>= λ j. put order j i)
          (replicate (length strides) 0)
        ≡ ok q)
      × (length q ≡ length strides)
      × ((i j : ℕ) → at (sorted_indices strides) i ≡ ok j → at q j ≡ ok i)
  unfolding inverse_permutation
  inverse_order =
      let (q, e, len, back) =
        inverse_permutation_lem (sorted_indices strides) (sorted_indices-IsPermutation strides) in
      let all = length-sorted_indices in
      (
        q,
        subst
            (λ n.
              for_range 0 n (λ i order. at (sorted_indices strides) i >>= λ j. put order j i)
                (replicate n 0)
              ≡ ok q)
            all e,
        len ∙ all,
        back,
      )

  -- The order is computed without a fault. It gives each dimension of the strides its place among
  -- the indices that are sorted by stride, and each dimension beyond them its own index.
  pub generate_stride_order_preserving_format_lem :
      (output_dim_size : ℕ)
      → (order : List ℕ) × (generate_stride_order_preserving_format strides output_dim_size
          ≡ ok order)
        × (length order ≡ max (length strides) output_dim_size)
        × ((i j : ℕ) → at (sorted_indices strides) i ≡ ok j → at order j ≡ ok i)
        × ((i : ℕ) → length strides ≤ i → i < output_dim_size → at order i ≡ ok i)
  unfolding generate_stride_order_preserving_format
  generate_stride_order_preserving_format_lem output_dim_size =
      let (q, e, len, back) = inverse_order in
      let n = length strides in
      let tail = iota n (output_dim_size - n) in
      let tail_len = length-iota n (output_dim_size - n) in
      elim (Bool-cases (ltb n output_dim_size)) [
        | inl more ↦
            let lt : n < output_dim_size = ground arith in
            let whole = length-append q tail in
            (
              q ++ tail,
              rw (e, more) refl,
              omega arith,
              λ i j h. at-append_left q tail j i (back i j h),
              λ i low high.
                  at-append_right q tail (i - n) i (omega arith)
                  ∙ at-iota n (output_dim_size - n) (i - n) (omega arith)
                  ∙ ap ok (omega arith),
            )
        | inr no_more ↦
            let le : output_dim_size ≤ n = ground arith in
            (q, rw (e, no_more) refl, omega arith, back, λ i low high. absurd (omega arith))
      ]
