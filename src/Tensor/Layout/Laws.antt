-- ===== src/Tensor/Layout/Laws.antt =====
-- attributes/tensor_attributes.h: the layouts that `isContiguous` and `isChannelsLast` recognise.
use fusilli.Base.{
  ℕ, ◌*◌, ◌≡◌, sym, ◌↔◌, Bool, true, List, ◌∷◌, map, ℤ, pos, ints_eq, ints_eq_refl, ints_eq→eq,
  product, Outcome, ok, error, fault, ◌>>=◌,
}
use fusilli.Tensor.Attr.{TensorAttr}
use fusilli.Tensor.Layout.{is_contiguous, is_channels_last}
use fusilli.Tensor.Stride.{generate_stride_from_dim}
use fusilli.Tensor.Stride.Rounds.{suffix_products, times}
use fusilli.Tensor.Stride.Laws.{Extents, contiguous_strides, channels_last_strides}

ints_eq_iff : (expected stride : List ℤ) → (ints_eq expected stride ≡ true) ↔ (stride ≡ expected)
ints_eq_iff expected stride =
    (λ h. sym (ints_eq→eq expected stride h), λ e. rw (e, ints_eq_refl expected))

compare_strides :
    (m : Outcome (List ℕ)) (g : List ℕ → Outcome (List ℤ)) (stride : List ℤ) {expected : List ℤ}
    → (m >>= g) ≡ ok expected
    → (m >>= λ order. g order >>= λ e. ok (ints_eq e stride)) ≡ ok (ints_eq expected stride)
compare_strides (ok order) g stride h = rw h
compare_strides (error e) g stride h = cc
compare_strides fault g stride h = cc

-- For dimensions of at least one whose product is an `int64_t`, `isContiguous` never faults, and its
-- answer is true exactly when each stride is the product of the dimensions behind it.
pub is_contiguous_iff :
    (t : TensorAttr) (n : ℕ) (ns : List ℕ)
    → t.dim ≡ map pos (n ∷ ns)
    → Extents (n ∷ ns)
    → (b : Bool) × (is_contiguous t ≡ ok b)
      × ((b ≡ true) ↔ (t.stride ≡ map pos (suffix_products (n ∷ ns))))
unfolding is_contiguous
is_contiguous_iff t n ns e h =
    let expected = map pos (suffix_products (n ∷ ns)) in
    (
      ints_eq expected t.stride,
      rw e (
          compare_strides _ (generate_stride_from_dim (map pos (n ∷ ns))) t.stride
            (contiguous_strides n ns h)),
      ints_eq_iff expected t.stride,
    )

-- For three or more dimensions of at least one whose product is an `int64_t`, `isChannelsLast` never
-- faults, and its answer is true exactly when the strides put the channels first, behind them the spatial
-- dimensions in row-major order, and the batch last.
pub is_channels_last_iff :
    (t : TensorAttr) (n c d : ℕ) (ds : List ℕ)
    → t.dim ≡ map pos (n ∷ c ∷ d ∷ ds)
    → Extents (n ∷ c ∷ d ∷ ds)
    → (b : Bool) × (is_channels_last t ≡ ok b)
      × ((b ≡ true)
          ↔ (t.stride ≡ pos (c * product (d ∷ ds)) ∷ pos 1 ∷ times c (suffix_products (d ∷ ds))))
unfolding is_channels_last
is_channels_last_iff t n c d ds e h =
    let expected = pos (c * product (d ∷ ds)) ∷ pos 1 ∷ times c (suffix_products (d ∷ ds)) in
    (
      ints_eq expected t.stride,
      rw e (
          compare_strides _ (generate_stride_from_dim (map pos (n ∷ c ∷ d ∷ ds))) t.stride
            (channels_last_strides n c d ds h)),
      ints_eq_iff expected t.stride,
    )
