-- ===== src/Tensor/Stride/Laws.antt =====
-- attributes/tensor_attributes.h: row-major and channels-last strides in closed form.
use native.Mathlib.Nat.{one-mul}
use mathlib.Core.List.{append-nil}
use fusilli.Base.{
  mul64, put-replicate_last, sym, length-append, ℕ, zero, suc, ◌*◌, ◌^◌, ◌<◌, ◌≤◌, ◌≡◌, refl, ap,
  List, [], ◌∷◌, ◌++◌, map, arith, ℤ, pos, length, replicate, product, ok, ◌>>=◌, All, length-map,
  put, for_range, at,
}
use fusilli.Tensor.Order.{get_contiguous_stride_order, get_channels_last_stride_order}
use fusilli.Tensor.Order.Laws.{
  descending, get_contiguous_stride_order_lem, get_channels_last_stride_order_lem,
}
use fusilli.Tensor.Stride.{place_dim, write_stride, generate_stride_from_dim}
use fusilli.Tensor.Stride.Rounds.{
  fold_list, for_range-at, back_pairs, suffix_products, times, place_back, write_back, mul64_ok,
  factor_small, fold_list-append,
}

map_pos_one : (ns : List ℕ) → times 1 ns ≡ map pos ns
map_pos_one [] = refl
map_pos_one (n ∷ ns) = rw (one-mul n, map_pos_one ns)

length-back_pairs : (k : ℕ) (ns : List ℕ) → length (back_pairs k ns) ≡ length ns
unfolding back_pairs
length-back_pairs k [] = refl
length-back_pairs k (d ∷ ds) =
    omega
      (arith, length-append (back_pairs (suc k) ds) ((k, pos d) ∷ []), length-back_pairs (suc k) ds)

-- The loop that writes the strides, once the places are known.
written_strides :
    (pairs : List (ℕ × ℤ)) (count : ℕ) (s : List ℤ × ℤ) {stride : List ℤ} {total : ℤ}
    → count ≡ length pairs
    → fold_list write_stride pairs s ≡ ok (stride, total)
    → (for_range 0 count (λ i t. at pairs i >>= λ p. write_stride p t) s >>= λ r. ok r.0)
      ≡ ok stride
written_strides pairs count s e h =
    rw (e, for_range-at write_stride pairs [] pairs 0 s refl refl, h)

-- Dimensions `ns` of at least one, whose volume is an `int64_t`.
abbrev pub Extents : List ℕ → Type 0
Extents ns = All (λ n. 1 ≤ n) ns × (product ns < 2 ^ 63)

pub generate_stride_from_dim-descending :
    (ns : List ℕ)
    → Extents ns
    → generate_stride_from_dim (map pos ns) (descending 0 (length ns))
      ≡ ok (map pos (suffix_products ns))
unfolding generate_stride_from_dim
generate_stride_from_dim-descending ns (positive, small) =
    let placed =
      place_back (map pos ns) (descending 0 (length ns)) [] [] 0 0 ns [] [] refl refl refl refl
        refl in
    let written = write_back [] 0 ns [] 1 refl positive (rw (one-mul (product ns)) small) in
    rw (length-map ns pos, simp append-nil at placed)
      (written_strides (back_pairs 0 ns) (length ns) _ (sym (length-back_pairs 0 ns))
        (simp (append-nil, map_pos_one) at written))

-- The strides that the order of a contiguous tensor gives.
pub contiguous_strides :
    (n : ℕ) (ns : List ℕ)
    → Extents (n ∷ ns)
    → (get_contiguous_stride_order (length (map pos (n ∷ ns)))
        >>= generate_stride_from_dim (map pos (n ∷ ns)))
      ≡ ok (map pos (suffix_products (n ∷ ns)))
contiguous_strides n ns h =
    rw (length-map (n ∷ ns) pos, get_contiguous_stride_order_lem (length ns))
      (generate_stride_from_dim-descending (n ∷ ns) h)

place_last :
    (m n : ℕ)
    → put (replicate (suc m) (0, pos 0)) m (0, pos n)
      ≡ ok (replicate {A = ℕ × ℤ} m (0, pos 0) ++ (0, pos n) ∷ [])
place_last m n = simp append-nil at (put-replicate_last {A = ℕ × ℤ} m (0, pos 0) (0, pos n) [])

product_pos : (ns : List ℕ) → All (λ n. 1 ≤ n) ns → 1 ≤ product ns
product_pos [] h = omega arith
product_pos (suc n ∷ ns) (npos, h) = omega (arith, product_pos ns h)
product_pos (zero ∷ ns) (npos, h) = absurd (omega arith)

module _ (n c : ℕ) (ds : List ℕ) (h : Extents (n ∷ c ∷ ds)) where
  channels_last_placed :
      (m : ℕ)
      → length ds ≡ suc m
      → for_range 0
          (suc (suc (suc m)))
          (place_dim (map pos (n ∷ c ∷ ds)) (suc (suc m) ∷ 0 ∷ descending 1 (suc m)))
          (replicate (suc (suc (suc m))) (0, pos 0))
        ≡ ok ((1, pos c) ∷ (back_pairs 2 ds ++ (0, pos n) ∷ []))
  unfolding for_range place_dim at put
  channels_last_placed m e =
      let others =
        place_back (map pos (n ∷ c ∷ ds)) (suc (suc m) ∷ 0 ∷ descending 1 (suc m))
          (pos n ∷ pos c ∷ []) (suc (suc m) ∷ 0 ∷ []) 2 1 ds ((1, pos c) ∷ []) ((0, pos n) ∷ [])
          refl (rw e) refl refl refl in
      rw (place_last m n) (rw e at others)

  channels_last_written :
      fold_list write_stride
        ((1, pos c) ∷ (back_pairs 2 ds ++ (0, pos n) ∷ []))
        (replicate (suc (suc (length ds))) (pos 0), pos 1)
      ≡ ok (pos (c * product ds) ∷ pos 1 ∷ times c (suffix_products ds), pos (c * product ds * n))
  unfolding fold_list write_stride put
  channels_last_written =
      let npos = h.0.0 in
      let positive = h.0.1.1 in
      let volume : c * product ds * n < 2 ^ 63 = omega (arith, h.1) in
      let inner : c * product ds < 2 ^ 63 = factor_small _ n npos volume in
      let channels : c < 2 ^ 63 = factor_small c (product ds) (product_pos ds positive) inner in
      let first : mul64 (pos 1) (pos c) ≡ ok (pos c) =
        rw (one-mul c) at (mul64_ok 1 c (rw (one-mul c) channels)) in
      let middle = write_back (pos 0 ∷ pos 1 ∷ []) 2 ds [] c refl positive inner in
      rw (
        first,
        fold_list-append write_stride (back_pairs 2 ds) ((0, pos n) ∷ []),
        simp append-nil at middle,
        mul64_ok (c * product ds) n volume,
      )

-- The strides that the channels-last order gives: the channels first, then the dimensions behind
-- them from the back, and the first dimension last.
pub channels_last_strides :
    (n c d : ℕ) (ds : List ℕ)
    → Extents (n ∷ c ∷ d ∷ ds)
    → (get_channels_last_stride_order (length (map pos (n ∷ c ∷ d ∷ ds)))
        >>= generate_stride_from_dim (map pos (n ∷ c ∷ d ∷ ds)))
      ≡ ok (pos (c * product (d ∷ ds)) ∷ pos 1 ∷ times c (suffix_products (d ∷ ds)))
unfolding generate_stride_from_dim
channels_last_strides n c d ds h =
    let places : length (back_pairs 2 (d ∷ ds) ++ (0, pos n) ∷ []) ≡ suc (suc (length ds)) = omega (
      arith,
      length-append (back_pairs 2 (d ∷ ds)) ((0, pos n) ∷ []),
      length-back_pairs 2 (d ∷ ds),
    ) in
    rw
      (
        length-map ds pos,
        get_channels_last_stride_order_lem (length ds),
        length-map ds pos,
        channels_last_placed n c (d ∷ ds) h (length ds) refl,
      )
      (written_strides ((1, pos c) ∷ (back_pairs 2 (d ∷ ds) ++ (0, pos n) ∷ []))
        (suc (suc (suc (length ds)))) _ (ap suc (sym places))
        (channels_last_written n c (d ∷ ds) h))
