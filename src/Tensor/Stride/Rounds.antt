-- ===== src/Tensor/Stride/Rounds.antt =====
-- attributes/tensor_attributes.h: the loops of `generateStrideFromDim` as recursions on lists.
use fusilli.Base.{
  ℕ, zero, suc, ◌+◌, ◌*◌, ◌^◌, ◌<◌, ◌≤◌, ◌≡◌, refl, ap, List, [], ◌∷◌, ◌++◌, map, arith, ℤ, pos,
  length, replicate, product, Outcome, ok, ◌>>=◌, at, for_range, mul64, int64, pos-*ℤ-pos, lt→ltb,
  at-append_length, length-append, All, put-append_right, put-append_length, put-replicate_last,
  >>=_assoc,
}
use native.Mathlib.Nat.{mul-one}
use mathlib.Core.Path.{fun_ext}
use mathlib.Core.List.{append_assoc}
use fusilli.Tensor.Order.Laws.{descending}
use fusilli.Tensor.Stride.{place_dim, write_stride}

-- `std::vector` cells behind a known prefix are read by a `for` loop as by a fold.
unfoldable pub fold_list {ℓ κ} :
    {A : Type ℓ} {S : Type κ} → (A → S → Outcome S) → List A → S → Outcome S
fold_list f [] s = ok s
fold_list f (x ∷ xs) s = f x s >>= fold_list f xs

module _ {ℓ κ} {A : Type ℓ} {S : Type κ} (f : A → S → Outcome S) where
  pub fold_list-append :
      (xs ys : List A) (s : S) → fold_list f (xs ++ ys) s ≡ (fold_list f xs s >>= fold_list f ys)
  unfolding fold_list
  fold_list-append [] ys s = refl
  fold_list-append (x ∷ xs) ys s =
      rw (fun_ext (fold_list-append xs ys), >>=_assoc (f x s) (fold_list f xs) (fold_list f ys))

  pub for_range-at :
      (whole xs ys : List A) (k : ℕ) (s : S)
      → whole ≡ xs ++ ys
      → k ≡ length xs
      → for_range k (length ys) (λ i t. at whole i >>= λ x. f x t) s ≡ fold_list f ys s
  unfolding for_range fold_list
  for_range-at whole xs [] k s w e = refl
  for_range-at whole xs (y ∷ ys) k s w e =
      let here : at whole k ≡ ok y = rw (w, e) (at-append_length xs y ys) in
      let rest = λ (t : S).
        for_range-at whole (xs ++ y ∷ []) ys (suc k) t (rw (append_assoc xs (y ∷ []) ys) w)
          (omega (arith, length-append xs (y ∷ []))) in
      rw here (ap (λ g. f y s >>= g) (fun_ext rest))

pub mul64_ok : (a b : ℕ) → a * b < 2 ^ 63 → mul64 (pos a) (pos b) ≡ ok (pos (a * b))
unfolding int64
mul64_ok a b h = rw (pos-*ℤ-pos a b, lt→ltb _ _ h)

-- The places from the last dimension of `ns` to its first, which is dimension `k`.
unfoldable pub back_pairs : ℕ → List ℕ → List (ℕ × ℤ)
back_pairs k [] = []
back_pairs k (d ∷ ds) = back_pairs (suc k) ds ++ (k, pos d) ∷ []

-- The stride of each dimension of a row-major tensor: the product of the dimensions behind it.
unfoldable pub suffix_products : List ℕ → List ℕ
suffix_products [] = []
suffix_products (d ∷ ds) = product ds ∷ suffix_products ds

abbrev pub times : ℕ → List ℕ → List ℤ
times c ns = map (λ n. pos (c * n)) ns

pub place_back :
    (dim : List ℤ) (order : List ℕ) (front : List ℤ) (places : List ℕ) (k first : ℕ) (ns : List ℕ)
    (cells rest : List (ℕ × ℤ))
    → dim ≡ front ++ map pos ns
    → order ≡ places ++ descending first (length ns)
    → k ≡ length front
    → k ≡ length places
    → first ≡ length cells
    → for_range k
        (length ns)
        (place_dim dim order)
        (cells ++ (replicate (length ns) (0, pos 0) ++ rest))
      ≡ ok (cells ++ (back_pairs k ns ++ rest))
unfolding for_range descending back_pairs place_dim
place_back dim order front places k first [] cells rest ed eo ek ek' ef = refl
place_back dim order front places k first (d ∷ ds) cells rest ed eo ek ek' ef =
    let place : at order k ≡ ok (first + length ds) =
      rw (eo, ek') (at-append_length places (first + length ds) (descending first (length ds))) in
    let extent : at dim k ≡ ok (pos d) =
      rw (ed, ek) (at-append_length front (pos d) (map pos ds)) in
    let write =
      put-append_right cells _ (length ds) (first + length ds) (k, pos d) (omega arith)
        (put-replicate_last (length ds) (0, pos 0) (k, pos d) rest) in
    rw (place, extent, write, append_assoc (back_pairs (suc k) ds))
      (place_back dim order (front ++ pos d ∷ []) (places ++ (first + length ds) ∷ []) (suc k) first
        ds cells ((k, pos d) ∷ rest) (rw append_assoc ed) (rw append_assoc eo)
        (omega (arith, length-append front (pos d ∷ [])))
        (omega (arith, length-append places ((first + length ds) ∷ []))) ef)

pub factor_small : (a d : ℕ) → 1 ≤ d → a * d < 2 ^ 63 → a < 2 ^ 63
factor_small a zero h small = absurd (omega arith)
factor_small a (suc d) h small = omega arith

pub write_back :
    (front : List ℤ) (k : ℕ) (ns : List ℕ) (rest : List ℤ) (c : ℕ)
    → k ≡ length front
    → All (λ n. 1 ≤ n) ns
    → c * product ns < 2 ^ 63
    → fold_list write_stride
        (back_pairs k ns)
        (front ++ (replicate (length ns) (pos 0) ++ rest), pos c)
      ≡ ok (front ++ (times c (suffix_products ns) ++ rest), pos (c * product ns))
unfolding fold_list back_pairs suffix_products write_stride
write_back front k [] rest c ek positive small = rw (mul-one c)
write_back front k (d ∷ ds) rest c ek (dpos, positive) small =
    let regroup : c * product ds * d ≡ c * (d * product ds) = omega arith in
    let last : c * product ds * d < 2 ^ 63 = rw regroup small in
    let inner : c * product ds < 2 ^ 63 = factor_small _ d dpos last in
    let earlier =
      write_back (front ++ pos 0 ∷ []) (suc k) ds rest c
        (omega (arith, length-append front (pos 0 ∷ []))) positive inner in
    rw (
      fold_list-append write_stride (back_pairs (suc k) ds) ((k, pos d) ∷ []),
      simp append_assoc at earlier,
      ek,
      put-append_length,
      mul64_ok (c * product ds) d last,
      regroup,
    )
