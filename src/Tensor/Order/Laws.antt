-- ===== src/Tensor/Order/Laws.antt =====
-- attributes/tensor_attributes.h: the stride orders in closed form.
use fusilli.Base.{
  leb, true, ℕ, zero, suc, ◌+◌, ◌-◌, ◌≡◌, refl, ap, ◌∙◌, List, [], ◌∷◌, ◌++◌, arith, length,
  replicate, ok, put, for_range, put-append_right, put-replicate_last,
}
use mathlib.Core.List.{append-nil}
use native.Mathlib.Nat.{add-zero}
use fusilli.Tensor.Order.{fill_back, get_contiguous_stride_order, get_channels_last_stride_order}

-- `count` places from `first` on, the largest first.
unfoldable pub descending : ℕ → ℕ → List ℕ
descending first zero = []
descending first (suc count) = (first + count) ∷ descending first count

pub length-descending : (first count : ℕ) → length (descending first count) ≡ count
unfolding descending
length-descending first zero = refl
length-descending first (suc count) = ap suc (length-descending first count)

pub descending-append :
    (first count : ℕ) (ys : List ℕ)
    → descending (first + 1) count ++ first ∷ ys ≡ descending first (suc count) ++ ys
unfolding descending
descending-append first zero ys = rw (add-zero first)
descending-append first (suc count) ys =
    let e : first + 1 + count ≡ first + suc count = omega arith in
    rw (descending-append first count ys, e)

-- The loop fills the last `count` free places of `xs`, from the back.
pub fill_back_lem :
    (n k count order : ℕ) (xs ys : List ℕ)
    → length xs + count + k ≡ n
    → for_range k count (fill_back n) (xs ++ (replicate count 0 ++ ys), order)
      ≡ ok (xs ++ (descending order count ++ ys), order + count)
unfolding for_range descending fill_back
fill_back_lem n k zero order xs ys e = rw (add-zero order)
fill_back_lem n k (suc count) order xs ys e =
    let write =
      put-append_right xs _ count (n - 1 - k) order (omega arith)
        (put-replicate_last count 0 order ys) in
    let rest : order + 1 + count ≡ order + suc count = omega arith in
    rw write (
      fill_back_lem n (suc k) count (order + 1) xs (order ∷ ys) (omega arith)
      ∙ rw (descending-append order count ys, rest))

-- The first dimension has the last place, and so on down.
pub get_contiguous_stride_order_lem :
    (n : ℕ) → get_contiguous_stride_order (suc n) ≡ ok (descending 0 (suc n))
unfolding get_contiguous_stride_order
get_contiguous_stride_order_lem n =
    let allowed : leb 1 (suc n) ≡ true = ground arith in
    let filled = fill_back_lem (suc n) 0 (suc n) 0 [] [] (omega arith) in
    rw (allowed, simp append-nil at filled)

-- The channels have the first place, behind them the other dimensions from the back.
pub get_channels_last_stride_order_lem :
    (n : ℕ)
    → get_channels_last_stride_order (suc (suc (suc n)))
      ≡ ok (suc (suc n) ∷ 0 ∷ descending 1 (suc n))
unfolding get_channels_last_stride_order put
get_channels_last_stride_order_lem n =
    let allowed : leb 3 (suc (suc (suc n))) ≡ true = ground arith in
    let rounds : suc (suc (suc n)) - 2 ≡ suc n = omega arith in
    let filled = fill_back_lem (suc (suc (suc n))) 0 (suc n) 1 (0 ∷ 0 ∷ []) [] (omega arith) in
    rw (allowed, rounds, simp append-nil at filled)
      (let e : 1 + suc n ≡ suc (suc n) = omega arith in rw e)
