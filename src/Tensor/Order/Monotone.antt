-- ===== src/Tensor/Order/Monotone.antt =====
-- attributes/tensor_attributes.h: the order of the strides is kept.
use fusilli.Base.{
  ℕ, zero, suc, ◌+◌, ◌<◌, ◌≤◌, ◌==◌, ltb, ltb_ℤ, ◌≡◌, refl, sym, ap, ◌∙◌, ◌⊎◌, inl, inr, Bool-cases,
  true, false, List, [], ◌∷◌, ℤ, length, arith, All, ok, ok-injective, at, max,
}
use mathlib.Core.Path.{subst}
use native.Mathlib.Nat.{zero-add}
use fusilli.Tensor.Order.{
  insert_by, sort_by, by_value, enumerate_from, firsts, sorted_indices,
  generate_stride_order_preserving_format,
}
use fusilli.Tensor.Order.Sorted.{
  count, count-sort_by, count-enumerate_from, generate_stride_order_preserving_format_lem,
}

-- No pair with a smaller value than one before it.
abbrev Ordered : List (ℕ × ℤ) → Type 0
Ordered [] = Unit
Ordered (p ∷ ps) = All (λ q. by_value q p ≡ false) ps × Ordered ps

All-insert_by {ℓ} :
    (P : ℕ × ℤ → Type ℓ) (p : ℕ × ℤ) (ps : List (ℕ × ℤ))
    → P p
    → All P ps
    → All P (insert_by by_value p ps)
unfolding insert_by
All-insert_by P p [] h all = (h, tt)
All-insert_by P p (q ∷ ps) h (hq, all) = elim (Bool-cases (by_value q p)) [
  | inl e ↦ rw e (hq, All-insert_by P p ps h all)
  | inr e ↦ rw e (h, (hq, all))
]

All-sort_by {ℓ} : (P : ℕ × ℤ → Type ℓ) (ps : List (ℕ × ℤ)) → All P ps → All P (sort_by by_value ps)
unfolding sort_by
All-sort_by P [] all = tt
All-sort_by P (p ∷ ps) (h, all) = All-insert_by P p (sort_by by_value ps) h (All-sort_by P ps all)

not_less_trans : (a b c : ℤ) → ltb_ℤ b a ≡ false → ltb_ℤ c b ≡ false → ltb_ℤ c a ≡ false
not_less_trans a b c h h' = ground arith

less_asym : (a b : ℤ) → ltb_ℤ a b ≡ true → ltb_ℤ b a ≡ false
less_asym a b h = ground arith

All-weaken :
    (p q : ℕ × ℤ) (ps : List (ℕ × ℤ))
    → by_value q p ≡ false
    → All (λ r. by_value r q ≡ false) ps
    → All (λ r. by_value r p ≡ false) ps
All-weaken p q [] h all = tt
All-weaken p q (r ∷ ps) h (hr, all) = (not_less_trans p.1 q.1 r.1 h hr, All-weaken p q ps h all)

insert_by-Ordered : (p : ℕ × ℤ) (ps : List (ℕ × ℤ)) → Ordered ps → Ordered (insert_by by_value p ps)
unfolding insert_by
insert_by-Ordered p [] sorted = (tt, tt)
insert_by-Ordered p (q ∷ ps) (all, sorted) = elim (Bool-cases (by_value q p)) [
  | inl e ↦ rw e (
    All-insert_by (λ r. by_value r q ≡ false) p ps (less_asym q.1 p.1 e) all,
    insert_by-Ordered p ps sorted,
  )
  | inr e ↦ rw e ((e, All-weaken p q ps e all), (all, sorted))
]

sort_by-Ordered : (ps : List (ℕ × ℤ)) → Ordered (sort_by by_value ps)
unfolding sort_by
sort_by-Ordered [] = tt
sort_by-Ordered (p ∷ ps) = insert_by-Ordered p (sort_by by_value ps) (sort_by-Ordered ps)

-- The value that stands beside an index is the one at the index.
enumerate_from-All :
    (k : ℕ) (xs ys : List ℤ)
    → ((i : ℕ) (a : ℤ) → at xs i ≡ ok a → at ys (k + i) ≡ ok a)
    → All (λ p. at ys p.0 ≡ ok p.1) (enumerate_from k xs)
unfolding at
enumerate_from-All k [] ys h = tt
enumerate_from-All k (x ∷ xs) ys h =
    let here : k + 0 ≡ k = omega arith in
    (
      subst (λ n. at ys n ≡ ok x) here (h 0 x refl),
      enumerate_from-All (suc k) xs ys λ i a e.
          let next : k + suc i ≡ suc k + i = omega arith in
          subst (λ n. at ys n ≡ ok a) next (h (suc i) a e),
    )

pair_at :
    (ps : List (ℕ × ℤ)) (i j : ℕ)
    → at (firsts ps) i ≡ ok j
    → (p : ℕ × ℤ) × (at ps i ≡ ok p) × (p.0 ≡ j)
unfolding at
pair_at [] i j h = absurd cc
pair_at (p ∷ ps) zero j h = (p, refl, ok-injective h)
pair_at (p ∷ ps) (suc i) j h = pair_at ps i j h

All-at {ℓ} :
    (P : ℕ × ℤ → Type ℓ) (ps : List (ℕ × ℤ)) (i : ℕ) (p : ℕ × ℤ) → All P ps → at ps i ≡ ok p → P p
unfolding at
All-at P [] i p all h = absurd cc
All-at P (q ∷ ps) zero p (hq, all) h = subst P (ok-injective h) hq
All-at P (q ∷ ps) (suc i) p (hq, all) h = All-at P ps i p all h

Ordered-at :
    (ps : List (ℕ × ℤ)) (i i' : ℕ) (p q : ℕ × ℤ)
    → Ordered ps
    → i < i'
    → at ps i ≡ ok p
    → at ps i' ≡ ok q
    → by_value q p ≡ false
unfolding at
Ordered-at [] i i' p q sorted lt h h' = absurd cc
Ordered-at (r ∷ ps) i zero p q sorted lt h h' = absurd (omega arith)
Ordered-at (r ∷ ps) zero (suc i') p q (all, sorted) lt h h' =
    subst (λ r. by_value q r ≡ false) (ok-injective h)
      (All-at (λ q. by_value q r ≡ false) ps i' q all h')
Ordered-at (r ∷ ps) (suc i) (suc i') p q (all, sorted) lt h h' =
    Ordered-at ps i i' p q sorted (omega arith) h h'

position : (xs : List ℕ) (j : ℕ) → 1 ≤ count j xs → (i : ℕ) × (at xs i ≡ ok j)
unfolding at
position [] j h = absurd (omega arith)
position (x ∷ xs) j h = elim (Bool-cases (x == j)) [
  | inl e ↦ let same : x ≡ j = ground arith in (0, ap ok same)
  | inr e ↦ let (i, e') = position xs j (ground arith) in (suc i, e')
]

at→lt : (xs : List ℤ) (i : ℕ) (a : ℤ) → at xs i ≡ ok a → i < length xs
unfolding at
at→lt [] i a h = absurd cc
at→lt (x ∷ xs) zero a h = omega arith
at→lt (x ∷ xs) (suc i) a h = let rest = at→lt xs i a h in omega (arith, rest)

pair_same : (p : ℕ × ℤ) (j : ℕ) (a : ℤ) → p.0 ≡ j → p.1 ≡ a → p ≡ (j, a)
pair_same p j a h h' = cc

apart :
    (strides : List ℤ) (i i' j j' : ℕ) (a a' : ℤ)
    → at (sort_by by_value (enumerate_from 0 strides)) i ≡ ok (j, a)
    → at (sort_by by_value (enumerate_from 0 strides)) i' ≡ ok (j', a')
    → ltb_ℤ a a' ≡ true
    → i < i'
apart strides i i' j j' a a' h h' less =
    let pairs = sort_by by_value (enumerate_from 0 strides) in
    elim (compare_cases i i') [
      | inl lt ↦ lt
      | inr (inl same) ↦
          let equal : a ≡ a' = ap (λ p. p.1) (ok-injective (sym h ∙ ap (at pairs) same ∙ h')) in
          absurd (ground arith)
      | inr (inr gt) ↦
          let wrong = Ordered-at pairs i' i (j', a') (j, a) (sort_by-Ordered _) gt h' h in absurd cc
    ]
  where
    compare_cases : (n m : ℕ) → (n < m) ⊎ ((n ≡ m) ⊎ (m < n))
    compare_cases n m = elim (Bool-cases (ltb n m)) [
      | inl lt ↦ inl (ground arith)
      | inr ge ↦ elim (Bool-cases (n == m)) [
        | inl same ↦ inr (inl (ground arith))
        | inr other ↦ inr (inr (ground arith))
      ]
    ]

-- The place of a dimension among the sorted indices, with its stride.
place :
    (strides : List ℤ) (j : ℕ) (a : ℤ)
    → at strides j ≡ ok a
    → (i : ℕ) × (at (sorted_indices strides) i ≡ ok j)
      × (at (sort_by by_value (enumerate_from 0 strides)) i ≡ ok (j, a))
unfolding sorted_indices
place strides j a h =
    let pairs = sort_by by_value (enumerate_from 0 strides) in
    let lt = at→lt strides j a h in
    let counts = count-sort_by j (enumerate_from 0 strides) ∙ count-enumerate_from j 0 strides in
    let (i, e) = position (firsts pairs) j (ground arith) in
    let (p, ep, same) = pair_at pairs i j e in
    let value : at strides p.0 ≡ ok p.1 =
      All-at (λ p. at strides p.0 ≡ ok p.1) pairs i p
        (All-sort_by (λ p. at strides p.0 ≡ ok p.1) (enumerate_from 0 strides)
          (enumerate_from-All 0 strides strides
            λ i a e. subst (λ n. at strides n ≡ ok a) (sym (zero-add i)) e))
        ep in
    let amount : p.1 ≡ a = ok-injective (sym value ∙ ap (at strides) same ∙ h) in
    (i, e, ep ∙ ap ok (pair_same p j a same amount))

-- Of two dimensions whose strides differ, the one with the smaller stride has the smaller entry in the
-- stride order. For strides with two such dimensions the order is computed without a fault, and it has
-- as many entries as the strides or the output has dimensions, whichever are more.
pub generate_stride_order_preserving_format_monotone :
    (strides : List ℤ) (output_dim_size j j' : ℕ) (a a' : ℤ)
    → at strides j ≡ ok a
    → at strides j' ≡ ok a'
    → ltb_ℤ a a' ≡ true
    → (order : List ℕ) × (i : ℕ) × (i' : ℕ) × (generate_stride_order_preserving_format strides
          output_dim_size
        ≡ ok order)
      × (length order ≡ max (length strides) output_dim_size)
      × (at order j ≡ ok i)
      × (at order j' ≡ ok i')
      × (i < i')
generate_stride_order_preserving_format_monotone strides output_dim_size j j' a a' h h' less =
    let (order, e, len, back, rest) =
      generate_stride_order_preserving_format_lem strides output_dim_size in
    let (i, ei, pi) = place strides j a h in
    let (i', ei', pi') = place strides j' a' h' in
    (order, i, i', e, len, back i j ei, back i' j' ei', apart strides i i' j j' a a' pi pi' less)
