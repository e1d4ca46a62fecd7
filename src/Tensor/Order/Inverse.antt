-- ===== src/Tensor/Order/Inverse.antt =====
-- attributes/tensor_attributes.h: `inversePermutation`.
use fusilli.Base.{
  ℕ, zero, suc, ◌<◌, ◌≡◌, refl, sym, ap, ◌∙◌, List, [], ◌∷◌, arith, length, replicate, ok, ◌>>=◌,
  at, put, for_count_ok, length-put, at_ok, length-replicate, ◌==◌, >>=-eq-ok, inl, inr, Bool-cases,
}
use fusilli.Tensor.Order.{inverse_permutation}

-- Every entry of `p` is a place of `p`, and no two entries are equal.
abbrev pub IsPermutation : List ℕ → Type 0
IsPermutation p =
    ((i j : ℕ) → at p i ≡ ok j → j < length p)
    × ((i i' j : ℕ) → at p i ≡ ok j → at p i' ≡ ok j → i ≡ i')

module _ {ℓ} {A : Type ℓ} where
  pub put_ok : (xs : List A) (i : ℕ) (a : A) → i < length xs → (ys : List A) × (put xs i a ≡ ok ys)
  unfolding put
  put_ok [] i a h = absurd (omega arith)
  put_ok (x ∷ xs) zero a h = (a ∷ xs, refl)
  put_ok (x ∷ xs) (suc i) a h = let (ys, e) = put_ok xs i a (omega arith) in (x ∷ ys, rw e)

  pub at→lt : (xs : List A) (i : ℕ) {a : A} → at xs i ≡ ok a → i < length xs
  unfolding at
  at→lt [] i h = cc
  at→lt (x ∷ xs) zero h = omega arith
  at→lt (x ∷ xs) (suc i) h = omega (arith, at→lt xs i h)

  pub at-put : (xs : List A) (i : ℕ) (a : A) {ys : List A} → put xs i a ≡ ok ys → at ys i ≡ ok a
  unfolding put at
  at-put [] i a h = cc
  at-put (x ∷ xs) zero a {ys} h = let e : a ∷ xs ≡ ys = cc in rw (sym e)
  at-put (x ∷ xs) (suc i) a {ys} h =
      let (zs, e, e') = >>=-eq-ok (put xs i a) (λ zs. ok (x ∷ zs)) h in
      let e'' : x ∷ zs ≡ ys = cc in rw (sym e'') (at-put xs i a e)

  pub at-put_other :
      (xs : List A) (i j : ℕ) (a : A) {ys : List A}
      → put xs i a ≡ ok ys
      → ¬ (i ≡ j)
      → at ys j ≡ at xs j
  unfolding put at
  at-put_other [] i j a h d = cc
  at-put_other (x ∷ xs) zero zero a h d = absurd (d refl)
  at-put_other (x ∷ xs) zero (suc j) a {ys} h d = let e : a ∷ xs ≡ ys = cc in rw (sym e)
  at-put_other (x ∷ xs) (suc i) zero a {ys} h d =
      let (zs, e, e') = >>=-eq-ok (put xs i a) (λ zs. ok (x ∷ zs)) h in
      let e'' : x ∷ zs ≡ ys = cc in rw (sym e'')
  at-put_other (x ∷ xs) (suc i) (suc j) a {ys} h d =
      let (zs, e, e') = >>=-eq-ok (put xs i a) (λ zs. ok (x ∷ zs)) h in
      let e'' : x ∷ zs ≡ ys = cc in rw (sym e'') (at-put_other xs i j a e (λ q. d (ap suc q)))

module _ (p : List ℕ) (perm : IsPermutation p) where
  -- After `k` rounds the first `k` entries are inverted.
  abbrev Inverted : ℕ → List ℕ → Type 0
  Inverted k q = (length q ≡ length p) × ((i j : ℕ) → i < k → at p i ≡ ok j → at q j ≡ ok i)

  -- One round inverts one entry more.
  invert_entry :
      (k j : ℕ) (q q' : List ℕ)
      → at p k ≡ ok j
      → put q j k ≡ ok q'
      → ((i j : ℕ) → i < k → at p i ≡ ok j → at q j ≡ ok i)
      → (i j' : ℕ) → i < suc k
      → at p i ≡ ok j'
      → at q' j' ≡ ok i
  invert_entry k j q q' ej eq' done i j' lt e = elim (Bool-cases (i == k)) [
    | inl same ↦
        let ik : i ≡ k = ground arith in let jj : j ≡ j' = cc in let new = at-put q j k eq' in cc
    | inr other ↦
        let ik : ¬ (i ≡ k) = ground arith in
        at-put_other q j j' k eq' (λ jj. ik (perm.1 i k j' e (ej ∙ ap ok jj)))
        ∙ done i j' (ground arith) e
  ]

  invert_round :
      (k : ℕ) (q : List ℕ)
      → k < length p
      → Inverted k q
      → (q' : List ℕ) × ((at p k >>= λ j. put q j k) ≡ ok q') × Inverted (suc k) q'
  invert_round k q small (len, done) =
      let (j, ej) = at_ok p k small in
      let (q', eq') = put_ok q j k (omega (arith, perm.0 k j ej)) in
      (q', rw ej eq', (length-put q j k eq' ∙ len, invert_entry k j q q' ej eq' done))

  -- The inverse of a permutation vector is computed without a fault, has the same size, and leads
  -- from `p[i]` back to `i` for every place `i` of `p`.
  pub inverse_permutation_lem :
      (q : List ℕ) × (inverse_permutation p ≡ ok q)
      × (length q ≡ length p)
      × ((i j : ℕ) → at p i ≡ ok j → at q j ≡ ok i)
  unfolding inverse_permutation
  inverse_permutation_lem =
      let (q, e, (len, back)) =
        for_count_ok Inverted (λ i inverse. at p i >>= λ j. put inverse j i) (length p)
          (replicate (length p) 0) invert_round
          (length-replicate (length p) 0, λ i j lt h. absurd (omega arith)) in
      (q, e, len, λ i j h. back i j (at→lt p i h) h)
