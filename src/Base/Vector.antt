-- ===== src/Base/Vector.antt =====
-- `std::vector` access with its range checked, and the counted loop.
use Prim.Native.Nat.{ℕ, zero, suc, ◌+◌, ◌≤◌, ◌<◌}
use mathlib.Core.Path.{◌≡◌, refl, subst}
use mathlib.Core.List.{List, [], ◌∷◌, ◌++◌}
use mathlib.Core.Logic.{inl, inr}
use native.Mathlib.Omega.{arith}
use fusilli.Base.Tests.{◌==◌, Bool-cases}
use fusilli.Base.Lists.{length, replicate}
use native.Mathlib.Nat.{zero-add}
use fusilli.Base.Results.{Post, Post-ok, Post-then, Outcome, ok, fault, ◌>>=◌, >>=-eq-ok}

module _ {ℓ} {A : Type ℓ} where
  -- `v[i]`
  unfoldable pub at : List A → ℕ → Outcome A
  at [] i = fault
  at (x ∷ xs) zero = ok x
  at (x ∷ xs) (suc i) = at xs i

  -- `v[i] = a`
  unfoldable pub put : List A → ℕ → A → Outcome (List A)
  put [] i a = fault
  put (x ∷ xs) zero a = ok (a ∷ xs)
  put (x ∷ xs) (suc i) a = put xs i a >>= λ ys. ok (x ∷ ys)

  pub at-append_length : (xs : List A) (y : A) (ys : List A) → at (xs ++ y ∷ ys) (length xs) ≡ ok y
  unfolding at
  at-append_length [] y ys = refl
  at-append_length (x ∷ xs) y ys = at-append_length xs y ys

  pub put-append_length :
      (xs : List A) (y : A) (ys : List A) (a : A)
      → put (xs ++ y ∷ ys) (length xs) a ≡ ok (xs ++ a ∷ ys)
  unfolding put
  put-append_length [] y ys a = refl
  put-append_length (x ∷ xs) y ys a = rw (put-append_length xs y ys a)

  pub at-append_right : (xs ys : List A) (i j : ℕ) → j ≡ length xs + i → at (xs ++ ys) j ≡ at ys i
  unfolding at
  at-append_right [] ys i j e = rw (e, zero-add)
  at-append_right (x ∷ xs) ys i zero e = absurd (omega arith)
  at-append_right (x ∷ xs) ys i (suc j) e = at-append_right xs ys i j (omega arith)

  pub put-append_right :
      (xs ys : List A) (i j : ℕ) (a : A) {zs : List A}
      → j ≡ length xs + i
      → put ys i a ≡ ok zs
      → put (xs ++ ys) j a ≡ ok (xs ++ zs)
  unfolding put
  put-append_right [] ys i j a e h = rw (e, zero-add) h
  put-append_right (x ∷ xs) ys i zero a e h = absurd (omega arith)
  put-append_right (x ∷ xs) ys i (suc j) a e h = rw (put-append_right xs ys i j a (omega arith) h)

  pub put-replicate_last :
      (count : ℕ) (b a : A) (ys : List A)
      → put (replicate (suc count) b ++ ys) count a ≡ ok (replicate count b ++ a ∷ ys)
  unfolding put
  put-replicate_last zero b a ys = refl
  put-replicate_last (suc count) b a ys = rw (put-replicate_last count b a ys)

  pub length-put :
      (xs : List A) (i : ℕ) (a : A) {ys : List A} → put xs i a ≡ ok ys → length ys ≡ length xs
  unfolding put
  length-put [] i a h = cc
  length-put (x ∷ xs) zero a h = ground arith
  length-put (x ∷ xs) (suc i) a {ys} h =
      let (zs, e, e') = >>=-eq-ok (put xs i a) (λ zs. ok (x ∷ zs)) h in
      ground (arith, length-put xs i a e)

  pub at_ok : (xs : List A) (i : ℕ) → i < length xs → (a : A) × (at xs i ≡ ok a)
  unfolding at
  at_ok [] i h = absurd (omega arith)
  at_ok (x ∷ xs) zero h = (x, refl)
  at_ok (x ∷ xs) (suc i) h = at_ok xs i (omega arith)

-- `for (i = first; i < first + count; ++i) s = body(i, s);`
unfoldable pub for_range {ℓ} : {S : Type ℓ} → ℕ → ℕ → (ℕ → S → Outcome S) → S → Outcome S
for_range first zero body s = ok s
for_range first (suc count) body s = body first s >>= λ t. for_range (suc first) count body t

-- An invariant that each round keeps, with no fault and no error, is there at the end.
pub for_range_ok {ℓ κ} :
    {S : Type ℓ} (P : ℕ → S → Type κ) (body : ℕ → S → Outcome S) (first count : ℕ) (s : S)
    → ((i : ℕ) (t : S) → i < first + count → P i t → (u : S) × (body i t ≡ ok u) × P (suc i) u)
    → P first s
    → (u : S) × (for_range first count body s ≡ ok u) × P (first + count) u
unfolding for_range
for_range_ok P body first zero s keep p =
    let e : first ≡ first + 0 = omega arith in (s, refl, subst (λ i. P i s) e p)
for_range_ok P body first (suc count) s keep p =
    let (t, e, q) = keep first s (omega arith) p in
    let (u, e', r) = for_range_ok P body (suc first) count t (λ i v lt. keep i v (omega arith)) q in
    let shift : suc first + count ≡ first + suc count = omega arith in
    (u, rw e e', subst (λ i. P i u) shift r)

-- The same for a loop from 0.
pub for_count_ok {ℓ κ} :
    {S : Type ℓ} (P : ℕ → S → Type κ) (body : ℕ → S → Outcome S) (count : ℕ) (s : S)
    → ((i : ℕ) (t : S) → i < count → P i t → (u : S) × (body i t ≡ ok u) × P (suc i) u)
    → P 0 s
    → (u : S) × (for_range 0 count body s ≡ ok u) × P count u
for_count_ok P body count s keep p =
    let (u, e, q) = for_range_ok P body 0 count s (λ i t lt. keep i t (omega arith)) p in
    (u, e, subst (λ i. P i u) (zero-add count) q)

-- A loop of checks passes when each of them does, and only then.
pub for_range-each :
    (body : ℕ → Unit {0} → Outcome (Unit {0})) (first count : ℕ)
    → for_range first count body tt ≡ ok tt
    → (i : ℕ) → first ≤ i
    → i < first + count
    → body i tt ≡ ok tt
unfolding for_range
for_range-each body first zero h i low high = absurd (omega arith)
for_range-each body first (suc count) h i low high =
    let (u, e, h₁) = >>=-eq-ok (body first tt) _ h in
    elim (Bool-cases (first == i)) [
      | inl here ↦ let same : first ≡ i = ground arith in subst (λ j. body j tt ≡ ok tt) same e
      | inr later ↦
          let low' : suc first ≤ i = ground arith in
          for_range-each body (suc first) count h₁ i low' (omega arith)
    ]

pub each-for_range :
    (body : ℕ → Unit {0} → Outcome (Unit {0})) (first count : ℕ)
    → ((i : ℕ) → first ≤ i → i < first + count → body i tt ≡ ok tt)
    → for_range first count body tt ≡ ok tt
unfolding for_range
each-for_range body first zero h = refl
each-for_range body first (suc count) h =
    let here : body first tt ≡ ok tt = h first (omega arith) (omega arith) in
    rw here (each-for_range body (suc first) count λ i low high. h i (omega arith) (omega arith))

-- An invariant that each round keeps, if it ends well, holds at the end, if the loop ends well.
pub for_range-Post {ℓ κ} :
    {S : Type ℓ} (P : ℕ → S → Type κ) (body : ℕ → S → Outcome S) (first count : ℕ) (s : S)
    → ((i : ℕ) (t : S) → i < first + count → P i t → Post (P (suc i)) (body i t))
    → P first s
    → Post (P (first + count)) (for_range first count body s)
unfolding for_range
for_range-Post P body first zero s keep p =
    let e : first ≡ first + 0 = omega arith in Post-ok (P (first + 0)) (subst (λ i. P i s) e p)
for_range-Post P body first (suc count) s keep p =
    let shift : suc first + count ≡ first + suc count = omega arith in
    Post-then (P (suc first)) (keep first s (omega arith) p) λ t q u h.
      subst (λ i. P i u) shift
        (for_range-Post P body (suc first) count t (λ i v lt. keep i v (omega arith)) q u h)
