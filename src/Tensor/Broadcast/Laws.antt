-- ===== src/Tensor/Broadcast/Laws.antt =====
-- attributes/tensor_attributes.h: `computeBroadcastShape` and the shapes that it is given.
use fusilli.Base.{
  ℕ, ◌-◌, ◌<◌, ◌==◌, ◌≡◌, refl, sym, ap, ◌∙◌, ◌⊎◌, inl, inr, not, ◌&&◌, List, [], ◌∷◌, ℤ, pos,
  ◌==ℤ◌, ==ℤ_iff, arith, length, ok, error_if, invalid_attribute, at, put, length-put, for_range,
  for_range-Post, Bool-cases, Post, Post-ok, Post->>=, Post-then, Post-if, All, ok-injective, at_ok,
  >>=-eq-ok, is_empty, replicate, length-replicate,
}
use fusilli.Tensor.Order.Inverse.{at-put, at-put_other, at→lt}
use fusilli.Tensor.Broadcast.{
  broadcast_dim, broadcast_shapes, compute_broadcast_shape, max_size, non_empty_shapes,
}

-- `common'` differs from `common` only where that is one.
abbrev Widens : List ℤ → List ℤ → Type 0
Widens common common' =
    (length common' ≡ length common)
    × ((i : ℕ) (c : ℤ)
        → at common i ≡ ok c
        → (c' : ℤ) × (at common' i ≡ ok c') × ((c ≡ pos 1) ⊎ (c' ≡ c)))

-- The last `count` dimensions of `shape` are one or those of `common`.
abbrev pub Suits : ℕ → List ℤ → List ℤ → Type 0
Suits count shape common =
    (offset : ℕ) (s c : ℤ)
    → offset < count
    → at shape (length shape - 1 - offset) ≡ ok s
    → at common (length common - 1 - offset) ≡ ok c
    → (s ≡ pos 1) ⊎ (s ≡ c)

Widens-refl : (common : List ℤ) → Widens common common
Widens-refl common = (refl, λ i c e. (c, e, inr refl))

Widens-trans : (a b c : List ℤ) → Widens a b → Widens b c → Widens a c
Widens-trans a b c (l, w) (l', w') = (
  l' ∙ l,
  λ i x e. let (y, e', r) = w i x e in let (z, e'', r') = w' i y e' in (z, e'', widened x y z r r'),
)
  where
    widened : (x y z : ℤ) → (x ≡ pos 1) ⊎ (y ≡ x) → (y ≡ pos 1) ⊎ (z ≡ y) → (x ≡ pos 1) ⊎ (z ≡ x)
    widened x y z (inl e) r = inl e
    widened x y z (inr e) (inl f) = inl (sym e ∙ f)
    widened x y z (inr e) (inr f) = inr (f ∙ e)

put-Widens :
    (common : List ℤ) (i : ℕ) (s : ℤ)
    → at common i ≡ ok (pos 1)
    → Post (Widens common) (put common i s)
put-Widens common i s one common' h = (
  length-put common i s h,
  λ j c e. elim (Bool-cases (i == j)) [
    | inl same ↦
        let ij : i ≡ j = ground arith in
        let c1 : c ≡ pos 1 = ok-injective (sym e ∙ ap (at common) (sym ij) ∙ one) in
        (s, ap (at common') (sym ij) ∙ at-put common i s h, inl c1)
    | inr other ↦ (c, at-put_other common i j s h (ground arith) ∙ e, inr refl)
  ],
)

checked_dim :
    (s' d s c : ℤ)
    → s' ≡ s
    → d ≡ c
    → error_if (not (s ==ℤ pos 1) && not (c ==ℤ s)) invalid_attribute ≡ ok tt
    → (s' ≡ pos 1) ⊎ (s' ≡ d)
checked_dim s' d s c e e' h = elim (Bool-cases (s ==ℤ pos 1)) [
  | inl one ↦ inl (e ∙ (==ℤ_iff s (pos 1)).0 one)
  | inr other ↦ inr (e ∙ sym ((==ℤ_iff c s).0 (ground arith)) ∙ sym e')
]

-- One dimension: afterwards the shape suits there.
broadcast_dim-Widens :
    (shape : List ℤ) (offset : ℕ) (common : List ℤ)
    → Post
        (λ common'.
          Widens common common'
          × ((s c : ℤ)
              → at shape (length shape - 1 - offset) ≡ ok s
              → at common' (length common' - 1 - offset) ≡ ok c
              → (s ≡ pos 1) ⊎ (s ≡ c)))
        (broadcast_dim shape offset common)
unfolding broadcast_dim
broadcast_dim-Widens shape offset common = Post->>= (at common (length common - 1 - offset)) λ c ec.
    Post->>= (at shape (length shape - 1 - offset)) λ s es.
      Post-then (Widens common)
        (Post-if (c ==ℤ pos 1)
          (λ one. put-Widens common _ s (ec ∙ ap ok ((==ℤ_iff c (pos 1)).0 one)))
          (λ _. Post-ok (Widens common) (Widens-refl common)))
        λ common' w. Post->>= (at common' (length common - 1 - offset)) λ c' ec'.
          Post->>= (error_if (not (s ==ℤ pos 1) && not (c' ==ℤ s)) invalid_attribute) λ _ ok_.
            Post-ok _ (
              w,
              λ s' d es' ed.
                  let here = ap (λ n. at common' (n - 1 - offset)) (sym w.0) ∙ ed in
                  checked_dim s' d s c' (ok-injective (sym es' ∙ es))
                    (ok-injective (sym here ∙ ec')) ok_,
            )

Suits-Widens :
    (count : ℕ) (shape common common' : List ℤ)
    → Suits count shape common
    → Widens common common'
    → Suits count shape common'
Suits-Widens count shape common common' suits (l, w) offset s c' lt es ec' =
    let ec'' = ap (λ n. at common' (n - 1 - offset)) (sym l) ∙ ec' in
    let inside = at→lt common' (length common - 1 - offset) ec'' in
    let (c, ec) = at_ok common (length common - 1 - offset) (omega (arith, inside, l)) in
    let (d, ed, r) = w _ c ec in
    widened_dim s c d c' (ok-injective (sym ed ∙ ec'')) (suits offset s c lt es ec) r
  where
    widened_dim :
        (s c d c' : ℤ)
        → d ≡ c'
        → (s ≡ pos 1) ⊎ (s ≡ c)
        → (c ≡ pos 1) ⊎ (d ≡ c)
        → (s ≡ pos 1) ⊎ (s ≡ c')
    widened_dim s c d c' e (inl one) r = inl one
    widened_dim s c d c' e (inr same) (inl one) = inl (same ∙ one)
    widened_dim s c d c' e (inr same) (inr kept) = inr (same ∙ sym kept ∙ e)

-- All dimensions of one shape.
broadcast_shape-Suits :
    (shape common : List ℤ)
    → Post
        (λ common'. Widens common common' × Suits (length shape) shape common')
        (for_range 0 (length shape) (broadcast_dim shape) common)
broadcast_shape-Suits shape common common' h =
    let (w, suits) =
      for_range-Post (λ k c. Widens common c × Suits k shape c) (broadcast_dim shape) 0
        (length shape) common
        (λ k c lt (w, suits). λ c' h'.
          let (w', new) = broadcast_dim-Widens shape k c c' h' in
          let old = Suits-Widens k shape c c' suits w' in
          (
            Widens-trans common c c' w w',
            λ offset s d lt' es ed. elim (Bool-cases (offset == k)) [
              | inl last ↦
                  let e : offset ≡ k = ground arith in
                  new s d (ap (λ o. at shape (length shape - 1 - o)) (sym e) ∙ es)
                    (ap (λ o. at c' (length c' - 1 - o)) (sym e) ∙ ed)
              | inr before ↦ old offset s d (ground arith) es ed
            ],
          ))
        (Widens-refl common, λ offset s c lt es ec. absurd (omega arith)) common' h in
    (w, λ offset s c lt. suits offset s c (omega arith))

broadcast_shapes-Suits :
    (shapes : List (List ℤ)) (common : List ℤ)
    → Post
        (λ c. Widens common c × All (λ shape. Suits (length shape) shape c) shapes)
        (broadcast_shapes shapes common)
unfolding broadcast_shapes
broadcast_shapes-Suits [] common c h =
    Post-ok (λ c. Widens common c × Unit) (Widens-refl common, tt) c h
broadcast_shapes-Suits (shape ∷ shapes) common c h =
    let (c₁, e, h₁) = >>=-eq-ok (for_range 0 (length shape) (broadcast_dim shape) common) _ h in
    let (w, suits) = broadcast_shape-Suits shape common c₁ e in
    let (w', rest) = broadcast_shapes-Suits shapes c₁ c h₁ in
    (Widens-trans common c₁ c w w', (Suits-Widens (length shape) shape c₁ c suits w', rest))

-- When a common shape is found, it is as long as the longest of the shapes, and each shape that is
-- not empty suits it: counted from the right, a dimension of the shape is one or that of the common
-- shape.
pub compute_broadcast_shape_lem :
    (shapes : List (List ℤ)) (common : List ℤ)
    → compute_broadcast_shape shapes ≡ ok common
    → (length common ≡ max_size (non_empty_shapes shapes))
      × All (λ shape. Suits (length shape) shape common) (non_empty_shapes shapes)
unfolding compute_broadcast_shape
compute_broadcast_shape_lem shapes common h =
    let filtered = non_empty_shapes shapes in
    let (_, _, h₁) = >>=-eq-ok (error_if (is_empty filtered) invalid_attribute) _ h in
    let (w, suits) =
      broadcast_shapes-Suits filtered (replicate (max_size filtered) (pos 1)) common h₁ in
    (w.0 ∙ length-replicate (max_size filtered) (pos 1), suits)
