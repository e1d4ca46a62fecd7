-- ===== src/Node/Frame.antt =====
-- attributes/attributes.h, node/norm_utils.h: the tensors before and after a step of inference.
pub mod Fill
use fusilli.Base.{
  ℕ, ◌≡◌, refl, sym, ap, ◌∙◌, true, none, some, List, [], ◌∷◌, ℤ, length, is_empty, arith, Outcome,
  ok, ◌>>=◌, >>=-eq-ok, ok-injective, Post, Post-ok, Post->>=, Post-if, at, length-put, ◌⊎◌, inl,
  inr, Bool-cases, ◌==◌,
}
use fusilli.Tensor.Attr.{TensorAttr, fill_from_context}
use fusilli.Tensor.Types.{DataType, is_set}
use fusilli.Tensor.Order.Inverse.{at-put, at-put_other}
use fusilli.Graph.Context.{Context}
use fusilli.Node.Store.{
  Store, Ptr, deref, modify, set_dim, set_stride, set_data_type, fill_tensors, infer_dim,
  infer_stride,
}

-- Inference changes neither who a tensor is nor the dimensions and strides that it has.
abbrev pub Keeps : TensorAttr → TensorAttr → Type 0
Keeps t t' =
    (t'.name ≡ t.name)
    × (t'.is_virtual ≡ t.is_virtual)
    × (t'.is_scalar ≡ t.is_scalar)
    × (t'.scalar_value ≡ t.scalar_value)
    × (t'.dynamic_dims ≡ t.dynamic_dims)
    × ((is_empty t.dim ≡ true) ⊎ (t'.dim ≡ t.dim))
    × ((is_empty t.stride ≡ true) ⊎ (t'.stride ≡ t.stride))

Keeps-refl : (t : TensorAttr) → Keeps t t
Keeps-refl t = (refl, refl, refl, refl, refl, inr refl, inr refl)

set_or_kept :
    (xs ys zs : List ℤ)
    → (is_empty xs ≡ true) ⊎ (ys ≡ xs)
    → (is_empty ys ≡ true) ⊎ (zs ≡ ys)
    → (is_empty xs ≡ true) ⊎ (zs ≡ xs)
set_or_kept xs ys zs (inl e) h = inl e
set_or_kept xs ys zs (inr e) (inl f) = inl (ap is_empty (sym e) ∙ f)
set_or_kept xs ys zs (inr e) (inr f) = inr (f ∙ e)

Keeps-trans : (t t' t'' : TensorAttr) → Keeps t t' → Keeps t' t'' → Keeps t t''
Keeps-trans t t' t'' (n, v, s, w, y, d, r) (n', v', s', w', y', d', r') =
    (n' ∙ n, v' ∙ v, s' ∙ s, w' ∙ w, y' ∙ y, set_or_kept _ _ _ d d', set_or_kept _ _ _ r r')

-- Every pointer still leads to its tensor, which has kept all this.
abbrev pub KeepsAll : Store → Store → Type 0
KeepsAll st st' =
    (length st' ≡ length st)
    × ((i : ℕ) (t : TensorAttr)
        → at st i ≡ ok t
        → (t' : TensorAttr) × (at st' i ≡ ok t') × Keeps t t')

pub KeepsAll-refl : (st : Store) → KeepsAll st st
KeepsAll-refl st = (refl, λ i t e. (t, e, Keeps-refl t))

pub KeepsAll-trans : (st st' st'' : Store) → KeepsAll st st' → KeepsAll st' st'' → KeepsAll st st''
KeepsAll-trans st st' st'' (l, k) (l', k') = (
  l' ∙ l,
  λ i t e.
      let (t', e', r) = k i t e in
      let (t'', e'', r') = k' i t' e' in (t'', e'', Keeps-trans t t' t'' r r'),
)

pub modify-KeepsAll :
    (p : Ptr) (f : TensorAttr → TensorAttr) (st : Store) {st' : Store}
    → modify p f st ≡ ok st'
    → ((t : TensorAttr) → deref st p ≡ ok t → Keeps t (f t))
    → KeepsAll st st'
unfolding modify deref
modify-KeepsAll none f st h k = cc
modify-KeepsAll (some j) f st {st'} h k =
    let (u, eu, h₁) = >>=-eq-ok (at st j) _ h in
    (
      length-put st j (f u) h₁,
      λ i t e. elim (Bool-cases (i == j)) [
        | inl same ↦
            let ij : i ≡ j = ground arith in
            let tu : t ≡ u = cc in (f u, rw ij (at-put st j (f u) h₁), rw tu (k u eu))
        | inr other ↦
            let ij : ¬ (j ≡ i) = ground arith in
            (t, at-put_other st j i (f u) h₁ ij ∙ e, Keeps-refl t)
      ],
    )

pub set_dim-KeepsAll :
    (p : Ptr) (dim : List ℤ) (st : Store) {st' : Store}
    → modify p (set_dim dim) st ≡ ok st'
    → ((t : TensorAttr) → deref st p ≡ ok t → is_empty t.dim ≡ true)
    → KeepsAll st st'
set_dim-KeepsAll p dim st h unset =
    modify-KeepsAll p (set_dim dim) st h
      λ t e. (refl, refl, refl, refl, refl, inl (unset t e), inr refl)

pub set_stride-KeepsAll :
    (p : Ptr) (stride : List ℤ) (st : Store) {st' : Store}
    → modify p (set_stride stride) st ≡ ok st'
    → ((t : TensorAttr) → deref st p ≡ ok t → is_empty t.stride ≡ true)
    → KeepsAll st st'
set_stride-KeepsAll p stride st h unset =
    modify-KeepsAll p (set_stride stride) st h
      λ t e. (refl, refl, refl, refl, refl, inr refl, inl (unset t e))

pub set_data_type-KeepsAll :
    (p : Ptr) (type : DataType) (st : Store) {st' : Store}
    → modify p (set_data_type type) st ≡ ok st'
    → KeepsAll st st'
set_data_type-KeepsAll p type st h =
    modify-KeepsAll p (set_data_type type) st h
      λ t e. (refl, refl, refl, refl, refl, inr refl, inr refl)

pub fill_from_context-Keeps :
    (context : Context) (t : TensorAttr) → Keeps t (fill_from_context context t)
unfolding fill_from_context
fill_from_context-Keeps context t = elim (Bool-cases (is_set t.data_type)) [
  | inl set ↦ rw set (Keeps-refl t)
  | inr unset ↦ elim (Bool-cases t.is_virtual) [
    | inl v ↦ rw (unset, v) (refl, refl, refl, refl, refl, inr refl, inr refl)
    | inr v ↦ rw (unset, v) (refl, refl, refl, refl, refl, inr refl, inr refl)
  ]
]

-- A step that fills in tensors, behind others.
pub Post-fill {ℓ κ} :
    {A : Type ℓ} {P : A → Type κ} {m : Outcome Store} {f : Store → Outcome A} (st st₁ : Store)
    → KeepsAll st st₁
    → Post (KeepsAll st₁) m
    → ((st₂ : Store) → m ≡ ok st₂ → KeepsAll st st₂ → Post P (f st₂))
    → Post P (m >>= f)
Post-fill {m} st st₁ kept filled rest =
    Post->>= m λ st₂ e. rest st₂ e (KeepsAll-trans st st₁ st₂ kept (filled st₂ e))

pub fill_tensors-KeepsAll :
    (context : Context) (ps : List Ptr) (st : Store)
    → Post (KeepsAll st) (fill_tensors context ps st)
unfolding fill_tensors
fill_tensors-KeepsAll context [] st = Post-ok (KeepsAll st) (KeepsAll-refl st)
fill_tensors-KeepsAll context (none ∷ ps) st = fill_tensors-KeepsAll context ps st
fill_tensors-KeepsAll context (some i ∷ ps) st =
    Post->>= (modify (some i) (fill_from_context context) st) λ st₁ e st₂ e'.
      KeepsAll-trans st st₁ st₂
        (modify-KeepsAll (some i) (fill_from_context context) st e
          λ t _. fill_from_context-Keeps context t)
        (fill_tensors-KeepsAll context ps st₁ st₂ e')

-- Reading a tensor twice gives it twice.
pub deref_same :
    (p : Ptr) (st : Store) {t t' : TensorAttr} → deref st p ≡ ok t → deref st p ≡ ok t' → t ≡ t'
deref_same p st e e' = ok-injective (sym e ∙ e')

-- Dimensions or strides that are written where none are set.
pub set_dim_if-KeepsAll :
    (p : Ptr) (dim : List ℤ) (st : Store) {t : TensorAttr}
    → deref st p ≡ ok t
    → is_empty t.dim ≡ true
    → Post (KeepsAll st) (modify p (set_dim dim) st)
set_dim_if-KeepsAll p dim st e unset st' h =
    set_dim-KeepsAll p dim st h λ t' e'. rw (deref_same p st e' e) unset

pub set_stride_if-KeepsAll :
    (p : Ptr) (stride : List ℤ) (st : Store) {t : TensorAttr}
    → deref st p ≡ ok t
    → is_empty t.stride ≡ true
    → Post (KeepsAll st) (modify p (set_stride stride) st)
set_stride_if-KeepsAll p stride st e unset st' h =
    set_stride-KeepsAll p stride st h λ t' e'. rw (deref_same p st e' e) unset

pub infer_dim-KeepsAll :
    (p : Ptr) (dim : List ℤ) (st : Store) → Post (KeepsAll st) (infer_dim p dim st)
unfolding infer_dim
infer_dim-KeepsAll p dim st = Post->>= (deref st p) λ t e.
    Post-if (is_empty t.dim) (set_dim_if-KeepsAll p dim st e)
      (λ _. Post-ok (KeepsAll st) (KeepsAll-refl st))

pub infer_stride-KeepsAll :
    (p : Ptr) (stride : List ℤ) (st : Store) → Post (KeepsAll st) (infer_stride p stride st)
unfolding infer_stride
infer_stride-KeepsAll p stride st = Post->>= (deref st p) λ t e.
    Post-if (is_empty t.stride) (set_stride_if-KeepsAll p stride st e)
      (λ _. Post-ok (KeepsAll st) (KeepsAll-refl st))

pub deref-modify :
    (p : Ptr) (f : TensorAttr → TensorAttr) (st : Store) {st' : Store} {t : TensorAttr}
    → modify p f st ≡ ok st'
    → deref st p ≡ ok t
    → deref st' p ≡ ok (f t)
unfolding modify deref
deref-modify none f st h e = cc
deref-modify (some i) f st {st'} {t} h e =
    let (u, eu, h₁) = >>=-eq-ok (at st i) _ h in
    let tu : u ≡ t = ok-injective (sym eu ∙ e) in at-put st i (f u) h₁ ∙ ap (λ t. ok (f t)) tu
