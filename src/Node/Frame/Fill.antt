-- ===== src/Node/Frame/Fill.antt =====
-- attributes/attributes.h, node/norm_utils.h: the dimensions after `fillFromContext` and `inferDim`.
use fusilli.Base.{
  ℕ, ◌==◌, ◌≡◌, refl, sym, ap, ◌∙◌, inl, inr, Bool-cases, true, none, some, List, [], ◌∷◌, ℤ,
  is_empty, arith, ok, >>=-eq-ok, ok-injective, at,
}
use fusilli.Graph.Context.{Context}
use fusilli.Tensor.Attr.{TensorAttr, fill_from_context}
use fusilli.Tensor.Types.{is_set}
use fusilli.Tensor.Order.Inverse.{at-put, at-put_other}
use fusilli.Node.Store.{Store, Ptr, deref, modify, set_dim, fill_tensors, infer_dim}
use fusilli.Node.Frame.{deref-modify, deref_same}

-- The dimensions are the same as before, set or not.
abbrev pub SameDim : Store → Store → ℕ → TensorAttr → Type 0
SameDim st st' i t = (t' : TensorAttr) × (at st' i ≡ ok t') × (t'.dim ≡ t.dim)

fill_from_context-dim :
    (context : Context) (t : TensorAttr) → (fill_from_context context t).dim ≡ t.dim
unfolding fill_from_context
fill_from_context-dim context t = elim (Bool-cases (is_set t.data_type)) [
  | inl set ↦ rw set
  | inr unset ↦ elim (Bool-cases t.is_virtual) [ inl v ↦ rw (unset, v) | inr v ↦ rw (unset, v) ]
]

fill_one-dim :
    (context : Context) (j i : ℕ) (st st' : Store) (t : TensorAttr)
    → modify (some j) (fill_from_context context) st ≡ ok st'
    → at st i ≡ ok t
    → SameDim st st' i t
unfolding modify
fill_one-dim context j i st st' t h e =
    let (u, eu, h₁) = >>=-eq-ok (at st j) _ h in
    elim (Bool-cases (i == j)) [
      | inl same ↦
          let ij : i ≡ j = ground arith in
          let tu : t ≡ u = ok-injective (sym e ∙ ap (at st) ij ∙ eu) in
          (
            fill_from_context context u,
            ap (at st') ij ∙ at-put st j (fill_from_context context u) h₁,
            fill_from_context-dim context u ∙ ap (λ x. x.dim) (sym tu),
          )
      | inr other ↦
          (t, at-put_other st j i (fill_from_context context u) h₁ (ground arith) ∙ e, refl)
    ]

pub fill_tensors-dim :
    (context : Context) (ps : List Ptr) (i : ℕ) (st st' : Store) (t : TensorAttr)
    → fill_tensors context ps st ≡ ok st'
    → at st i ≡ ok t
    → SameDim st st' i t
unfolding fill_tensors
fill_tensors-dim context [] i st st' t h e = (t, ap (λ s. at s i) (sym (ok-injective h)) ∙ e, refl)
fill_tensors-dim context (none ∷ ps) i st st' t h e = fill_tensors-dim context ps i st st' t h e
fill_tensors-dim context (some j ∷ ps) i st st' t h e =
    let (st₁, e₁, h₁) = >>=-eq-ok (modify (some j) (fill_from_context context) st) _ h in
    let (t₁, f₁, same) = fill_one-dim context j i st st₁ t e₁ e in
    let (t', f', same') = fill_tensors-dim context ps i st₁ st' t₁ h₁ f₁ in (t', f', same' ∙ same)

-- What was not set has the inferred dimensions.
pub infer_dim-sets :
    (p : Ptr) (dim : List ℤ) (st st' : Store) (t : TensorAttr)
    → infer_dim p dim st ≡ ok st'
    → deref st p ≡ ok t
    → is_empty t.dim ≡ true
    → (t' : TensorAttr) × (deref st' p ≡ ok t') × (t'.dim ≡ dim)
unfolding infer_dim
infer_dim-sets p dim st st' t h e unset =
    let (u, eu, h₁) = >>=-eq-ok (deref st p) _ h in
    let unset' : is_empty u.dim ≡ true = rw (deref_same p st eu e) unset in
    (set_dim dim t, deref-modify p (set_dim dim) st (rw unset' at h₁) e, refl)
