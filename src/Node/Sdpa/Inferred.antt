-- ===== src/Node/Sdpa/Inferred.antt =====
-- node/sdpa_node.h: what inference establishes for post-validation.
use fusilli.Base.{
  ℕ, ◌≡◌, refl, sym, ap, ◌∙◌, ◌⊎◌, inl, inr, true, false, none, some, List, [], ◌∷◌, ℤ, length,
  is_empty, arith, ok, Post-ok, Post->>=, Post-then, Post-if, ints_eq_refl, at, >>=-eq-ok,
  ok-injective,
}
use fusilli.Graph.Context.{Context}
use fusilli.Tensor.Attr.{TensorAttr}
use fusilli.Tensor.Order.{get_contiguous_stride_order}
use fusilli.Tensor.Stride.{generate_stride_from_dim}
use fusilli.Node.Store.{Store, Ptr, deref, fill_tensors, infer_dim}
use fusilli.Node.Frame.{
  KeepsAll, KeepsAll-refl, KeepsAll-trans, deref_same, infer_dim-KeepsAll, set_stride_if-KeepsAll,
}
use fusilli.Node.Frame.Fill.{fill_tensors-dim, infer_dim-sets}
use fusilli.Node.Sdpa.{SdpaAttr, output_dim, infer_properties_node, post_validate_node}

kept_dim :
    (p : Ptr) (st st' : Store) (t : TensorAttr)
    → KeepsAll st st'
    → deref st p ≡ ok t
    → is_empty t.dim ≡ false
    → (t' : TensorAttr) × (deref st' p ≡ ok t') × (t'.dim ≡ t.dim)
unfolding deref
kept_dim none st st' t kept e set = cc
kept_dim (some i) st st' t kept e set =
    let (t', e', (_, _, _, _, _, d, _)) = kept.1 i t e in (t', e', still t.dim t'.dim set d)
  where
    still : (xs ys : List ℤ) → is_empty xs ≡ false → (is_empty xs ≡ true) ⊎ (ys ≡ xs) → ys ≡ xs
    still xs ys set (inl unset) = absurd (ground arith)
    still xs ys set (inr same) = same

at-set : (xs : List ℤ) (i : ℕ) {a : ℤ} → at xs i ≡ ok a → is_empty xs ≡ false
unfolding at
at-set [] i h = cc
at-set (x ∷ xs) i h = refl

output_dim-set :
    (q v : List ℤ) (o : List ℤ)
    → output_dim q v ≡ ok o
    → (is_empty q ≡ false) × (is_empty v ≡ false) × (is_empty o ≡ false)
unfolding output_dim
output_dim-set q v o h =
    let (batch, eb, h₁) = >>=-eq-ok (at q 0) _ h in
    let (heads, _, h₂) = >>=-eq-ok (at q 1) _ h₁ in
    let (seq, _, h₃) = >>=-eq-ok (at q 2) _ h₂ in
    let (head_dim, ev, h₄) = >>=-eq-ok (at v 3) _ h₃ in
    (at-set q 0 eb, at-set v 3 ev, ap is_empty (sym (ok-injective h₄)))

accepted :
    (attr : SdpaAttr) (st : Store) (q v o : TensorAttr)
    → deref st attr.q ≡ ok q
    → deref st attr.v ≡ ok v
    → deref st attr.o ≡ ok o
    → output_dim q.dim v.dim ≡ ok o.dim
    → post_validate_node attr st ≡ ok tt
unfolding post_validate_node
accepted attr st q v o eq ev eo e = rw (eq, ev, e, eo, ints_eq_refl o.dim)

-- The store after the dimensions of O are there, and any strides that it lacked.
finished :
    (attr : SdpaAttr) (st₁ st₂ st₃ : Store) (q v o : TensorAttr) (o_dim : List ℤ)
    → deref st₁ attr.q ≡ ok q
    → deref st₁ attr.v ≡ ok v
    → output_dim q.dim v.dim ≡ ok o_dim
    → KeepsAll st₁ st₂
    → deref st₂ attr.o ≡ ok o
    → o.dim ≡ o_dim
    → KeepsAll st₂ st₃
    → post_validate_node attr st₃ ≡ ok tt
finished attr st₁ st₂ st₃ q v o o_dim eq ev eo k eo' same k' =
    let (q_set, v_set, o_set) = output_dim-set q.dim v.dim o_dim eo in
    let all = KeepsAll-trans st₁ st₂ st₃ k k' in
    let (q', eq', dq) = kept_dim attr.q st₁ st₃ q all eq q_set in
    let (v', ev', dv) = kept_dim attr.v st₁ st₃ v all ev v_set in
    let (o', eo'', do_) = kept_dim attr.o st₂ st₃ o k' eo' (ap is_empty same ∙ o_set) in
    let shape : output_dim q'.dim v'.dim ≡ ok o'.dim = rw (dq, dv, do_, same) eo in
    accepted attr st₃ q' v' o' eq' ev' eo'' shape

-- When the output of an attention node has no dimensions, and inference succeeds, then
-- post-validation accepts what it has inferred.
pub infer-post_validate :
    (context : Context) (attr attr' : SdpaAttr) (st st' : Store) (i : ℕ) (t : TensorAttr)
    → attr.o ≡ some i
    → at st i ≡ ok t
    → is_empty t.dim ≡ true
    → infer_properties_node context attr st ≡ ok (attr', st')
    → post_validate_node attr' st' ≡ ok tt
unfolding infer_properties_node post_validate_node deref
infer-post_validate context attr attr' st st' i t eo et unset h =
    let (st₁, e₁, h₁) = >>=-eq-ok (fill_tensors context _ st) _ h in
    let (t₁, f₁, same) = fill_tensors-dim context _ i st st₁ t e₁ et in
    let o₁ : deref st₁ attr.o ≡ ok t₁ = rw eo f₁ in
    let run =
      Post->>= {P = λ (r : SdpaAttr × Store). post_validate_node r.0 r.1 ≡ ok tt} (deref st₁ attr.q)
        λ q eq. Post->>= (deref st₁ attr.v) λ v ev. Post->>= (output_dim q.dim v.dim) λ o_dim eo'.
          Post->>= (infer_dim attr.o o_dim st₁) λ st₂ e₂.
            let (t₂, f₂, shaped) = infer_dim-sets attr.o o_dim st₁ st₂ t₁ e₂ o₁ (rw same unset) in
            Post->>= (deref st₂ attr.o) λ o f₃.
              let known : o.dim ≡ o_dim = rw (deref_same attr.o st₂ f₃ f₂) shaped in
              Post-then (KeepsAll st₂)
                (Post-if (is_empty o.stride)
                  (λ missing. Post->>= (get_contiguous_stride_order (length o_dim)) λ order _.
                    Post->>= (generate_stride_from_dim o_dim order)
                      λ stride _. set_stride_if-KeepsAll attr.o stride st₂ f₃ missing)
                  (λ _. Post-ok (KeepsAll st₂) (KeepsAll-refl st₂)))
                λ st₃ k. Post-ok _ (
                  finished attr st₁ st₂ st₃ q v o o_dim eq ev eo'
                    (infer_dim-KeepsAll attr.o o_dim st₁ st₂ e₂) f₃ known k) in
    run (attr', st') h₁
