-- ===== src/Node/Reduction/Laws.antt =====
-- node/reduction_node.h: the tensors before and after inference, and the check of dimensions.
use fusilli.Base.{
  ℕ, ◌<◌, ◌⊎◌, ◌↔◌, pos, not, ◌==ℤ◌, ==ℤ_iff, arith, invalid_attribute, for_range-each,
  each-for_range, at_ok, ◌≡◌, List, ℤ, length, is_empty, ok, Post, Post-ok, Post->>=, Post-if, at,
  error_if, ◌&&◌,
}
use fusilli.Graph.Context.{Context}
use fusilli.Tensor.Order.{get_contiguous_stride_order}
use fusilli.Tensor.Stride.{generate_stride_from_dim}
use fusilli.Node.Store.{Store, deref}
use fusilli.Node.Frame.{
  KeepsAll, KeepsAll-refl, Post-fill, fill_tensors-KeepsAll, infer_dim-KeepsAll,
  set_stride_if-KeepsAll,
}
use fusilli.Node.Reduction.{ReductionAttr, check_reduced, infer_properties_node}

pub infer-KeepsAll :
    (context : Context) (attr : ReductionAttr) (st : Store)
    → Post (λ r. KeepsAll st r.1) (infer_properties_node context attr st)
unfolding infer_properties_node
infer-KeepsAll context attr st =
    Post-fill st st (KeepsAll-refl st) (fill_tensors-KeepsAll context _ st) λ st₁ _ k₁.
      Post->>= (deref st₁ attr.x) λ x _.
        Post-fill st st₁ k₁ (infer_dim-KeepsAll attr.y x.dim st₁) λ st₂ _ k₂.
          Post->>= (deref st₂ attr.y) λ y e.
            Post-fill st st₂ k₂
              (Post-if (is_empty y.stride)
                (λ unset. Post->>= (get_contiguous_stride_order (length y.dim)) λ order _.
                  Post->>= (generate_stride_from_dim y.dim order)
                    λ stride _. set_stride_if-KeepsAll attr.y stride st₂ e unset)
                (λ _. Post-ok (KeepsAll st₂) (KeepsAll-refl st₂)))
              λ st₃ _ k₃. Post-ok (λ r. KeepsAll st r.1) k₃

-- Each dimension of the output is one or that of the input.
abbrev pub IsReduced : List ℤ → List ℤ → Type 0
IsReduced x_dim y_dim =
    (i : ℕ)
    → i < length x_dim
    → (x y : ℤ) → at x_dim i ≡ ok x
    → at y_dim i ≡ ok y
    → (y ≡ pos 1) ⊎ (y ≡ x)

-- For an output of the rank of the input, the check of the dimensions never faults, and it passes
-- exactly when each dimension of the output is one or that of the input.
pub check_reduced_iff :
    (x_dim y_dim : List ℤ)
    → length x_dim ≡ length y_dim
    → (check_reduced x_dim y_dim ≡ ok tt) ↔ IsReduced x_dim y_dim
unfolding check_reduced
check_reduced_iff x_dim y_dim same = (
  λ h i lt x y ex ey.
      let round = for_range-each _ 0 (length x_dim) h i (omega arith) (omega arith) in
      let reduced : error_if (not (y ==ℤ pos 1) && not (y ==ℤ x)) invalid_attribute ≡ ok tt =
        rw (ey, ex) at round in
      ground (arith, ==ℤ_iff y (pos 1), ==ℤ_iff y x),
  λ r. each-for_range _ 0 (length x_dim) λ i low high.
      let (x, ex) = at_ok x_dim i (omega arith) in
      let (y, ey) = at_ok y_dim i (omega arith) in
      let case = r i (omega arith) x y ex ey in
      rw (ey, ex) (ground (arith, ==ℤ_iff y (pos 1), ==ℤ_iff y x)),
)
