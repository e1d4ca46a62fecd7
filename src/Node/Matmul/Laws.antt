-- ===== src/Node/Matmul/Laws.antt =====
-- node/matmul_node.h: the tensors before and after inference.
use fusilli.Base.{length, is_empty, Post, Post-ok, Post->>=, Post-if}
use fusilli.Graph.Context.{Context}
use fusilli.Tensor.Order.{get_contiguous_stride_order}
use fusilli.Tensor.Stride.{generate_stride_from_dim}
use fusilli.Node.Store.{Store, deref}
use fusilli.Node.Frame.{
  KeepsAll, KeepsAll-refl, Post-fill, fill_tensors-KeepsAll, set_stride_if-KeepsAll,
  set_dim_if-KeepsAll,
}
use fusilli.Node.Matmul.{MatmulAttr, infer_properties_node, get_matmul_inferred_output_shape}

pub infer-KeepsAll :
    (context : Context) (attr : MatmulAttr) (st : Store)
    → Post (λ r. KeepsAll st r.1) (infer_properties_node context attr st)
unfolding infer_properties_node
infer-KeepsAll context attr st =
    Post-fill st st (KeepsAll-refl st) (fill_tensors-KeepsAll context _ st) λ st₁ _ k₁.
      Post->>= (deref st₁ attr.a) λ a _. Post->>= (deref st₁ attr.b) λ b _.
        Post->>= (deref st₁ attr.c) λ c e.
          Post-fill st st₁ k₁
            (Post-if (is_empty c.dim)
              (λ unset.
                Post->>= (get_matmul_inferred_output_shape a.dim b.dim)
                  λ dim _. set_dim_if-KeepsAll attr.c dim st₁ e unset)
              (λ _. Post-ok (KeepsAll st₁) (KeepsAll-refl st₁)))
            λ st₂ _ k₂. Post->>= (deref st₂ attr.c) λ c' e'.
              Post-fill st st₂ k₂
                (Post-if (is_empty c'.stride)
                  (λ unset. Post->>= (get_contiguous_stride_order (length c'.dim)) λ order _.
                    Post->>= (generate_stride_from_dim c'.dim order)
                      λ stride _. set_stride_if-KeepsAll attr.c stride st₂ e' unset)
                  (λ _. Post-ok (KeepsAll st₂) (KeepsAll-refl st₂)))
                λ st₃ _ k₃. Post-ok (λ r. KeepsAll st r.1) k₃
