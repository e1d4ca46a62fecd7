-- ===== src/Node/Sdpa/Laws.antt =====
-- node/sdpa_node.h: the tensors before and after inference.
use fusilli.Base.{length, is_empty, Post, Post-ok, Post->>=, Post-if}
use fusilli.Graph.Context.{Context}
use fusilli.Tensor.Order.{get_contiguous_stride_order}
use fusilli.Tensor.Stride.{generate_stride_from_dim}
use fusilli.Node.Store.{Store, deref}
use fusilli.Node.Frame.{
  KeepsAll, KeepsAll-refl, Post-fill, fill_tensors-KeepsAll, infer_dim-KeepsAll,
  set_stride_if-KeepsAll,
}
use fusilli.Node.Sdpa.{SdpaAttr, output_dim, infer_properties_node}

pub infer-KeepsAll :
    (context : Context) (attr : SdpaAttr) (st : Store)
    → Post (λ r. KeepsAll st r.1) (infer_properties_node context attr st)
unfolding infer_properties_node
infer-KeepsAll context attr st =
    Post-fill st st (KeepsAll-refl st) (fill_tensors-KeepsAll context _ st) λ st₁ _ k₁.
      Post->>= (deref st₁ attr.q) λ q _. Post->>= (deref st₁ attr.v) λ v _.
        Post->>= (output_dim q.dim v.dim) λ o_dim _.
          Post-fill st st₁ k₁ (infer_dim-KeepsAll attr.o o_dim st₁) λ st₂ _ k₂.
            Post->>= (deref st₂ attr.o) λ o e.
              Post-fill st st₂ k₂
                (Post-if (is_empty o.stride)
                  (λ unset. Post->>= (get_contiguous_stride_order (length o_dim)) λ order _.
                    Post->>= (generate_stride_from_dim o_dim order)
                      λ stride _. set_stride_if-KeepsAll attr.o stride st₂ e unset)
                  (λ _. Post-ok (KeepsAll st₂) (KeepsAll-refl st₂)))
                λ st₃ _ k₃. Post-ok (λ r. KeepsAll st r.1) k₃
