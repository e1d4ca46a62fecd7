-- ===== src/Node/Norm/Frame.antt =====
-- node/norm_utils.h and the normalization nodes: the tensors before and after inference.
use fusilli.Base.{none, some, List, [], ◌∷◌, ℤ, pos, ◌>>=◌, Post, Post-ok, Post->>=, Post-if, at}
use fusilli.Graph.Context.{Context}
use fusilli.Tensor.Attr.{TensorAttr}
use fusilli.Node.Store.{Store, Ptr, deref, infer_dim}
use fusilli.Node.Frame.{
  Post-fill, KeepsAll, KeepsAll-refl, KeepsAll-trans, fill_tensors-KeepsAll, infer_dim-KeepsAll,
  infer_stride-KeepsAll,
}
use fusilli.Node.Norm.{
  is_training, infer_dim_and_stride, infer_scale_bias, infer_scale_bias_dim_and_stride,
  get_scale_bias_dim, get_scale_bias_stride, get_training_forward_output_dim_and_stride,
}
use fusilli.Node.Norm.Layer.{LayernormAttr, infer_statistics}
use fusilli.Node.Norm.Layer
use fusilli.Node.Norm.Rms.{RmsnormAttr}
use fusilli.Node.Norm.Rms
use fusilli.Node.Norm.Batch.{BatchnormAttr, infer_1d_tensor}
use fusilli.Node.Norm.Batch

infer_dim_and_stride-KeepsAll :
    (p : Ptr) (dim stride : List ℤ) (st : Store)
    → Post (KeepsAll st) (infer_dim_and_stride p dim stride st)
unfolding infer_dim_and_stride
infer_dim_and_stride-KeepsAll p dim stride st = Post->>= (infer_dim p dim st) λ st₁ e₁ st₂ e₂.
    KeepsAll-trans st st₁ st₂ (infer_dim-KeepsAll p dim st st₁ e₁)
      (infer_stride-KeepsAll p stride st₁ st₂ e₂)

-- Two tensors in turn.
infer_both-KeepsAll :
    (p q : Ptr) (dim stride : List ℤ) (st : Store)
    → Post
        (KeepsAll st)
        (infer_dim_and_stride p dim stride st >>= λ st₁. infer_dim_and_stride q dim stride st₁)
infer_both-KeepsAll p q dim stride st =
    Post->>= (infer_dim_and_stride p dim stride st) λ st₁ e₁ st₂ e₂.
      KeepsAll-trans st st₁ st₂ (infer_dim_and_stride-KeepsAll p dim stride st st₁ e₁)
        (infer_dim_and_stride-KeepsAll q dim stride st₁ st₂ e₂)

infer_statistics-KeepsAll :
    (attr : LayernormAttr) (st : Store) → Post (KeepsAll st) (infer_statistics attr st)
unfolding infer_statistics
infer_statistics-KeepsAll attr st =
    Post-if (is_training attr.forward_phase)
      (λ _. Post->>= (deref st attr.x) λ x _.
        Post->>= (get_training_forward_output_dim_and_stride x.dim 0)
          λ (dim, stride) _. infer_both-KeepsAll attr.mean attr.inv_variance dim stride st)
      (λ _. Post-ok (KeepsAll st) (KeepsAll-refl st))

infer_scale_bias-KeepsAll :
    (p : Ptr) (x : TensorAttr) (st : Store) → Post (KeepsAll st) (infer_scale_bias p x st)
unfolding infer_scale_bias infer_scale_bias_dim_and_stride
infer_scale_bias-KeepsAll none x st = Post-ok (KeepsAll st) (KeepsAll-refl st)
infer_scale_bias-KeepsAll (some i) x st = Post->>= (get_scale_bias_dim x.dim 0) λ dim _.
    Post->>= (infer_dim (some i) dim st) λ st₁ e₁. Post->>= (deref st₁ (some i)) λ t _.
      Post->>= (get_scale_bias_stride t.dim x.stride) λ stride _ st₂ e₂.
        KeepsAll-trans st st₁ st₂ (infer_dim-KeepsAll (some i) dim st st₁ e₁)
          (infer_stride-KeepsAll (some i) stride st₁ st₂ e₂)

infer_1d_tensor-KeepsAll :
    (c : ℤ) (p : Ptr) (st : Store) → Post (KeepsAll st) (infer_1d_tensor c p st)
unfolding infer_1d_tensor
infer_1d_tensor-KeepsAll c none st = Post-ok (KeepsAll st) (KeepsAll-refl st)
infer_1d_tensor-KeepsAll c (some i) st =
    infer_dim_and_stride-KeepsAll (some i) (c ∷ []) (pos 1 ∷ []) st

pub layer_infer-KeepsAll :
    (context : Context) (attr : LayernormAttr) (st : Store)
    → Post (λ r. KeepsAll st r.1) (Layer.infer_properties_node context attr st)
unfolding Layer.infer_properties_node
layer_infer-KeepsAll context attr st =
    Post-fill st st (KeepsAll-refl st) (fill_tensors-KeepsAll context _ st) λ st₁ _ k₁.
      Post->>= (deref st₁ attr.x) λ x _.
        Post-fill st st₁ k₁ (infer_scale_bias-KeepsAll attr.scale x st₁) λ st₂ _ k₂.
          Post-fill st st₂ k₂ (infer_scale_bias-KeepsAll attr.bias x st₂) λ st₃ _ k₃.
            Post-fill st st₃ k₃ (infer_dim_and_stride-KeepsAll attr.y x.dim x.stride st₃)
              λ st₄ _ k₄.
                Post-fill st st₄ k₄ (infer_statistics-KeepsAll attr st₄)
                  λ st₅ _ k₅. Post-ok (λ r. KeepsAll st r.1) k₅

pub rms_infer-KeepsAll :
    (context : Context) (attr : RmsnormAttr) (st : Store)
    → Post (λ r. KeepsAll st r.1) (Rms.infer_properties_node context attr st)
unfolding Rms.infer_properties_node
rms_infer-KeepsAll context attr st =
    Post-fill st st (KeepsAll-refl st) (fill_tensors-KeepsAll context _ st) λ st₁ _ k₁.
      Post->>= (deref st₁ attr.x) λ x _.
        Post-fill st st₁ k₁ (infer_scale_bias-KeepsAll attr.scale x st₁) λ st₂ _ k₂.
          Post-fill st st₂ k₂ (infer_dim_and_stride-KeepsAll attr.y x.dim x.stride st₂) λ st₃ _ k₃.
            Post-fill st st₃ k₃
              (Post-if (is_training attr.forward_phase)
                (λ _. Post->>= (deref st₃ attr.x) λ x' _.
                  Post->>= (get_training_forward_output_dim_and_stride x'.dim 0)
                    λ (dim, stride) _. infer_dim_and_stride-KeepsAll attr.inv_rms dim stride st₃)
                (λ _. Post-ok (KeepsAll st₃) (KeepsAll-refl st₃)))
              λ st₄ _ k₄. Post-ok (λ r. KeepsAll st r.1) k₄

pub batch_infer-KeepsAll :
    (context : Context) (attr : BatchnormAttr) (st : Store)
    → Post (λ r. KeepsAll st r.1) (Batch.infer_properties_node context attr st)
unfolding Batch.infer_properties_node
batch_infer-KeepsAll context attr st =
    Post-fill st st (KeepsAll-refl st) (fill_tensors-KeepsAll context _ st) λ st₁ _ k₁.
      Post->>= (deref st₁ attr.x) λ x _. Post->>= (at x.dim 1) λ c _.
        Post-fill st st₁ k₁ (infer_1d_tensor-KeepsAll c attr.scale st₁) λ st₂ _ k₂.
          Post-fill st st₂ k₂ (infer_1d_tensor-KeepsAll c attr.bias st₂) λ st₃ _ k₃.
            Post-fill st st₃ k₃ (infer_1d_tensor-KeepsAll c attr.mean st₃) λ st₄ _ k₄.
              Post-fill st st₄ k₄ (infer_1d_tensor-KeepsAll c attr.var st₄) λ st₅ _ k₅.
                Post-fill st st₅ k₅ (infer_dim_and_stride-KeepsAll attr.y x.dim x.stride st₅)
                  λ st₆ _ k₆.
                    Post-fill st st₆ k₆
                      (Post-if (is_training attr.forward_phase)
                        (λ _.
                          infer_both-KeepsAll attr.saved_mean attr.saved_inv_variance (c ∷ [])
                            (pos 1 ∷ []) st₆)
                        (λ _. Post-ok (KeepsAll st₆) (KeepsAll-refl st₆)))
                      λ st₇ _ k₇. Post-ok (λ r. KeepsAll st r.1) k₇
