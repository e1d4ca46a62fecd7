-- ===== src/Node/Conv/Laws.antt =====
-- node/conv_node.h: the tensors before and after the inference of the three convolutions.
use fusilli.Base.{
  ◌≡◌, refl, Post-then, if◌then◌else◌, List, ℤ, is_empty, ok, ◌>>=◌, Post, Post-ok, Post->>=,
  Post-if,
}
use fusilli.Tensor.Attr.{TensorAttr}
use fusilli.Graph.Context.{Context}
use fusilli.Node.Store.{Store, deref, modify, set_dim, set_stride}
use fusilli.Node.Frame.{
  KeepsAll, deref-modify, KeepsAll-refl, KeepsAll-trans, Post-fill, fill_tensors-KeepsAll,
  set_stride_if-KeepsAll, set_dim_if-KeepsAll,
}
use fusilli.Node.Conv.{stride_like, get_conv_inferred_output_shape}
use fusilli.Node.Conv.FProp.{ConvFPropAttr}
use fusilli.Node.Conv.FProp
use fusilli.Node.Conv.WGrad.{ConvWGradAttr}
use fusilli.Node.Conv.WGrad
use fusilli.Node.Conv.DGrad.{ConvDGradAttr}
use fusilli.Node.Conv.DGrad

pub wgrad_infer-KeepsAll :
    (context : Context) (attr : ConvWGradAttr) (st : Store)
    → Post (λ r. KeepsAll st r.1) (WGrad.infer_properties_node context attr st)
unfolding WGrad.infer_properties_node
wgrad_infer-KeepsAll context attr st =
    Post-fill st st (KeepsAll-refl st) (fill_tensors-KeepsAll context _ st) λ st₁ _ k₁.
      Post->>= (deref st₁ attr.dw) λ dw e.
        Post-fill st st₁ k₁
          (Post-if (is_empty dw.stride)
            (λ unset. Post->>= (deref st₁ attr.dy) λ dy _.
              Post->>= (stride_like dy dw.dim)
                λ stride _. set_stride_if-KeepsAll attr.dw stride st₁ e unset)
            (λ _. Post-ok (KeepsAll st₁) (KeepsAll-refl st₁)))
          λ st₂ _ k₂. Post-ok (λ r. KeepsAll st r.1) k₂

pub dgrad_infer-KeepsAll :
    (context : Context) (attr : ConvDGradAttr) (st : Store)
    → Post (λ r. KeepsAll st r.1) (DGrad.infer_properties_node context attr st)
unfolding DGrad.infer_properties_node
dgrad_infer-KeepsAll context attr st =
    Post-fill st st (KeepsAll-refl st) (fill_tensors-KeepsAll context _ st) λ st₁ _ k₁.
      Post->>= (deref st₁ attr.dx) λ dx e.
        Post-fill st st₁ k₁
          (Post-if (is_empty dx.stride)
            (λ unset. Post->>= (deref st₁ attr.dy) λ dy _.
              Post->>= (stride_like dy dx.dim)
                λ stride _. set_stride_if-KeepsAll attr.dx stride st₁ e unset)
            (λ _. Post-ok (KeepsAll st₁) (KeepsAll-refl st₁)))
          λ st₂ _ k₂. Post-ok (λ r. KeepsAll st r.1) k₂

-- The output after its dimensions are there: its strides are still those of `y`.
abbrev Shaped : ConvFPropAttr → TensorAttr → Store → List ℤ × Store → Type 0
Shaped attr y st (dim, st') =
    KeepsAll st st' × ((y' : TensorAttr) × (deref st' attr.y ≡ ok y') × (y'.stride ≡ y.stride))

fprop_shape :
    (attr : ConvFPropAttr) (st : Store) (x w y : TensorAttr)
    → deref st attr.y ≡ ok y
    → Post (Shaped attr y st) (
        if is_empty y.dim
        then (get_conv_inferred_output_shape x.dim w.dim attr.dilation attr.padding attr.stride
            >>= λ dim. modify attr.y (set_dim dim) st >>= λ st'. ok (dim, st'))
        else ok (y.dim, st))
fprop_shape attr st x w y e =
    Post-if (is_empty y.dim)
      (λ unset.
        Post->>= (get_conv_inferred_output_shape x.dim w.dim attr.dilation attr.padding attr.stride)
          λ dim _. Post->>= (modify attr.y (set_dim dim) st) λ st' h. Post-ok (Shaped attr y st) (
            set_dim_if-KeepsAll attr.y dim st e unset st' h,
            (set_dim dim y, deref-modify attr.y (set_dim dim) st h e, refl),
          ))
      (λ _. Post-ok (Shaped attr y st) (KeepsAll-refl st, (y, e, refl)))

fprop_strides-KeepsAll :
    (attr : ConvFPropAttr) (y : TensorAttr) (st₁ st : Store) (dim : List ℤ)
    → Shaped attr y st₁ (dim, st)
    → Post (KeepsAll st) (
        if is_empty y.stride
        then (deref st attr.x >>= λ x'.
            stride_like x' dim >>= λ stride. modify attr.y (set_stride stride) st)
        else ok st)
fprop_strides-KeepsAll attr y st₁ st dim (kept, (y', e, same)) =
    Post-if (is_empty y.stride)
      (λ unset. Post->>= (deref st attr.x) λ x' _.
        Post->>= (stride_like x' dim)
          λ stride _. set_stride_if-KeepsAll attr.y stride st e (rw same unset))
      (λ _. Post-ok (KeepsAll st) (KeepsAll-refl st))

pub fprop_infer-KeepsAll :
    (context : Context) (attr : ConvFPropAttr) (st : Store)
    → Post (λ r. KeepsAll st r.1) (FProp.infer_properties_node context attr st)
unfolding FProp.infer_properties_node
fprop_infer-KeepsAll context attr st =
    Post-fill st st (KeepsAll-refl st) (fill_tensors-KeepsAll context _ st) λ st₁ _ k₁.
      Post->>= (deref st₁ attr.x) λ x _. Post->>= (deref st₁ attr.w) λ w _.
        Post->>= (deref st₁ attr.y) λ y e.
          Post-then (Shaped attr y st₁) (fprop_shape attr st₁ x w y e) λ (dim, st₂) shaped.
            Post-fill st st₂ (KeepsAll-trans st st₁ st₂ k₁ shaped.0)
              (fprop_strides-KeepsAll attr y st₁ st₂ dim shaped)
              λ st₃ _ k₃. Post-ok (λ r. KeepsAll st r.1) k₃
