-- ===== src/Node/Pointwise/Frame.antt =====
-- node/pointwise_node.h: the tensors before and after inference.
use fusilli.Base.{
  ◌≡◌, List, ℤ, length, is_empty, ok, Post, Post-ok, Post->>=, Post-if, none, some, error_if, ◌&&◌,
  arith, Option, true, invalid_attribute,
}
use fusilli.Tensor.Attr.{TensorAttr}
use fusilli.Tensor.Types.{DataType}
use fusilli.Graph.Context.{Context}
use fusilli.Tensor.Order.{generate_stride_order_preserving_format}
use fusilli.Tensor.Stride.{generate_stride_from_dim}
use fusilli.Node.Store.{Store, deref, modify, set_stride, set_data_type, Ptr}
use fusilli.Node.Frame.{
  KeepsAll, KeepsAll-refl, Post-fill, fill_tensors-KeepsAll, set_stride_if-KeepsAll,
  set_dim_if-KeepsAll,
}
use fusilli.Tensor.Broadcast.{compute_broadcast_shape}
use fusilli.Node.Frame.{set_data_type-KeepsAll}
use fusilli.Node.Pointwise.Modes.{forced_data_type}
use fusilli.Node.Pointwise.{
  PointwiseAttr, inputs, force_type, infer_out_dim, infer_virtual_stride, infer_out_stride,
  input_shapes, matching_stride, infer_properties_node,
}

infer_out_dim-KeepsAll :
    (attr : PointwiseAttr) (st : Store) → Post (KeepsAll st) (infer_out_dim attr st)
unfolding infer_out_dim
infer_out_dim-KeepsAll attr st = Post->>= (deref st attr.out_0) λ out e.
    Post-if (is_empty out.dim)
      (λ unset. Post->>= (input_shapes st (inputs attr)) λ shapes _.
        Post->>= (compute_broadcast_shape shapes)
          λ dim _. set_dim_if-KeepsAll attr.out_0 dim st e unset)
      (λ _. Post-ok (KeepsAll st) (KeepsAll-refl st))

infer_virtual_stride-KeepsAll :
    (attr : PointwiseAttr) (st : Store) → Post (KeepsAll st) (infer_virtual_stride attr st)
unfolding infer_virtual_stride
infer_virtual_stride-KeepsAll attr st = Post->>= (deref st attr.out_0) λ out e.
    Post-if (is_empty out.stride && out.is_virtual)
      (λ both. Post->>= (deref st attr.in_0) λ in_0 _.
        Post->>= (generate_stride_order_preserving_format in_0.stride (length out.dim)) λ order _.
          Post->>= (generate_stride_from_dim out.dim order)
            λ stride _. set_stride_if-KeepsAll attr.out_0 stride st e (ground arith))
      (λ _. Post-ok (KeepsAll st) (KeepsAll-refl st))

-- The strides of a matching input, if there is one.
take_matching-KeepsAll :
    (p : Ptr) (st : Store) {t : TensorAttr} (found : Option (List ℤ))
    → deref st p ≡ ok t
    → is_empty t.stride ≡ true
    → Post
        (KeepsAll st)
        (elim found [ none ↦ ok st | some stride ↦ modify p (set_stride stride) st ])
take_matching-KeepsAll p st none e unset = Post-ok (KeepsAll st) (KeepsAll-refl st)
take_matching-KeepsAll p st (some stride) e unset = set_stride_if-KeepsAll p stride st e unset

infer_out_stride-KeepsAll :
    (attr : PointwiseAttr) (st : Store) → Post (KeepsAll st) (infer_out_stride attr st)
unfolding infer_out_stride
infer_out_stride-KeepsAll attr st = Post->>= (deref st attr.out_0) λ out e.
    Post-if (is_empty out.stride)
      (λ unset. Post->>= (matching_stride st out.dim (inputs attr)) λ found _.
        Post-fill st st (KeepsAll-refl st) (take_matching-KeepsAll attr.out_0 st found e unset)
          λ st₁ _ k₁. Post-fill st st₁ k₁ (infer_virtual_stride-KeepsAll attr st₁) λ st₂ _ k₂.
            Post->>= (deref st₂ attr.out_0) λ out₂ _.
              Post->>= (error_if (is_empty out₂.stride) invalid_attribute)
                λ _ _. Post-ok (KeepsAll st) k₂)
      (λ _. Post-ok (KeepsAll st) (KeepsAll-refl st))

forced-KeepsAll :
    (p : Ptr) (st : Store) (forced : Option DataType)
    → Post
        (KeepsAll st)
        (elim forced [ none ↦ ok st | some type ↦ modify p (set_data_type type) st ])
forced-KeepsAll p st none = Post-ok (KeepsAll st) (KeepsAll-refl st)
forced-KeepsAll p st (some type) = λ st' h. set_data_type-KeepsAll p type st h

force_type-KeepsAll : (attr : PointwiseAttr) (st : Store) → Post (KeepsAll st) (force_type attr st)
unfolding force_type
force_type-KeepsAll attr st = forced-KeepsAll attr.out_0 st (forced_data_type attr.mode)

pub infer-KeepsAll :
    (context : Context) (attr : PointwiseAttr) (st : Store)
    → Post (λ r. KeepsAll st r.1) (infer_properties_node context attr st)
unfolding infer_properties_node
infer-KeepsAll context attr st =
    Post-fill st st (KeepsAll-refl st) (force_type-KeepsAll attr st) λ st₁ _ k₁.
      Post-fill st st₁ k₁ (fill_tensors-KeepsAll context _ st₁) λ st₂ _ k₂.
        Post-fill st st₂ k₂ (infer_out_dim-KeepsAll attr st₂) λ st₃ _ k₃.
          Post-fill st st₃ k₃ (infer_out_stride-KeepsAll attr st₃)
            λ st₄ _ k₄. Post-ok (λ r. KeepsAll st r.1) k₄
