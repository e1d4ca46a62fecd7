-- ===== src/Graph/Op/Laws.antt =====
-- node/node.h: the tensors before and after the inference of any node.
use fusilli.Base.{
  ℕ, at, ◌≡◌, refl, ap, suc, List, [], ◌∷◌, Outcome, ok, ◌>>=◌, Post, Post-ok, Post->>=, Post-then,
  length,
}
use fusilli.Graph.Context.{Context}
use fusilli.Graph.Op.{
  Op, SubNode, infer_op, pre_validate_op, post_validate_op, validate_sub_node, validate_sub_nodes,
}
use fusilli.Node.Store.{Store}
use fusilli.Tensor.Attr.{TensorAttr}
use fusilli.Node.Frame.{Keeps, KeepsAll, KeepsAll-refl, KeepsAll-trans}
use fusilli.Node.Conv.Laws.{fprop_infer-KeepsAll, wgrad_infer-KeepsAll, dgrad_infer-KeepsAll}
use fusilli.Node.Norm.Frame.{layer_infer-KeepsAll, rms_infer-KeepsAll, batch_infer-KeepsAll}
use fusilli.Node.Matmul.Laws as MatmulLaws
use fusilli.Node.Pointwise.Frame as PointwiseFrame
use fusilli.Node.Reduction.Laws as ReductionLaws
use fusilli.Node.Sdpa.Laws as SdpaLaws
use fusilli.Node.CustomOp.Laws as CustomLaws

keep_result :
    {A : Type 0} (make : A → Op) (st : Store) {m : Outcome (A × Store)}
    → Post {A = A × Store} (λ r. KeepsAll st r.1) m
    → Post {A = Op × Store} (λ r. KeepsAll st r.1) (m >>= λ r. ok (make r.0, r.1))
keep_result {A} make st kept =
    Post-then (λ (r : A × Store). KeepsAll st r.1) kept λ r k. Post-ok (λ r. KeepsAll st r.1) k

pub infer_op-KeepsAll :
    (context : Context) (op : Op) (st : Store)
    → Post (λ r. KeepsAll st r.1) (infer_op context op st)
unfolding infer_op
infer_op-KeepsAll c (Op.convolution a) st =
    keep_result Op.convolution st (fprop_infer-KeepsAll c a st)
infer_op-KeepsAll c (Op.wgrad a) st = keep_result Op.wgrad st (wgrad_infer-KeepsAll c a st)
infer_op-KeepsAll c (Op.dgrad a) st = keep_result Op.dgrad st (dgrad_infer-KeepsAll c a st)
infer_op-KeepsAll c (Op.pointwise a) st =
    keep_result Op.pointwise st (PointwiseFrame.infer-KeepsAll c a st)
infer_op-KeepsAll c (Op.layer_norm a) st =
    keep_result Op.layer_norm st (layer_infer-KeepsAll c a st)
infer_op-KeepsAll c (Op.batch_norm a) st =
    keep_result Op.batch_norm st (batch_infer-KeepsAll c a st)
infer_op-KeepsAll c (Op.rms_norm a) st = keep_result Op.rms_norm st (rms_infer-KeepsAll c a st)
infer_op-KeepsAll c (Op.matmul a) st = keep_result Op.matmul st (MatmulLaws.infer-KeepsAll c a st)
infer_op-KeepsAll c (Op.reduction a) st =
    keep_result Op.reduction st (ReductionLaws.infer-KeepsAll c a st)
infer_op-KeepsAll c (Op.sdpa a) st = keep_result Op.sdpa st (SdpaLaws.infer-KeepsAll c a st)
infer_op-KeepsAll c (Op.custom a) st =
    Post-then (KeepsAll st) (CustomLaws.infer-KeepsAll c a st)
      λ st' k. Post-ok (λ r. KeepsAll st r.1) k

-- The inference of a node of any kind, when it succeeds, leaves a tensor in its place, with its name,
-- its flags, its scalar value and its dynamic dimensions, and with the dimensions and the strides
-- that it had, if it had any.
pub infer_op-Keeps :
    (context : Context) (op op' : Op) (st st' : Store) (i : ℕ) (t : TensorAttr)
    → infer_op context op st ≡ ok (op', st')
    → at st i ≡ ok t
    → (t' : TensorAttr) × (at st' i ≡ ok t') × Keeps t t'
infer_op-Keeps context op op' st st' i t h e =
    (infer_op-KeepsAll context op st (op', st') h).1 i t e

validate_sub_node-KeepsAll :
    (node : SubNode) (st : Store) → Post (λ r. KeepsAll st r.1) (validate_sub_node node st)
unfolding validate_sub_node
validate_sub_node-KeepsAll node st = Post->>= (pre_validate_op node.op st) λ _ _.
    Post-then (λ r. KeepsAll st r.1) (infer_op-KeepsAll node.context node.op st)
      λ (op, st') k. Post->>= (post_validate_op op st') λ _ _. Post-ok (λ r. KeepsAll st r.1) k

-- The same for all nodes in turn.
pub validate_sub_nodes-KeepsAll :
    (nodes : List SubNode) (st : Store)
    → Post (λ r. (length r.0 ≡ length nodes) × KeepsAll st r.1) (validate_sub_nodes nodes st)
unfolding validate_sub_nodes
validate_sub_nodes-KeepsAll [] st =
    Post-ok (λ r. (length r.0 ≡ 0) × KeepsAll st r.1) (refl, KeepsAll-refl st)
validate_sub_nodes-KeepsAll (node ∷ nodes) st =
    Post-then (λ r. KeepsAll st r.1) (validate_sub_node-KeepsAll node st)
      λ (node', st₁) k.
        Post-then (λ r. (length r.0 ≡ length nodes) × KeepsAll st₁ r.1)
          (validate_sub_nodes-KeepsAll nodes st₁)
          λ (nodes', st₂) (same, k').
            Post-ok (λ r. (length r.0 ≡ length (node ∷ nodes)) × KeepsAll st r.1)
              (ap suc same, KeepsAll-trans st st₁ st₂ k k')
