-- ===== src/Graph/Build/Steps/Laws.antt =====
-- graph/graph.h: an invariant of sequences of calls.
use mathlib.Core.List.{Nodup-nil, not-mem-nil}
use fusilli.Base.{
  ℕ, zero, suc, some, Bool, true, false, List, [], ◌∷◌, String, Post, Post-ok, Post-then,
}
use fusilli.Graph.Context.{Context}
use fusilli.Graph.Validate.{Graph, validate}
use fusilli.Graph.Validate.Frame.{validate-SameParts}
use Prim.Native.String.{◌++◌ as text_append}
use fusilli.Node.Norm.{is_training}
use fusilli.Graph.Build.{node_name, add_node, output_tensor}
use fusilli.Graph.Build.Laws.{
  IsWellFormed, length-modify, tensor-IsWellFormed, output_tensor-IsWellFormed,
  name_unnamed-IsWellFormed,
}
use fusilli.Graph.Build.Products.{conv_fprop, conv_wgrad, conv_dgrad, matmul}
use fusilli.Graph.Build.Norms.{output_if, batchnorm, layernorm, rmsnorm}
use fusilli.Graph.Build.Others.{
  pointwise_1, pointwise_2, pointwise_3, reduction, sdpa, custom_op, name_custom_inputs,
  custom_outputs,
}
use fusilli.Graph.Build.Steps.{Step, Reachable}
use fusilli.Node.Store.{Ptr}
use fusilli.Node.Conv.FProp.{ConvFPropAttr}
use fusilli.Node.Conv.WGrad.{ConvWGradAttr}
use fusilli.Node.Conv.DGrad.{ConvDGradAttr}
use fusilli.Node.Matmul.{MatmulAttr}
use fusilli.Node.Norm.Layer.{LayernormAttr}
use fusilli.Node.Norm.Rms.{RmsnormAttr}
use fusilli.Node.Norm.Batch.{BatchnormAttr}
use fusilli.Node.Pointwise.{PointwiseAttr}
use fusilli.Node.Reduction.{ReductionAttr}
use fusilli.Node.Sdpa.{SdpaAttr}
use fusilli.Node.CustomOp.{CustomOpNode}

conv_fprop-IsWellFormed :
    (x w : Ptr) (a : ConvFPropAttr) (g : Graph)
    → IsWellFormed g
    → Post {A = ℕ × Graph} (λ r. IsWellFormed r.1) (conv_fprop x w a g)
unfolding conv_fprop add_node
conv_fprop-IsWellFormed x w a g formed =
    Post-then IsWellFormed (name_unnamed-IsWellFormed x _ g formed) λ g1 f1.
      Post-then IsWellFormed (name_unnamed-IsWellFormed w _ g1 f1)
        λ g2 f2. Post-ok (λ (r : ℕ × Graph). IsWellFormed r.1) (output_tensor-IsWellFormed _ g2 f2)

conv_wgrad-IsWellFormed :
    (dy x : Ptr) (a : ConvWGradAttr) (g : Graph)
    → IsWellFormed g
    → Post {A = ℕ × Graph} (λ r. IsWellFormed r.1) (conv_wgrad dy x a g)
unfolding conv_wgrad add_node
conv_wgrad-IsWellFormed dy x a g formed =
    Post-then IsWellFormed (name_unnamed-IsWellFormed dy _ g formed) λ g1 f1.
      Post-then IsWellFormed (name_unnamed-IsWellFormed x _ g1 f1)
        λ g2 f2. Post-ok (λ (r : ℕ × Graph). IsWellFormed r.1) (output_tensor-IsWellFormed _ g2 f2)

conv_dgrad-IsWellFormed :
    (dy w : Ptr) (a : ConvDGradAttr) (g : Graph)
    → IsWellFormed g
    → Post {A = ℕ × Graph} (λ r. IsWellFormed r.1) (conv_dgrad dy w a g)
unfolding conv_dgrad add_node
conv_dgrad-IsWellFormed dy w a g formed =
    Post-then IsWellFormed (name_unnamed-IsWellFormed dy _ g formed) λ g1 f1.
      Post-then IsWellFormed (name_unnamed-IsWellFormed w _ g1 f1)
        λ g2 f2. Post-ok (λ (r : ℕ × Graph). IsWellFormed r.1) (output_tensor-IsWellFormed _ g2 f2)

matmul-IsWellFormed :
    (x y : Ptr) (a : MatmulAttr) (g : Graph)
    → IsWellFormed g
    → Post {A = ℕ × Graph} (λ r. IsWellFormed r.1) (matmul x y a g)
unfolding matmul add_node
matmul-IsWellFormed x y a g formed =
    Post-then IsWellFormed (name_unnamed-IsWellFormed x _ g formed) λ g1 f1.
      Post-then IsWellFormed (name_unnamed-IsWellFormed y _ g1 f1)
        λ g2 f2. Post-ok (λ (r : ℕ × Graph). IsWellFormed r.1) (output_tensor-IsWellFormed _ g2 f2)

pointwise_1-IsWellFormed :
    (x : Ptr) (a : PointwiseAttr) (g : Graph)
    → IsWellFormed g
    → Post {A = ℕ × Graph} (λ r. IsWellFormed r.1) (pointwise_1 x a g)
unfolding pointwise_1 add_node
pointwise_1-IsWellFormed x a g formed =
    Post-then IsWellFormed (name_unnamed-IsWellFormed x _ g formed)
      λ g1 f1. Post-ok (λ (r : ℕ × Graph). IsWellFormed r.1) (output_tensor-IsWellFormed _ g1 f1)

pointwise_2-IsWellFormed :
    (x y : Ptr) (a : PointwiseAttr) (g : Graph)
    → IsWellFormed g
    → Post {A = ℕ × Graph} (λ r. IsWellFormed r.1) (pointwise_2 x y a g)
unfolding pointwise_2 add_node
pointwise_2-IsWellFormed x y a g formed =
    Post-then IsWellFormed (name_unnamed-IsWellFormed x _ g formed) λ g1 f1.
      Post-then IsWellFormed (name_unnamed-IsWellFormed y _ g1 f1)
        λ g2 f2. Post-ok (λ (r : ℕ × Graph). IsWellFormed r.1) (output_tensor-IsWellFormed _ g2 f2)

pointwise_3-IsWellFormed :
    (x y z : Ptr) (a : PointwiseAttr) (g : Graph)
    → IsWellFormed g
    → Post {A = ℕ × Graph} (λ r. IsWellFormed r.1) (pointwise_3 x y z a g)
unfolding pointwise_3 add_node
pointwise_3-IsWellFormed x y z a g formed =
    Post-then IsWellFormed (name_unnamed-IsWellFormed x _ g formed) λ g1 f1.
      Post-then IsWellFormed (name_unnamed-IsWellFormed y _ g1 f1) λ g2 f2.
        Post-then IsWellFormed (name_unnamed-IsWellFormed z _ g2 f2) λ g3 f3.
          Post-ok (λ (r : ℕ × Graph). IsWellFormed r.1) (output_tensor-IsWellFormed _ g3 f3)

reduction-IsWellFormed :
    (x : Ptr) (a : ReductionAttr) (g : Graph)
    → IsWellFormed g
    → Post {A = ℕ × Graph} (λ r. IsWellFormed r.1) (reduction x a g)
unfolding reduction add_node
reduction-IsWellFormed x a g formed =
    Post-then IsWellFormed (name_unnamed-IsWellFormed x _ g formed)
      λ g1 f1. Post-ok (λ (r : ℕ × Graph). IsWellFormed r.1) (output_tensor-IsWellFormed _ g1 f1)

sdpa-IsWellFormed :
    (q k v m : Ptr) (a : SdpaAttr) (g : Graph)
    → IsWellFormed g
    → Post {A = ℕ × Graph} (λ r. IsWellFormed r.1) (sdpa q k v m a g)
unfolding sdpa add_node
sdpa-IsWellFormed q k v m a g formed =
    Post-then IsWellFormed (name_unnamed-IsWellFormed q _ g formed) λ g1 f1.
      Post-then IsWellFormed (name_unnamed-IsWellFormed k _ g1 f1) λ g2 f2.
        Post-then IsWellFormed (name_unnamed-IsWellFormed v _ g2 f2) λ g3 f3.
          Post-then IsWellFormed (name_unnamed-IsWellFormed m _ g3 f3) λ g4 f4.
            Post-ok (λ (r : ℕ × Graph). IsWellFormed r.1) (output_tensor-IsWellFormed _ g4 f4)

-- The outputs of training are there or not.
output_if-IsWellFormed :
    (b : Bool) (name : String) (g : Graph) → IsWellFormed g → IsWellFormed (output_if b name g).1
unfolding output_if
output_if-IsWellFormed true name g formed = output_tensor-IsWellFormed name g formed
output_if-IsWellFormed false name g formed = formed

-- `Y`, and the two statistics of training.
three_outputs :
    (train : Bool) (y m v : String) (g : Graph)
    → IsWellFormed g
    → IsWellFormed (output_if train v (output_if train m (output_tensor y g).1).1).1
three_outputs train y m v g formed =
    output_if-IsWellFormed train v _
      (output_if-IsWellFormed train m _ (output_tensor-IsWellFormed y g formed))

batchnorm-IsWellFormed :
    (x s b m v : Ptr) (a : BatchnormAttr) (g : Graph)
    → IsWellFormed g
    → Post {A = (ℕ × Ptr × Ptr) × Graph} (λ r. IsWellFormed r.1) (batchnorm x s b m v a g)
unfolding batchnorm add_node
batchnorm-IsWellFormed x s b m v a g formed =
    Post-then IsWellFormed (name_unnamed-IsWellFormed x _ g formed) λ g1 f1.
      Post-then IsWellFormed (name_unnamed-IsWellFormed s _ g1 f1) λ g2 f2.
        Post-then IsWellFormed (name_unnamed-IsWellFormed b _ g2 f2) λ g3 f3.
          Post-then IsWellFormed (name_unnamed-IsWellFormed m _ g3 f3) λ g4 f4.
            Post-then IsWellFormed (name_unnamed-IsWellFormed v _ g4 f4) λ g5 f5.
              Post-then IsWellFormed (name_unnamed-IsWellFormed a.epsilon _ g5 f5) λ g6 f6.
                Post-then IsWellFormed (name_unnamed-IsWellFormed a.momentum _ g6 f6) λ g7 f7.
                  Post-ok (λ (r : (ℕ × Ptr × Ptr) × Graph). IsWellFormed r.1)
                    (three_outputs (is_training a.forward_phase)
                      (text_append (node_name a.name "batchnorm_" g) "_Y")
                      (text_append (node_name a.name "batchnorm_" g) "_SAVED_MEAN")
                      (text_append (node_name a.name "batchnorm_" g) "_SAVED_INV_VARIANCE") g7 f7)

layernorm-IsWellFormed :
    (x s b : Ptr) (a : LayernormAttr) (g : Graph)
    → IsWellFormed g
    → Post {A = (ℕ × Ptr × Ptr) × Graph} (λ r. IsWellFormed r.1) (layernorm x s b a g)
unfolding layernorm add_node
layernorm-IsWellFormed x s b a g formed =
    Post-then IsWellFormed (name_unnamed-IsWellFormed x _ g formed) λ g1 f1.
      Post-then IsWellFormed (name_unnamed-IsWellFormed s _ g1 f1) λ g2 f2.
        Post-then IsWellFormed (name_unnamed-IsWellFormed b _ g2 f2) λ g3 f3.
          Post-then IsWellFormed (name_unnamed-IsWellFormed a.epsilon _ g3 f3) λ g4 f4.
            Post-ok (λ (r : (ℕ × Ptr × Ptr) × Graph). IsWellFormed r.1)
              (three_outputs (is_training a.forward_phase)
                (text_append (node_name a.name "layernorm_" g) "_Y")
                (text_append (node_name a.name "layernorm_" g) "_MEAN")
                (text_append (node_name a.name "layernorm_" g) "_INV_VARIANCE") g4 f4)

rmsnorm-IsWellFormed :
    (x s : Ptr) (a : RmsnormAttr) (g : Graph)
    → IsWellFormed g
    → Post {A = (ℕ × Ptr) × Graph} (λ r. IsWellFormed r.1) (rmsnorm x s a g)
unfolding rmsnorm add_node
rmsnorm-IsWellFormed x s a g formed =
    Post-then IsWellFormed (name_unnamed-IsWellFormed x _ g formed) λ g1 f1.
      Post-then IsWellFormed (name_unnamed-IsWellFormed s _ g1 f1) λ g2 f2.
        Post-then IsWellFormed (name_unnamed-IsWellFormed a.epsilon _ g2 f2) λ g3 f3.
          Post-ok (λ (r : (ℕ × Ptr) × Graph). IsWellFormed r.1)
            (output_if-IsWellFormed (is_training a.forward_phase)
              (text_append (node_name a.name "rmsnorm_" g) "_INV_RMS")
              (output_tensor (text_append (node_name a.name "rmsnorm_" g) "_Y") g3).1
              (output_tensor-IsWellFormed (text_append (node_name a.name "rmsnorm_" g) "_Y") g3 f3))

name_custom_inputs-IsWellFormed :
    (name : String) (i : ℕ) (ps : List Ptr) (g : Graph)
    → IsWellFormed g
    → Post IsWellFormed (name_custom_inputs name i ps g)
unfolding name_custom_inputs
name_custom_inputs-IsWellFormed name i [] g formed = Post-ok IsWellFormed formed
name_custom_inputs-IsWellFormed name i (p ∷ ps) g formed =
    Post-then IsWellFormed (name_unnamed-IsWellFormed p _ g formed)
      λ g₁ f₁. name_custom_inputs-IsWellFormed name (suc i) ps g₁ f₁

custom_outputs-IsWellFormed :
    (name : String) (i count : ℕ) (g : Graph)
    → IsWellFormed g
    → IsWellFormed (custom_outputs name i count g).1
unfolding custom_outputs
custom_outputs-IsWellFormed name i zero g formed = formed
custom_outputs-IsWellFormed name i (suc count) g formed =
    custom_outputs-IsWellFormed name (suc i) count _ (output_tensor-IsWellFormed _ g formed)

custom_op-IsWellFormed :
    (ps : List Ptr) (a : CustomOpNode) (g : Graph)
    → IsWellFormed g
    → Post {A = List Ptr × Graph} (λ r. IsWellFormed r.1) (custom_op ps a g)
unfolding custom_op add_node
custom_op-IsWellFormed ps a g formed =
    Post-then IsWellFormed (name_custom_inputs-IsWellFormed _ 0 ps g formed) λ g₁ f₁.
      Post-ok (λ (r : List Ptr × Graph). IsWellFormed r.1)
        (custom_outputs-IsWellFormed (node_name a.name "custom_op_" g) 0 a.num_outputs g₁ f₁)

validate-IsWellFormed : (g : Graph) → IsWellFormed g → Post IsWellFormed (validate g)
validate-IsWellFormed g (small, distinct) g' h =
    let (i, o, c, n, (same, kept)) = validate-SameParts g g' h in rw (i, o, same) (small, distinct)

Step-IsWellFormed : {g g' : Graph} → Step g g' → IsWellFormed g → IsWellFormed g'
Step-IsWellFormed (Step.add_tensor t {g}) f = tensor-IsWellFormed t g f
Step-IsWellFormed (Step.add_conv_fprop x w a {g} {r} h) f = conv_fprop-IsWellFormed x w a g f r h
Step-IsWellFormed (Step.add_conv_wgrad x w a {g} {r} h) f = conv_wgrad-IsWellFormed x w a g f r h
Step-IsWellFormed (Step.add_conv_dgrad x w a {g} {r} h) f = conv_dgrad-IsWellFormed x w a g f r h
Step-IsWellFormed (Step.add_matmul x y a {g} {r} h) f = matmul-IsWellFormed x y a g f r h
Step-IsWellFormed (Step.add_batchnorm x s b m v a {g} {r} h) f =
    batchnorm-IsWellFormed x s b m v a g f r h
Step-IsWellFormed (Step.add_layernorm x s b a {g} {r} h) f = layernorm-IsWellFormed x s b a g f r h
Step-IsWellFormed (Step.add_rmsnorm x s a {g} {r} h) f = rmsnorm-IsWellFormed x s a g f r h
Step-IsWellFormed (Step.add_pointwise_1 x a {g} {r} h) f = pointwise_1-IsWellFormed x a g f r h
Step-IsWellFormed (Step.add_pointwise_2 x y a {g} {r} h) f = pointwise_2-IsWellFormed x y a g f r h
Step-IsWellFormed (Step.add_pointwise_3 x y z a {g} {r} h) f =
    pointwise_3-IsWellFormed x y z a g f r h
Step-IsWellFormed (Step.add_reduction x a {g} {r} h) f = reduction-IsWellFormed x a g f r h
Step-IsWellFormed (Step.add_sdpa q k v m a {g} {r} h) f = sdpa-IsWellFormed q k v m a g f r h
Step-IsWellFormed (Step.add_custom_op ps a {g} {r} h) f = custom_op-IsWellFormed ps a g f r h
Step-IsWellFormed (Step.write_tensor i t {g} h) f = rw (length-modify (some i) t g.tensors h) f
Step-IsWellFormed (Step.run_validate {g} {g'} h) f = validate-IsWellFormed g f g' h

-- In every graph that a sequence of successful calls makes, writes through the users' pointers and calls of
-- `validate` included, the inputs and outputs are tensors of the graph, and no tensor is listed twice, be it as an input or an output.
pub Reachable-IsWellFormed : {context : Context} {g : Graph} → Reachable context g → IsWellFormed g
Reachable-IsWellFormed Reachable.start = (λ i m. absurd (not-mem-nil m), Nodup-nil)
Reachable-IsWellFormed (Reachable.step r s) = Step-IsWellFormed s (Reachable-IsWellFormed r)
