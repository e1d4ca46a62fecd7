-- ===== src/Graph/Build/Steps.antt =====
-- graph/graph.h: the graphs that the public methods can make, from the empty graph on.
pub mod Laws
use fusilli.Base.{ℕ, ◌≡◌, Bool, false, List, [], ◌∷◌, String, Outcome, ok, some}
use fusilli.Graph.Context.{Context}
use fusilli.Graph.Validate.{Graph, validate}
use fusilli.Graph.Build.{tensor}
use fusilli.Graph.Build.Products.{conv_fprop, conv_wgrad, conv_dgrad, matmul}
use fusilli.Graph.Build.Norms.{batchnorm, layernorm, rmsnorm}
use fusilli.Graph.Build.Others.{pointwise_1, pointwise_2, pointwise_3, reduction, sdpa, custom_op}
use fusilli.Node.Store.{Ptr, Store, modify}
use fusilli.Node.Conv.FProp.{ConvFPropAttr}
use fusilli.Node.Conv.WGrad.{ConvWGradAttr}
use fusilli.Node.Conv.DGrad.{ConvDGradAttr}
use fusilli.Node.Matmul.{MatmulAttr}
use fusilli.Node.Norm.Layer.{LayernormAttr}
use fusilli.Node.Norm.Rms.{RmsnormAttr}
use fusilli.Node.Norm.Batch.{BatchnormAttr}
use fusilli.Node.Pointwise.{PointwiseAttr}
use fusilli.Node.Reduction.{ReductionAttr}
use fusilli.Node.Sdpa.{SdpaAttr}
use fusilli.Node.CustomOp.{CustomOpNode}
use fusilli.Tensor.Attr.{TensorAttr}

-- `Graph g;`
abbrev pub empty_graph : Context → Graph
empty_graph context = record {
  context = context;
  tensors = [];
  sub_nodes = [];
  full_graph_inputs = [];
  full_graph_outputs = [];
  full_graph_inputs_sorted = [];
  full_graph_outputs_sorted = [];
  is_validated = false;
}

-- One call of a method that succeeds.
pub data Step : Graph → Graph → Type 0 where
  add_tensor : (t : TensorAttr) {g : Graph} → Step g (tensor t g).1
  add_conv_fprop :
      (x w : Ptr) (a : ConvFPropAttr) {g : Graph} {r : ℕ × Graph}
      → conv_fprop x w a g ≡ ok r
      → Step g r.1
  add_conv_wgrad :
      (dy x : Ptr) (a : ConvWGradAttr) {g : Graph} {r : ℕ × Graph}
      → conv_wgrad dy x a g ≡ ok r
      → Step g r.1
  add_conv_dgrad :
      (dy w : Ptr) (a : ConvDGradAttr) {g : Graph} {r : ℕ × Graph}
      → conv_dgrad dy w a g ≡ ok r
      → Step g r.1
  add_matmul :
      (x y : Ptr) (a : MatmulAttr) {g : Graph} {r : ℕ × Graph} → matmul x y a g ≡ ok r → Step g r.1
  add_batchnorm :
      (x s b m v : Ptr) (a : BatchnormAttr) {g : Graph} {r : (ℕ × Ptr × Ptr) × Graph}
      → batchnorm x s b m v a g ≡ ok r
      → Step g r.1
  add_layernorm :
      (x s b : Ptr) (a : LayernormAttr) {g : Graph} {r : (ℕ × Ptr × Ptr) × Graph}
      → layernorm x s b a g ≡ ok r
      → Step g r.1
  add_rmsnorm :
      (x s : Ptr) (a : RmsnormAttr) {g : Graph} {r : (ℕ × Ptr) × Graph}
      → rmsnorm x s a g ≡ ok r
      → Step g r.1
  add_pointwise_1 :
      (x : Ptr) (a : PointwiseAttr) {g : Graph} {r : ℕ × Graph}
      → pointwise_1 x a g ≡ ok r
      → Step g r.1
  add_pointwise_2 :
      (x y : Ptr) (a : PointwiseAttr) {g : Graph} {r : ℕ × Graph}
      → pointwise_2 x y a g ≡ ok r
      → Step g r.1
  add_pointwise_3 :
      (x y z : Ptr) (a : PointwiseAttr) {g : Graph} {r : ℕ × Graph}
      → pointwise_3 x y z a g ≡ ok r
      → Step g r.1
  add_reduction :
      (x : Ptr) (a : ReductionAttr) {g : Graph} {r : ℕ × Graph}
      → reduction x a g ≡ ok r
      → Step g r.1
  add_sdpa :
      (q k v m : Ptr) (a : SdpaAttr) {g : Graph} {r : ℕ × Graph}
      → sdpa q k v m a g ≡ ok r
      → Step g r.1
  add_custom_op :
      (inputs : List Ptr) (a : CustomOpNode) {g : Graph} {r : List Ptr × Graph}
      → custom_op inputs a g ≡ ok r
      → Step g r.1
  -- A write through a pointer that the user holds.
  write_tensor :
      (i : ℕ) (f : TensorAttr → TensorAttr) {g : Graph} {st : Store}
      → modify (some i) f g.tensors ≡ ok st
      → Step g (record g { tensors = st })
  run_validate : {g g' : Graph} → validate g ≡ ok g' → Step g g'

-- The graphs that a sequence of successful calls leads to.
pub data Reachable (context : Context) : Graph → Type 0 where
  start : Reachable context (empty_graph context)
  step : {g g' : Graph} → Reachable context g → Step g g' → Reachable context g'
