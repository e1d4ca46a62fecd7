-- ===== src/Graph/Build/Others.antt =====
-- graph/graph.h: the methods that add pointwise, reduction, attention and custom nodes. The result is
-- the pointer to the output, or the list of them, and the graph.
use Prim.Native.String.{◌++◌ as text_append}
use fusilli.Base.{ℕ, zero, suc, none, some, List, [], ◌∷◌, String, Outcome, ok, ◌>>=◌}
use fusilli.Graph.Op.{Op}
use fusilli.Graph.Validate.{Graph}
use fusilli.Node.Store.{Ptr}
use fusilli.Graph.Build.{node_name, name_unnamed, output_tensor, add_node, to_string}
use fusilli.Node.Pointwise.{PointwiseAttr}
use fusilli.Node.Reduction.{ReductionAttr}
use fusilli.Node.Sdpa.{SdpaAttr}
use fusilli.Node.CustomOp.{CustomOpNode}

-- The three overloads; an input that the overload lacks keeps what the attributes hold.
unfoldable pub pointwise_1 : Ptr → PointwiseAttr → Graph → Outcome (ℕ × Graph)
unfolding node_name name_unnamed output_tensor add_node
pointwise_1 in_0 attr g = do
  let name = node_name attr.name "pointwise_" g
  g₁ ← name_unnamed in_0 (text_append name "_IN_0") g
  let (out, g₂) = output_tensor (text_append name "_OUT_0") g₁
  ok (out, add_node (Op.pointwise (record attr { name = name; in_0 = in_0; out_0 = some out })) g₂)

unfoldable pub pointwise_2 : Ptr → Ptr → PointwiseAttr → Graph → Outcome (ℕ × Graph)
unfolding node_name name_unnamed output_tensor add_node
pointwise_2 in_0 in_1 attr g = do
  let name = node_name attr.name "pointwise_" g
  g₁ ← name_unnamed in_0 (text_append name "_IN_0") g
  g₂ ← name_unnamed in_1 (text_append name "_IN_1") g₁
  let (out, g₃) = output_tensor (text_append name "_OUT_0") g₂
  let attr' = record attr { name = name; in_0 = in_0; in_1 = in_1; out_0 = some out }
  ok (out, add_node (Op.pointwise attr') g₃)

unfoldable pub pointwise_3 : Ptr → Ptr → Ptr → PointwiseAttr → Graph → Outcome (ℕ × Graph)
unfolding node_name name_unnamed output_tensor add_node
pointwise_3 in_0 in_1 in_2 attr g = do
  let name = node_name attr.name "pointwise_" g
  g₁ ← name_unnamed in_0 (text_append name "_IN_0") g
  g₂ ← name_unnamed in_1 (text_append name "_IN_1") g₁
  g₃ ← name_unnamed in_2 (text_append name "_IN_2") g₂
  let (out, g₄) = output_tensor (text_append name "_OUT_0") g₃
  let attr' = record attr { name = name; in_0 = in_0; in_1 = in_1; in_2 = in_2; out_0 = some out }
  ok (out, add_node (Op.pointwise attr') g₄)

unfoldable pub reduction : Ptr → ReductionAttr → Graph → Outcome (ℕ × Graph)
unfolding node_name name_unnamed output_tensor add_node
reduction x attr g = do
  let name = node_name attr.name "reduction_" g
  g₁ ← name_unnamed x (text_append name "_X") g
  let (y, g₂) = output_tensor (text_append name "_Y") g₁
  ok (y, add_node (Op.reduction (record attr { name = name; x = x; y = some y })) g₂)

-- `if (mask) sdpaAttr.setMASK(mask);`
mask_or : Ptr → Ptr → Ptr
mask_or none old = old
mask_or (some i) old = some i

unfoldable pub sdpa : Ptr → Ptr → Ptr → Ptr → SdpaAttr → Graph → Outcome (ℕ × Graph)
unfolding node_name name_unnamed output_tensor add_node mask_or
sdpa q k v mask attr g = do
  let name = node_name attr.name "sdpa_" g
  g₁ ← name_unnamed q (text_append name "_Q") g
  g₂ ← name_unnamed k (text_append name "_K") g₁
  g₃ ← name_unnamed v (text_append name "_V") g₂
  g₄ ← name_unnamed mask (text_append name "_MASK") g₃
  let (o, g₅) = output_tensor (text_append name "_O") g₄
  let attr' = record attr {
    name = name;
    q = q;
    k = k;
    v = v;
    mask = mask_or mask attr.mask;
    o = some o;
  }
  ok (o, add_node (Op.sdpa attr') g₅)

unfoldable pub name_custom_inputs : String → ℕ → List Ptr → Graph → Outcome Graph
unfolding name_unnamed to_string
name_custom_inputs name i [] g = ok g
name_custom_inputs name i (p ∷ ps) g =
    name_unnamed p (text_append name (text_append "_IN_" (to_string i))) g
    >>= name_custom_inputs name (suc i) ps

unfoldable pub custom_outputs : String → ℕ → ℕ → Graph → List Ptr × Graph
unfolding output_tensor to_string
custom_outputs name i zero g = ([], g)
custom_outputs name i (suc count) g =
    let (o, g₁) = output_tensor (text_append name (text_append "_OUT_" (to_string i))) g in
    let (os, g₂) = custom_outputs name (suc i) count g₁ in (some o ∷ os, g₂)

-- The attributes are the node without its inputs and outputs.
unfoldable pub custom_op : List Ptr → CustomOpNode → Graph → Outcome (List Ptr × Graph)
unfolding node_name name_custom_inputs custom_outputs add_node
custom_op inputs attr g = do
  let name = node_name attr.name "custom_op_" g
  g₁ ← name_custom_inputs name 0 inputs g
  let (outputs, g₂) = custom_outputs name 0 attr.num_outputs g₁
  let node = record attr { name = name; inputs = inputs; outputs = outputs }
  ok (outputs, add_node (Op.custom node) g₂)
