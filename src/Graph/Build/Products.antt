-- ===== src/Graph/Build/Products.antt =====
-- graph/graph.h: the methods that add convolutions and matrix products. The result is the pointer to
-- the output, and the graph.
use Prim.Native.String.{◌++◌ as text_append}
use fusilli.Base.{ℕ, some, Outcome, ok, ◌>>=◌}
use fusilli.Graph.Op.{Op}
use fusilli.Graph.Validate.{Graph}
use fusilli.Node.Store.{Ptr}
use fusilli.Graph.Build.{node_name, name_unnamed, output_tensor, add_node}
use fusilli.Node.Conv.FProp.{ConvFPropAttr}
use fusilli.Node.Conv.WGrad.{ConvWGradAttr}
use fusilli.Node.Conv.DGrad.{ConvDGradAttr}
use fusilli.Node.Matmul.{MatmulAttr}

unfoldable pub conv_fprop : Ptr → Ptr → ConvFPropAttr → Graph → Outcome (ℕ × Graph)
unfolding node_name name_unnamed output_tensor add_node
conv_fprop x w attr g = do
  let name = node_name attr.name "conv_fprop_" g
  g₁ ← name_unnamed x (text_append name "_X") g
  g₂ ← name_unnamed w (text_append name "_W") g₁
  let (y, g₃) = output_tensor (text_append name "_Y") g₂
  ok (y, add_node (Op.convolution (record attr { name = name; x = x; w = w; y = some y })) g₃)

unfoldable pub conv_wgrad : Ptr → Ptr → ConvWGradAttr → Graph → Outcome (ℕ × Graph)
unfolding node_name name_unnamed output_tensor add_node
conv_wgrad dy x attr g = do
  let name = node_name attr.name "conv_wgrad_" g
  g₁ ← name_unnamed dy (text_append name "_DY") g
  g₂ ← name_unnamed x (text_append name "_X") g₁
  let (dw, g₃) = output_tensor (text_append name "_DW") g₂
  ok (dw, add_node (Op.wgrad (record attr { name = name; dy = dy; x = x; dw = some dw })) g₃)

unfoldable pub conv_dgrad : Ptr → Ptr → ConvDGradAttr → Graph → Outcome (ℕ × Graph)
unfolding node_name name_unnamed output_tensor add_node
conv_dgrad dy w attr g = do
  let name = node_name attr.name "conv_dgrad_" g
  g₁ ← name_unnamed dy (text_append name "_DY") g
  g₂ ← name_unnamed w (text_append name "_W") g₁
  let (dx, g₃) = output_tensor (text_append name "_DX") g₂
  ok (dx, add_node (Op.dgrad (record attr { name = name; dy = dy; w = w; dx = some dx })) g₃)

unfoldable pub matmul : Ptr → Ptr → MatmulAttr → Graph → Outcome (ℕ × Graph)
unfolding node_name name_unnamed output_tensor add_node
matmul a b attr g = do
  let name = node_name attr.name "matmul_" g
  g₁ ← name_unnamed a (text_append name "_A") g
  g₂ ← name_unnamed b (text_append name "_B") g₁
  let (c, g₃) = output_tensor (text_append name "_C") g₂
  ok (c, add_node (Op.matmul (record attr { name = name; a = a; b = b; c = some c })) g₃)
