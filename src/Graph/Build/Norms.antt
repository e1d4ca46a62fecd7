-- ===== src/Graph/Build/Norms.antt =====
-- graph/graph.h: the methods that add normalization nodes. The result is the pointers to the outputs,
-- null for one that the phase lacks, and the graph.
use Prim.Native.String.{◌++◌ as text_append}
use fusilli.Base.{ℕ, Bool, true, false, none, some, String, Outcome, ok, ◌>>=◌}
use fusilli.Graph.Op.{Op}
use fusilli.Graph.Validate.{Graph}
use fusilli.Node.Store.{Ptr}
use fusilli.Graph.Build.{node_name, name_unnamed, output_tensor, add_node}
use fusilli.Node.Norm.{is_training}
use fusilli.Node.Norm.Layer.{LayernormAttr}
use fusilli.Node.Norm.Rms.{RmsnormAttr}
use fusilli.Node.Norm.Batch.{BatchnormAttr}

-- An output that only training has.
unfoldable pub output_if : Bool → String → Graph → Ptr × Graph
unfolding output_tensor
output_if true name g = let (i, g') = output_tensor name g in (some i, g')
output_if false name g = (none, g)

unfoldable pub batchnorm :
    Ptr → Ptr → Ptr → Ptr → Ptr → BatchnormAttr → Graph → Outcome ((ℕ × Ptr × Ptr) × Graph)
unfolding node_name name_unnamed output_tensor output_if add_node
batchnorm x scale bias mean var attr g = do
  let name = node_name attr.name "batchnorm_" g
  g₁ ← name_unnamed x (text_append name "_X") g
  g₂ ← name_unnamed scale (text_append name "_SCALE") g₁
  g₃ ← name_unnamed bias (text_append name "_BIAS") g₂
  g₄ ← name_unnamed mean (text_append name "_MEAN") g₃
  g₅ ← name_unnamed var (text_append name "_VAR") g₄
  g₆ ← name_unnamed attr.epsilon (text_append name "_EPSILON") g₅
  g₇ ← name_unnamed attr.momentum (text_append name "_MOMENTUM") g₆
  let (y, g₈) = output_tensor (text_append name "_Y") g₇
  let train = is_training attr.forward_phase
  let (saved_mean, g₉) = output_if train (text_append name "_SAVED_MEAN") g₈
  let (saved_inv_var, g₁₀) = output_if train (text_append name "_SAVED_INV_VARIANCE") g₉
  let attr' = record attr {
    name = name;
    x = x;
    scale = scale;
    bias = bias;
    mean = mean;
    var = var;
    y = some y;
    saved_mean = saved_mean;
    saved_inv_variance = saved_inv_var;
  }
  ok ((y, saved_mean, saved_inv_var), add_node (Op.batch_norm attr') g₁₀)

unfoldable pub layernorm :
    Ptr → Ptr → Ptr → LayernormAttr → Graph → Outcome ((ℕ × Ptr × Ptr) × Graph)
unfolding node_name name_unnamed output_tensor output_if add_node
layernorm x scale bias attr g = do
  let name = node_name attr.name "layernorm_" g
  g₁ ← name_unnamed x (text_append name "_X") g
  g₂ ← name_unnamed scale (text_append name "_SCALE") g₁
  g₃ ← name_unnamed bias (text_append name "_BIAS") g₂
  g₄ ← name_unnamed attr.epsilon (text_append name "_EPSILON") g₃
  let (y, g₅) = output_tensor (text_append name "_Y") g₄
  let train = is_training attr.forward_phase
  let (m, g₆) = output_if train (text_append name "_MEAN") g₅
  let (v, g₇) = output_if train (text_append name "_INV_VARIANCE") g₆
  let attr' = record attr {
    name = name;
    x = x;
    scale = scale;
    bias = bias;
    y = some y;
    mean = m;
    inv_variance = v;
  }
  ok ((y, m, v), add_node (Op.layer_norm attr') g₇)

unfoldable pub rmsnorm : Ptr → Ptr → RmsnormAttr → Graph → Outcome ((ℕ × Ptr) × Graph)
unfolding node_name name_unnamed output_tensor output_if add_node
rmsnorm x scale attr g = do
  let name = node_name attr.name "rmsnorm_" g
  g₁ ← name_unnamed x (text_append name "_X") g
  g₂ ← name_unnamed scale (text_append name "_SCALE") g₁
  g₃ ← name_unnamed attr.epsilon (text_append name "_EPSILON") g₂
  let (y, g₄) = output_tensor (text_append name "_Y") g₃
  let (r, g₅) = output_if (is_training attr.forward_phase) (text_append name "_INV_RMS") g₄
  let attr' = record attr { name = name; x = x; scale = scale; y = some y; inv_rms = r }
  ok ((y, r), add_node (Op.rms_norm attr') g₅)
