-- ===== src/Graph/Op.antt =====
-- node/node.h: the nodes of a graph. Each keeps the context that the graph had when it was added.
-- All nodes but the graph itself are leaves.
pub mod Laws
use fusilli.Base.{List, [], ◌∷◌, String, Outcome, ok, ◌>>=◌, ◌>>◌}
use fusilli.Graph.Context.{Context}
use fusilli.Node.Store.{Store}
use fusilli.Node.Conv.FProp
use fusilli.Node.Conv.FProp.{ConvFPropAttr}
use fusilli.Node.Conv.WGrad
use fusilli.Node.Conv.WGrad.{ConvWGradAttr}
use fusilli.Node.Conv.DGrad
use fusilli.Node.Conv.DGrad.{ConvDGradAttr}
use fusilli.Node.Matmul
use fusilli.Node.Matmul.{MatmulAttr}
use fusilli.Node.Pointwise
use fusilli.Node.Pointwise.{PointwiseAttr}
use fusilli.Node.Reduction
use fusilli.Node.Reduction.{ReductionAttr}
use fusilli.Node.Norm.Layer
use fusilli.Node.Norm.Layer.{LayernormAttr}
use fusilli.Node.Norm.Rms
use fusilli.Node.Norm.Rms.{RmsnormAttr}
use fusilli.Node.Norm.Batch
use fusilli.Node.Norm.Batch.{BatchnormAttr}
use fusilli.Node.Sdpa
use fusilli.Node.Sdpa.{SdpaAttr}
use fusilli.Node.CustomOp
use fusilli.Node.CustomOp.{CustomOpNode}

-- `INode::Type`, with what each class holds.
pub data Op : Type 0 where
  convolution : ConvFPropAttr → Op
  wgrad : ConvWGradAttr → Op
  dgrad : ConvDGradAttr → Op
  pointwise : PointwiseAttr → Op
  layer_norm : LayernormAttr → Op
  batch_norm : BatchnormAttr → Op
  rms_norm : RmsnormAttr → Op
  matmul : MatmulAttr → Op
  reduction : ReductionAttr → Op
  sdpa : SdpaAttr → Op
  custom : CustomOpNode → Op

pub record SubNode : Type 0 where
  pub context : Context
  pub op : Op

unfoldable pub op_name : Op → String
op_name (convolution a) = a.name
op_name (wgrad a) = a.name
op_name (dgrad a) = a.name
op_name (pointwise a) = a.name
op_name (layer_norm a) = a.name
op_name (batch_norm a) = a.name
op_name (rms_norm a) = a.name
op_name (matmul a) = a.name
op_name (reduction a) = a.name
op_name (sdpa a) = a.name
op_name (custom a) = a.name

unfoldable pub pre_validate_op : Op → Store → Outcome (Unit {0})
pre_validate_op (convolution a) st = FProp.pre_validate_node a st
pre_validate_op (wgrad a) st = WGrad.pre_validate_node a st
pre_validate_op (dgrad a) st = DGrad.pre_validate_node a st
pre_validate_op (pointwise a) st = Pointwise.pre_validate_node a
pre_validate_op (layer_norm a) st = Layer.pre_validate_node a st
pre_validate_op (batch_norm a) st = Batch.pre_validate_node a st
pre_validate_op (rms_norm a) st = Rms.pre_validate_node a st
pre_validate_op (matmul a) st = Matmul.pre_validate_node a st
pre_validate_op (reduction a) st = Reduction.pre_validate_node a st
pre_validate_op (sdpa a) st = Sdpa.pre_validate_node a st
pre_validate_op (custom a) st = CustomOp.pre_validate_node a st

-- The node and the store after the call.
unfoldable pub infer_op : Context → Op → Store → Outcome (Op × Store)
infer_op c (convolution a) st = do
  (a', st') ← FProp.infer_properties_node c a st
  ok (convolution a', st')
infer_op c (wgrad a) st = do (a', st') ← WGrad.infer_properties_node c a st; ok (wgrad a', st')
infer_op c (dgrad a) st = do (a', st') ← DGrad.infer_properties_node c a st; ok (dgrad a', st')
infer_op c (pointwise a) st = do
  (a', st') ← Pointwise.infer_properties_node c a st
  ok (pointwise a', st')
infer_op c (layer_norm a) st = do
  (a', st') ← Layer.infer_properties_node c a st
  ok (layer_norm a', st')
infer_op c (batch_norm a) st = do
  (a', st') ← Batch.infer_properties_node c a st
  ok (batch_norm a', st')
infer_op c (rms_norm a) st = do (a', st') ← Rms.infer_properties_node c a st; ok (rms_norm a', st')
infer_op c (matmul a) st = do (a', st') ← Matmul.infer_properties_node c a st; ok (matmul a', st')
infer_op c (reduction a) st = do
  (a', st') ← Reduction.infer_properties_node c a st
  ok (reduction a', st')
infer_op c (sdpa a) st = do (a', st') ← Sdpa.infer_properties_node c a st; ok (sdpa a', st')
infer_op c (custom a) st = do st' ← CustomOp.infer_properties_node c a st; ok (custom a, st')

-- Pointwise and custom nodes have the default, which accepts.
unfoldable pub post_validate_op : Op → Store → Outcome (Unit {0})
post_validate_op (convolution a) st = FProp.post_validate_node a st
post_validate_op (wgrad a) st = WGrad.post_validate_node a st
post_validate_op (dgrad a) st = DGrad.post_validate_node a st
post_validate_op (pointwise a) st = ok tt
post_validate_op (layer_norm a) st = Layer.post_validate_node a st
post_validate_op (batch_norm a) st = Batch.post_validate_node a st
post_validate_op (rms_norm a) st = Rms.post_validate_node a st
post_validate_op (matmul a) st = Matmul.post_validate_node a st
post_validate_op (reduction a) st = Reduction.post_validate_node a st
post_validate_op (sdpa a) st = Sdpa.post_validate_node a st
post_validate_op (custom a) st = ok tt

-- `validateSubtree` of a leaf.
unfoldable pub validate_sub_node : SubNode → Store → Outcome (SubNode × Store)
validate_sub_node node st = do
  pre_validate_op node.op st
  (op, st') ← infer_op node.context node.op st
  post_validate_op op st'
  ok (record node { op = op }, st')

unfoldable pub validate_sub_nodes : List SubNode → Store → Outcome (List SubNode × Store)
unfolding validate_sub_node
validate_sub_nodes [] st = ok ([], st)
validate_sub_nodes (node ∷ nodes) st = do
  (node', st') ← validate_sub_node node st
  (nodes', st'') ← validate_sub_nodes nodes st'
  ok (node' ∷ nodes', st'')
