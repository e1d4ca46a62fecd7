-- ===== src/Emit/Assembly.antt =====
-- support/asm_emitter.h, node/node.h, graph/graph.h: the recursion over the nodes, and `Graph::emitAsm`.
pub mod Laws
use fusilli.Base.{
  ℕ, not, List, [], ◌∷◌, ◌++◌, ℤ, Text, codes, Outcome, ok, error_if, not_validated, ◌>>=◌, ◌>>◌,
}
use fusilli.Tensor.Types.{DataType}
use fusilli.Node.Store.{Store}
use fusilli.Graph.Op.{
  Op, SubNode, convolution, wgrad, dgrad, pointwise, layer_norm, batch_norm, rms_norm, matmul,
  reduction, sdpa, custom,
}
use fusilli.Graph.Validate.{Graph}
use fusilli.Emit.Conv
use fusilli.Emit.Conv.WGrad
use fusilli.Emit.Conv.DGrad
use fusilli.Emit.Pointwise
use fusilli.Emit.Norm.Layer
use fusilli.Emit.Norm.Batch
use fusilli.Emit.Norm.Rms
use fusilli.Emit.Matmul
use fusilli.Emit.Reduction
use fusilli.Emit.Sdpa
use fusilli.Emit.CustomOp
use fusilli.Emit.CustomOp.{emit_module_scope_asm}
use fusilli.Emit.Program
use fusilli.Emit.Program.{emit_node_post_asm}

-- How a float is printed, and the number of an element type in the headers of torch.
pub record Printer : Type 0 where
  pub float_asm : ℕ → Text
  pub torch_type : DataType → ℤ

-- `emitNodePreAsm` of each class; `emitNodePostAsm` of all but the graph writes nothing.
unfoldable pub emit_op : Printer → Op → Store → Outcome Text
unfolding Conv.emit_node_pre_asm WGrad.emit_node_pre_asm DGrad.emit_node_pre_asm
    Pointwise.emit_node_pre_asm Layer.emit_node_pre_asm Batch.emit_node_pre_asm
    Rms.emit_node_pre_asm Matmul.emit_node_pre_asm Reduction.emit_node_pre_asm
    Sdpa.emit_node_pre_asm CustomOp.emit_node_pre_asm
emit_op p (convolution attr) st = Conv.emit_node_pre_asm attr st
emit_op p (wgrad attr) st = WGrad.emit_node_pre_asm p.torch_type attr st
emit_op p (dgrad attr) st = DGrad.emit_node_pre_asm p.torch_type attr st
emit_op p (pointwise attr) st = Pointwise.emit_node_pre_asm p.float_asm attr st
emit_op p (layer_norm attr) st = Layer.emit_node_pre_asm attr st
emit_op p (batch_norm attr) st = Batch.emit_node_pre_asm attr st
emit_op p (rms_norm attr) st = Rms.emit_node_pre_asm attr st
emit_op p (matmul attr) st = Matmul.emit_node_pre_asm attr st
emit_op p (reduction attr) st = Reduction.emit_node_pre_asm attr st
emit_op p (sdpa attr) st = Sdpa.emit_node_pre_asm p.float_asm attr st
emit_op p (custom node) st = CustomOp.emit_node_pre_asm node st

unfoldable pub emit_ops : Printer → List SubNode → Store → Outcome Text
unfolding emit_op
emit_ops p [] st = ok []
emit_ops p (node ∷ nodes) st = do
  text ← emit_op p node.op st
  rest ← emit_ops p nodes st
  ok (text ++ rest)

-- `collectModuleScopeAsm`: only custom operations declare anything.
unfoldable pub collect_module_scope_asm : List SubNode → Store → Outcome Text
unfolding emit_module_scope_asm
collect_module_scope_asm [] st = ok []
collect_module_scope_asm (node ∷ nodes) st = do
  text ← elim node.op as (λ _. Outcome Text) [ custom op ↦ emit_module_scope_asm op st | _ ↦ ok [] ]
  rest ← collect_module_scope_asm nodes st
  ok (text ++ rest)

-- `emitAsmSubtree` of the graph.
unfoldable pub emit_asm_subtree : Printer → Graph → Outcome Text
unfolding collect_module_scope_asm Program.emit_node_pre_asm emit_ops emit_node_post_asm
emit_asm_subtree p g = do
  module_scope ← collect_module_scope_asm g.sub_nodes g.tensors
  pre ← Program.emit_node_pre_asm g module_scope
  body ← emit_ops p g.sub_nodes g.tensors
  post ← emit_node_post_asm g
  ok (pre ++ body ++ post)

unfoldable pub emit_asm : Printer → Graph → Outcome Text
unfolding emit_asm_subtree
emit_asm p g = do error_if (not g.is_validated) not_validated; emit_asm_subtree p g
