-- ===== src/Node/CustomOp/Laws.antt =====
-- node/custom_op_node.h: the tensors before and after inference.
use fusilli.Base.{List, [], ◌∷◌, Post, Post-ok, Post->>=}
use fusilli.Graph.Context.{Context}
use fusilli.Tensor.Attr.{fill_from_context}
use fusilli.Node.Store.{Store, Ptr, modify}
use fusilli.Node.Frame.{
  KeepsAll, KeepsAll-refl, KeepsAll-trans, modify-KeepsAll, fill_from_context-Keeps,
}
use fusilli.Node.CustomOp.{CustomOpNode, fill_inputs, infer_properties_node}

fill_inputs-KeepsAll :
    (context : Context) (ps : List Ptr) (st : Store)
    → Post (KeepsAll st) (fill_inputs context ps st)
unfolding fill_inputs
fill_inputs-KeepsAll context [] st = Post-ok (KeepsAll st) (KeepsAll-refl st)
fill_inputs-KeepsAll context (p ∷ ps) st =
    Post->>= (modify p (fill_from_context context) st) λ st₁ e st₂ e'.
      KeepsAll-trans st st₁ st₂
        (modify-KeepsAll p (fill_from_context context) st e
          λ t _. fill_from_context-Keeps context t)
        (fill_inputs-KeepsAll context ps st₁ st₂ e')

pub infer-KeepsAll :
    (context : Context) (node : CustomOpNode) (st : Store)
    → Post (KeepsAll st) (infer_properties_node context node st)
unfolding infer_properties_node
infer-KeepsAll context node st = fill_inputs-KeepsAll context node.inputs st
