-- ===== src/Graph/Validate/Frame.antt =====
-- graph/graph.h: a graph before and after `Graph::validate`.
use fusilli.Base.{
  ℕ, at, ◌≡◌, refl, ◌==◌, ok, Post, Post-ok, Post->>=, Post-then, error_if, attribute_not_set,
  length,
}
use Prim.Native.String.{len}
use fusilli.Graph.Op.Laws.{validate_sub_nodes-KeepsAll}
use fusilli.Graph.Validate.{
  Graph, pre_validate_node, infer_properties_node, validate_subtree, validate_inputs,
  validate_outputs, validate, insert_all_sorted,
}
use fusilli.Node.Frame.{Keeps, KeepsAll}
use fusilli.Tensor.Attr.{TensorAttr}

-- The same inputs, outputs, context and number of nodes, and every tensor still in place.
abbrev pub SameParts : Graph → Graph → Type 0
SameParts g g' =
    (g'.full_graph_inputs ≡ g.full_graph_inputs)
    × (g'.full_graph_outputs ≡ g.full_graph_outputs)
    × (g'.context ≡ g.context)
    × (length g'.sub_nodes ≡ length g.sub_nodes)
    × KeepsAll g.tensors g'.tensors

validate_subtree-SameParts : (g : Graph) → Post (SameParts g) (validate_subtree g)
unfolding validate_subtree infer_properties_node
validate_subtree-SameParts g = Post->>= (pre_validate_node g) λ _ _.
    Post-then
      (λ (g' : Graph).
        (g'.full_graph_inputs ≡ g.full_graph_inputs)
        × (g'.full_graph_outputs ≡ g.full_graph_outputs)
        × (g'.context ≡ g.context)
        × (g'.sub_nodes ≡ g.sub_nodes)
        × (g'.tensors ≡ g.tensors))
      (Post->>= (insert_all_sorted g.tensors g.full_graph_inputs g.full_graph_inputs_sorted) λ is _.
        Post->>= (insert_all_sorted g.tensors g.full_graph_outputs g.full_graph_outputs_sorted)
          λ os _. Post-ok _ (refl, refl, refl, refl, refl))
      λ g' (i, o, c, n, t).
        Post-then (λ r. (length r.0 ≡ length g'.sub_nodes) × KeepsAll g'.tensors r.1)
          (validate_sub_nodes-KeepsAll g'.sub_nodes g'.tensors)
          λ r (same, kept). Post-ok (SameParts g) (i, o, c, rw n at same, rw t at kept)

pub validate-SameParts : (g : Graph) → Post (SameParts g) (validate g)
unfolding validate
validate-SameParts g = Post->>= (error_if (len g.context.name == 0) attribute_not_set) λ _ _.
    Post-then (SameParts g) (validate_subtree-SameParts g) λ g' same.
      Post->>= (validate_inputs g'.tensors g'.full_graph_inputs) λ _ _.
        Post->>= (validate_outputs g'.tensors g'.full_graph_outputs)
          λ _ _. Post-ok (SameParts g) same

-- A graph that passes validation has as many tensors as before. A tensor stays in its place, with its
-- name, its flags, its scalar value and its dynamic dimensions, and with the dimensions and the
-- strides that it had, if it had any.
pub validate-Keeps :
    (g g' : Graph) (i : ℕ) (t : TensorAttr)
    → validate g ≡ ok g'
    → at g.tensors i ≡ ok t
    → (length g'.tensors ≡ length g.tensors)
      × ((t' : TensorAttr) × (at g'.tensors i ≡ ok t') × Keeps t t')
validate-Keeps g g' i t h e =
    let (_, _, _, _, (same, kept)) = validate-SameParts g g' h in (same, kept i t e)
