-- ===== src/Graph/Validate.antt =====
-- graph/graph.h: the class `Graph` as far as validation goes. The sets of pointers are lists in the
-- order of insertion.
pub mod Laws
pub mod Frame
use Prim.Native.String.{len}
use Prim.Native.String.{compare}
use Prim.Native.Nat.{Ordering}
use fusilli.Base.{
  ℕ, ◌==◌, Bool, true, false, some, List, [], ◌∷◌, ◌++◌, map, String, Outcome, ok, error_if,
  attribute_not_set, invalid_attribute, ◌>>=◌, ◌>>◌, if◌then◌else◌,
}
use fusilli.Graph.Context.{Context}
use fusilli.Graph.Op.{SubNode, Op, op_name, validate_sub_nodes}
use fusilli.Graph.Names.{check_names_are_unique}
use fusilli.Node.Store.{Store, deref}
use fusilli.Tensor.Attr.{TensorAttr}
use fusilli.Tensor.Validate
use fusilli.Tensor.Layout.{has_broadcast_dims}

pub record Graph : Type 0 where
  pub context : Context
  pub tensors : Store
  pub sub_nodes : List SubNode
  pub full_graph_inputs : List ℕ
  pub full_graph_outputs : List ℕ
  pub full_graph_inputs_sorted : List ℕ
  pub full_graph_outputs_sorted : List ℕ
  pub is_validated : Bool

unfoldable pub tensor_names : Store → List ℕ → Outcome (List String)
tensor_names st [] = ok []
tensor_names st (i ∷ is) = do t ← deref st (some i); names ← tensor_names st is; ok (t.name ∷ names)

unfoldable pub node_names : List SubNode → List String
unfolding op_name
node_names [] = []
node_names (node ∷ nodes) = op_name node.op ∷ node_names nodes

unfoldable pub pre_validate_node : Graph → Outcome (Unit {0})
unfolding tensor_names node_names check_names_are_unique
pre_validate_node g = do
  inputs ← tensor_names g.tensors g.full_graph_inputs
  used ← check_names_are_unique inputs []
  outputs ← tensor_names g.tensors g.full_graph_outputs
  used' ← check_names_are_unique outputs used
  _ ← check_names_are_unique (node_names g.sub_nodes) used'
  ok tt

-- `std::set<..., TensorAttrSortByName>::insert`: a key with an equivalent one is not inserted.
unfoldable pub insert_sorted : Store → ℕ → List ℕ → Outcome (List ℕ)
insert_sorted st i [] = ok (i ∷ [])
insert_sorted st i (j ∷ js) = do
  a ← deref st (some i)
  b ← deref st (some j)
  elim (compare a.name b.name) [
    | Ordering.lt ↦ ok (i ∷ j ∷ js)
    | Ordering.eq ↦ ok (j ∷ js)
    | Ordering.gt ↦ insert_sorted st i js >>= λ rest. ok (j ∷ rest)
  ]

unfoldable pub insert_all_sorted : Store → List ℕ → List ℕ → Outcome (List ℕ)
unfolding insert_sorted
insert_all_sorted st [] sorted = ok sorted
insert_all_sorted st (i ∷ is) sorted = insert_sorted st i sorted >>= insert_all_sorted st is

unfoldable pub infer_properties_node : Graph → Outcome Graph
unfolding insert_all_sorted
infer_properties_node g = do
  inputs ← insert_all_sorted g.tensors g.full_graph_inputs g.full_graph_inputs_sorted
  outputs ← insert_all_sorted g.tensors g.full_graph_outputs g.full_graph_outputs_sorted
  ok (record g { full_graph_inputs_sorted = inputs; full_graph_outputs_sorted = outputs })

-- `validateSubtree` of the graph, whose `postValidateNode` accepts.
unfoldable pub validate_subtree : Graph → Outcome Graph
unfolding pre_validate_node infer_properties_node
validate_subtree g = do
  pre_validate_node g
  g' ← infer_properties_node g
  (nodes, st) ← validate_sub_nodes g'.sub_nodes g'.tensors
  ok (record g' { sub_nodes = nodes; tensors = st })

unfoldable pub validate_inputs : Store → List ℕ → Outcome (Unit {0})
validate_inputs st [] = ok tt
validate_inputs st (i ∷ is) = do t ← deref st (some i); Validate.validate t; validate_inputs st is

unfoldable pub validate_outputs : Store → List ℕ → Outcome (Unit {0})
validate_outputs st [] = ok tt
validate_outputs st (i ∷ is) = do
  t ← deref st (some i)
  Validate.validate t
  error_if (has_broadcast_dims t) invalid_attribute
  validate_outputs st is

unfoldable pub validate : Graph → Outcome Graph
unfolding validate_subtree validate_inputs validate_outputs
validate g = do
  error_if (len g.context.name == 0) attribute_not_set
  g' ← validate_subtree g
  validate_inputs g'.tensors g'.full_graph_inputs
  validate_outputs g'.tensors g'.full_graph_outputs
  ok (record g' { is_validated = true })
