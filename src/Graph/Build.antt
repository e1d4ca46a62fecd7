-- ===== src/Graph/Build.antt =====
-- graph/graph.h: the methods of `Graph` that add tensors and nodes. Each returns the pointers that
-- the C++ returns, and the graph. Here is what they share.
pub mod Products
pub mod Norms
pub mod Others
pub mod Laws
pub mod Steps
use Prim.Native.String.{len}
use fusilli.Base.{
  ℕ, zero, suc, ◌+◌, ◌/◌, ◌%◌, ◌==◌, ltb, Bool, true, false, ◌&&◌, Option, none, some, List, [],
  ◌∷◌, ◌++◌, length, String, Outcome, ok, ◌>>=◌, ◌>>◌, if◌then◌else◌,
}
use Prim.Native.String.{◌++◌ as text_append}
use fusilli.Graph.Op.{Op, SubNode}
use fusilli.Graph.Validate.{Graph}
use fusilli.Node.Store.{Store, Ptr, modify, deref}
use fusilli.Tensor.Attr.{TensorAttr, default_tensor}

digit : ℕ → String
digit d =
    if d == 0
    then "0"
    else if d == 1
    then "1"
    else if d == 2
    then "2"
    else if d == 3
    then "3"
    else if d == 4
    then "4"
    else if d == 5
    then "5"
    else if d == 6
    then "6"
    else if d == 7
    then "7"
    else if d == 8
    then "8"
    else "9"

-- A number has no more digits than its value, so `n` rounds are enough.
digits : ℕ → ℕ → String
unfolding digit
digits zero n = digit n
digits (suc fuel) n =
    let shorter = text_append (digits fuel (n / 10)) (digit (n % 10)) in
    if ltb n 10 then digit n else shorter

-- `std::to_string`
unfoldable pub to_string : ℕ → String
unfolding digits
to_string n = digits n n

abbrev pub is_unnamed : String → Bool
is_unnamed name = len name == 0

-- The name of a node, when not set: a prefix and the number of nodes before it.
unfoldable pub node_name : String → String → Graph → String
unfolding to_string
node_name name prefix g =
    if is_unnamed name then text_append prefix (to_string (length g.sub_nodes)) else name

abbrev pub set_name : String → TensorAttr → TensorAttr
set_name name t = record t { name = name }

-- `if (t && t->getName().empty()) t->setName(...)`
unfoldable pub name_unnamed : Ptr → String → Graph → Outcome Graph
unfolding modify deref
name_unnamed none name g = ok g
name_unnamed (some i) name g = do
  t ← deref g.tensors (some i)
  if is_unnamed t.name
      then (do st ← modify (some i) (set_name name) g.tensors; ok (record g { tensors = st }))
      else ok g

-- `Graph::tensor`: a new input.
unfoldable pub tensor : TensorAttr → Graph → ℕ × Graph
tensor t g = (
  length g.tensors,
  record g {
    tensors = g.tensors ++ t ∷ [];
    full_graph_inputs = g.full_graph_inputs ++ length g.tensors ∷ [];
  },
)

-- `Graph::outputTensor`: a new output, virtual until the user says otherwise.
unfoldable pub output_tensor : String → Graph → ℕ × Graph
output_tensor name g = (
  length g.tensors,
  record g {
    tensors = g.tensors ++ record default_tensor { name = name; is_virtual = true } ∷ [];
    full_graph_outputs = g.full_graph_outputs ++ length g.tensors ∷ [];
  },
)

-- `subNodes_.emplace_back(...)`
unfoldable pub add_node : Op → Graph → Graph
add_node op g = record g { sub_nodes = g.sub_nodes ++ record { context = g.context; op = op } ∷ [] }
