-- ===== src/Graph/Build/Laws.antt =====
-- graph/graph.h: the pointers that `tensor` and `outputTensor` add.
use mathlib.Core.List.{Mem, mem-cons, Nodup, Nodup-cons, perm_middle, append-nil, append_assoc}
use mathlib.Core.List.Perm
use mathlib.Core.Logic.Or
use mathlib.Core.Bool.{Bool-set}
use fusilli.Base.{
  ℕ, ◌<◌, ◌≡◌, sym, true, none, some, List, [], ◌∷◌, ◌++◌, arith, length, length-append, String, ok,
  Post, Post-ok, Post->>=, Post-if, length-put, >>=-eq-ok, ltb→lt, lt→ltb, at,
}
use fusilli.Graph.Build.{name_unnamed, output_tensor, tensor, is_unnamed, set_name}
use fusilli.Graph.Validate.{Graph}
use fusilli.Node.Store.{Ptr, Store, modify, deref}
use fusilli.Tensor.Attr.{TensorAttr, default_tensor}

-- The inputs and outputs are tensors of the graph, no two of them the same.
abbrev pub IsWellFormed : Graph → Type 0
IsWellFormed g =
    ((i : ℕ) → Mem i (g.full_graph_inputs ++ g.full_graph_outputs) → i < length g.tensors)
    × Nodup (g.full_graph_inputs ++ g.full_graph_outputs)

pub length-modify :
    (p : Ptr) (f : TensorAttr → TensorAttr) (st : Store) {st' : Store}
    → modify p f st ≡ ok st'
    → length st' ≡ length st
unfolding modify
length-modify none f st h = cc
length-modify (some i) f st h = let (t, e, h₁) = >>=-eq-ok (at st i) _ h in length-put st i (f t) h₁

-- A pointer that is new joins the others, wherever it is put.
join_new :
    (is js : List ℕ) (n n' : ℕ)
    → n < n'
    → ((i : ℕ) → Mem i (is ++ js) → i < n)
    → Nodup (is ++ js)
    → ((i : ℕ) → Mem i (is ++ n ∷ js) → i < n') × Nodup (is ++ n ∷ js)
join_new is js n n' more small distinct =
    let fresh : ¬ Mem n (is ++ js) = λ m. omega (arith, small n m) in
    let moved = perm_middle is js in
    (
      λ i m. ltb→lt i n' (
          Or.elim (Bool-set _ _) (mem-cons.0 ((Perm.mem_iff moved).0 m)) (λ e. ground arith)
            (λ old. lt→ltb i n' (omega (arith, small i old)))),
      (Perm.Nodup-iff moved).1 (Nodup-cons.1 (fresh, distinct)),
    )

pub tensor-IsWellFormed :
    (t : TensorAttr) (g : Graph) → IsWellFormed g → IsWellFormed (tensor t g).1
unfolding tensor
tensor-IsWellFormed t g (small, distinct) = rw (append_assoc g.full_graph_inputs) (
    join_new g.full_graph_inputs g.full_graph_outputs (length g.tensors) _
      (omega (arith, length-append g.tensors (t ∷ []))) small distinct)

pub output_tensor-IsWellFormed :
    (name : String) (g : Graph) → IsWellFormed g → IsWellFormed (output_tensor name g).1
unfolding output_tensor
output_tensor-IsWellFormed name g (small, distinct) =
    let t : TensorAttr = record default_tensor { name = name; is_virtual = true } in
    rw (sym (append_assoc g.full_graph_inputs g.full_graph_outputs (length g.tensors ∷ []))) (
      join_new (g.full_graph_inputs ++ g.full_graph_outputs) [] (length g.tensors) _
        (omega (arith, length-append g.tensors (t ∷ []))) (rw append-nil small)
        (rw append-nil distinct))

-- Naming a tensor moves no pointer.
pub name_unnamed-IsWellFormed :
    (p : Ptr) (name : String) (g : Graph)
    → IsWellFormed g
    → Post IsWellFormed (name_unnamed p name g)
unfolding name_unnamed
name_unnamed-IsWellFormed none name g formed = Post-ok IsWellFormed formed
name_unnamed-IsWellFormed (some i) name g formed = Post->>= (deref g.tensors (some i)) λ t _.
    Post-if (is_unnamed t.name)
      (λ _. Post->>= (modify (some i) (set_name name) g.tensors) λ st h.
        Post-ok IsWellFormed (rw (length-modify (some i) (set_name name) g.tensors h) formed))
      (λ _. Post-ok IsWellFormed formed)
