-- ===== src/Graph/Validate/Laws.antt =====
-- graph/graph.h: the graphs that `Graph::validate` accepts.
use mathlib.Core.List.{Nodup}
use Prim.Native.String.{len}
use mathlib.Core.Path.{fun_ext, subst}
use fusilli.Base.{
  ℕ, ◌==◌, ◌≡◌, refl, sym, ap, ◌∙◌, ◌↔◌, true, false, List, [], ◌∷◌, ◌++◌, arith, String, ok, ◌>>=◌,
  All, >>=-eq-ok, >>=_assoc, ok-injective, error_if, error_if-eq-ok, attribute_not_set, is_ok-value,
  at,
}
use fusilli.Graph.Names.{check_names_are_unique}
use fusilli.Graph.Names.Laws.{check_names_are_unique_iff, check_names_are_unique-append}
use fusilli.Graph.Op.{validate_sub_nodes}
use fusilli.Graph.Validate.{
  Graph, tensor_names, node_names, pre_validate_node, infer_properties_node, validate_subtree,
  validate_inputs, validate_outputs, validate, insert_all_sorted,
}
use fusilli.Node.Store.{Store, deref}
use fusilli.Tensor.Attr.{TensorAttr}
use fusilli.Tensor.Layout.{has_broadcast_dims}
use fusilli.Tensor.Validate.Laws.{IsValid, validate_iff}

-- The pointer leads to a valid tensor.
abbrev pub LeadsToValid : Store → ℕ → Type 0
LeadsToValid st i = (t : TensorAttr) × (at st i ≡ ok t) × IsValid t

abbrev pub LeadsToOutput : Store → ℕ → Type 0
LeadsToOutput st i =
    (t : TensorAttr) × (at st i ≡ ok t) × IsValid t × (has_broadcast_dims t ≡ false)

validate_inputs_iff :
    (st : Store) (is : List ℕ) → (validate_inputs st is ≡ ok tt) ↔ All (LeadsToValid st) is
unfolding validate_inputs deref
validate_inputs_iff st [] = (λ h. tt, λ h. refl)
validate_inputs_iff st (i ∷ is) =
    let rest = validate_inputs_iff st is in
    (
      λ h.
          let (t, e) = is_ok-value (at st i) (ground arith) in
          ((t, e, (validate_iff t).0 (ground arith)), rest.0 (ground arith)),
      λ ((t, e, valid), others).
          let accepted = (validate_iff t).1 valid in
          let later = rest.1 others in rw (e, accepted, later),
    )

validate_outputs_iff :
    (st : Store) (is : List ℕ) → (validate_outputs st is ≡ ok tt) ↔ All (LeadsToOutput st) is
unfolding validate_outputs deref
validate_outputs_iff st [] = (λ h. tt, λ h. refl)
validate_outputs_iff st (i ∷ is) =
    let rest = validate_outputs_iff st is in
    (
      λ h.
          let (t, e) = is_ok-value (at st i) (ground arith) in
          ((t, e, (validate_iff t).0 (ground arith), ground arith), rest.0 (ground arith)),
      λ ((t, e, valid, plain), others).
          let accepted = (validate_iff t).1 valid in
          let later = rest.1 others in rw (e, accepted, plain, later),
    )

-- Checking three lists in turn is checking their concatenation.
three_checks :
    (xs ys zs used : List String)
    → (check_names_are_unique xs used >>= λ u.
        check_names_are_unique ys u >>= λ v. check_names_are_unique zs v >>= λ _. ok (tt {0}))
      ≡ (check_names_are_unique (xs ++ (ys ++ zs)) used >>= λ _. ok tt)
three_checks xs ys zs used =
    rw
      (
        check_names_are_unique-append xs (ys ++ zs) used,
        >>=_assoc (check_names_are_unique xs used) (check_names_are_unique (ys ++ zs))
            (λ _. ok (tt {0})),
      )
      (ap (λ k. check_names_are_unique xs used >>= k)
        (fun_ext λ u. rw (check_names_are_unique-append ys zs u) (
          sym (
            >>=_assoc (check_names_are_unique ys u) (check_names_are_unique zs)
              (λ _. ok (tt {0}))))))

-- A graph whose inputs and outputs are there passes the first checks exactly when no two of its
-- inputs, outputs and nodes have the same name.
pub pre_validate_node_iff :
    (g : Graph) (inputs outputs : List String)
    → tensor_names g.tensors g.full_graph_inputs ≡ ok inputs
    → tensor_names g.tensors g.full_graph_outputs ≡ ok outputs
    → (pre_validate_node g ≡ ok tt) ↔ Nodup (inputs ++ (outputs ++ node_names g.sub_nodes))
unfolding pre_validate_node
pre_validate_node_iff g inputs outputs ei eo =
    let names = inputs ++ (outputs ++ node_names g.sub_nodes) in
    let unique = check_names_are_unique_iff names in
    rw (ei, eo, three_checks inputs outputs (node_names g.sub_nodes) [])
      (
        λ h. unique.0 (is_ok-value (check_names_are_unique names []) (ground arith)),
        λ d. let (u, e) = unique.1 d in rw e,
      )

abbrev SameInterface : Graph → Graph → Type 0
SameInterface g g' =
    (g'.full_graph_inputs ≡ g.full_graph_inputs)
    × (g'.full_graph_outputs ≡ g.full_graph_outputs)
    × (g'.context ≡ g.context)

infer_properties_node-SameInterface :
    (g : Graph) {g' : Graph} → infer_properties_node g ≡ ok g' → SameInterface g g'
unfolding infer_properties_node
infer_properties_node-SameInterface g h =
    let (inputs, ei) =
      is_ok-value (insert_all_sorted g.tensors g.full_graph_inputs g.full_graph_inputs_sorted)
        (ground arith) in
    let (outputs, eo) =
      is_ok-value (insert_all_sorted g.tensors g.full_graph_outputs g.full_graph_outputs_sorted)
        (ground arith) in
    (ground arith, ground arith, ground arith)

validate_subtree-SameInterface :
    (g : Graph) {g' : Graph} → validate_subtree g ≡ ok g' → SameInterface g g'
unfolding validate_subtree
validate_subtree-SameInterface g h =
    let (u, checked, h₁) = >>=-eq-ok (pre_validate_node g) _ h in
    let (g₁, e, h₂) = >>=-eq-ok (infer_properties_node g) _ h₁ in
    let (done, e', h₃) = >>=-eq-ok (validate_sub_nodes g₁.sub_nodes g₁.tensors) _ h₂ in
    let same = ok-injective h₃ in
    let (i, o, c) = infer_properties_node-SameInterface g e in
    (
      ap (λ x. x.full_graph_inputs) (sym same) ∙ i,
      ap (λ x. x.full_graph_outputs) (sym same) ∙ o,
      ap (λ x. x.context) (sym same) ∙ c,
    )

-- What holds of a graph that has passed `Graph::validate`, by the tensors and nodes that it then has.
abbrev pub IsValidated : Graph → Type 0
IsValidated g =
    (g.is_validated ≡ true)
    × ((len g.context.name == 0) ≡ false)
    × All (LeadsToValid g.tensors) g.full_graph_inputs
    × All (LeadsToOutput g.tensors) g.full_graph_outputs

-- A graph that passes validation is marked so, has a name, and each of its inputs and outputs leads
-- to a valid tensor, the outputs to tensors without a broadcast dimension. The inputs and outputs
-- are those that it had, and before validation their names and those of the nodes were distinct.
pub validate_lem :
    (g g' : Graph) (inputs outputs : List String)
    → tensor_names g.tensors g.full_graph_inputs ≡ ok inputs
    → tensor_names g.tensors g.full_graph_outputs ≡ ok outputs
    → validate g ≡ ok g'
    → IsValidated g'
      × (g'.full_graph_inputs ≡ g.full_graph_inputs)
      × (g'.full_graph_outputs ≡ g.full_graph_outputs)
      × Nodup (inputs ++ (outputs ++ node_names g.sub_nodes))
unfolding validate validate_subtree
validate_lem g g' inputs outputs ei eo h =
    let (u₀, named, h₁) = >>=-eq-ok (error_if (len g.context.name == 0) attribute_not_set) _ h in
    let (g₁, e, h₂) = >>=-eq-ok (validate_subtree g) _ h₁ in
    let (u₁, checked, h₃) = >>=-eq-ok (validate_inputs g₁.tensors g₁.full_graph_inputs) _ h₂ in
    let (u₂, checked', h₄) = >>=-eq-ok (validate_outputs g₁.tensors g₁.full_graph_outputs) _ h₃ in
    let (u₃, distinct, _) = >>=-eq-ok (pre_validate_node g) _ e in
    let (i, o, c) = validate_subtree-SameInterface g e in
    let valid : IsValidated (record g₁ { is_validated = true }) = (
      refl,
      rw c (error_if-eq-ok _ _ named),
      (validate_inputs_iff _ _).0 checked,
      (validate_outputs_iff _ _).0 checked',
    ) in
    (
      subst IsValidated (ok-injective h₄) valid,
      ap (λ x. x.full_graph_inputs) (sym (ok-injective h₄)) ∙ i,
      ap (λ x. x.full_graph_outputs) (sym (ok-injective h₄)) ∙ o,
      (pre_validate_node_iff g inputs outputs ei eo).0 distinct,
    )
