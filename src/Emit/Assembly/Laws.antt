-- ===== src/Emit/Assembly/Laws.antt =====
-- The function that the whole text of a graph declares.
use mathlib.Core.Path.{subst}
use mathlib.Core.List.{append_assoc}
use fusilli.Base.{
  ℕ, ◌+◌, ◌≡◌, ap, ◌∙◌, Bool, not, [], ◌∷◌, ◌++◌, Text, codes, ok, error_if, not_validated,
  >>=-eq-ok, ok-injective, if◌then◌else◌,
}
use fusilli.Graph.Validate.{Graph}
use fusilli.Graph.Runtime.{input_list_capacity}
use fusilli.Emit.Format.{format, format_from, argument}
use fusilli.Emit.Program.{
  derefs, scalar_constants, pre_schema, emit_node_pre_asm, emit_node_post_asm,
  get_result_names_and_types_asm, get_operand_names_and_types_asm,
}
use fusilli.Emit.Program.Percent.{percent, count}
use fusilli.Emit.Program.Laws.{signature-input_list_capacity}
use fusilli.Emit.Assembly.{Printer, emit_ops, collect_module_scope_asm, emit_asm_subtree, emit_asm}

abbrev pub main : Text
main = codes "func.func @main("

-- The text declares the function `main` with these results and operands.
abbrev pub Declares : Text → Text → Text → Type 0
Declares results operands text =
    (before : Text) × (after : Text) × (text
      ≡ before ++ main ++ results ++ codes ", " ++ operands ++ codes ") attributes " ++ after)

regroup :
    (a s b m r c o t x : Text)
    → a ++ (s ++ (b ++ (m ++ (r ++ (c ++ (o ++ (t ++ x)))))))
      ≡ (a ++ s ++ b) ++ m ++ r ++ c ++ o ++ t ++ x
regroup a s b m r c o t x = simp append_assoc

pre_schema-Declares :
    (module_scope results operands : Text)
    → Declares results operands (format pre_schema (module_scope ∷ results ∷ operands ∷ []))
unfolding format format_from argument
pre_schema-Declares module_scope results operands =
    let open_ = codes "\nmodule @module {\n  " in
    let after = codes "{torch.assume_strict_symbolic_shapes} {\n  " in
    (
      open_ ++ module_scope ++ codes "\n  ",
      after,
      regroup open_ module_scope (codes "\n  ") main results (codes ", ") operands
          (codes ") attributes ") after,
    )

Declares-right :
    (results operands text more : Text)
    → Declares results operands text
    → Declares results operands (text ++ more)
Declares-right results operands text more (before, after, e) = (
  before,
  after ++ more,
  ap (λ (x : Text). x ++ more) e
      ∙ append_assoc (before ++ main ++ results ++ codes ", " ++ operands ++ codes ") attributes ")
          after more,
)

-- The text of a graph declares a function with as many parameters, each with one name, as `execute`
-- passes buffers for the outputs and the inputs: with the place of the workspace, and the two fences
-- of an asynchronous backend, they are the capacity of its list of arguments.
pub emit_asm-Declares :
    (printer : Printer) (g : Graph) (execute_async : Bool) (text : Text) (capacity : ℕ)
    → emit_asm printer g ≡ ok text
    → input_list_capacity g execute_async ≡ ok capacity
    → (results : Text) × (operands : Text) × Declares results operands text
      × (count percent results + count percent operands + 1 + (if execute_async then 2 else 0)
          ≡ capacity)
unfolding emit_asm emit_asm_subtree emit_node_pre_asm
emit_asm-Declares printer g execute_async text capacity h c =
    let (_, _, h₁) = >>=-eq-ok (error_if (not g.is_validated) not_validated) _ h in
    let (module_scope, _, h₂) = >>=-eq-ok (collect_module_scope_asm g.sub_nodes g.tensors) _ h₁ in
    let (pre, p, h₃) = >>=-eq-ok (emit_node_pre_asm g module_scope) _ h₂ in
    let (body, _, h₄) = >>=-eq-ok (emit_ops printer g.sub_nodes g.tensors) _ h₃ in
    let (post, _, h₅) = >>=-eq-ok (emit_node_post_asm g) _ h₄ in
    let (results, r, p₁) = >>=-eq-ok (get_result_names_and_types_asm g) _ p in
    let (operands, o, p₂) = >>=-eq-ok (get_operand_names_and_types_asm g) _ p₁ in
    let (inputs, _, p₃) = >>=-eq-ok (derefs g.tensors g.full_graph_inputs_sorted) _ p₂ in
    let (constants, _, p₄) = >>=-eq-ok (scalar_constants inputs) _ p₃ in
    let here = pre_schema-Declares module_scope results operands in
    let with_constants =
      subst (Declares results operands) (ok-injective p₄)
        (Declares-right results operands _ constants here) in
    let with_body = Declares-right results operands pre body with_constants in
    (
      results,
      operands,
      subst (Declares results operands) (ok-injective h₅)
          (Declares-right results operands (pre ++ body) post with_body),
      signature-input_list_capacity g execute_async results operands capacity r o c,
    )
