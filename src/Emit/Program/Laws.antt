-- ===== src/Emit/Program/Laws.antt =====
-- The parameters of the function that a graph becomes, and the arguments that execution passes.
use fusilli.Base.{
  ℕ, suc, ◌+◌, ◌≡◌, refl, ◌∙◌, sym, Bool, true, false, not, some, List, [], ◌∷◌, ◌++◌, Text, codes,
  Outcome, ok, ◌>>=◌, >>=-eq-ok, ok-injective, if◌then◌else◌, Bool-cases, arith, inl, inr,
}
use fusilli.Tensor.Attr.{TensorAttr}
use fusilli.Node.Store.{Store, deref}
use fusilli.Graph.Validate.{Graph}
use fusilli.Graph.Runtime.{count_inputs, count_outputs, input_list_capacity}
use fusilli.Emit.Format.{interleave_skip}
use fusilli.Emit.Values.{get_value_name_asm, get_tensor_type_asm}
use fusilli.Emit.Program.{
  derefs, operand_asm, result_asm, get_operand_names_and_types_asm, get_result_names_and_types_asm,
}
use fusilli.Emit.Program.Percent.{
  percent, count, count-append, get_tensor_type_asm-count, get_value_name_asm-count,
}

-- A name, and its type after a colon.
named-count :
    (aliased v l : Bool) (t : TensorAttr) (text : Text)
    → (do
      name ← get_value_name_asm aliased t
      type ← get_tensor_type_asm v l t
      ok (name ++ codes ": " ++ type))
      ≡ ok text
    → count percent text ≡ 1
unfolding count
named-count aliased v l t text h =
    let (name, n, h₁) = >>=-eq-ok (get_value_name_asm aliased t) _ h in
    let (type, e, h₂) = >>=-eq-ok (get_tensor_type_asm v l t) _ h₁ in
    let both = count-append percent (name ++ codes ": ") type in
    let colon = count-append percent name (codes ": ") in
    let one = get_value_name_asm-count aliased t name n in
    let zero_ = get_tensor_type_asm-count v l t type e in
    rw (sym (ok-injective h₂)) (both ∙ rw (colon, one, zero_) refl)

kept {ℓ} : {A : Type ℓ} → (A → Bool) → List A → ℕ
kept skip [] = 0
kept skip (x ∷ xs) = let rest = kept skip xs in if not (skip x) then suc rest else rest

gap-count :
    (first : Bool) (between : Text)
    → count percent between ≡ 0
    → count percent (if first then [] else between) ≡ 0
unfolding count
gap-count true between h = refl
gap-count false between h = h

interleave_skip-count {ℓ} :
    {A : Type ℓ} (each : A → Outcome Text) (between : Text) (skip : A → Bool) (first : Bool)
    → ((x : A) (text : Text) → each x ≡ ok text → count percent text ≡ 1)
    → count percent between ≡ 0
    → (xs : List A) (text : Text) → interleave_skip each between skip first xs ≡ ok text
    → count percent text ≡ kept skip xs
unfolding interleave_skip count kept
interleave_skip-count each between skip first one none_ [] text h = rw (sym (ok-injective h)) refl
interleave_skip-count each between skip first one none_ (x ∷ xs) text h =
    elim (Bool-cases (skip x)) [
      | inl yes_ ↦ rw yes_ (
          interleave_skip-count each between skip first one none_ xs text
            (rw (yes_, interleave_skip) at h))
      | inr no_ ↦
          let (here, e, h₁) = >>=-eq-ok (each x) _ (rw (no_, interleave_skip) at h) in
          let (rest, e', h₂) = >>=-eq-ok (interleave_skip each between skip false xs) _ h₁ in
          let ih = interleave_skip-count each between skip false one none_ xs rest e' in
          let gap = if first then [] else between in
          let sides = count-append percent (gap ++ here) rest in
          let parts = count-append percent gap here in
          rw (no_, sym (ok-injective h₂))
            (sides ∙ rw (parts, gap-count first between none_, one x here e, ih) (omega arith))
    ]

-- The loop that counts the arguments counts the tensors that are not skipped.
count_inputs-kept :
    (st : Store) (is : List ℕ) (ts : List TensorAttr) (n : ℕ)
    → derefs st is ≡ ok ts
    → count_inputs st is ≡ ok n
    → n ≡ kept (λ (t : TensorAttr). t.is_scalar) ts
unfolding derefs count_inputs kept
count_inputs-kept st [] ts n h c = rw (sym (ok-injective h), sym (ok-injective c)) refl
count_inputs-kept st (i ∷ is) ts n h c =
    let (t, e, h₁) = >>=-eq-ok (deref st (some i)) _ h in
    let (rest, e', h₂) = >>=-eq-ok (derefs st is) _ h₁ in
    let (m, e'', c₁) = >>=-eq-ok (count_inputs st is) _ (rw e at c) in
    let ih = count_inputs-kept st is rest m e' e'' in
    rw (sym (ok-injective h₂), sym (ok-injective c₁), ih) refl

count_outputs-kept :
    (st : Store) (is : List ℕ) (ts : List TensorAttr) (n : ℕ)
    → derefs st is ≡ ok ts
    → count_outputs st is ≡ ok n
    → n ≡ kept (λ (t : TensorAttr). t.is_virtual) ts
unfolding derefs count_outputs kept
count_outputs-kept st [] ts n h c = rw (sym (ok-injective h), sym (ok-injective c)) refl
count_outputs-kept st (i ∷ is) ts n h c =
    let (t, e, h₁) = >>=-eq-ok (deref st (some i)) _ h in
    let (rest, e', h₂) = >>=-eq-ok (derefs st is) _ h₁ in
    let (m, e'', c₁) = >>=-eq-ok (count_outputs st is) _ (rw e at c) in
    let ih = count_outputs-kept st is rest m e' e'' in
    rw (sym (ok-injective h₂), sym (ok-injective c₁), ih) refl

comma_space-count : count percent (codes ", ") ≡ 0
unfolding count
comma_space-count = refl

-- The function that a graph becomes has as many parameters, each with one name, as `execute` passes
-- buffers for the outputs and the inputs: with the place of the workspace, and the two fences of an
-- asynchronous backend, they are the capacity of its list of arguments.
pub signature-input_list_capacity :
    (g : Graph) (execute_async : Bool) (results operands : Text) (capacity : ℕ)
    → get_result_names_and_types_asm g ≡ ok results
    → get_operand_names_and_types_asm g ≡ ok operands
    → input_list_capacity g execute_async ≡ ok capacity
    → count percent results + count percent operands + 1 + (if execute_async then 2 else 0)
      ≡ capacity
unfolding get_result_names_and_types_asm get_operand_names_and_types_asm result_asm operand_asm
    input_list_capacity
signature-input_list_capacity g async results operands capacity r o c =
    let (outputs, d, r₁) = >>=-eq-ok (derefs g.tensors g.full_graph_outputs_sorted) _ r in
    let (inputs, d', o₁) = >>=-eq-ok (derefs g.tensors g.full_graph_inputs_sorted) _ o in
    let (m, e, c₁) = >>=-eq-ok (count_outputs g.tensors g.full_graph_outputs_sorted) _ c in
    let (n, e', c₂) = >>=-eq-ok (count_inputs g.tensors g.full_graph_inputs_sorted) _ c₁ in
    let rs =
      interleave_skip-count result_asm (codes ", ") (λ t. t.is_virtual) true
        (named-count true false false) comma_space-count outputs results r₁ in
    let os =
      interleave_skip-count operand_asm (codes ", ") (λ t. t.is_scalar) true
        (named-count false true false) comma_space-count inputs operands o₁ in
    let m' = count_outputs-kept g.tensors g.full_graph_outputs_sorted outputs m d e in
    let n' = count_inputs-kept g.tensors g.full_graph_inputs_sorted inputs n d' e' in
    rw (rs, os, sym m', sym n') (ok-injective c₂)
