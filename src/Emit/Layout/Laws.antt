-- ===== src/Emit/Layout/Laws.antt =====
-- The conversion of an input defines its name in the logical layout.
use mathlib.Core.Path.{subst}
use mathlib.Core.List.{append_assoc}
use fusilli.Base.{
  ◌≡◌, refl, Bool, true, false, [], ◌∷◌, ◌++◌, Text, codes, Outcome, ok, >>=-eq-ok, ok-injective,
}
use fusilli.Tensor.Attr.{TensorAttr}
use fusilli.Tensor.Layout.{has_broadcast_dims, get_unexpanded_dim}
use fusilli.Node.Store.{Store, Ptr, deref}
use fusilli.Emit.Format.{format, format_from, argument}
use fusilli.Emit.Values.{
  get_list_of_int_ops_asm, build_tensor_type_str, get_tensor_type_asm, get_value_name_asm,
}
use fusilli.Emit.Layout.{
  perm_name, permute_order, permute_result_name, permute_operand_name, permute_schema,
  expand_schema, expand_asm, append_expand, get_layout_conversion_ops_asm, convert_input,
  logical_name,
}

-- What stands behind the name of a result.
abbrev pub assigned : Text
assigned = codes " = torch.aten."

-- The text holds an operation whose result has the name.
abbrev pub Defines : Text → Text → Type 0
Defines name text = (before : Text) × (after : Text) × (text ≡ before ++ name ++ assigned ++ after)

permute-Defines :
    (ops result operand order from_type to_type : Text)
    → Defines result
        (ops ++ format permute_schema (result ∷ operand ∷ order ∷ from_type ∷ to_type ∷ []))
unfolding format format_from argument
permute-Defines ops result operand order from_type to_type =
    let args = result ∷ operand ∷ order ∷ from_type ∷ to_type ∷ [] in
    let after = format (codes "permute {1}, {2} : {3}, !torch.list<int> -> {4}\n  ") args in
    (ops ++ codes "\n    ", after, simp append_assoc)

Defines-left : (name before text : Text) → Defines name text → Defines name (before ++ text)
Defines-left name before text (b, a, e) = (before ++ b, a, rw e (simp append_assoc))

expand_schema-Defines :
    (ops result operand size implicit_name from_type to_type : Text)
    → Defines result (
        codes "    "
        ++ ops
        ++ implicit_name
        ++ codes " = torch.constant.bool false\n    "
        ++ format expand_schema
            (result ∷ operand ∷ size ∷ implicit_name ∷ from_type ∷ to_type ∷ []))
unfolding format format_from argument
expand_schema-Defines ops result operand size implicit_name from_type to_type =
    let args = result ∷ operand ∷ size ∷ implicit_name ∷ from_type ∷ to_type ∷ [] in
    let before =
      codes "    " ++ ops ++ implicit_name ++ codes " = torch.constant.bool false\n    " in
    let after =
      format (codes "expand {1}, {2}, {3} : {4}, !torch.list<int>, !torch.bool -> {5}\n  ") args in
    (before, after, simp append_assoc)

expand-Defines :
    (t : TensorAttr) (prefix suffix name permute_result text : Text)
    → expand_asm t prefix suffix name permute_result ≡ ok text
    → Defines (perm_name name suffix) text
unfolding expand_asm
expand-Defines t prefix suffix name permute_result text h =
    let (from_type, _, h₁) =
      >>=-eq-ok (build_tensor_type_str (get_unexpanded_dim t) t.data_type true) _ h in
    let (to_type, _, h₂) = >>=-eq-ok (get_tensor_type_asm true true t) _ h₁ in
    subst (Defines (perm_name name suffix)) (ok-injective h₂) (
      expand_schema-Defines (get_list_of_int_ops_asm t.dim (codes "expand_size_" ++ prefix) suffix)
        (perm_name name suffix) permute_result
        (codes "%" ++ (codes "expand_size_" ++ prefix) ++ codes "_" ++ suffix)
        (codes "%expand_implicit_" ++ prefix ++ codes "_" ++ suffix) from_type to_type)

append_expand-Defines :
    (name : Text) (b : Bool) (permute : Text) (expand : Outcome Text) (text : Text)
    → (b ≡ false → Defines name permute)
    → ((more : Text) → expand ≡ ok more → Defines name more)
    → append_expand b permute expand ≡ ok text
    → Defines name text
unfolding append_expand
append_expand-Defines name false permute expand text here there h =
    subst (Defines name) (ok-injective h) (here refl)
append_expand-Defines name true permute expand text here there h =
    let (more, e, h₁) = >>=-eq-ok expand _ h in
    subst (Defines name) (ok-injective h₁) (Defines-left name permute more (there more e))

permute-Defines_input :
    (b : Bool) (ops name suffix operand order from_type to_type : Text)
    → b ≡ false
    → Defines (perm_name name suffix) (
        ops
        ++ format permute_schema
            (permute_result_name true b name suffix ∷ operand ∷ order ∷ from_type ∷ to_type ∷ []))
unfolding permute_result_name
permute-Defines_input b ops name suffix operand order from_type to_type h =
    rw h (permute-Defines ops (perm_name name suffix) operand order from_type to_type)

get_layout_conversion_ops_asm-Defines :
    (t : TensorAttr) (prefix suffix text : Text)
    → get_layout_conversion_ops_asm t prefix suffix true [] ≡ ok text
    → (name : Text) × (get_value_name_asm false t ≡ ok name) × Defines (perm_name name suffix) text
unfolding get_layout_conversion_ops_asm
get_layout_conversion_ops_asm-Defines t prefix suffix text h =
    let (order, _, h₁) = >>=-eq-ok (permute_order true t) _ h in
    let (name, n, h₂) = >>=-eq-ok (get_value_name_asm false t) _ h₁ in
    let (from_type, _, h₃) = >>=-eq-ok (get_tensor_type_asm true false t) _ h₂ in
    let (to_type, _, h₄) =
      >>=-eq-ok
        (elim (has_broadcast_dims t) as (λ _. Outcome Text) [
          | true ↦ build_tensor_type_str (get_unexpanded_dim t) t.data_type true
          | false ↦ get_tensor_type_asm true true t
        ])
        _ h₃ in
    (
      name,
      n,
      append_expand-Defines (perm_name name suffix) (has_broadcast_dims t) _ _ text
          (permute-Defines_input (has_broadcast_dims t)
            (get_list_of_int_ops_asm order prefix suffix) name suffix
            (permute_operand_name true name suffix []) (codes "%" ++ prefix ++ codes "_" ++ suffix)
            from_type to_type)
          (λ more e.
            expand-Defines t prefix suffix name
              (permute_result_name true (has_broadcast_dims t) name suffix) more e)
          h₄,
    )

-- The conversion of an input, whatever its prefix is, defines the name that the operations take.
pub convert_input-Defines :
    (st : Store) (p : Ptr) (prefix suffix text : Text)
    → convert_input st p prefix suffix ≡ ok text
    → (name : Text) × (logical_name st p suffix ≡ ok name) × Defines name text
unfolding convert_input logical_name
convert_input-Defines st p prefix suffix text h =
    let (t, e, h₁) = >>=-eq-ok (deref st p) _ h in
    let (name, n, defines) = get_layout_conversion_ops_asm-Defines t prefix suffix text h₁ in
    (perm_name name suffix, rw (e, n) refl, defines)
