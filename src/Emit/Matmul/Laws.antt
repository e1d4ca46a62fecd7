-- ===== src/Emit/Matmul/Laws.antt =====
-- The names that the code of a matrix product defines and uses.
use mathlib.Core.Path.{subst}
use mathlib.Core.List.{append_assoc}
use fusilli.Base.{
  ◌≡◌, ◌∙◌, sym, ap, [], ◌∷◌, ◌++◌, Text, codes, Outcome, ok, >>=-eq-ok, ok-injective,
}
use fusilli.Node.Store.{Store}
use fusilli.Node.Matmul.{MatmulAttr}
use fusilli.Emit.Format.{format, format_from, argument}
use fusilli.Emit.Layout.{convert_input, convert_output, logical_name}
use fusilli.Emit.Layout.Laws.{assigned, Defines, convert_input-Defines}
use fusilli.Emit.Conv.{pair_asm}
use fusilli.Emit.Matmul.{
  get_operand_names_asm, get_operand_types_asm, get_result_names_asm, get_result_types_asm, schema,
  emit_node_pre_asm,
}

-- The text defines `a`, then `b`, and then multiplies the two.
abbrev pub DefinesBeforeUse : Text → Text → Text → Type 0
DefinesBeforeUse a b text =
    (before : Text) × (between : Text) × (result : Text) × (after : Text) × (text
      ≡ before
        ++ a
        ++ assigned
        ++ between
        ++ b
        ++ assigned
        ++ result
        ++ codes " = torch.aten.matmul "
        ++ a
        ++ codes ", "
        ++ b
        ++ after)

reassociate :
    (s xa a e ya s' xb b yb s'' r m c w : Text)
    → s
        ++ ((xa ++ a ++ e ++ ya)
            ++ (s' ++ ((xb ++ b ++ e ++ yb) ++ (s'' ++ (r ++ (m ++ ((a ++ c ++ b) ++ w)))))))
      ≡ (s ++ xa)
        ++ a
        ++ e
        ++ (ya ++ s' ++ xb)
        ++ b
        ++ e
        ++ (yb ++ s'' ++ r)
        ++ m
        ++ a
        ++ c
        ++ b
        ++ w
reassociate s xa a e ya s' xb b yb s'' r m c w = simp append_assoc

schema-DefinesBeforeUse :
    (a b permute_a permute_b result types result_type permute_c : Text)
    → Defines a permute_a
    → Defines b permute_b
    → DefinesBeforeUse a b (
        format schema (
          permute_a
          ∷ permute_b
          ∷ result
          ∷ (a ++ codes ", " ++ b)
          ∷ types
          ∷ result_type
          ∷ permute_c
          ∷ []))
unfolding format format_from argument
schema-DefinesBeforeUse a b permute_a permute_b result types result_type permute_c (xa, ya, ea)
      (xb, yb, eb) =
    let args =
      permute_a
      ∷ permute_b
      ∷ result
      ∷ (a ++ codes ", " ++ b)
      ∷ types
      ∷ result_type
      ∷ permute_c
      ∷ [] in
    (
      codes "\n    " ++ xa,
      ya ++ codes "\n    " ++ xb,
      yb ++ codes "\n    " ++ result,
      format (codes " : {4} -> {5}\n    {6}\n  ") args,
      rw (ea, eb)
          (reassociate (codes "\n    ") xa a assigned ya (codes "\n    ") xb b yb (codes "\n    ")
            result (codes " = torch.aten.matmul ") (codes ", ")
            (format (codes " : {4} -> {5}\n    {6}\n  ") args)),
    )

logical_names :
    (a b c : Text) (m n : Outcome Text)
    → m ≡ ok a
    → n ≡ ok b
    → pair_asm m n ≡ ok c
    → a ++ codes ", " ++ b ≡ c
logical_names a b c m n e e' h = ok-injective (rw (e, e') at h)

-- The code of a matrix product first converts its operands, and so defines their names in the logical
-- layout, and then multiplies what has these names.
pub emit_node_pre_asm-DefinesBeforeUse :
    (attr : MatmulAttr) (st : Store) (text : Text)
    → emit_node_pre_asm attr st ≡ ok text
    → (a : Text) × (b : Text) × (logical_name st attr.a (codes attr.name) ≡ ok a)
      × (logical_name st attr.b (codes attr.name) ≡ ok b)
      × DefinesBeforeUse a b text
unfolding emit_node_pre_asm get_operand_names_asm
emit_node_pre_asm-DefinesBeforeUse attr st text h =
    let suffix = codes attr.name in
    let (pa, ha, h₁) = >>=-eq-ok (convert_input st attr.a (codes "permute_A") suffix) _ h in
    let (pb, hb, h₂) = >>=-eq-ok (convert_input st attr.b (codes "permute_B") suffix) _ h₁ in
    let (pc, _, h₃) = >>=-eq-ok (convert_output st attr.c (codes "permute_C") suffix) _ h₂ in
    let (result, _, h₄) = >>=-eq-ok (get_result_names_asm attr st) _ h₃ in
    let (names, n, h₅) = >>=-eq-ok (get_operand_names_asm attr st) _ h₄ in
    let (types, _, h₆) = >>=-eq-ok (get_operand_types_asm attr st) _ h₅ in
    let (result_type, _, h₇) = >>=-eq-ok (get_result_types_asm attr st) _ h₆ in
    let (a, ea, da) = convert_input-Defines st attr.a (codes "permute_A") suffix pa ha in
    let (b, eb, db) = convert_input-Defines st attr.b (codes "permute_B") suffix pb hb in
    let same = logical_names a b names _ _ ea eb n in
    let code = schema-DefinesBeforeUse a b pa pb result types result_type pc da db in
    (
      a,
      b,
      ea,
      eb,
      subst (DefinesBeforeUse a b)
          (ap
              (λ operands.
                format schema (pa ∷ pb ∷ result ∷ operands ∷ types ∷ result_type ∷ pc ∷ []))
              same
            ∙ ok-injective h₇)
          code,
    )

regroup : (x r m a c w : Text) → x ++ r ++ m ++ a ++ c ++ a ++ w ≡ x ++ (r ++ m ++ a ++ c ++ a ++ w)
regroup x r m a c w = simp append_assoc

-- The code of a product of a tensor with itself defines the name of the converted operand twice, which
-- MLIR does not allow.
pub emit_node_pre_asm-defined_twice :
    (attr : MatmulAttr) (st : Store) (text : Text)
    → attr.a ≡ attr.b
    → emit_node_pre_asm attr st ≡ ok text
    → (a : Text) × (logical_name st attr.a (codes attr.name) ≡ ok a)
      × ((before : Text) × (between : Text) × (after : Text) × (text
            ≡ before ++ a ++ assigned ++ between ++ a ++ assigned ++ after))
emit_node_pre_asm-defined_twice attr st text same h =
    let (a, b, ea, eb, (before, between, result, after, e)) =
      emit_node_pre_asm-DefinesBeforeUse attr st text h in
    let eq : b ≡ a =
      ok-injective (sym eb ∙ ap (λ p. logical_name st p (codes attr.name)) (sym same) ∙ ea) in
    (
      a,
      ea,
      (
        before,
        between,
        result ++ codes " = torch.aten.matmul " ++ a ++ codes ", " ++ a ++ after,
        e
            ∙ rw eq (
                regroup (before ++ a ++ assigned ++ between ++ a ++ assigned) result
                  (codes " = torch.aten.matmul ") a (codes ", ") after),
      ),
    )
