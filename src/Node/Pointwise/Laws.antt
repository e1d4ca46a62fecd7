-- ===== src/Node/Pointwise/Laws.antt =====
-- node/pointwise_node.h: the nodes that `preValidateNode` accepts.
use mathlib.Core.Path.{subst}
use mathlib.Core.Option.{some-injective}
use fusilli.Base.{
  ℕ, zero, suc, ◌+◌, ◌≤◌, ◌≡◌, ◌∙◌, refl, sym, inl, inr, Option-cases, ◌↔◌, true, false, is_some,
  none, some, List, [], ◌∷◌, arith, ok, ltb,
}
use fusilli.Node.Store.{Ptr}
use fusilli.Node.Pointwise.{PointwiseAttr, inputs, check_inputs, pre_validate_node}
use fusilli.Node.Pointwise.Modes.{Mode, required_input_count, is_not_set}

-- The first `required` of the inputs are there, and no others.
abbrev pub ExactlyFirst : ℕ → List Ptr → Type 0
ExactlyFirst required [] = Unit
ExactlyFirst zero (p ∷ ps) = (p ≡ none) × ExactlyFirst zero ps
ExactlyFirst (suc required) (p ∷ ps) = (is_some p ≡ true) × ExactlyFirst required ps

-- Past the inputs that are needed there may be none.
check_no_inputs :
    (i total : ℕ) (ps : List Ptr)
    → total ≤ i
    → (check_inputs total i ps ≡ ok tt) ↔ ExactlyFirst 0 ps
unfolding check_inputs
check_no_inputs i total [] le = (λ h. tt, λ h. refl)
check_no_inputs i total (p ∷ ps) le =
    let rest = check_no_inputs (suc i) total ps (omega arith) in
    let past : ltb i total ≡ false = ground arith in rw past (ground (arith, rest))

check_inputs_iff :
    (required i total : ℕ) (ps : List Ptr)
    → total ≡ i + required
    → (check_inputs total i ps ≡ ok tt) ↔ ExactlyFirst required ps
unfolding check_inputs
check_inputs_iff required i total [] e = (λ h. tt, λ h. refl)
check_inputs_iff zero i total (p ∷ ps) e = check_no_inputs i total (p ∷ ps) (omega arith)
check_inputs_iff (suc required) i total (p ∷ ps) e =
    let rest = check_inputs_iff required (suc i) total ps (omega arith) in
    let before : ltb i total ≡ true = ground arith in rw before (ground (arith, rest))

counted : (mode : Mode) {n : ℕ} → required_input_count mode ≡ some n → is_not_set mode ≡ false
unfolding required_input_count
counted Mode.not_set h = cc
counted mode h = refl

-- A node is accepted exactly when its mode is set, it has the first inputs, as many as the mode
-- takes, and no others, and it has an output.
pub pointwise_pre_validate_iff :
    (attr : PointwiseAttr)
    → (pre_validate_node attr ≡ ok tt) ↔ (
        (n : ℕ) × (required_input_count attr.mode ≡ some n)
        × ExactlyFirst n (inputs attr)
        × (is_some attr.out_0 ≡ true))
unfolding pre_validate_node
pointwise_pre_validate_iff attr = elim (Option-cases (required_input_count attr.mode)) [
  | inl unset ↦ (λ h. absurd (ground arith), λ (n, set, _, _). absurd (ground arith))
  | inr (n, set) ↦
      let rest = check_inputs_iff n 0 n (inputs attr) (omega arith) in
      let is_set = counted attr.mode set in
      (
        λ h. (n, set, rest.0 (ground arith), ground arith),
        λ (n', set', first, out).
            let first' : ExactlyFirst n (inputs attr) =
              subst (λ k. ExactlyFirst k (inputs attr)) (some-injective _ _ (sym set' ∙ set))
                first in
            let accepted = rest.1 first' in ground arith,
      )
]
