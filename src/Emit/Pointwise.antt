-- ===== src/Emit/Pointwise.antt =====
-- support/asm_emitter.h: pointwise operations. `float_asm` is how `std::format` writes a float with the
-- format {:e}.
pub mod Schemas
pub mod Cases
use fusilli.Base.{
  ℕ, Option, none, some, List, [], ◌∷◌, ◌++◌, Text, codes, Outcome, ok, fault, ◌>>=◌,
}
use fusilli.Node.Store.{Store, Ptr}
use fusilli.Node.Pointwise.Modes.{Mode}
use fusilli.Node.Pointwise.{PointwiseAttr}
use fusilli.Emit.Format.{format, join}
use fusilli.Emit.Layout.{convert_input, convert_output, logical_name, logical_type}
use fusilli.Emit.Pointwise.Cases.{Pieces, emit_mode}

unfoldable pub get_input_name_asm : PointwiseAttr → Store → Ptr → Outcome Text
unfolding logical_name
get_input_name_asm attr st input = logical_name st input (codes attr.name)

unfoldable pub get_input_type_asm : Store → Ptr → Outcome Text
unfolding logical_type
get_input_type_asm st input = logical_type st input

-- The text of an input that may be missing, as a list of none or one.
unfoldable pub if_given : (Ptr → Outcome Text) → Ptr → Outcome (List Text)
if_given asm none = ok []
if_given asm (some i) = asm (some i) >>= λ text. ok (text ∷ [])

unfoldable pub get_operand_names_asm : PointwiseAttr → Store → Outcome Text
unfolding get_input_name_asm if_given join
get_operand_names_asm attr st = do
  name_0 ← get_input_name_asm attr st attr.in_0
  name_1 ← if_given (get_input_name_asm attr st) attr.in_1
  name_2 ← if_given (get_input_name_asm attr st) attr.in_2
  ok (join (codes ", ") (name_0 ∷ name_1 ++ name_2))

unfoldable pub get_operand_types_asm : PointwiseAttr → Store → Outcome Text
unfolding get_input_type_asm if_given join
get_operand_types_asm attr st = do
  type_0 ← get_input_type_asm st attr.in_0
  type_1 ← if_given (get_input_type_asm st) attr.in_1
  type_2 ← if_given (get_input_type_asm st) attr.in_2
  ok (join (codes ", ") (type_0 ∷ type_1 ++ type_2))

unfoldable pub get_result_names_asm : PointwiseAttr → Store → Outcome Text
unfolding logical_name
get_result_names_asm attr st = logical_name st attr.out_0 (codes attr.name)

unfoldable pub get_result_types_asm : PointwiseAttr → Store → Outcome Text
unfolding logical_type
get_result_types_asm attr st = logical_type st attr.out_0

-- `permuteIN1` and `permuteIN2`, which are empty for an input that is missing.
unfoldable pub convert_if_given : Store → Ptr → Text → Text → Outcome Text
unfolding convert_input
convert_if_given st none prefix suffix = ok []
convert_if_given st (some i) prefix suffix = convert_input st (some i) prefix suffix

unfoldable pub named_input : PointwiseAttr → Store → Ptr → Outcome (Text × Text)
unfolding get_input_name_asm get_input_type_asm
named_input attr st input = do
  name ← get_input_name_asm attr st input
  type ← get_input_type_asm st input
  ok (name, type)

unfoldable pub emit_node_pre_asm : (ℕ → Text) → PointwiseAttr → Store → Outcome Text
unfolding convert_input convert_output convert_if_given get_operand_names_asm get_operand_types_asm
    get_result_names_asm get_result_types_asm named_input emit_mode
emit_node_pre_asm float_asm attr st = do
  let suffix = codes attr.name
  permute_in_0 ← convert_input st attr.in_0 (codes "permute_IN_0") suffix
  permute_in_1 ← convert_if_given st attr.in_1 (codes "permute_IN_1") suffix
  permute_in_2 ← convert_if_given st attr.in_2 (codes "permute_IN_2") suffix
  permute_out_0 ← convert_output st attr.out_0 (codes "permute_OUT_0") suffix
  result_names ← get_result_names_asm attr st
  operand_names ← get_operand_names_asm attr st
  operand_types ← get_operand_types_asm attr st
  result_types ← get_result_types_asm attr st
  emit_mode
      (record {
        name = suffix;
        permute_in_0 = permute_in_0;
        permute_in_1 = permute_in_1;
        permute_in_2 = permute_in_2;
        permute_out_0 = permute_out_0;
        result_names = result_names;
        operand_names = operand_names;
        operand_types = operand_types;
        result_types = result_types;
        elu_alpha = float_asm attr.elu_alpha;
        softplus_beta = float_asm attr.softplus_beta;
        softplus_threshold = float_asm attr.softplus_threshold;
        swish_beta = float_asm attr.swish_beta;
        input_0 = named_input attr st attr.in_0;
        input_1 = named_input attr st attr.in_1;
      })
      attr.mode
