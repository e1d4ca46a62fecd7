-- ===== src/Emit/Pointwise/Cases.antt =====
-- support/asm_emitter.h: the cases of pointwise operations, one for each mode.
use fusilli.Base.{[], ◌∷◌, Text, codes, Outcome, ok, fault, ◌>>=◌}
use fusilli.Node.Pointwise.Modes.{Mode}
use fusilli.Emit.Format.{format}
use fusilli.Emit.Pointwise.Schemas.{
  unary_torch_schema, binary_torch_schema, ternary_torch_schema, sub_add_schema, add_square_schema,
  tanh_bwd_schema, identity_schema, elu_schema, relu_bwd_schema, gelu_schema, gelu_bwd_schema,
  swish_schema, swish_bwd_schema, softplus_schema,
}

-- What the cases of the `switch` take. An input is its name and type, which only some modes read.
pub record Pieces : Type 0 where
  pub name : Text
  pub permute_in_0 : Text
  pub permute_in_1 : Text
  pub permute_in_2 : Text
  pub permute_out_0 : Text
  pub result_names : Text
  pub operand_names : Text
  pub operand_types : Text
  pub result_types : Text
  pub elu_alpha : Text
  pub softplus_beta : Text
  pub softplus_threshold : Text
  pub swish_beta : Text
  pub input_0 : Outcome (Text × Text)
  pub input_1 : Outcome (Text × Text)

-- `FUSILLI_DECLARE_UNARY_POINTWISE_EMITTER`
unfoldable pub unary : Pieces → Text → Text → Text
unfolding format
unary p schema op = format schema (
    p.permute_in_0 ∷ p.result_names ∷ p.operand_names ∷ p.operand_types ∷ p.result_types
    ∷ p.permute_out_0 ∷ op ∷ p.name ∷ [])

-- `FUSILLI_DECLARE_BINARY_POINTWISE_EMITTER`
unfoldable pub binary : Pieces → Text → Text → Text
unfolding format
binary p schema op = format schema (
    p.permute_in_0 ∷ p.permute_in_1 ∷ p.result_names ∷ p.operand_names ∷ p.operand_types
    ∷ p.result_types ∷ p.permute_out_0 ∷ op ∷ p.name ∷ [])

-- `FUSILLI_DECLARE_TERNARY_POINTWISE_EMITTER`
unfoldable pub ternary : Pieces → Text → Text → Text
unfolding format
ternary p schema op = format schema (
    p.permute_in_0 ∷ p.permute_in_1 ∷ p.permute_in_2 ∷ p.result_names ∷ p.operand_names
    ∷ p.operand_types ∷ p.result_types ∷ p.permute_out_0 ∷ op ∷ p.name ∷ [])

unfoldable pub gelu : Pieces → Text → Text
unfolding format
gelu p approx = format gelu_schema (
    p.permute_in_0
    ∷ p.result_names
    ∷ p.operand_names
    ∷ p.operand_types
    ∷ p.result_types
    ∷ p.permute_out_0
    ∷ codes "torch.aten.gelu"
    ∷ p.name
    ∷ approx
    ∷ [])

unfoldable pub gelu_bwd : Pieces → Text → Text
unfolding format
gelu_bwd p approx = format gelu_bwd_schema (
    p.permute_in_0 ∷ p.permute_in_1 ∷ p.result_names ∷ p.operand_names ∷ p.operand_types
    ∷ p.result_types ∷ p.permute_out_0 ∷ p.name ∷ approx ∷ [])

-- The `switch` over the mode.
unfoldable pub emit_mode : Pieces → Mode → Outcome Text
unfolding unary binary ternary gelu gelu_bwd format
emit_mode p Mode.not_set = fault
emit_mode p Mode.abs = ok (unary p unary_torch_schema (codes "torch.aten.abs"))
emit_mode p Mode.ceil = ok (unary p unary_torch_schema (codes "torch.aten.ceil"))
emit_mode p Mode.erf = ok (unary p unary_torch_schema (codes "torch.aten.erf"))
emit_mode p Mode.exp = ok (unary p unary_torch_schema (codes "torch.aten.exp"))
emit_mode p Mode.floor = ok (unary p unary_torch_schema (codes "torch.aten.floor"))
emit_mode p Mode.log = ok (unary p unary_torch_schema (codes "torch.aten.log"))
emit_mode p Mode.logical_not = ok (unary p unary_torch_schema (codes "torch.aten.logical_not"))
emit_mode p Mode.neg = ok (unary p unary_torch_schema (codes "torch.aten.neg"))
emit_mode p Mode.reciprocal = ok (unary p unary_torch_schema (codes "torch.aten.reciprocal"))
emit_mode p Mode.relu_fwd = ok (unary p unary_torch_schema (codes "torch.aten.relu"))
emit_mode p Mode.rsqrt = ok (unary p unary_torch_schema (codes "torch.aten.rsqrt"))
emit_mode p Mode.sigmoid_fwd = ok (unary p unary_torch_schema (codes "torch.aten.sigmoid"))
emit_mode p Mode.sin = ok (unary p unary_torch_schema (codes "torch.aten.sin"))
emit_mode p Mode.sqrt = ok (unary p unary_torch_schema (codes "torch.aten.sqrt"))
emit_mode p Mode.tanh_fwd = ok (unary p unary_torch_schema (codes "torch.aten.tanh"))
emit_mode p Mode.tan = ok (unary p unary_torch_schema (codes "torch.aten.tan"))
emit_mode p Mode.identity = ok (unary p identity_schema (codes "torch.aten.clone"))
emit_mode p Mode.cmp_eq = ok (binary p binary_torch_schema (codes "torch.aten.eq.Tensor"))
emit_mode p Mode.cmp_lt = ok (binary p binary_torch_schema (codes "torch.aten.lt.Tensor"))
emit_mode p Mode.cmp_le = ok (binary p binary_torch_schema (codes "torch.aten.le.Tensor"))
emit_mode p Mode.cmp_gt = ok (binary p binary_torch_schema (codes "torch.aten.gt.Tensor"))
emit_mode p Mode.cmp_ge = ok (binary p binary_torch_schema (codes "torch.aten.ge.Tensor"))
emit_mode p Mode.cmp_neq = ok (binary p binary_torch_schema (codes "torch.aten.ne.Tensor"))
emit_mode p Mode.div = ok (binary p binary_torch_schema (codes "torch.aten.div.Tensor"))
emit_mode p Mode.logical_and = ok (binary p binary_torch_schema (codes "torch.aten.logical_and"))
emit_mode p Mode.logical_or = ok (binary p binary_torch_schema (codes "torch.aten.logical_or"))
emit_mode p Mode.max_op = ok (binary p binary_torch_schema (codes "torch.aten.maximum"))
emit_mode p Mode.min_op = ok (binary p binary_torch_schema (codes "torch.aten.minimum"))
emit_mode p Mode.mul = ok (binary p binary_torch_schema (codes "torch.aten.mul.Tensor"))
emit_mode p Mode.add = ok (binary p sub_add_schema (codes "torch.aten.add.Tensor"))
emit_mode p Mode.sub = ok (binary p sub_add_schema (codes "torch.aten.sub.Tensor"))
emit_mode p Mode.binary_select = ok (ternary p ternary_torch_schema (codes "torch.aten.where.self"))
emit_mode p Mode.elu_fwd = ok (
    format elu_schema (
      p.permute_in_0
      ∷ p.result_names
      ∷ p.operand_names
      ∷ p.operand_types
      ∷ p.result_types
      ∷ p.permute_out_0
      ∷ codes "torch.aten.elu"
      ∷ p.name
      ∷ p.elu_alpha
      ∷ []))
emit_mode p Mode.gelu_fwd = ok (gelu p (codes "none"))
emit_mode p Mode.gelu_approx_tanh_fwd = ok (gelu p (codes "tanh"))
emit_mode p Mode.gelu_bwd = ok (gelu_bwd p (codes "none"))
emit_mode p Mode.gelu_approx_tanh_bwd = ok (gelu_bwd p (codes "tanh"))
emit_mode p Mode.softplus_fwd = ok (
    format softplus_schema (
      p.permute_in_0
      ∷ p.result_names
      ∷ p.operand_names
      ∷ p.operand_types
      ∷ p.result_types
      ∷ p.permute_out_0
      ∷ codes "torch.aten.softplus"
      ∷ p.name
      ∷ p.softplus_beta
      ∷ p.softplus_threshold
      ∷ []))
emit_mode p Mode.swish_fwd = ok (
    format swish_schema (
      p.permute_in_0 ∷ p.result_names ∷ p.operand_names ∷ p.operand_types ∷ p.result_types
      ∷ p.permute_out_0 ∷ p.name ∷ p.swish_beta ∷ []))
emit_mode p Mode.swish_bwd = do
  dy ← p.input_0
  x ← p.input_1
  ok (
      format swish_bwd_schema (
        p.permute_in_0 ∷ p.permute_in_1 ∷ p.result_names ∷ dy.0 ∷ dy.1 ∷ p.result_types
        ∷ p.permute_out_0 ∷ p.name ∷ p.swish_beta ∷ x.0 ∷ x.1 ∷ []))
emit_mode p Mode.relu_bwd = ok (
    format relu_bwd_schema (
      p.permute_in_0 ∷ p.permute_in_1 ∷ p.result_names ∷ p.operand_names ∷ p.operand_types
      ∷ p.result_types ∷ p.permute_out_0 ∷ p.name ∷ []))
emit_mode p Mode.add_square = do
  in_0 ← p.input_0
  in_1 ← p.input_1
  ok (
      format add_square_schema (
        p.permute_in_0 ∷ p.permute_in_1 ∷ in_0.0 ∷ in_1.0 ∷ in_1.1 ∷ p.result_names ∷ p.result_types
        ∷ p.permute_out_0 ∷ p.name ∷ p.operand_types ∷ []))
emit_mode p Mode.tanh_bwd = do
  in_0 ← p.input_0
  in_1 ← p.input_1
  ok (
      format tanh_bwd_schema (
        p.permute_in_0 ∷ p.permute_in_1 ∷ in_1.0 ∷ in_1.1 ∷ p.result_names ∷ p.result_types ∷ p.name
        ∷ in_0.0 ∷ in_0.1 ∷ p.permute_out_0 ∷ []))
