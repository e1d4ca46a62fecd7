-- ===== src/Emit/Norm.antt =====
-- support/asm_emitter.h: what the code of the normalizations shares.
pub mod Layer
pub mod Rms
pub mod Batch
use fusilli.Base.{Option, none, some, List, ℤ, Text, codes, ◌++◌, Outcome, ok, ◌>>=◌}
use fusilli.Tensor.Attr.{TensorAttr}
use fusilli.Node.Store.{Store, Ptr, deref}
use fusilli.Node.Norm.{get_normalized_shape}
use fusilli.Emit.Values.{
  get_list_of_int_ops_asm, get_scalar_item_ops_asm, get_value_name_asm, torch_none_asm,
}
use fusilli.Emit.Layout.{convert_input, logical_name, logical_type}

-- `getNormalizedShapeOpsAsm`, of the input at `x`.
unfoldable pub normalized_shape_ops_asm : Store → Ptr → Text → Outcome Text
unfolding deref get_normalized_shape get_list_of_int_ops_asm
normalized_shape_ops_asm st x suffix = do
  t ← deref st x
  ok (get_list_of_int_ops_asm (get_normalized_shape t.dim 0) (codes "normalized_shape") suffix)

-- `getEpsilonOpsAsm` and `getMomentumOpsAsm`.
unfoldable pub item_ops_asm : Text → Store → Ptr → Text → Outcome Text
unfolding deref get_scalar_item_ops_asm
item_ops_asm prefix st p suffix = do t ← deref st p; get_scalar_item_ops_asm prefix t suffix

abbrev pub none_name : Text → Text → Text
none_name name suffix = codes "%none_" ++ name ++ codes "_" ++ suffix

-- The name, the type and the conversion of an operand that may be missing.
unfoldable pub optional_name : Store → Ptr → Text → Text → Outcome Text
unfolding logical_name
optional_name st (some i) name suffix = logical_name st (some i) suffix
optional_name st none name suffix = ok (none_name name suffix)

unfoldable pub optional_type : Store → Ptr → Outcome Text
unfolding logical_type
optional_type st (some i) = logical_type st (some i)
optional_type st none = ok (codes "!torch.none")

unfoldable pub optional_input : Store → Ptr → Text → Text → Outcome Text
unfolding convert_input
optional_input st (some i) name suffix = convert_input st (some i) (codes "permute_" ++ name) suffix
optional_input st none name suffix = ok (torch_none_asm (codes "none_" ++ name) suffix)
