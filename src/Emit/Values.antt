-- ===== src/Emit/Values.antt =====
-- support/asm_emitter.h: constants and lists of integers, and the names and types of tensors.
use fusilli.Base.{
  is_alnum, ℕ, zero, suc, ◌+◌, ◌-◌, ◌^◌, ◌/◌, ◌%◌, ltb, ◌==◌, Bool, true, false, not, ◌||◌, none,
  some, List, [], ◌∷◌, ◌++◌, ℤ, pos, negsuc, length, iota, is_empty, Text, codes, decimal,
  decimal_ℤ, Outcome, ok, fault, assert, ◌>>=◌, ◌>>◌, at, if◌then◌else◌,
}
use fusilli.Support.Shell.{interleave, interleave_next}
use fusilli.Tensor.Types.{DataType, mlir_type_asm, is_set}
use fusilli.Tensor.Attr.{TensorAttr, Scalar, long, int, float, double}
use fusilli.Tensor.Layout.{is_dynamic_dim}
use fusilli.Tensor.Physical.{get_physical_dim, get_logical_to_physical_permute_order}
use fusilli.Emit.Format.{format, interleave_ok}

abbrev comma : Text
comma = codes ", "

-- The name of the element at place `i` of a list of integers.
abbrev pub element_name : Text → Text → ℕ → Text
element_name prefix suffix i =
    codes "%" ++ prefix ++ codes "_val_" ++ decimal i ++ codes "_" ++ suffix

-- The loop that emits a constant for each integer.
unfoldable pub int_constants : Text → Text → ℕ → List ℤ → Text
int_constants prefix suffix i [] = []
int_constants prefix suffix i (n ∷ ns) =
    element_name prefix suffix i
    ++ codes " = torch.constant.int "
    ++ decimal_ℤ n
    ++ codes "\n    "
    ++ int_constants prefix suffix (suc i) ns

unfoldable pub get_list_of_int_ops_asm : List ℤ → Text → Text → Text
unfolding int_constants interleave interleave_next
get_list_of_int_ops_asm ints prefix suffix =
    let places = iota 0 (length ints) in
    int_constants prefix suffix 0 ints
    ++ codes "%"
    ++ prefix
    ++ codes "_"
    ++ suffix
    ++ codes " = torch.prim.ListConstruct "
    ++ interleave (element_name prefix suffix) comma places
    ++ codes " : ("
    ++ interleave (λ i. codes "!torch.int") comma places
    ++ codes ") -> !torch.list<int>\n"

-- `kDataTypeToMlirTypeAsm.at`, which throws at a type that is not set.
unfoldable pub type_asm : DataType → Outcome Text
unfolding mlir_type_asm
type_asm type = elim (mlir_type_asm type) [ none ↦ fault | some asm ↦ ok (codes asm) ]

abbrev tensor_head : Bool → Text
tensor_head is_value_tensor =
    if is_value_tensor then codes "!torch.vtensor<[" else codes "!torch.tensor<["

unfoldable pub build_tensor_type_str : List ℤ → DataType → Bool → Outcome Text
unfolding type_asm interleave interleave_next
build_tensor_type_str dims dtype is_value_tensor = do
  element ← type_asm dtype
  ok (
      tensor_head is_value_tensor
      ++ interleave decimal_ℤ (codes ",") dims
      ++ codes "],"
      ++ element
      ++ codes ">")

abbrev pub torch_none_asm : Text → Text → Text
torch_none_asm name suffix =
    codes "%" ++ name ++ codes "_" ++ suffix ++ codes " = torch.constant.none"

abbrev pub torch_bool_asm : Text → Text → Bool → Text
torch_bool_asm name suffix value =
    codes "%"
    ++ name
    ++ codes "_"
    ++ suffix
    ++ codes " = torch.constant.bool "
    ++ (if value then codes "true" else codes "false")

abbrev pub torch_int_asm : Text → Text → ℤ → Text
torch_int_asm name suffix value =
    codes "%" ++ name ++ codes "_" ++ suffix ++ codes " = torch.constant.int " ++ decimal_ℤ value

-- What stands for a dimension in a type. The dimensions that may vary are logical ones.
unfoldable pub dim_asm : TensorAttr → List ℕ → List ℤ → ℕ → Outcome Text
unfolding is_dynamic_dim
dim_asm t logical_dim_indices dims i = do
  index ← at logical_dim_indices i
  elim (is_dynamic_dim t index) [
    | true ↦ ok (codes "?")
    | false ↦ at dims i >>= λ d. ok (decimal_ℤ d)
  ]

unfoldable pub get_tensor_type_asm : Bool → Bool → TensorAttr → Outcome Text
unfolding dim_asm interleave_ok type_asm
get_tensor_type_asm is_value_tensor use_logical_dims t = do
  assert (not (is_empty t.dim))
  assert (not (is_empty t.stride))
  assert (is_set t.data_type)
  dims ← elim use_logical_dims [ true ↦ ok t.dim | false ↦ get_physical_dim t ]
  indices ← elim use_logical_dims [
    | true ↦ ok (iota 0 (length dims))
    | false ↦ get_logical_to_physical_permute_order t
  ]
  shape ← interleave_ok (dim_asm t indices dims) (codes ",") (iota 0 (length dims))
  element ← type_asm t.data_type
  ok (tensor_head is_value_tensor ++ shape ++ codes "]," ++ element ++ codes ">")

abbrev pub is_name_char : ℕ → Bool
is_name_char c = is_alnum c || c == 95

-- `std::erase_if`
unfoldable pub name_chars : Text → Text
name_chars [] = []
name_chars (c ∷ cs) = let rest = name_chars cs in if is_name_char c then c ∷ rest else rest

unfoldable pub get_value_name_asm : Bool → TensorAttr → Outcome Text
unfolding name_chars
get_value_name_asm is_output_aliased t = do
  assert (not (is_empty (codes t.name)))
  ok (codes "%" ++ name_chars (codes t.name) ++ (if is_output_aliased then codes "_" else []))

abbrev hex_digit : ℕ → ℕ
hex_digit n = if ltb n 10 then 48 + n else 55 + n

-- `{:0{}X}`: `width` digits of base sixteen, with capitals.
unfoldable pub hex : ℕ → ℕ → Text
hex zero n = []
hex (suc width) n = hex width (n / 16) ++ hex_digit (n % 16) ∷ []

-- The bits of an integer of `bits` bits.
abbrev pub two_complement : ℕ → ℤ → ℕ
two_complement bits (pos n) = n % 2 ^ bits
two_complement bits (negsuc n) = 2 ^ bits - 1 - n % 2 ^ bits

unfoldable pub scalar_hex : Scalar → Text
unfolding hex
scalar_hex (long n) = hex 16 (two_complement 64 n)
scalar_hex (int n) = hex 8 (two_complement 32 n)
scalar_hex (float bits) = hex 8 bits
scalar_hex (double bits) = hex 16 bits

unfoldable pub get_scalar_constant_asm : TensorAttr → Outcome Text
unfolding get_value_name_asm type_asm get_tensor_type_asm scalar_hex format
get_scalar_constant_asm t = elim t.scalar_value [
  | none ↦ fault
  | some value ↦ do
    assert t.is_scalar
    name ← get_value_name_asm false t
    mlir_type ← type_asm t.data_type
    result_type ← get_tensor_type_asm true true t
    let schema = codes "\n    {0} = torch.vtensor.literal(dense<0x{1}> : tensor<1x{2}>) : {3}\n"
    ok (format schema (name ∷ scalar_hex value ∷ mlir_type ∷ result_type ∷ []))
]

unfoldable pub get_scalar_item_ops_asm : Text → TensorAttr → Text → Outcome Text
unfolding get_value_name_asm get_tensor_type_asm format
get_scalar_item_ops_asm prefix t suffix = do
  name ← get_value_name_asm false t
  type ← get_tensor_type_asm true true t
  let schema = codes "\n    %{0}_{1} = torch.aten.item {2} : {3} -> !torch.float\n"
  ok (format schema (prefix ∷ suffix ∷ name ∷ type ∷ []))
