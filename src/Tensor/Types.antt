-- ===== src/Tensor/Types.antt =====
-- attributes/types.h: element types and their spelling in MLIR assembly.
pub mod Laws
use fusilli.Base.{
  ℕ, ◌==◌, Bool, true, false, ◌||◌, Option, none, some, String, str_eq, if◌then◌else◌,
}

pub data DataType : Type 0 where
  not_set half bfloat16 float double uint8 int4 int8 int16 int32 int64 boolean fp8e5m2 : DataType

unfoldable pub is_integer_type : DataType → Bool
is_integer_type uint8 = true
is_integer_type int4 = true
is_integer_type int8 = true
is_integer_type int16 = true
is_integer_type int32 = true
is_integer_type int64 = true
is_integer_type _ = false

-- `type == DataType::Boolean`
unfoldable pub is_boolean : DataType → Bool
is_boolean boolean = true
is_boolean _ = false

unfoldable pub is_set : DataType → Bool
is_set not_set = false
is_set _ = true

unfoldable pub is_integral_or_bool_type : DataType → Bool
unfolding is_integer_type is_boolean
is_integral_or_bool_type type = is_integer_type type || is_boolean type

-- `kDataTypeToMlirTypeAsm`; `none` is a key that the map lacks.
unfoldable pub mlir_type_asm : DataType → Option String
mlir_type_asm not_set = none
mlir_type_asm half = some "f16"
mlir_type_asm bfloat16 = some "bf16"
mlir_type_asm float = some "f32"
mlir_type_asm double = some "f64"
mlir_type_asm uint8 = some "ui8"
mlir_type_asm int4 = some "si4"
mlir_type_asm int8 = some "si8"
mlir_type_asm int16 = some "si16"
mlir_type_asm int32 = some "si32"
mlir_type_asm int64 = some "si64"
mlir_type_asm boolean = some "i1"
mlir_type_asm fp8e5m2 = some "f8E5M2"

-- `kMlirTypeAsmToDataType`
unfoldable pub data_type_of_asm : String → Option DataType
data_type_of_asm asm =
    if str_eq asm "f16"
    then some half
    else if str_eq asm "bf16"
    then some bfloat16
    else if str_eq asm "f32"
    then some float
    else if str_eq asm "f64"
    then some double
    else if str_eq asm "ui8"
    then some uint8
    else if str_eq asm "si4"
    then some int4
    else if str_eq asm "si8"
    then some int8
    else if str_eq asm "si16"
    then some int16
    else if str_eq asm "si32"
    then some int32
    else if str_eq asm "si64"
    then some int64
    else if str_eq asm "i1"
    then some boolean
    else if str_eq asm "f8E5M2"
    then some fp8e5m2
    else none

-- The underlying value of the enumeration.
unfoldable pub type_code : DataType → ℕ
type_code not_set = 0
type_code half = 1
type_code bfloat16 = 2
type_code float = 3
type_code double = 4
type_code uint8 = 5
type_code int4 = 6
type_code int8 = 7
type_code int16 = 8
type_code int32 = 9
type_code int64 = 10
type_code boolean = 11
type_code fp8e5m2 = 12

unfoldable pub same_type : DataType → DataType → Bool
unfolding type_code
same_type a b = type_code a == type_code b
