-- ===== src/Tensor/Types/Laws.antt =====
-- attributes/types.h: the two maps between element types and their spellings.
use mathlib.Core.Path.{subst}
use mathlib.Core.Option.{some-injective}
use fusilli.Base.{◌≡◌, refl, String, some}
use fusilli.Tensor.Types.{DataType, mlir_type_asm, data_type_of_asm}

-- A type is read back from its spelling.
pub data_type_of_asm-mlir_type_asm :
    (type : DataType) {asm : String}
    → mlir_type_asm type ≡ some asm
    → data_type_of_asm asm ≡ some type
unfolding mlir_type_asm data_type_of_asm
data_type_of_asm-mlir_type_asm DataType.not_set h = cc
data_type_of_asm-mlir_type_asm type h =
    subst (λ asm. data_type_of_asm asm ≡ some type) (some-injective _ _ h) refl
