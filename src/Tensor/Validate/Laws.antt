-- ===== src/Tensor/Validate/Laws.antt =====
-- attributes/tensor_attributes.h: the tensors that `TensorAttr::validate` accepts.
use fusilli.Base.{
  ℕ, ◌<◌, ◌≡◌, refl, ◌↔◌, ◌⊎◌, true, false, ◌&&◌, is_some, List, [], ◌∷◌, ℤ, pos, ◌==ℤ◌, length,
  is_empty, arith, ok, at, All, is_ok-value,
}
use fusilli.Tensor.Attr.{TensorAttr}
use fusilli.Tensor.Types.{is_set}
use fusilli.Tensor.Layout.{has_broadcast_dims, has_dynamic_dims}
use fusilli.Tensor.Physical.{has_valid_physical_representation}
use fusilli.Tensor.Validate.{check_dynamic_dims, validate}

-- A dimension that may be dynamic: it is there, neither broadcast nor of size one.
abbrev pub MayBeDynamic : TensorAttr → ℕ → Type 0
MayBeDynamic t i =
    (i < length t.dim)
    × ((s : ℤ) × (at t.stride i ≡ ok s) × ((s ==ℤ pos 0) ≡ false))
    × ((d : ℤ) × (at t.dim i ≡ ok d) × ((d ==ℤ pos 1) ≡ false))

abbrev pub HasShape : TensorAttr → Type 0
HasShape t =
    (is_empty t.dim ≡ false) × (is_empty t.stride ≡ false) × (length t.dim ≡ length t.stride)

abbrev pub HasDynamicDims : TensorAttr → Type 0
HasDynamicDims t =
    All (MayBeDynamic t) t.dynamic_dims
    × ((has_broadcast_dims t ≡ false) ⊎ (has_dynamic_dims t ≡ false))

abbrev pub HasScalar : TensorAttr → Type 0
HasScalar t = ((t.is_virtual && t.is_scalar) ≡ false) × (is_some t.scalar_value ≡ t.is_scalar)

abbrev pub IsValid : TensorAttr → Type 0
IsValid t =
    HasShape t
    × HasDynamicDims t
    × (has_valid_physical_representation t ≡ ok true)
    × (is_set t.data_type ≡ true)
    × HasScalar t

check_dynamic_dims_iff :
    (t : TensorAttr) (dims : List ℕ)
    → (check_dynamic_dims t dims ≡ ok tt) ↔ All (MayBeDynamic t) dims
unfolding check_dynamic_dims
check_dynamic_dims_iff t [] = (λ h. tt, λ h. refl)
check_dynamic_dims_iff t (i ∷ dims) =
    let rest = check_dynamic_dims_iff t dims in
    (
      λ h.
          let (s, es) = is_ok-value (at t.stride i) (ground arith) in
          let (d, ed) = is_ok-value (at t.dim i) (ground arith) in
          ((ground arith, (s, es, ground arith), (d, ed, ground arith)), rest.0 (ground arith)),
      λ h. ground (arith, rest),
    )

-- A tensor is accepted exactly when its dimensions and strides are set and equally many, its dynamic
-- dimensions are there and neither broadcast nor of size one, it has no broadcast dimension beside a
-- dynamic one, its strides describe a tensor in memory, its type is set, and it has a value exactly
-- when it is a scalar, which is never virtual.
pub validate_iff : (t : TensorAttr) → (validate t ≡ ok tt) ↔ IsValid t
unfolding validate
validate_iff t =
    let dims = check_dynamic_dims_iff t t.dynamic_dims in
    (
      λ h. (
        (ground arith, ground arith, ground arith),
        (dims.0 (ground arith), ground arith),
        ground arith,
        ground arith,
        (ground arith, ground arith),
      ),
      λ h. let d = dims.1 h.1.0 in ground (arith),
    )
