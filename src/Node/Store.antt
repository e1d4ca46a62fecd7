-- ===== src/Node/Store.antt =====
-- attributes/attributes.h, and the tensors that `std::shared_ptr<TensorAttr>` leads to: the store
-- lists them, a pointer is a place in it, so that nodes which share a tensor see each other's
-- writes. A pointer that is null, or a key that a node's map lacks, is `none`.
use fusilli.Base.{
  ℕ, Option, none, some, List, [], ◌∷◌, ℤ, Outcome, ok, fault, error_if, attribute_not_set,
  not_implemented, ◌>>=◌, at, put, is_empty, if◌then◌else◌, not, is_some,
}
use fusilli.Tensor.Attr.{TensorAttr, fill_from_context}
use fusilli.Tensor.Types.{DataType, is_set}
use fusilli.Tensor.Layout.{is_neither_layout}
use fusilli.Graph.Context.{Context}

abbrev pub Store : Type 0
Store = List TensorAttr

abbrev pub Ptr : Type 0
Ptr = Option ℕ

-- `t->...`, a fault at a null pointer.
unfoldable pub deref : Store → Ptr → Outcome TensorAttr
deref st none = fault
deref st (some i) = at st i

unfoldable pub modify : Ptr → (TensorAttr → TensorAttr) → Store → Outcome Store
modify none f st = fault
modify (some i) f st = do t ← at st i; put st i (f t)

abbrev pub set_dim : List ℤ → TensorAttr → TensorAttr
set_dim dim t = record t { dim = dim }

abbrev pub set_stride : List ℤ → TensorAttr → TensorAttr
set_stride stride t = record t { stride = stride }

abbrev pub set_data_type : DataType → TensorAttr → TensorAttr
set_data_type type t = record t { data_type = type }

-- `FUSILLI_RETURN_ERROR_IF(!t, ErrorCode::AttributeNotSet, ...)`
abbrev pub require : Ptr → Outcome (Unit {0})
require p = error_if (not (is_some p)) attribute_not_set

-- `AttributesCRTP::fillFromContext`: the tensors, null pointers passed over.
unfoldable pub fill_tensors : Context → List Ptr → Store → Outcome Store
unfolding modify
fill_tensors context [] st = ok st
fill_tensors context (none ∷ ps) st = fill_tensors context ps st
fill_tensors context (some i ∷ ps) st =
    modify (some i) (fill_from_context context) st >>= fill_tensors context ps

unfoldable pub fill_compute : Context → DataType → DataType
fill_compute context type = if is_set type then type else context.compute_data_type

-- `FUSILLI_RETURN_ERROR_IF(!t->isContiguous() && !t->isChannelsLast(), ...)`
unfoldable pub check_layout : TensorAttr → Outcome (Unit {0})
check_layout t = is_neither_layout t >>= λ neither. error_if neither not_implemented

-- `norm_utils::inferDim`, `inferStride`: only what is not set.
unfoldable pub infer_dim : Ptr → List ℤ → Store → Outcome Store
unfolding modify deref
infer_dim p dim st = do t ← deref st p; if is_empty t.dim then modify p (set_dim dim) st else ok st

unfoldable pub infer_stride : Ptr → List ℤ → Store → Outcome Store
unfolding modify deref
infer_stride p stride st = do
  t ← deref st p
  if is_empty t.stride then modify p (set_stride stride) st else ok st
