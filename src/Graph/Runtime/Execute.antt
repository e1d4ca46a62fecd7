-- ===== src/Graph/Runtime/Execute.antt =====
-- backend/runtime.h: `Graph::execute`. The result has the arguments that the function was called with.
pub mod Laws
use fusilli.Base.{
  ℕ, ltb, ◌==◌, Bool, true, false, not, is_some, Option, none, some, List, [], ◌∷◌, ◌++◌,
  if◌then◌else◌, Outcome, ok, error, fault, ErrorCode, ◌>>=◌, ◌>>◌, error_if, runtime_failure,
  not_compiled, invalid_argument, variant_pack_error,
}
use fusilli.Backend.{Backend, same_backend, backend_execute_async}
use fusilli.Graph.Validate.{Graph}
use fusilli.Graph.Runtime.{Handle, Buffer, Argument, Iree, RuntimeState, status}
use fusilli.Node.Store.{Store, deref}
use fusilli.Tensor.Attr.{TensorAttr}

-- The map from tensors to buffers, where a buffer may be a null pointer.
abbrev pub VariantPack : Type 0
VariantPack = List (ℕ × Option Buffer)

unfoldable pub find_buffer : VariantPack → ℕ → Option (Option Buffer)
find_buffer [] i = none
find_buffer ((j, b) ∷ rest) i = if j == i then some b else find_buffer rest i

-- `*(variantPack.at(tensor))`
unfoldable pub deref_buffer : Option (Option Buffer) → Outcome Buffer
deref_buffer none = fault
deref_buffer (some none) = fault
deref_buffer (some (some b)) = ok b

unfoldable pub push : Iree → Argument → List Argument → Outcome (List Argument)
push iree a list = if iree.list_push a then ok (list ++ a ∷ []) else error runtime_failure

-- One tensor of a loop: one that the call does not take must not be in the pack, any other must.
unfoldable pub push_tensor : Iree → VariantPack → ℕ → Bool → List Argument → Outcome (List Argument)
unfolding find_buffer deref_buffer push
push_tensor iree pack i internal list =
    let found = find_buffer pack i in
    if internal
    then (error_if (is_some found) variant_pack_error >> ok list)
    else (error_if (not (is_some found)) variant_pack_error >> deref_buffer found >>= λ b.
        push iree (Argument.buffer_view b) list)

unfoldable pub push_outputs :
    Iree → VariantPack → Store → List ℕ → List Argument → Outcome (List Argument)
unfolding push_tensor
push_outputs iree pack st [] list = ok list
push_outputs iree pack st (i ∷ is) list = do
  t ← deref st (some i)
  list' ← push_tensor iree pack i t.is_virtual list
  push_outputs iree pack st is list'

unfoldable pub push_inputs :
    Iree → VariantPack → Store → List ℕ → List Argument → Outcome (List Argument)
unfolding push_tensor
push_inputs iree pack st [] list = ok list
push_inputs iree pack st (i ∷ is) list = do
  t ← deref st (some i)
  list' ← push_tensor iree pack i t.is_scalar list
  push_inputs iree pack st is list'

unfoldable pub push_workspace : Iree → ℕ → Option Buffer → List Argument → Outcome (List Argument)
unfolding push
push_workspace iree size workspace list =
    if ltb 0 size
    then elim workspace as (λ _. Outcome (List Argument)) [
      | none ↦ error invalid_argument
      | some b ↦
          error_if (ltb b.byte_length size) invalid_argument
          >> push iree (Argument.workspace_buffer b) list
    ]
    else push iree Argument.null_ref list

unfoldable pub push_fence : Iree → List Argument → Outcome (List Argument)
unfolding push
push_fence iree list = status iree.fence_create >> push iree Argument.fence list

unfoldable pub push_fences : Iree → Bool → List Argument → Outcome (List Argument)
unfolding push_fence
push_fences iree false list = ok list
push_fences iree true list = push_fence iree list >>= push_fence iree

abbrev pub required {ℓ} : {A : Type ℓ} → Option A → ErrorCode → Outcome A
required none e = error e
required (some a) e = ok a

-- Both backends are in the table that tells which are asynchronous.
unfoldable pub execute :
    Iree → Graph → RuntimeState → Handle → VariantPack → Option Buffer → Outcome (List Argument)
unfolding push_outputs push_inputs push_workspace push_fences
execute iree g r handle pack workspace = do
  context ← required r.vm_context not_compiled
  function ← required r.vm_function not_compiled
  loaded ← required r.loaded_backend not_compiled
  error_if (not (same_backend handle.backend loaded)) invalid_argument
  size ← required r.workspace_size invalid_argument
  status (iree.list_create r.vm_input_list_capacity)
  list₁ ← push_outputs iree pack g.tensors g.full_graph_outputs_sorted []
  list₂ ← push_inputs iree pack g.tensors g.full_graph_inputs_sorted list₁
  list₃ ← push_workspace iree size workspace list₂
  list₄ ← push_fences iree (backend_execute_async handle.backend) list₃
  status (iree.invoke context function list₄)
  ok list₄
