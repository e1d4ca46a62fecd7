-- ===== src/Graph/Runtime.antt =====
-- backend/runtime.h and the second half of graph/graph.h: what a graph has loaded, and its execution.
-- The functions of the IREE runtime are the record `Iree`; a status that is not ok is an error
-- `runtime_failure`.
pub mod Execute
pub mod Laws
pub mod Steps
pub mod Refine
use fusilli.Base.{
  ℕ, zero, suc, ◌+◌, ltb, ◌==◌, Bool, true, false, not, is_some, Option, none, some, List, [], ◌∷◌,
  ◌++◌, length, is_empty, if◌then◌else◌, Text, codes, Outcome, ok, error, fault, ErrorCode, ◌>>=◌,
  ◌>>◌, error_if, runtime_failure, not_implemented, not_validated, not_compiled, invalid_argument,
  variant_pack_error,
}
use fusilli.Backend.{Backend, same_backend, backend_execute_async}
use fusilli.Graph.Validate.{Graph}
use fusilli.Node.Store.{Store, deref}
use fusilli.Tensor.Attr.{TensorAttr}

pub record Handle : Type 0 where
  pub backend : Backend

-- `Buffer`: a buffer view, with the length of its buffer in bytes.
pub record Buffer : Type 0 where
  pub view : ℕ
  pub byte_length : ℕ

-- What is pushed on the list of arguments.
pub data Argument : Type 0 where
  buffer_view : Buffer → Argument
  workspace_buffer : Buffer → Argument
  null_ref : Argument
  fence : Argument

-- The runtime, where a context and a function are numbers. An attribute that is not there is empty.
pub record Iree : Type 0 where
  pub context_create : Option ℕ
  pub hal_module_create : Bool
  pub register_hal_module : ℕ → Bool
  pub bytecode_module_create : Text → Bool
  pub register_bytecode_module : ℕ → Text → Bool
  pub resolve_function : ℕ → Text → Option ℕ
  pub lookup_attr_by_name : ℕ → Text → Text
  pub atoi_uint64 : Text → Option ℕ
  pub list_create : ℕ → Bool
  pub list_push : Argument → Bool
  pub fence_create : Bool
  pub invoke : ℕ → ℕ → List Argument → Bool

-- The members of `Graph` that hold what is loaded.
pub record RuntimeState : Type 0 where
  pub vm_context : Option ℕ
  pub vm_function : Option ℕ
  pub workspace_size : Option ℕ
  pub loaded_backend : Option Backend
  pub loaded_artifact_bytes : Text
  pub vm_input_list_capacity : ℕ

-- `clearRuntimeState` sets every member.
abbrev pub cleared : RuntimeState
cleared = record {
  vm_context = none;
  vm_function = none;
  workspace_size = none;
  loaded_backend = none;
  loaded_artifact_bytes = [];
  vm_input_list_capacity = 0;
}

unfoldable pub clear_runtime_state : RuntimeState → RuntimeState
clear_runtime_state r = cleared

abbrev pub status : Bool → Outcome (Unit {0})
status good = error_if (not good) runtime_failure

abbrev pub status_value {ℓ} : {A : Type ℓ} → Option A → Outcome A
status_value none = error runtime_failure
status_value (some a) = ok a

abbrev pub main_function : Bool → Text
main_function true = codes "module.main$async"
main_function false = codes "module.main"

-- The two loops that count, over the sorted outputs and inputs.
unfoldable pub count_outputs : Store → List ℕ → Outcome ℕ
count_outputs st [] = ok 0
count_outputs st (i ∷ is) = do
  t ← deref st (some i)
  n ← count_outputs st is
  ok (if not t.is_virtual then suc n else n)

unfoldable pub count_inputs : Store → List ℕ → Outcome ℕ
count_inputs st [] = ok 0
count_inputs st (i ∷ is) = do
  t ← deref st (some i)
  n ← count_inputs st is
  ok (if not t.is_scalar then suc n else n)

unfoldable pub input_list_capacity : Graph → Bool → Outcome ℕ
unfolding count_outputs count_inputs
input_list_capacity g execute_async = do
  outputs ← count_outputs g.tensors g.full_graph_outputs_sorted
  inputs ← count_inputs g.tensors g.full_graph_inputs_sorted
  ok (outputs + inputs + 1 + (if execute_async then 2 else 0))

-- The end of `createVmContext`: the capacity is counted.
unfoldable pub set_capacity : RuntimeState → Outcome ℕ → Outcome (Unit {0}) × RuntimeState
set_capacity r (ok n) = (ok tt, record r { vm_input_list_capacity = n })
set_capacity r (error e) = (error e, r)
set_capacity r fault = (fault, r)

-- `createVmContext`. A step that fails leaves what the steps before it have set.
unfoldable pub resolve_main :
    Iree → Graph → Backend → ℕ → RuntimeState → Outcome (Unit {0}) × RuntimeState
unfolding input_list_capacity set_capacity
resolve_main iree g backend context r =
    let execute_async = backend_execute_async backend in
    elim (iree.resolve_function context (main_function execute_async)) [
      | none ↦ (error runtime_failure, r)
      | some function ↦
          set_capacity (record r { vm_function = some function })
            (input_list_capacity g execute_async)
    ]

unfoldable pub create_vm_context :
    Iree → Graph → Handle → RuntimeState → Outcome (Unit {0}) × RuntimeState
unfolding resolve_main
create_vm_context iree g handle r = elim (iree.context_create) [
  | none ↦ (error runtime_failure, r)
  | some context ↦
      let r₁ = record r { vm_context = some context } in
      if not (iree.hal_module_create)
      then (error runtime_failure, r₁)
      else if not (iree.register_hal_module context)
      then (error runtime_failure, r₁)
      else if not (iree.bytecode_module_create r.loaded_artifact_bytes)
      then (error runtime_failure, r₁)
      else if not (iree.register_bytecode_module context r.loaded_artifact_bytes)
      then (error runtime_failure, r₁)
      else resolve_main iree g handle.backend context r₁
]

-- The end of `loadFromArtifact`, where an error clears what was set.
unfoldable pub finish_load :
    Backend → Outcome (Unit {0}) × RuntimeState → Outcome (Unit {0}) × RuntimeState
finish_load backend (ok _, r) = (ok tt, record r { loaded_backend = some backend })
finish_load backend (error e, r) = (error e, clear_runtime_state r)
finish_load backend (fault, r) = (fault, r)

unfoldable pub load_from_artifact :
    Iree → Graph → Handle → Text → RuntimeState → Outcome (Unit {0}) × RuntimeState
unfolding create_vm_context finish_load clear_runtime_state
load_from_artifact iree g handle bytes r =
    if not g.is_validated
    then (error not_validated, r)
    else finish_load handle.backend (
        create_vm_context iree g handle
          (record (clear_runtime_state r) { loaded_artifact_bytes = bytes }))

unfoldable pub query_transient_size : Iree → ℕ → Outcome ℕ
query_transient_size iree context = do
  main ← status_value (iree.resolve_function context (main_function true))
  let size_attr = iree.lookup_attr_by_name main (codes "iree.abi.transients.size.constant")
  let constant = elim (is_empty size_attr) as (λ _. Option ℕ) [
    | true ↦ none
    | false ↦ iree.atoi_uint64 size_attr
  ]
  let dynamic_size_attr = iree.lookup_attr_by_name main (codes "iree.abi.transients.size")
  elim constant as (λ _. Outcome ℕ) [
    | some size ↦ ok size
    | none ↦ error_if (not (is_empty dynamic_size_attr)) not_implemented >> ok 0
  ]

-- `getWorkspaceSize`: the largest size seen since the artifact was loaded.
unfoldable pub get_workspace_size : Iree → RuntimeState → Outcome (Option ℕ × RuntimeState)
unfolding query_transient_size
get_workspace_size iree r = elim r.vm_context [
  | none ↦ ok (none, r)
  | some context ↦ do
    size ← query_transient_size iree context
    let larger = elim r.workspace_size as (λ _. ℕ) [
      | none ↦ size
      | some old ↦ if ltb old size then size else old
    ]
    ok (some larger, record r { workspace_size = some larger })
]
