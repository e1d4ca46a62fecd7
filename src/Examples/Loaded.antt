-- ===== src/Examples/Loaded.antt =====
-- A graph that is loaded and executed, and its cache.
use fusilli.Base.{ℕ, ◌≤◌, ◌≡◌, refl, true, ◌⊎◌, none, some, List, [], ◌∷◌, ok, at, arith}
use fusilli.Backend.{Backend}
use fusilli.Graph.Runtime.{
  Handle, Buffer, Argument, Iree, RuntimeState, cleared, load_from_artifact, create_vm_context,
  resolve_main, set_capacity, finish_load, clear_runtime_state, input_list_capacity, count_outputs,
  count_inputs, query_transient_size, get_workspace_size,
}
use fusilli.Graph.Runtime.Execute.{VariantPack}
use fusilli.Graph.Runtime.Refine.{Runs, load_call, query_call, life, Reachable-Runs}
use fusilli.Graph.Runtime.Steps.{
  Step, Reachable, IsConsistent, Reachable-IsConsistent, get_workspace_size_bounds,
}
use fusilli.Node.Store.{deref}
use fusilli.Examples.Graphs.{validated}

-- A runtime where everything succeeds, and no size is given.
abbrev pub iree : Iree
iree = record {
  context_create = some 1;
  hal_module_create = true;
  register_hal_module = λ c. true;
  bytecode_module_create = λ t. true;
  register_bytecode_module = λ c t. true;
  resolve_function = λ c t. some 2;
  lookup_attr_by_name = λ f t. [];
  atoi_uint64 = λ t. none;
  list_create = λ n. true;
  list_push = λ a. true;
  fence_create = true;
  invoke = λ c f l. true;
}

abbrev pub handle : Handle
handle = record { backend = Backend.cpu }

abbrev loaded : RuntimeState
loaded = record {
  vm_context = some 1;
  vm_function = some 2;
  workspace_size = none;
  loaded_backend = some Backend.cpu;
  loaded_artifact_bytes = 7 ∷ [];
  vm_input_list_capacity = 4;
}

abbrev queried : RuntimeState
queried = record loaded { workspace_size = some 0 }

now_loaded : load_from_artifact iree validated handle (7 ∷ []) cleared ≡ (ok tt, loaded)
unfolding load_from_artifact create_vm_context resolve_main set_capacity finish_load
    clear_runtime_state input_list_capacity count_outputs count_inputs deref at
now_loaded = refl

loaded-Reachable : Reachable loaded
loaded-Reachable =
    Reachable.next Reachable.start
      (Step.load iree validated handle (7 ∷ []) (ok tt) now_loaded (λ h. ground arith))

Reachable-IsConsistent_example : IsConsistent loaded
Reachable-IsConsistent_example = Reachable-IsConsistent loaded-Reachable

size_told : get_workspace_size iree loaded ≡ ok (some 0, queried)
unfolding get_workspace_size query_transient_size
size_told = refl

Reachable-Runs_example :
    Runs (query_call (some 0) ∷ load_call true Backend.cpu (7 ∷ []) (ok tt) ∷ []) (life queried)
unfolding loaded-Reachable
Reachable-Runs_example =
    Reachable-Runs (Reachable.next loaded-Reachable (Step.query iree (some 0) size_told))

get_workspace_size_example :
    (n : ℕ) × (get_workspace_size iree loaded
      ≡ ok (some n, record loaded { workspace_size = some n }))
    × (0 ≤ n)
    × ((loaded.workspace_size ≡ none)
        ⊎ ((old : ℕ) × (loaded.workspace_size ≡ some old) × (old ≤ n)))
unfolding query_transient_size
get_workspace_size_example = get_workspace_size_bounds iree loaded 1 0 refl refl

abbrev buffer : ℕ → Buffer
buffer n = record { view = n; byte_length = 64 }

abbrev variant_pack : VariantPack
variant_pack = (0, some (buffer 10)) ∷ (1, some (buffer 11)) ∷ (2, some (buffer 12)) ∷ []

abbrev arguments : List Argument
arguments =
    Argument.buffer_view (buffer 12)
    ∷ Argument.buffer_view (buffer 10)
    ∷ Argument.buffer_view (buffer 11)
    ∷ Argument.null_ref
    ∷ []
