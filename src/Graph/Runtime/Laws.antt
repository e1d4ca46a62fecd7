-- ===== src/Graph/Runtime/Laws.antt =====
-- backend/runtime.h: what loading leaves, and what an execution has checked.
use fusilli.Base.{
  ◌≡◌, refl, ◌⊎◌, inl, inr, Bool-cases, true, false, is_some, none, some, arith, Text, Outcome, ok,
  error, fault, ErrorCode, ◌≢◌, not_validated,
}
use fusilli.Backend.{Backend, backend_execute_async}
use fusilli.Graph.Validate.{Graph}
use fusilli.Graph.Runtime.{
  Handle, Iree, RuntimeState, cleared, clear_runtime_state, input_list_capacity, set_capacity,
  resolve_main, create_vm_context, finish_load, load_from_artifact,
}

-- An artifact is loaded for a backend: every member is set, and no workspace size is known.
abbrev pub IsLoadedFor : Graph → Backend → Text → RuntimeState → Type 0
IsLoadedFor g backend bytes r =
    (is_some r.vm_context ≡ true)
    × (is_some r.vm_function ≡ true)
    × (r.workspace_size ≡ none)
    × (r.loaded_backend ≡ some backend)
    × (r.loaded_artifact_bytes ≡ bytes)
    × (input_list_capacity g (backend_execute_async backend) ≡ ok r.vm_input_list_capacity)

create_vm_context-ok :
    (iree : Iree) (g : Graph) (handle : Handle) (r r' : RuntimeState)
    → create_vm_context iree g handle r ≡ (ok tt, r')
    → (is_some r'.vm_context ≡ true)
      × (is_some r'.vm_function ≡ true)
      × (r'.workspace_size ≡ r.workspace_size)
      × (r'.loaded_artifact_bytes ≡ r.loaded_artifact_bytes)
      × (input_list_capacity g (backend_execute_async handle.backend)
          ≡ ok r'.vm_input_list_capacity)
unfolding create_vm_context resolve_main set_capacity
create_vm_context-ok iree g handle r r' h = ground arith

pub load_from_artifact_lem :
    (iree : Iree) (g : Graph) (handle : Handle) (bytes : Text) (r r' : RuntimeState)
    (result : Outcome (Unit {0}))
    → load_from_artifact iree g handle bytes r ≡ (result, r')
    → result ≢ fault
    → ((g.is_validated ≡ false) × (result ≡ error not_validated) × (r' ≡ r))
      ⊎ (((e : ErrorCode) × (result ≡ error e) × (r' ≡ cleared))
          ⊎ ((result ≡ ok tt) × IsLoadedFor g handle.backend bytes r'))
unfolding load_from_artifact
load_from_artifact_lem iree g handle bytes r r' result h no_fault =
    elim (Bool-cases g.is_validated) [
      | inl yes_ ↦ finished (create_vm_context iree g handle start) refl (h' yes_)
      | inr no_ ↦ inl (no_, ground arith, ground arith)
    ]
  where
    start : RuntimeState
    start = record (clear_runtime_state r) { loaded_artifact_bytes = bytes }

    h' :
        g.is_validated ≡ true
        → finish_load handle.backend (create_vm_context iree g handle start) ≡ (result, r')
    h' e = ground arith

    finished :
        (m : Outcome (Unit {0}) × RuntimeState)
        → create_vm_context iree g handle start ≡ m
        → finish_load handle.backend m ≡ (result, r')
        → ((g.is_validated ≡ false) × (result ≡ error not_validated) × (r' ≡ r))
          ⊎ (((e : ErrorCode) × (result ≡ error e) × (r' ≡ cleared))
              ⊎ ((result ≡ ok tt) × IsLoadedFor g handle.backend bytes r'))
    finished (ok u, s) e f =
        let (c, fn, w, b, n) = create_vm_context-ok iree g handle start s e in
        inr (
          inr (
            ground arith,
            (ground arith, ground arith, ground arith, ground arith, ground arith, ground arith),
          ))
    finished (error x, s) e f = inr (inl (x, ground arith, ground arith))
    finished (fault, s) e f = absurd (no_fault (ground arith))
