-- ===== src/Graph/Runtime/Steps.antt =====
-- graph/graph.h and backend/runtime.h: the states that sequences of calls lead to. An execution changes
-- no state.
use fusilli.Base.{
  ℕ, ◌≤◌, ltb, ◌≡◌, ◌≢◌, refl, sym, ◌⊎◌, inl, inr, Bool-cases, Option-cases, true, is_some, Option,
  none, some, arith, Text, Outcome, ok, fault,
}
use mathlib.Core.Path.{subst}
use fusilli.Graph.Validate.{Graph}
use fusilli.Graph.Runtime.{
  Handle, Iree, RuntimeState, cleared, load_from_artifact, get_workspace_size, query_transient_size,
}
use fusilli.Graph.Runtime.Laws.{load_from_artifact_lem}

-- A call of `loadFromArtifact`, with any result, or a successful one of `getWorkspaceSize`. The runtime
-- and the graph may be others at each call.
pub data Step : RuntimeState → RuntimeState → Type 0 where
  load :
      (iree : Iree) (g : Graph) (handle : Handle) (bytes : Text) (result : Outcome (Unit {0}))
      {r r' : RuntimeState}
      → load_from_artifact iree g handle bytes r ≡ (result, r')
      → result ≢ fault
      → Step r r'
  query :
      (iree : Iree) (answer : Option ℕ) {r r' : RuntimeState}
      → get_workspace_size iree r ≡ ok (answer, r')
      → Step r r'

pub data Reachable : RuntimeState → Type 0 where
  start : Reachable cleared
  next : {r r' : RuntimeState} → Reachable r → Step r r' → Reachable r'

-- All or nothing.
abbrev pub IsConsistent : RuntimeState → Type 0
IsConsistent r =
    (is_some r.vm_function ≡ is_some r.vm_context)
    × (is_some r.loaded_backend ≡ is_some r.vm_context)
    × ((is_some r.vm_context ≡ true) ⊎ (r ≡ cleared))

get_workspace_size-IsConsistent :
    (iree : Iree) (answer : Option ℕ) (r r' : RuntimeState)
    → get_workspace_size iree r ≡ ok (answer, r')
    → IsConsistent r
    → IsConsistent r'
unfolding get_workspace_size
get_workspace_size-IsConsistent iree answer r r' h c = elim (Option-cases r.vm_context) [
  | inl none_ ↦ let same : r ≡ r' = ground arith in subst IsConsistent same c
  | inr (context, e) ↦ ground arith
]

Step-IsConsistent : {r r' : RuntimeState} → Step r r' → IsConsistent r → IsConsistent r'
Step-IsConsistent {r} {r'} (load iree g handle bytes result h no_fault) c =
    elim (load_from_artifact_lem iree g handle bytes r r' result h no_fault) [
      | inl (_, _, same) ↦ subst IsConsistent (sym same) c
      | inr (inl (e, _, empty)) ↦ subst IsConsistent (sym empty) (refl, refl, inr refl)
      | inr (inr (_, (context, function, _, backend, _, _))) ↦ ground arith
    ]
Step-IsConsistent {r} {r'} (query iree answer h) c =
    get_workspace_size-IsConsistent iree answer r r' h c

-- Whatever was called, with whatever results, the context, the function and the backend are set all
-- together, and while they are not set nothing else is.
pub Reachable-IsConsistent : {r : RuntimeState} → Reachable r → IsConsistent r
Reachable-IsConsistent start = (refl, refl, inr refl)
Reachable-IsConsistent (next before step) = Step-IsConsistent step (Reachable-IsConsistent before)

-- When an artifact is loaded and the runtime tells a size, `getWorkspaceSize` answers with a size that
-- is not below it nor below any that it answered for this artifact before, remembers it, and changes
-- nothing else.
pub get_workspace_size_bounds :
    (iree : Iree) (r : RuntimeState) (context size : ℕ)
    → r.vm_context ≡ some context
    → query_transient_size iree context ≡ ok size
    → (n : ℕ) × (get_workspace_size iree r ≡ ok (some n, record r { workspace_size = some n }))
      × (size ≤ n)
      × ((r.workspace_size ≡ none) ⊎ ((old : ℕ) × (r.workspace_size ≡ some old) × (old ≤ n)))
unfolding get_workspace_size
get_workspace_size_bounds iree r context size c q = elim (Option-cases r.workspace_size) [
  | inl first ↦ (size, ground arith, omega arith, inl first)
  | inr (old, e) ↦ elim (Bool-cases (ltb old size)) [
    | inl more ↦ (size, ground arith, omega arith, inr (old, e, ground arith))
    | inr enough ↦ (old, ground arith, ground arith, inr (old, e, omega arith))
  ]
]
