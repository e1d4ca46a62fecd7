-- ===== src/Graph/Runtime/Refine.antt =====
-- graph/graph.h and backend/runtime.h: the life of a graph's runtime as a user sees it, and that the
-- code keeps to it.
use mathlib.Core.Path.{subst}
use fusilli.Base.{
  ℕ, ◌≤◌, ltb, ◌≡◌, refl, sym, ◌∙◌, inl, inr, Option-cases, Bool, is_some, true, false, Option,
  none, some, List, [], ◌∷◌, arith, Text, Outcome, ok, error, ErrorCode, fault, ◌≢◌, Bool-cases,
  not_validated, >>=-eq-ok, ok-injective, if◌then◌else◌,
}
use fusilli.Backend.{Backend}
use fusilli.Graph.Validate.{Graph}
use fusilli.Graph.Runtime.{
  Handle, Iree, RuntimeState, cleared, get_workspace_size, load_from_artifact, query_transient_size,
}
use fusilli.Graph.Runtime.Laws.{IsLoadedFor, load_from_artifact_lem}
use fusilli.Graph.Runtime.Steps.{
  Step, load, query, Reachable, start, next, IsConsistent, Reachable-IsConsistent,
}

-- Nothing is loaded, or an artifact is for a backend, with the workspace size once it was asked for.
pub data Life : Type 0 where
  unloaded : Life
  loaded : Backend → Text → Option ℕ → Life

-- A call as its caller sees it: of `loadFromArtifact` for a graph that is validated or not, with a
-- backend, an artifact and the result, and of `getWorkspaceSize` with the answer.
pub data Call : Type 0 where
  load_call : Bool → Backend → Text → Outcome (Unit {0}) → Call
  query_call : Option ℕ → Call

abbrev pub IsAtLeast : Option ℕ → ℕ → Type 0
IsAtLeast none n = Unit {0}
IsAtLeast (some old) n = old ≤ n

-- What each call may do. Only a load unloads or loads, and what is loaded then is its own backend and
-- artifact; only a query learns the size, which is its answer.
pub data Moves : Call → Life → Life → Type 0 where
  rejects :
      {a : Life} (backend : Backend) (bytes : Text)
      → Moves (load_call false backend bytes (error not_validated)) a a
  fails :
      {a : Life} (backend : Backend) (bytes : Text) (e : ErrorCode)
      → Moves (load_call true backend bytes (error e)) a unloaded
  loads :
      {a : Life} (backend : Backend) (bytes : Text)
      → Moves (load_call true backend bytes (ok tt)) a (loaded backend bytes none)
  knows_nothing : Moves (query_call none) unloaded unloaded
  measures :
      (backend : Backend) (bytes : Text) (size : Option ℕ) (n : ℕ)
      → IsAtLeast size n
      → Moves (query_call (some n)) (loaded backend bytes size) (loaded backend bytes (some n))

-- The lives that a list of calls leads to, where the last call stands first.
pub data Runs : List Call → Life → Type 0 where
  begins : Runs [] unloaded
  moves :
      {calls : List Call} {call : Call} {a b : Life}
      → Runs calls a
      → Moves call a b
      → Runs (call ∷ calls) b

abbrev pub call_of : {r r' : RuntimeState} → Step r r' → Call
call_of (load iree g handle bytes result h no_fault) =
    load_call g.is_validated handle.backend bytes result
call_of (query iree answer h) = query_call answer

-- The calls that led to a state, the last one first.
abbrev pub calls_of : {r : RuntimeState} → Reachable r → List Call
calls_of start = []
calls_of (next before step) = call_of step ∷ calls_of before

abbrev pub life_of : Option Backend → Text → Option ℕ → Life
life_of none bytes size = unloaded
life_of (some backend) bytes size = loaded backend bytes size

abbrev pub life : RuntimeState → Life
life r = life_of r.loaded_backend r.loaded_artifact_bytes r.workspace_size

larger-IsAtLeast :
    (size : Option ℕ) (told : ℕ)
    → IsAtLeast size
        (elim size as (λ _. ℕ) [ none ↦ told | some old ↦ if ltb old told then told else old ])
larger-IsAtLeast none told = tt
larger-IsAtLeast (some old) told = ground arith

measures-life :
    (backend : Option Backend) (bytes : Text) (size : Option ℕ) (n : ℕ)
    → IsAtLeast size n
    → is_some backend ≡ true
    → Moves (query_call (some n)) (life_of backend bytes size) (life_of backend bytes (some n))
measures-life none bytes size n least h = cc
measures-life (some backend) bytes size n least h = Moves.measures backend bytes size n least

query-Moves :
    (iree : Iree) (answer : Option ℕ) (r r' : RuntimeState)
    → get_workspace_size iree r ≡ ok (answer, r')
    → IsConsistent r
    → Moves (query_call answer) (life r) (life r')
unfolding get_workspace_size
query-Moves iree answer r r' h (_, backend, all_or_nothing) = elim (Option-cases r.vm_context) [
  | inl none_ ↦
      let empty : r ≡ cleared = elim all_or_nothing [ inl set ↦ absurd cc | inr e ↦ e ] in
      let same : r ≡ r' = ground arith in
      let unknown : none ≡ answer = ground arith in
      let now : cleared ≡ r' = sym empty ∙ same in
      subst (λ a. Moves (query_call a) (life r) (life r')) unknown
        (subst (λ x. Moves (query_call none) (life x) (life r')) (sym empty)
          (subst (λ x. Moves (query_call none) (life cleared) (life x)) now Moves.knows_nothing))
  | inr (context, e) ↦
      let (told, _, h₁) = >>=-eq-ok (query_transient_size iree context) _ (rw e at h) in
      let larger = elim r.workspace_size as (λ _. ℕ) [
        | none ↦ told
        | some old ↦ if ltb old told then told else old
      ] in
      let both : (some larger, record r { vm_context = some context; workspace_size = some larger })
          ≡ (answer, r') =
        ok-injective h₁ in
      let move =
        measures-life r.loaded_backend r.loaded_artifact_bytes r.workspace_size larger
          (larger-IsAtLeast r.workspace_size told) (backend ∙ rw e refl) in
      subst (λ (p : Option ℕ × RuntimeState). Moves (query_call p.0) (life r) (life p.1)) both move
]

not_validated-load :
    (iree : Iree) (g : Graph) (handle : Handle) (bytes : Text) (r r' : RuntimeState)
    (result : Outcome (Unit {0}))
    → load_from_artifact iree g handle bytes r ≡ (result, r')
    → g.is_validated ≡ false
    → (result ≡ error not_validated) × (r' ≡ r)
unfolding load_from_artifact
not_validated-load iree g handle bytes r r' result h no_ = (ground arith, ground arith)

-- The moves of a load of a validated graph, by its end.
load_error-Moves :
    (backend : Backend) (bytes : Text) (r r' : RuntimeState) (result : Outcome (Unit {0}))
    (e : ErrorCode)
    → result ≡ error e
    → r' ≡ cleared
    → Moves (load_call true backend bytes result) (life r) (life r')
load_error-Moves backend bytes r r' result e failed empty = rw failed (
    subst (λ x. Moves (load_call true backend bytes (error e)) (life r) (life x)) (sym empty)
      (Moves.fails backend bytes e))

load_ok-Moves :
    (g : Graph) (backend : Backend) (bytes : Text) (r r' : RuntimeState)
    (result : Outcome (Unit {0}))
    → result ≡ ok tt
    → IsLoadedFor g backend bytes r'
    → Moves (load_call true backend bytes result) (life r) (life r')
load_ok-Moves g backend bytes r r' result done (_, _, size, for_backend, same, _) =
    rw (done, for_backend, same, size) (Moves.loads backend bytes)

load-Moves :
    (iree : Iree) (g : Graph) (handle : Handle) (bytes : Text) (r r' : RuntimeState)
    (result : Outcome (Unit {0}))
    → load_from_artifact iree g handle bytes r ≡ (result, r')
    → result ≢ fault
    → Moves (load_call g.is_validated handle.backend bytes result) (life r) (life r')
load-Moves iree g handle bytes r r' result h no_fault = elim (Bool-cases g.is_validated) [
  | inr no_ ↦
      let (e, same) = not_validated-load iree g handle bytes r r' result h no_ in
      rw (no_, e)
        (subst
          (λ x.
            Moves (load_call false handle.backend bytes (error not_validated)) (life r) (life x))
          (sym same) (Moves.rejects handle.backend bytes))
  | inl yes_ ↦ rw yes_ (elim (load_from_artifact_lem iree g handle bytes r r' result h no_fault) [
    | inl (no_, _, _) ↦ absurd cc
    | inr (inl (e, failed, empty)) ↦
        load_error-Moves handle.backend bytes r r' result e failed empty
    | inr (inr (done, all)) ↦ load_ok-Moves g handle.backend bytes r r' result done all
  ])
]

Step-Moves :
    {r r' : RuntimeState}
    → Reachable r
    → (step : Step r r') → Moves (call_of step) (life r) (life r')
Step-Moves {r} {r'} before (load iree g handle bytes result h no_fault) =
    load-Moves iree g handle bytes r r' result h no_fault
Step-Moves {r} {r'} before (query iree answer h) =
    query-Moves iree answer r r' h (Reachable-IsConsistent before)

-- Every sequence of calls of `loadFromArtifact`, with whatever results, and of successful calls of
-- `getWorkspaceSize` runs through these moves, call by call: a load of a graph that is not validated
-- changes nothing, one that fails unloads, and one that succeeds loads its own artifact for its own
-- backend, with no size known; a query answers with a size not below the known one, which is known from
-- then on, or with none when nothing is loaded.
pub Reachable-Runs : {r : RuntimeState} (before : Reachable r) → Runs (calls_of before) (life r)
Reachable-Runs start = Runs.begins
Reachable-Runs (next before step) = Runs.moves (Reachable-Runs before) (Step-Moves before step)
