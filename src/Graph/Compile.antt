-- ===== src/Graph/Compile.antt =====
-- graph/graph.h: `compileToArtifact` and `compile`. The cache of the graph is passed, and given back as
-- it is after the call.
pub mod Laws
use fusilli.Base.{
  Bool, true, false, Option, none, some, codes, Text, Outcome, ok, error, fault, not_validated,
}
use fusilli.Backend.{Backend}
use fusilli.Support.Disk.{Disk, Io, lift, ◌>>>◌}
use fusilli.Support.Cache.{CachedAssets, read_file_bytes}
use fusilli.Graph.Validate.{Graph}
use fusilli.Graph.Artifact.{Environment, Artifact, get_compiled_artifact}
use fusilli.Graph.Runtime.{Iree, Handle, RuntimeState, load_from_artifact}
use fusilli.Emit.Assembly.{Printer, emit_asm}

-- The end of `compileToArtifact`: the bytes of the artifact are read.
unfoldable pub read_artifact :
    Option CachedAssets → Outcome Artifact × Disk → Outcome Text × Disk × Option CachedAssets
unfolding read_file_bytes
read_artifact cache (ok (path, made, again), d) =
    let bytes = read_file_bytes path d in (bytes.0, bytes.1, some made)
read_artifact cache (error e, d) = (error e, d, cache)
read_artifact cache (fault, d) = (fault, d, cache)

unfoldable pub compile_to_artifact :
    Printer
    → Environment
    → Graph
    → Option CachedAssets
    → Backend
    → Bool
    → Disk
    → Outcome Text × Disk × Option CachedAssets
unfolding emit_asm get_compiled_artifact read_artifact
compile_to_artifact printer env g cache backend remove_ d = elim g.is_validated [
  | false ↦ (error not_validated, d, cache)
  | true ↦ read_artifact cache (
      (lift (emit_asm printer g) >>> λ asm.
      get_compiled_artifact env (codes g.context.name) cache backend asm remove_)
        d)
]

unfoldable pub load_compiled :
    Iree
    → Graph
    → Handle
    → RuntimeState
    → Outcome Text × Disk × Option CachedAssets
    → Outcome (Unit {0}) × Disk × Option CachedAssets × RuntimeState
unfolding load_from_artifact
load_compiled iree g handle r (ok bytes, d, cache) =
    let loaded = load_from_artifact iree g handle bytes r in (loaded.0, d, cache, loaded.1)
load_compiled iree g handle r (error e, d, cache) = (error e, d, cache, r)
load_compiled iree g handle r (fault, d, cache) = (fault, d, cache, r)

unfoldable pub compile :
    Printer
    → Environment
    → Iree
    → Graph
    → Handle
    → Option CachedAssets
    → Bool
    → Disk
    → RuntimeState
    → Outcome (Unit {0}) × Disk × Option CachedAssets × RuntimeState
unfolding compile_to_artifact load_compiled
compile printer env iree g handle cache remove_ d r =
    load_compiled iree g handle r (compile_to_artifact printer env g cache handle.backend remove_ d)
