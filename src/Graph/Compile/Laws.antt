-- ===== src/Graph/Compile/Laws.antt =====
-- What a compilation that succeeds has done.
use mathlib.Core.Path.{subst}
use fusilli.Base.{
  ◌≡◌, refl, ◌∙◌, ap, Bool, true, false, Bool-cases, Option-cases, inl, inr, Option, none, some,
  codes, Text, Outcome, ok, error, fault, not_validated,
}
use fusilli.Backend.{Backend}
use fusilli.Support.Disk.{Disk, Io, follow, ◌>>>◌}
use fusilli.Support.Cache.{CachedAssets, read_file_bytes}
use fusilli.Graph.Validate.{Graph}
use fusilli.Graph.Artifact.{
  Environment, Artifact, validate_cache, generate_compiled_artifact, replace_cache, serve,
  get_compiled_artifact,
}
use fusilli.Graph.Runtime.{Iree, Handle, RuntimeState, load_from_artifact}
use fusilli.Graph.Runtime.Laws.{IsLoadedFor, load_from_artifact_lem}
use fusilli.Emit.Assembly.{Printer, emit_asm}
use fusilli.Graph.Compile.{read_artifact, compile_to_artifact, load_compiled, compile}

-- Inversion of a successful sequence.
follow-ok {ℓ κ} :
    {A : Type ℓ} {B : Type κ} (run : Outcome A × Disk) (next : A → Io B) (b : B) (d : Disk)
    → follow run next ≡ (ok b, d)
    → (a : A) × (d₁ : Disk) × (run ≡ (ok a, d₁)) × (next a d₁ ≡ (ok b, d))
follow-ok (ok a, d₁) next b d h = (a, d₁, refl, h)
follow-ok (error e, d₁) next b d h = cc
follow-ok (fault, d₁) next b d h = cc

replace_cache-path :
    (cache : Option CachedAssets) (made : CachedAssets) (d d' : Disk) (path : Text)
    (assets : CachedAssets) (again : Bool)
    → replace_cache cache made d ≡ (ok (path, assets, again), d')
    → path ≡ assets.output.path
unfolding replace_cache
replace_cache-path cache made d d' path assets again h = cc

get_compiled_artifact-path :
    (env : Environment) (name : Text) (cache : Option CachedAssets) (backend : Backend) (asm : Text)
    (remove_ : Bool) (d d' : Disk) (path : Text) (assets : CachedAssets) (again : Bool)
    → get_compiled_artifact env name cache backend asm remove_ d ≡ (ok (path, assets, again), d')
    → path ≡ assets.output.path
unfolding get_compiled_artifact
get_compiled_artifact-path env name cache backend asm remove_ d d' path assets again h =
    let (valid, d₁, _, h₁) =
      follow-ok (validate_cache env name cache backend asm d) _ (path, assets, again) d' h in
    served cache valid d₁ h₁
  where
    served :
        (cache : Option CachedAssets) (valid : Bool) (d₁ : Disk)
        → serve cache
            (generate_compiled_artifact env name backend asm remove_ >>> replace_cache cache)
            valid
            d₁
          ≡ (ok (path, assets, again), d')
        → path ≡ assets.output.path
    served cache false d₁ h =
        let (made, d₂, _, h₁) =
          follow-ok (generate_compiled_artifact env name backend asm remove_ d₁) _
            (path, assets, again) d' h in
        replace_cache-path cache made d₂ d' path assets again h₁
    served (some old) true d₁ h = cc
    served none true d₁ h = cc

read_artifact-ok :
    (cache cache' : Option CachedAssets) (run : Outcome Artifact × Disk) (bytes : Text) (d' : Disk)
    → read_artifact cache run ≡ (ok bytes, d', cache')
    → (path : Text) × (made : CachedAssets) × (again : Bool) × (d : Disk) × (run
        ≡ (ok (path, made, again), d))
      × (read_file_bytes path d ≡ (ok bytes, d'))
      × (cache' ≡ some made)
unfolding read_artifact
read_artifact-ok cache cache' (ok (path, made, again), d) bytes d' h =
    (path, made, again, d, refl, cc, cc)
read_artifact-ok cache cache' (error e, d) bytes d' h = cc
read_artifact-ok cache cache' (fault, d) bytes d' h = cc

read_file_bytes-ok :
    (path bytes : Text) (d d' : Disk)
    → read_file_bytes path d ≡ (ok bytes, d')
    → d'.content path ≡ some bytes
unfolding read_file_bytes
read_file_bytes-ok path bytes d d' h = elim (Bool-cases (d.can_read path)) [
  | inr no_ ↦ absurd (let bad = rw no_ at h in cc)
  | inl yes_ ↦ elim (Option-cases (d.content path)) [
    | inl none_ ↦ absurd (let bad = rw (yes_, none_) at h in cc)
    | inr (text, e) ↦
        let same : (ok text, d) ≡ (ok bytes, d') = rw (yes_, e) at h in
        let disk : d ≡ d' = cc in
        let texts : text ≡ bytes = cc in
        subst (λ (x : Disk). x.content path ≡ some bytes) disk (e ∙ ap some texts)
  ]
]

load_compiled-ok :
    (iree : Iree) (g : Graph) (handle : Handle) (r r' : RuntimeState)
    (run : Outcome Text × Disk × Option CachedAssets) (d' : Disk) (cache' : Option CachedAssets)
    → load_compiled iree g handle r run ≡ (ok tt, d', cache', r')
    → (bytes : Text) × (run ≡ (ok bytes, d', cache'))
      × (load_from_artifact iree g handle bytes r ≡ (ok tt, r'))
unfolding load_compiled
load_compiled-ok iree g handle r r' (ok bytes, d, cache) d' cache' h = (bytes, cc, cc)
load_compiled-ok iree g handle r r' (error e, d, cache) d' cache' h = cc
load_compiled-ok iree g handle r r' (fault, d, cache) d' cache' h = cc

loaded :
    (iree : Iree) (g : Graph) (handle : Handle) (bytes : Text) (r r' : RuntimeState)
    → load_from_artifact iree g handle bytes r ≡ (ok tt, r')
    → IsLoadedFor g handle.backend bytes r'
loaded iree g handle bytes r r' h =
    elim (load_from_artifact_lem iree g handle bytes r r' (ok tt) h (λ e. cc)) [
      | inl (_, bad, _) ↦ absurd (cc)
      | inr (inl (e, bad, _)) ↦ absurd (cc)
      | inr (inr (_, done)) ↦ done
    ]

checked :
    (b : Bool) (d d' : Disk) (cache cache' : Option CachedAssets) (bytes : Text)
    (rest : Outcome Text × Disk × Option CachedAssets)
    → (elim b as (λ _. Outcome Text × Disk × Option CachedAssets) [
      | false ↦ (error not_validated, d, cache)
      | true ↦ rest
    ])
      ≡ (ok bytes, d', cache')
    → rest ≡ (ok bytes, d', cache')
checked true d d' cache cache' bytes rest h = h
checked false d d' cache cache' bytes rest h = cc

-- A compilation that succeeds has written the graph as MLIR, remembers a cache whose output file holds
-- the artifact, and has loaded these bytes: every member of the runtime is set for them and for the
-- backend of the handle, and the workspace size is to be asked for again.
pub compile_lem :
    (printer : Printer) (env : Environment) (iree : Iree) (g : Graph) (handle : Handle)
    (cache cache' : Option CachedAssets) (remove_ : Bool) (d d' : Disk) (r r' : RuntimeState)
    → compile printer env iree g handle cache remove_ d r ≡ (ok tt, d', cache', r')
    → (asm : Text) × (assets : CachedAssets) × (bytes : Text) × (emit_asm printer g ≡ ok asm)
      × (cache' ≡ some assets)
      × (d'.content assets.output.path ≡ some bytes)
      × IsLoadedFor g handle.backend bytes r'
unfolding compile compile_to_artifact
compile_lem printer env iree g handle cache cache' remove_ d d' r r' h =
    let (bytes, compiled, load) = load_compiled-ok iree g handle r r' _ d' cache' h in
    let run = checked g.is_validated d d' cache cache' bytes _ compiled in
    let (path, assets, again, d₁, made, read_, same) =
      read_artifact-ok cache cache' _ bytes d' run in
    let (asm, d₂, emitted, got) =
      follow-ok (emit_asm printer g, d) _ (path, assets, again) d₁ made in
    let here =
      get_compiled_artifact-path env (codes g.context.name) cache handle.backend asm remove_ d₂ d₁
        path assets again got in
    let content_ = read_file_bytes-ok path bytes d₁ d' read_ in
    (
      asm,
      assets,
      bytes,
      cc,
      same,
      subst (λ p. d'.content p ≡ some bytes) here content_,
      loaded iree g handle bytes r r' load,
    )
