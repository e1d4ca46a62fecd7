-- ===== src/Graph/Artifact/Stale.antt =====
-- graph/graph.h: a cache whose files a failed compilation has removed.
use fusilli.Base.{
  ◌≡◌, refl, Bool, true, false, Option, some, List, [], ◌∷◌, map, is_empty, if◌then◌else◌, Text,
  texts_eq_iff, texts_eq_refl, Outcome, ok, error, fault, ErrorCode, file_system_failure, codes,
  arith, ◌//◌,
}
use fusilli.Backend.{Backend}
use fusilli.Support.Disk.{Disk, exists, remove, follow}
use fusilli.Support.Cache.{
  CacheFile, CachedAssets, create, destroy, holding, leave, get_path, sanitize, parent_path,
}
use fusilli.Graph.Artifact.{
  Environment, Artifact, input_filename, output_filename, command_filename, statistics_filename,
  same_path, check_files, validate_cache, get_compiled_artifact, generate_compiled_artifact,
  replace_cache, serve,
}
use fusilli.Graph.Artifact.Laws.{AtPaths, cached_path, open_-eq}

-- What a call of `getCompiledArtifact` is given, and the environment that it finds, of which only the
-- cache directory is that of the calls before.
pub record Request : Type 0 where
  pub environment : Environment
  pub backend : Backend
  pub asm : Text
  pub remove_ : Bool

-- The cache that the graph has after a call: an early return leaves it as it was.
abbrev pub cache_after : Option CachedAssets → Outcome Artifact → Option CachedAssets
cache_after cache (ok (path, made, anew)) = some made
cache_after cache (error e) = cache
cache_after cache fault = cache

abbrev pub found : Environment → Request → Environment
found env r = record r.environment { cache_dir = env.cache_dir }

-- Calls of `getCompiledArtifact` one after the other: their results, and the cache and the disk at the
-- end.
abbrev pub call_all :
    Environment
    → Text
    → List Request
    → Option CachedAssets
    → Disk
    → List (Outcome Artifact) × Option CachedAssets × Disk
call_all env name [] cache d = ([], cache, d)
call_all env name (r ∷ rs) cache d =
    let call = get_compiled_artifact (found env r) name cache r.backend r.asm r.remove_ d in
    let rest = call_all env name rs (cache_after cache call.0) call.1 in
    (call.0 ∷ rest.0, rest.1, rest.2)

-- One call, when the input file is gone.
one_call :
    (env : Environment) (name : Text) (cache : CachedAssets) (backend : Backend) (asm : Text)
    (remove_ : Bool) (d : Disk)
    → AtPaths env name cache
    → exists (cached_path env name input_filename) d ≡ false
    → get_compiled_artifact env name (some cache) backend asm remove_ d
      ≡ (error file_system_failure, d)
unfolding get_compiled_artifact validate_cache same_path check_files
one_call env name cache backend asm remove_ d (p₁, p₂, p₃, p₄) gone =
    let s₁ = (texts_eq_iff cache.input.path (cached_path env name input_filename)).1 p₁ in
    let s₂ = (texts_eq_iff cache.output.path (cached_path env name output_filename)).1 p₂ in
    let s₃ = (texts_eq_iff cache.command.path (cached_path env name command_filename)).1 p₃ in
    let s₄ = (texts_eq_iff cache.statistics.path (cached_path env name statistics_filename)).1 p₄ in
    rw (s₁, s₂, s₃, s₄, open_-eq env name input_filename d, gone) refl

module _ (env : Environment) (name : Text) where
  all_calls :
      (cache : CachedAssets) (rs : List Request) (d : Disk)
      → AtPaths env name cache
      → exists (cached_path env name input_filename) d ≡ false
      → call_all env name rs (some cache) d
        ≡ (map (λ _. error file_system_failure) rs, some cache, d)
  all_calls cache [] d paths gone = refl
  all_calls cache (r ∷ rs) d paths gone =
      rw
        (
          one_call (found env r) name cache r.backend r.asm r.remove_ d paths gone,
          all_calls cache rs d paths gone,
        )
        refl

  -- The name of a file is never empty.
  is_empty-join : (a b : Text) → is_empty b ≡ false → is_empty (a // b) ≡ false
  unfolding ◌//◌
  is_empty-join [] b h = h
  is_empty-join (c ∷ cs) b h = ground arith

  is_empty-cached_path : is_empty (cached_path env name input_filename) ≡ false
  unfolding get_path
  is_empty-cached_path =
      is_empty-join
        (env.cache_dir
          // (if is_empty (sanitize name) then codes "unnamed_graph" else sanitize name))
        input_filename refl

  destroyed :
      (file : CacheFile) (d : Disk)
      → file.remove_ ≡ true
      → is_empty file.path ≡ false
      → exists file.path (destroy file d) ≡ false
  unfolding destroy remove exists
  destroyed file d e set = rw (e, set, texts_eq_refl file.path) refl

  leave-error {ℓ} :
      {A : Type ℓ} (release : Disk → Disk) (m : Outcome A × Disk) (e : ErrorCode) (d : Disk)
      → leave release m ≡ (error e, d)
      → d ≡ release m.1
  leave-error release (ok a, d') e d h = cc
  leave-error release (error x, d') e d h = cc
  leave-error release (fault, d') e d h = cc

  -- A compilation that fails after its input file was made has removed it.
  failed_compilation :
      (backend : Backend) (asm : Text) (e : ErrorCode) (d d' : Disk)
      → d.can_make_directory (parent_path (cached_path env name input_filename)) ≡ true
      → d.can_open (cached_path env name input_filename) ≡ true
      → generate_compiled_artifact env name backend asm true d ≡ (error e, d')
      → exists (cached_path env name input_filename) d' ≡ false
  unfolding generate_compiled_artifact create holding
  failed_compilation backend asm e d d' directory can_open h =
      let made = rw (directory, can_open) at h in
      let file : CacheFile = record {
        path = cached_path env name input_filename;
        remove_ = true;
      } in
      let end = leave-error (destroy file) _ e d' made in
      rw end (destroyed file _ refl is_empty-cached_path)

  replaced :
      (cache : Option CachedAssets) (m : Outcome CachedAssets × Disk) (e : ErrorCode) (d' : Disk)
      → follow m (replace_cache cache) ≡ (error e, d')
      → m ≡ (error e, d')
  unfolding replace_cache
  replaced cache (ok made, d) e d' h = cc
  replaced cache (error x, d) e d' h = cc
  replaced cache (fault, d) e d' h = cc

  -- When the files of the cache of a graph are found to be out of date, and the compilation that is to
  -- replace them makes its input file but fails, with removal asked for, then no later call makes the
  -- artifact anew while the graph keeps its name and the cache directory is the same: in any sequence of
  -- further calls, for whatever backends and assemblies and also where the compiler would succeed, each
  -- reports a file system failure, and the cache and the disk stay as they are.
  pub get_compiled_artifact-stale :
      (cache : CachedAssets) (backend : Backend) (asm : Text) (rs : List Request) (e : ErrorCode)
      (d d' : Disk)
      → AtPaths env name cache
      → d.can_make_directory (parent_path (cached_path env name input_filename)) ≡ true
      → d.can_open (cached_path env name input_filename) ≡ true
      → validate_cache env name (some cache) backend asm d ≡ (ok false, d)
      → get_compiled_artifact env name (some cache) backend asm true d ≡ (error e, d')
      → call_all env name rs (some cache) d'
        ≡ (map (λ _. error file_system_failure) rs, some cache, d')
  unfolding get_compiled_artifact serve
  get_compiled_artifact-stale cache backend asm rs e d d' paths directory can_open out_of_date
        failed =
      let h = replaced (some cache) _ e d' (rw out_of_date at failed) in
      all_calls cache rs d' paths (failed_compilation backend asm e d d' directory can_open h)
