-- ===== src/Graph/Artifact.antt =====
-- graph/graph.h: the compiled artifact of a graph and its cache.
pub mod Laws
pub mod Stale
use fusilli.Base.{
  ℕ, Bool, true, false, not, Option, none, some, List, ◌∷◌, if◌then◌else◌, Text, codes, texts_eq,
  Outcome, ok, error, fault, ErrorCode, file_system_failure, ◌>>=◌,
}
use fusilli.Backend.{Backend}
use fusilli.Backend.Session.{
  CompilerApi, CompileContext, CompileSession, Library, create_context, build_session,
  session_to_string, build_command, execute_command,
}
use fusilli.Backend.Compile.{execute_session}
use fusilli.Support.Disk.{Disk, Io, follow, ◌>>>◌, pure, fail, lift}
use fusilli.Support.Cache.{
  CacheFile, CachedAssets, CachedAssetsType, create, open_, write, read, read_file_bytes, get_path,
  holding, assign_assets,
}
use fusilli.Support.Shell

abbrev pub input_filename : Text
input_filename = codes "iree-compile-input.mlir"

abbrev pub output_filename : Text
output_filename = codes "iree-compile-output.vmfb"

abbrev pub command_filename : Text
command_filename = codes "iree-compile-command.txt"

abbrev pub statistics_filename : Text
statistics_filename = codes "iree-compile-statistics.json"

-- What the code reads from its environment and from the compiler: the cache directory, the path of
-- `iree-compile`, the flags of each backend, the choice of `checkCompileBackendEnv`, the shell, and
-- the compiler's library with the context that `CompileContext::create` gives.
pub record Environment : Type 0 where
  pub cache_dir : Text
  pub compiler : Text
  pub backend_flags : Backend → List Text
  pub use_cli : Bool
  pub system : Text → Disk → ℕ × Disk
  pub api : CompilerApi
  pub context : Outcome CompileContext

-- The command line that is compared with the cached one.
unfoldable pub command_text :
    Environment → Backend → CacheFile → CacheFile → CacheFile → Outcome Text
unfolding build_session session_to_string build_command Shell.to_string
command_text env backend input output statistics =
    if env.use_cli
    then ok (
        Shell.to_string
          (build_command env.compiler env.backend_flags backend input output statistics))
    else (env.context >>= λ context.
        build_session env.api context env.backend_flags backend input output statistics
        >>= λ session. ok (session_to_string env.compiler session))

-- The part of `generateCompiledArtifact` that runs the compiler.
unfoldable pub run_compiler : Environment → Backend → CachedAssets → Io (Unit {0})
unfolding build_session session_to_string build_command Shell.to_string execute_command
    execute_session write
run_compiler env backend assets =
    if env.use_cli
    then (let args =
          build_command env.compiler env.backend_flags backend assets.input assets.output
            assets.statistics in
        write (Shell.to_string args) assets.command >>> λ _. execute_command env.system args)
    else (lift (
          env.context >>= λ context.
          build_session env.api context env.backend_flags backend assets.input assets.output
            assets.statistics)
        >>> λ session. write (session_to_string env.compiler session) assets.command >>> λ _.
            execute_session env.api session)

-- Every early return destroys the files that are made by then.
unfoldable pub generate_compiled_artifact :
    Environment → Text → Backend → Text → Bool → Io CachedAssets
unfolding create holding write run_compiler
generate_compiled_artifact env name backend asm remove_ =
    create env.cache_dir name input_filename remove_ >>> λ input. holding input (
      create env.cache_dir name output_filename remove_ >>> λ output. holding output (
        create env.cache_dir name command_filename remove_ >>> λ command. holding command (
          create env.cache_dir name statistics_filename remove_ >>> λ statistics.
          holding statistics (
            let assets : CachedAssets = record {
              input = input;
              output = output;
              command = command;
              statistics = statistics;
            } in
            write asm input >>> λ _. run_compiler env backend assets >>> λ _. pure assets))))

unfoldable pub same_path : Environment → Text → Text → CacheFile → Bool
unfolding get_path texts_eq
same_path env name file_name file = texts_eq file.path (get_path env.cache_dir name file_name)

-- The second half of `validateCache`: the four files are opened, and two are compared.
unfoldable pub check_files : Environment → Text → Backend → Text → Io Bool
unfolding open_ read command_text texts_eq
check_files env name backend asm = open_ env.cache_dir name input_filename >>> λ input.
    open_ env.cache_dir name output_filename >>> λ output.
    open_ env.cache_dir name command_filename >>> λ command.
    open_ env.cache_dir name statistics_filename >>> λ statistics. read input >>> λ input_contents.
    if not (texts_eq input_contents asm)
    then pure false
    else (lift (command_text env backend input output statistics) >>> λ cmd_string.
        read command >>> λ command_contents. pure (texts_eq command_contents cmd_string))

unfoldable pub validate_cache : Environment → Text → Option CachedAssets → Backend → Text → Io Bool
unfolding same_path check_files
validate_cache env name none backend asm = pure false
validate_cache env name (some cache) backend asm =
    if not (same_path env name input_filename cache.input)
    then pure false
    else if not (same_path env name output_filename cache.output)
    then pure false
    else if not (same_path env name command_filename cache.command)
    then pure false
    else if not (same_path env name statistics_filename cache.statistics)
    then pure false
    else check_files env name backend asm

-- What `getCompiledArtifact` gives: the path of the artifact, the cache, and whether it was made anew.
abbrev pub Artifact : Type 0
Artifact = Text × CachedAssets × Bool

-- `cache_ = std::move(generatedCache)`, and the return after it.
unfoldable pub replace_cache : Option CachedAssets → CachedAssets → Io Artifact
unfolding assign_assets
replace_cache cache made d =
    let assigned = assign_assets cache made d in
    (ok (assigned.0.output.path, assigned.0, true), assigned.1)

unfoldable pub serve : Option CachedAssets → Io Artifact → Bool → Io Artifact
serve cache regenerate false = regenerate
serve (some old) regenerate true = pure (old.output.path, old, false)
serve none regenerate true = lift fault

unfoldable pub get_compiled_artifact :
    Environment → Text → Option CachedAssets → Backend → Text → Bool → Io Artifact
unfolding validate_cache generate_compiled_artifact replace_cache serve
get_compiled_artifact env name cache backend asm remove_ =
    validate_cache env name cache backend asm
    >>> serve cache
        (generate_compiled_artifact env name backend asm remove_ >>> replace_cache cache)

unfoldable pub read_compilation_cache_file : Option CachedAssets → CachedAssetsType → Io Text
unfolding read
read_compilation_cache_file none type = fail file_system_failure
read_compilation_cache_file (some cache) CachedAssetsType.input = read cache.input
read_compilation_cache_file (some cache) CachedAssetsType.command = read cache.command
read_compilation_cache_file (some cache) CachedAssetsType.output = read cache.output
read_compilation_cache_file (some cache) CachedAssetsType.statistics = read cache.statistics
