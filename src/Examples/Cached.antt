-- ===== src/Examples/Cached.antt =====
-- A cache that is valid, and one whose files a failed compilation has removed.
use fusilli.Base.{
  ℕ, ◌≡◌, refl, ◌↔◌, true, none, false, some, List, [], ◌∷◌, Text, codes, Outcome, ok, error,
  file_system_failure, compile_failure,
}
use fusilli.Backend.{Backend}
use fusilli.Support.Shell
use fusilli.Support.Disk.{Disk}
use fusilli.Support.Cache.{CacheFile, CachedAssets}
use fusilli.Graph.Artifact.{
  Environment, input_filename, output_filename, command_filename, statistics_filename,
  validate_cache, get_compiled_artifact, Artifact,
}
use fusilli.Graph.Artifact.Laws.{
  AtPaths, AllExist, Reads, cached_path, current_command, validate_cache_iff,
}
use fusilli.Graph.Artifact.Stale.{Request, call_all, get_compiled_artifact-stale}
use fusilli.Examples.Targets.{compiler_api, empty_disk, context}

-- A shell that gives the exit code `code` and changes no file.
abbrev pub env : ℕ → Environment
env code = record {
  cache_dir = codes "/c";
  compiler = codes "iree-compile";
  backend_flags = λ b. codes "-f" ∷ [];
  use_cli = true;
  system = λ line d. (code, d);
  api = compiler_api;
  context = ok context;
}

abbrev name : Text
name = codes "my graph"

abbrev file : Text → CacheFile
file file_name = record { path = cached_path (env 0) name file_name; remove_ = true }

abbrev cache : CachedAssets
cache = record {
  input = file input_filename;
  output = file output_filename;
  command = file command_filename;
  statistics = file statistics_filename;
}

-- A compilation that succeeds.
abbrev first_run : Outcome Artifact × Disk
first_run = get_compiled_artifact (env 0) name none Backend.cpu (codes "asm") true empty_disk

validate_cache_example :
    ((validate_cache (env 0) name (some cache) Backend.cpu (codes "asm") first_run.1
        ≡ (ok true, first_run.1))
      ↔ (AtPaths (env 0) name cache
          × AllExist (env 0) name first_run.1
          × Reads (env 0) name first_run.1 input_filename (codes "asm")
          × ((command : Text) × (current_command (env 0) name Backend.cpu ≡ ok command)
              × Reads (env 0) name first_run.1 command_filename command)))
    × ((validate_cache (env 0) name (some cache) Backend.cpu (codes "asm") first_run.1).1
        ≡ first_run.1)
validate_cache_example = validate_cache_iff (env 0) name cache Backend.cpu (codes "asm") first_run.1

-- The cache of that compilation is valid.
hit : (validate_cache (env 0) name (some cache) Backend.cpu (codes "asm") first_run.1).0 ≡ ok true
unfolding validate_cache get_compiled_artifact Shell.interleave Shell.needs_shell_quoting
    Shell.is_in Shell.interleave_next
hit = refl

-- Another for other assembly, which fails, and one more, for which the compiler would succeed.
abbrev second_run : Outcome Artifact × Disk
second_run =
    get_compiled_artifact (env 1) name (some cache) Backend.cpu (codes "new") true first_run.1

abbrev third_run : Outcome Artifact × Disk
third_run =
    get_compiled_artifact (env 0) name (some cache) Backend.cpu (codes "new") true second_run.1

-- Two more calls, in which the compiler would succeed.
abbrev requests : List Request
requests =
    record { environment = env 0; backend = Backend.cpu; asm = codes "new"; remove_ = true }
    ∷ record { environment = env 0; backend = Backend.cpu; asm = codes "asm"; remove_ = false }
    ∷ []

out_of_date :
    validate_cache (env 1) name (some cache) Backend.cpu (codes "new") first_run.1
    ≡ (ok false, first_run.1)
unfolding validate_cache get_compiled_artifact
out_of_date = refl

failed : second_run ≡ (error compile_failure, second_run.1)
unfolding get_compiled_artifact
failed = refl

get_compiled_artifact_example :
    call_all (env 1) name requests (some cache) second_run.1
    ≡ (error file_system_failure ∷ error file_system_failure ∷ [], some cache, second_run.1)
unfolding get_compiled_artifact
get_compiled_artifact_example =
    get_compiled_artifact-stale (env 1) name cache Backend.cpu (codes "new") requests
      compile_failure first_run.1 second_run.1 (refl, refl, refl, refl) refl refl out_of_date failed

-- The second removes the files that the cache remembers, and the third reports that they are gone.
runs :
    (first_run.0 ≡ ok ((file output_filename).path, cache, true))
    × (second_run.0 ≡ error compile_failure)
    × (third_run.0 ≡ error file_system_failure)
unfolding get_compiled_artifact
runs = (refl, refl, refl)
