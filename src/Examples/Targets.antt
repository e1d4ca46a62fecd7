-- ===== src/Examples/Targets.antt =====
-- Targets, flags and the compiler's library.
use fusilli.Base.{
  ◌≡◌, refl, true, false, ◌⊎◌, none, some, [], ◌∷◌, map, All, Text, codes, ok, error, fault,
  internal_error, ltb, arith,
}
use fusilli.Backend.{Backend}
use fusilli.Backend.Target.{sku_patterns, get_gpu_sku_from_marketing_name, to_upper}
use fusilli.Backend.Target.Laws.{Matches, FirstMatch, get_gpu_sku_from_marketing_name_lem}
use fusilli.Backend.Flags.{parse_compiler_flags}
use fusilli.Backend.Flags.Laws.{print_flags, parse_compiler_flags-print_flags}
use fusilli.Backend.Session.{
  CompilerApi, CompileContext, CompileSession, Library, create_context, call_symbol, build_session,
  session_to_string, build_command, add_flag, add_flags, create_session, statistics_format,
  statistics_file,
}
use fusilli.Backend.Session.Laws.{create_context-missing_symbol, session_to_string-eq-to_string}
use fusilli.Backend.Compile.{compile, is_written}
use fusilli.Backend.Compile.Laws.{nothing, call_all, compile-releases, compile-ok}
use fusilli.Support.Cache.{CacheFile}
use fusilli.Support.Disk.{Disk}
use fusilli.Support.Shell

get_gpu_sku_from_marketing_name_example :
    ((get_gpu_sku_from_marketing_name (codes "AMD Instinct mi300x OAM") ≡ [])
      × All (λ p. ¬ Matches (map to_upper (codes "AMD Instinct mi300x OAM")) p) sku_patterns)
    ⊎ FirstMatch
        (map to_upper (codes "AMD Instinct mi300x OAM"))
        sku_patterns
        (get_gpu_sku_from_marketing_name (codes "AMD Instinct mi300x OAM"))
get_gpu_sku_from_marketing_name_example =
    get_gpu_sku_from_marketing_name_lem (codes "AMD Instinct mi300x OAM")

sku_of_mi300x : get_gpu_sku_from_marketing_name (codes "AMD Instinct mi300x OAM") ≡ codes "mi300x"
unfolding get_gpu_sku_from_marketing_name
sku_of_mi300x = refl

parse_compiler_flags_example :
    parse_compiler_flags (some (print_flags (codes "--a=b c" ∷ [] ∷ codes "-d" ∷ [])))
    ≡ codes "--a=b c" ∷ codes "-d" ∷ []
parse_compiler_flags_example =
    parse_compiler_flags-print_flags (codes "--a=b c" ∷ [] ∷ codes "-d" ∷ [])

-- A library that lacks its fourth symbol.
abbrev old_library : Library
old_library = record { found = true; has_symbol = λ j. ltb j 3 }

create_context_example :
    (context : CompileContext) × (create_context old_library none
      ≡ (error internal_error, some context))
    × (create_context old_library (some context) ≡ (ok context, some context))
    × (context.initialized ≡ false)
    × (call_symbol context 3 ≡ fault)
create_context_example =
    create_context-missing_symbol old_library 3 refl (omega arith) refl (λ j h. ground arith)

-- A compiler that accepts everything and writes one byte.
abbrev pub compiler_api : CompilerApi
compiler_api = record {
  session_create = true;
  session_set_flags = λ flag. false;
  invocation_create = true;
  source_open_file = λ path d. true;
  invocation_parse_source = λ path d. true;
  invocation_pipeline = λ flags path d. true;
  output_open_file = λ path d. (true, d);
  output_vm_bytecode = λ flags i o d. (true, record d { content = λ path. some (1 ∷ []) });
}

abbrev pub empty_disk : Disk
empty_disk = record {
  content = λ path. none;
  can_make_directory = λ path. true;
  can_open = λ path. true;
  can_write = λ path. true;
  can_read = λ path. true;
}

abbrev file : Text → CacheFile
file path = record { path = path; remove_ = false }

abbrev pub context : CompileContext
context = record { symbols = 20; initialized = true }

abbrev session : CompileSession
session = record {
  backend = Backend.cpu;
  input_path = codes "i";
  output_path = codes "o";
  flags = codes "-f" ∷ statistics_format ∷ statistics_file (codes "s") ∷ [];
}

session-built :
    build_session compiler_api context
      (λ b. codes "-f" ∷ [])
      Backend.cpu
      (file (codes "i"))
      (file (codes "o"))
      (file (codes "s"))
    ≡ ok session
unfolding build_session create_session add_flags add_flag call_symbol
session-built = refl

session_to_string_example :
    session_to_string (codes "iree-compile") session
    ≡ Shell.to_string (
        build_command
          (codes "iree-compile")
          (λ b. codes "-f" ∷ [])
          Backend.cpu
          (file (codes "i"))
          (file (codes "o"))
          (file (codes "s")))
session_to_string_example =
    session_to_string-eq-to_string compiler_api context (codes "iree-compile")
      (λ b. codes "-f" ∷ []) Backend.cpu (file (codes "i")) (file (codes "o")) (file (codes "s"))
      session session-built refl refl

compile-releases_example :
    call_all (compile compiler_api [] (codes "i") (codes "o") empty_disk).2 nothing ≡ some nothing
compile-releases_example = compile-releases compiler_api [] (codes "i") (codes "o") empty_disk

compiled : (compile compiler_api [] (codes "i") (codes "o") empty_disk).0 ≡ ok tt
unfolding compile
compiled = refl

compile-ok_example :
    (compiler_api.invocation_create ≡ true)
    × (compiler_api.source_open_file (codes "i") empty_disk ≡ true)
    × (compiler_api.invocation_parse_source (codes "i") empty_disk ≡ true)
    × (compiler_api.invocation_pipeline [] (codes "i") empty_disk ≡ true)
    × ((compiler_api.output_open_file (codes "o") empty_disk).0 ≡ true)
    × (is_written (codes "o") (compile compiler_api [] (codes "i") (codes "o") empty_disk).1 ≡ true)
compile-ok_example = compile-ok compiler_api [] (codes "i") (codes "o") empty_disk compiled
