-- ===== src/Backend/Session.antt =====
-- backend/compile_session.h and backend/compile_command.h: the two ways to run the compiler. The
-- functions of the compiler's library are the record `CompilerApi`.
pub mod Laws
use fusilli.Base.{
  ℕ, zero, suc, Bool, true, false, not, Option, none, some, List, [], ◌∷◌, ◌++◌, is_empty,
  if◌then◌else◌, Text, codes, Outcome, ok, error, fault, ErrorCode, compile_failure, ◌>>=◌, ◌>>◌,
  error_if, internal_error, ltb, ◌!=◌,
}
use fusilli.Backend.{Backend}
use fusilli.Support.Disk.{Disk, Io, exists, follow, ◌>>>◌, pure, fail_if}
use fusilli.Support.Cache.{CacheFile, write}
use fusilli.Support.Shell.{space, newline, escape_argument}
use fusilli.Support.Shell

-- What the library answers: whether a call gives an error or a null pointer, and what the compiler
-- leaves on the disk.
pub record CompilerApi : Type 0 where
  pub session_create : Bool
  pub session_set_flags : Text → Bool
  pub invocation_create : Bool
  pub source_open_file : Text → Disk → Bool
  pub invocation_parse_source : Text → Disk → Bool
  pub invocation_pipeline : List Text → Text → Disk → Bool
  pub output_open_file : Text → Disk → Bool × Disk
  pub output_vm_bytecode : List Text → Text → Text → Disk → Bool × Disk

-- The library as `CompileContext` has it: how many of its symbols are loaded, and whether
-- `ireeCompilerGlobalInitialize` was called.
pub record CompileContext : Type 0 where
  pub symbols : ℕ
  pub initialized : Bool

-- The number of symbols that `loadSymbols` asks for, and the places of two of them.
abbrev pub symbol_count : ℕ
symbol_count = 20

abbrev pub session_create_symbol : ℕ
session_create_symbol = 6

abbrev pub session_set_flags_symbol : ℕ
session_set_flags_symbol = 8

-- What the dynamic loader finds: the library, and each symbol of it.
pub record Library : Type 0 where
  pub found : Bool
  pub has_symbol : ℕ → Bool

-- `loadSymbols`: each symbol that is found is stored, up to the first that is not.
unfoldable pub load_symbols : Library → ℕ → ℕ → CompileContext → Outcome (Unit {0}) × CompileContext
load_symbols lib first zero context = (ok tt, context)
load_symbols lib first (suc count) context = elim (lib.has_symbol first) [
  | true ↦ load_symbols lib (suc first) count (record context { symbols = suc first })
  | false ↦ (error internal_error, context)
]

-- The end of `create`, after `loadSymbols`: the context stays in `globalInstance` after an error too.
unfoldable pub initialize :
    Outcome (Unit {0}) × CompileContext → Outcome CompileContext × Option CompileContext
initialize (ok _, context) =
    let ready = record context { initialized = true } in (ok ready, some ready)
initialize (error e, context) = (error e, some context)
initialize (fault, context) = (fault, some context)

-- `CompileContext::create`, with `globalInstance` before and after.
unfoldable pub create_context :
    Library → Option CompileContext → Outcome CompileContext × Option CompileContext
unfolding load_symbols initialize
create_context lib (some context) = (ok context, some context)
create_context lib none =
    if not lib.found
    then (error compile_failure, none)
    else initialize (load_symbols lib 0 symbol_count (record { symbols = 0; initialized = false }))

-- A call through a pointer of the context, which is null while the symbol is not loaded.
unfoldable pub call_symbol : CompileContext → ℕ → Outcome (Unit {0})
call_symbol context symbol = if ltb symbol context.symbols then ok tt else fault

pub record CompileSession : Type 0 where
  pub backend : Backend
  pub input_path : Text
  pub output_path : Text
  pub flags : List Text

unfoldable pub add_flag :
    CompilerApi → CompileContext → Text → CompileSession → Outcome CompileSession
unfolding call_symbol
add_flag api context flag session = do
  call_symbol context session_set_flags_symbol
  error_if (api.session_set_flags flag) compile_failure
  ok (record session { flags = session.flags ++ flag ∷ [] })

unfoldable pub add_flags :
    CompilerApi → CompileContext → List Text → CompileSession → Outcome CompileSession
unfolding add_flag
add_flags api context [] session = ok session
add_flags api context (flag ∷ flags) session =
    add_flag api context flag session >>= add_flags api context flags

unfoldable pub create_session :
    CompilerApi → CompileContext → (Backend → List Text) → Backend → Outcome CompileSession
unfolding call_symbol add_flags
create_session api context get_backend_flags backend = do
  call_symbol context session_create_symbol
  error_if (not api.session_create) compile_failure
  add_flags api context (get_backend_flags backend)
      (record { backend = backend; input_path = []; output_path = []; flags = [] })

abbrev pub statistics_format : Text
statistics_format = codes "--iree-scheduling-dump-statistics-format=json"

abbrev pub statistics_file : Text → Text
statistics_file path = codes "--iree-scheduling-dump-statistics-file=" ++ path

-- `CompileSession::build` after `CompileContext::create` has given the context.
unfoldable pub build_session :
    CompilerApi
    → CompileContext
    → (Backend → List Text)
    → Backend
    → CacheFile
    → CacheFile
    → CacheFile
    → Outcome CompileSession
unfolding create_session add_flag
build_session api context get_backend_flags backend input output statistics = do
  session ← create_session api context get_backend_flags backend
  session₁ ← add_flag api context statistics_format session
  session₂ ← add_flag api context (statistics_file statistics.path) session₁
  ok (record session₂ { input_path = input.path; output_path = output.path })

unfoldable pub flags_to_string : List Text → Text
unfolding escape_argument
flags_to_string [] = []
flags_to_string (flag ∷ flags) = space ∷ escape_argument flag ++ flags_to_string flags

-- `CompileSession::toString`, with the path of `iree-compile`.
unfoldable pub session_to_string : Text → CompileSession → Text
unfolding flags_to_string escape_argument
session_to_string compiler session =
    escape_argument compiler
    ++ (if is_empty session.input_path then [] else space ∷ escape_argument session.input_path)
    ++ flags_to_string session.flags
    ++ (if is_empty session.output_path
        then []
        else space ∷ codes "-o" ++ space ∷ escape_argument session.output_path)
    ++ newline ∷ []

-- `CompileCommand::build`
unfoldable pub build_command :
    Text → (Backend → List Text) → Backend → CacheFile → CacheFile → CacheFile → List Text
build_command compiler get_backend_flags backend input output statistics =
    compiler ∷ input.path ∷ get_backend_flags backend
    ++ statistics_format ∷ statistics_file statistics.path ∷ codes "-o" ∷ output.path ∷ []

-- `CompileCommand::execute`, where `system` runs a shell and gives its exit code.
unfoldable pub execute_command : (Text → Disk → ℕ × Disk) → List Text → Io (Unit {0})
unfolding Shell.to_string
execute_command system args d =
    let (code, d') = system (Shell.to_string args) d in (error_if (code != 0) compile_failure, d')
