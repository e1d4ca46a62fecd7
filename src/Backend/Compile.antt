-- ===== src/Backend/Compile.antt =====
-- backend/compile_session.h: `CompileSession::compile`, with a record of the objects that it makes and
-- destroys through the compiler's library. All symbols are taken to be loaded.
pub mod Laws
use fusilli.Base.{
  ℕ, ◌==◌, Bool, true, false, not, Option, none, some, List, [], ◌∷◌, ◌++◌, is_empty, if◌then◌else◌,
  Text, Outcome, ok, error, ErrorCode, compile_failure,
}
use fusilli.Support.Disk.{Disk, Io}
use fusilli.Backend.Session.{CompilerApi, CompileSession}

pub data Resource : Type 0 where
  invocation source output failure : Resource

pub data Call : Type 0 where
  make destroy : Resource → Call
  -- `ireeCompilerOutputKeep`
  keep : Call

abbrev failed : List Call → Disk → Outcome (Unit {0}) × Disk × List Call
failed calls d = (error compile_failure, d, calls)

-- `destroyError`, after the message has been read.
abbrev drop_error : List Call
drop_error = make Resource.failure ∷ destroy Resource.failure ∷ []

abbrev pub is_written : Text → Disk → Bool
is_written path d = elim (d.content path) [ none ↦ false | some text ↦ not (is_empty text) ]

-- The end of `compile`, after the bytecode is written with or without an error.
unfoldable pub finish : Text → Bool → Disk → Outcome (Unit {0}) × Disk × List Call
finish output_path written d =
    let close = keep ∷ destroy Resource.output ∷ destroy Resource.invocation ∷ [] in
    if not written
    then failed (make Resource.failure ∷ close ++ destroy Resource.failure ∷ []) d
    else if not (is_written output_path d)
    then failed close d
    else (ok tt, d, close)

unfoldable pub compile :
    CompilerApi → List Text → Text → Text → Disk → Outcome (Unit {0}) × Disk × List Call
unfolding finish
compile api flags input_path output_path d =
    if not api.invocation_create
    then failed [] d
    else if not (api.source_open_file input_path d)
    then failed (make Resource.invocation ∷ drop_error ++ destroy Resource.invocation ∷ []) d
    else if not (api.invocation_parse_source input_path d)
    then failed
        (make Resource.invocation
          ∷ make Resource.source
          ∷ destroy Resource.source
          ∷ destroy Resource.invocation
          ∷ [])
        d
    else if not (api.invocation_pipeline flags input_path d)
    then failed
        (make Resource.invocation
          ∷ make Resource.source
          ∷ destroy Resource.source
          ∷ destroy Resource.invocation
          ∷ [])
        d
    else let opened = api.output_open_file output_path d in
      let start = make Resource.invocation ∷ make Resource.source ∷ destroy Resource.source ∷ [] in
      if not opened.0
      then failed (start ++ drop_error ++ destroy Resource.invocation ∷ []) opened.1
      else let bytecode = api.output_vm_bytecode flags input_path output_path opened.1 in
        let last = finish output_path bytecode.0 bytecode.1 in
        (last.0, last.1, start ++ make Resource.output ∷ last.2)

-- `CompileSession::execute`
unfoldable pub execute_session : CompilerApi → CompileSession → Io (Unit {0})
unfolding compile
execute_session api session d =
    let r = compile api session.flags session.input_path session.output_path d in (r.0, r.1)
