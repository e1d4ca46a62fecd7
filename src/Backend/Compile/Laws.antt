-- ===== src/Backend/Compile/Laws.antt =====
-- backend/compile_session.h: every end of `CompileSession::compile` gives back what it took.
use fusilli.Base.{
  ◌≡◌, refl, Bool, Bool-cases, inl, inr, true, false, Option, none, some, List, [], ◌∷◌,
  if◌then◌else◌, arith, Text, ok,
}
use fusilli.Support.Disk.{Disk}
use fusilli.Backend.Session.{CompilerApi}
use fusilli.Backend.Compile.{Resource, Call, is_written, finish, compile}

-- Which objects are held.
pub record Held : Type 0 where
  pub invocation : Bool
  pub source : Bool
  pub output : Bool
  pub failure : Bool

abbrev pub nothing : Held
nothing = record { invocation = false; source = false; output = false; failure = false }

abbrev pub holds : Resource → Held → Bool
holds Resource.invocation h = h.invocation
holds Resource.source h = h.source
holds Resource.output h = h.output
holds Resource.failure h = h.failure

abbrev pub set_held : Resource → Bool → Held → Held
set_held Resource.invocation b h = record h { invocation = b }
set_held Resource.source b h = record h { source = b }
set_held Resource.output b h = record h { output = b }
set_held Resource.failure b h = record h { failure = b }

-- A call that is right for what is held: an object is made while there is none, and destroyed or kept
-- while it is there.
abbrev pub call_once : Call → Held → Option Held
call_once (Call.make r) h = if holds r h then none else some (set_held r true h)
call_once (Call.destroy r) h = if holds r h then some (set_held r false h) else none
call_once Call.keep h = if h.output then some h else none

abbrev pub call_all : List Call → Held → Option Held
call_all [] h = some h
call_all (c ∷ cs) h = elim (call_once c h) [ none ↦ none | some h' ↦ call_all cs h' ]

finish-releases :
    (output_path : Text) (written : Bool) (d : Disk)
    → call_all
        (finish output_path written d).2
        (record nothing { invocation = true; output = true })
      ≡ some nothing
unfolding finish
finish-releases path false d = refl
finish-releases path true d = elim (Bool-cases (is_written path d)) [
  | inl e ↦ rw e refl
  | inr e ↦ rw e refl
]

-- On every path, errors included, `compile` destroys each invocation, source, output and error object
-- that it made, each once and after it was made.
pub compile-releases :
    (api : CompilerApi) (flags : List Text) (input_path output_path : Text) (d : Disk)
    → call_all (compile api flags input_path output_path d).2 nothing ≡ some nothing
unfolding compile
compile-releases api flags input_path output_path d =
    let opened = api.output_open_file output_path d in
    let bytecode = api.output_vm_bytecode flags input_path output_path opened.1 in
    let ends = finish-releases output_path bytecode.0 bytecode.1 in
    elim (Bool-cases api.invocation_create) [
      | inr e ↦ rw e refl
      | inl e ↦ rw e elim (Bool-cases (api.source_open_file input_path d)) [
        | inr e₁ ↦ rw e₁ refl
        | inl e₁ ↦ rw e₁ elim (Bool-cases (api.invocation_parse_source input_path d)) [
          | inr e₂ ↦ rw e₂ refl
          | inl e₂ ↦ rw e₂ elim (Bool-cases (api.invocation_pipeline flags input_path d)) [
            | inr e₃ ↦ rw e₃ refl
            | inl e₃ ↦
                rw e₃ elim (Bool-cases opened.0) [ inr e₄ ↦ rw e₄ refl | inl e₄ ↦ rw e₄ ends ]
          ]
        ]
      ]
    ]

-- `compile` reports success only if every stage succeeded, and the output file is there and not empty.
pub compile-ok :
    (api : CompilerApi) (flags : List Text) (input_path output_path : Text) (d : Disk)
    → (compile api flags input_path output_path d).0 ≡ ok tt
    → (api.invocation_create ≡ true)
      × (api.source_open_file input_path d ≡ true)
      × (api.invocation_parse_source input_path d ≡ true)
      × (api.invocation_pipeline flags input_path d ≡ true)
      × ((api.output_open_file output_path d).0 ≡ true)
      × (is_written output_path (compile api flags input_path output_path d).1 ≡ true)
unfolding compile finish
compile-ok api flags input_path output_path d h = ground arith
