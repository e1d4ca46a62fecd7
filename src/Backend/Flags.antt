-- ===== src/Backend/Flags.antt =====
-- backend/backend.h: the flags of the compiler. `FUSILLI_EXTRA_COMPILER_FLAGS` and the ROCm target are
-- arguments.
pub mod Laws
use fusilli.Base.{
  ℕ, ◌==◌, Bool, true, false, ◌||◌, ◌&&◌, leb, Option, none, some, List, [], ◌∷◌, ◌++◌, is_empty,
  if◌then◌else◌, Text, codes,
}
use fusilli.Backend.{Backend}

abbrev is_blank : ℕ → Bool
is_blank c = c == 32 || leb 9 c && leb c 13

-- Where `stream >> std::quoted(token)` is: before a token, in one without quotes, between quotes, or
-- after a backslash between quotes.
pub data Reading : Type 0 where
  outside plain quoted escaped : Reading

-- The loop `while (iss >> std::quoted(token))`, with the token as it is read so far. An empty token is
-- left out; a token that is not closed ends the loop.
unfoldable pub read_tokens : Reading → Text → Text → List Text
read_tokens Reading.outside token [] = []
read_tokens Reading.plain token [] = token ∷ []
read_tokens Reading.quoted token [] = []
read_tokens Reading.escaped token [] = []
read_tokens Reading.outside token (c ∷ cs) = elim (is_blank c) [
  | true ↦ read_tokens Reading.outside [] cs
  | false ↦ elim (c == 34) [
    | true ↦ read_tokens Reading.quoted [] cs
    | false ↦ read_tokens Reading.plain (c ∷ []) cs
  ]
]
read_tokens Reading.plain token (c ∷ cs) = elim (is_blank c) [
  | true ↦ token ∷ read_tokens Reading.outside [] cs
  | false ↦ read_tokens Reading.plain (token ++ c ∷ []) cs
]
read_tokens Reading.quoted token (c ∷ cs) = elim (c == 34) [
  | true ↦
      let rest = read_tokens Reading.outside [] cs in if is_empty token then rest else token ∷ rest
  | false ↦ elim (c == 92) [
    | true ↦ read_tokens Reading.escaped token cs
    | false ↦ read_tokens Reading.quoted (token ++ c ∷ []) cs
  ]
]
read_tokens Reading.escaped token (c ∷ cs) = read_tokens Reading.quoted (token ++ c ∷ []) cs

unfoldable pub parse_compiler_flags : Option Text → List Text
unfolding read_tokens
parse_compiler_flags none = []
parse_compiler_flags (some flags_str) = read_tokens Reading.outside [] flags_str

abbrev cpu_flags : List Text
cpu_flags =
    codes "--iree-hal-target-backends=llvm-cpu"
    ∷ codes "--iree-llvmcpu-target-cpu=host"
    ∷ codes "--iree-torch-externalize-transients"
    ∷ []

abbrev amdgpu_flags : Text → List Text
amdgpu_flags rocm_target =
    codes "--iree-hal-target-backends=rocm"
    ∷ (codes "--iree-rocm-target=" ++ rocm_target)
    ∷ codes "--iree-opt-level=O3"
    ∷ codes
        "--iree-preprocessing-pass-pipeline=builtin.module(iree-preprocessing-backward-data-conv-pipeline)"
    ∷ codes "--iree-flow-enable-pad-handling"
    ∷ codes "--iree-global-opt-propagate-transposes-through-conv"
    ∷ codes "--iree-global-opt-enable-sink-transpose-through-pad"
    ∷ codes "--iree-dispatch-creation-enable-fuse-padding-into-linalg-consumer-ops"
    ∷ codes "--iree-dispatch-creation-enable-aggressive-reshape-movement"
    ∷ codes "--iree-dispatch-creation-enable-split-reduction"
    ∷ codes "--iree-torch-externalize-transients"
    ∷ []

unfoldable pub get_backend_flags : Option Text → Text → Backend → List Text
unfolding parse_compiler_flags
get_backend_flags extra_flags rocm_target Backend.cpu =
    cpu_flags ++ parse_compiler_flags extra_flags
get_backend_flags extra_flags rocm_target Backend.amdgpu =
    amdgpu_flags rocm_target ++ parse_compiler_flags extra_flags
