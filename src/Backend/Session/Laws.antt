-- ===== src/Backend/Session/Laws.antt =====
-- backend/compile_session.h and backend/compile_command.h: one command line for both, and what is left
-- of a library that lacks a symbol.
use fusilli.Base.{
  ℕ, zero, suc, ◌+◌, ◌≤◌, ◌<◌, ltb, ◌≡◌, refl, sym, ap, ◌∙◌, inl, inr, Bool-cases, true, false, not,
  none, some, List, [], ◌∷◌, ◌++◌, is_empty, arith, Text, codes, ok, error, fault, internal_error,
  >>=-eq-ok, ok-injective, error_if, compile_failure,
}
use mathlib.Core.List.{append_assoc, append-nil}
use fusilli.Backend.{Backend}
use fusilli.Backend.Session.{
  CompilerApi, CompileContext, CompileSession, Library, symbol_count, session_create_symbol,
  load_symbols, initialize, create_context, call_symbol, add_flag, add_flags, create_session,
  build_session, flags_to_string, session_to_string, build_command, statistics_format,
  statistics_file,
}
use fusilli.Support.Cache.{CacheFile}
use fusilli.Support.Shell.{
  space, newline, is_in, needs_shell_quoting, escape_argument, interleave, interleave_next,
}
use fusilli.Support.Shell

add_flag-flags :
    (api : CompilerApi) (context : CompileContext) (flag : Text) (s s' : CompileSession)
    → add_flag api context flag s ≡ ok s'
    → s'.flags ≡ s.flags ++ flag ∷ []
unfolding add_flag
add_flag-flags api context flag s s' h = ground arith

add_flags-flags :
    (api : CompilerApi) (context : CompileContext) (flags : List Text) (s s' : CompileSession)
    → add_flags api context flags s ≡ ok s'
    → s'.flags ≡ s.flags ++ flags
unfolding add_flags
add_flags-flags api context [] s s' h =
    ap CompileSession.flags (sym (ok-injective h)) ∙ sym (append-nil s.flags)
add_flags-flags api context (flag ∷ flags) s s' h =
    let (t, e, h') = >>=-eq-ok (add_flag api context flag s) _ h in
    add_flags-flags api context flags t s' h'
    ∙ ap (λ fs. fs ++ flags) (add_flag-flags api context flag s t e)
    ∙ append_assoc s.flags (flag ∷ []) flags

flags-next :
    (flags : List Text) (rest : List Text)
    → interleave_next escape_argument (space ∷ []) (flags ++ rest)
      ≡ flags_to_string flags ++ interleave_next escape_argument (space ∷ []) rest
unfolding interleave_next flags_to_string
flags-next [] rest = refl
flags-next (flag ∷ flags) rest = rw (flags-next flags rest) (
    ap (λ t. space ∷ t)
      (sym (
        append_assoc (escape_argument flag) (flags_to_string flags)
          (interleave_next escape_argument (space ∷ []) rest))))

option_o : escape_argument (codes "-o") ≡ codes "-o"
unfolding escape_argument needs_shell_quoting is_in
option_o = refl

same_line :
    (c i o : Text) (flags : List Text)
    → Shell.to_string (c ∷ i ∷ flags ++ codes "-o" ∷ o ∷ [])
      ≡ escape_argument c
        ++ space ∷ escape_argument i
        ++ flags_to_string flags
        ++ space ∷ codes "-o"
        ++ space ∷ escape_argument o
        ++ newline ∷ []
unfolding Shell.to_string interleave interleave_next
same_line c i o flags =
    rw (flags-next flags (codes "-o" ∷ o ∷ []), option_o) (simp (append_assoc, append-nil))

session_lem :
    (api : CompilerApi) (context : CompileContext) (get_backend_flags : Backend → List Text)
    (backend : Backend) (input output statistics : CacheFile) (session : CompileSession)
    → build_session api context get_backend_flags backend input output statistics ≡ ok session
    → (session.input_path ≡ input.path)
      × (session.output_path ≡ output.path)
      × (session.flags
          ≡ get_backend_flags backend ++ statistics_format ∷ statistics_file statistics.path ∷ [])
unfolding build_session create_session
session_lem api context gf backend input output statistics session h =
    let (s₀, e₀, h₀) = >>=-eq-ok (create_session api context gf backend) _ h in
    let (s₁, e₁, h₁) = >>=-eq-ok (add_flag api context statistics_format s₀) _ h₀ in
    let (s₂, e₂, h₂) = >>=-eq-ok (add_flag api context (statistics_file statistics.path) s₁) _ h₁ in
    let (_, _, c₁) = >>=-eq-ok (call_symbol context session_create_symbol) _ e₀ in
    let (_, _, c₂) = >>=-eq-ok (error_if (not api.session_create) compile_failure) _ c₁ in
    let f₀ = add_flags-flags api context (gf backend) _ s₀ c₂ in
    let f₁ = add_flag-flags api context statistics_format s₀ s₁ e₁ in
    let f₂ = add_flag-flags api context (statistics_file statistics.path) s₁ s₂ e₂ in
    let same = ok-injective h₂ in
    (
      sym (ap CompileSession.input_path same),
      sym (ap CompileSession.output_path same),
      sym (ap CompileSession.flags same)
          ∙ f₂
          ∙ ap (λ fs. fs ++ statistics_file statistics.path ∷ [])
              (f₁ ∙ ap (λ fs. fs ++ statistics_format ∷ []) f₀)
          ∙ append_assoc (gf backend) (statistics_format ∷ [])
              (statistics_file statistics.path ∷ []),
    )

printed :
    (c i o : Text) (session : CompileSession)
    → session.input_path ≡ i
    → session.output_path ≡ o
    → is_empty i ≡ false
    → is_empty o ≡ false
    → session_to_string c session
      ≡ escape_argument c
        ++ space ∷ escape_argument i
        ++ flags_to_string session.flags
        ++ space ∷ codes "-o"
        ++ space ∷ escape_argument o
        ++ newline ∷ []
unfolding session_to_string
printed c i o session ei eo si so = rw (session_to_string, ei, eo, si, so) (simp append_assoc)

-- A compile session that is built for a graph's files prints the same command line as the compile
-- command for these files, provided that the paths of input and output are not empty.
pub session_to_string-eq-to_string :
    (api : CompilerApi) (context : CompileContext) (compiler : Text)
    (get_backend_flags : Backend → List Text) (backend : Backend)
    (input output statistics : CacheFile) (session : CompileSession)
    → build_session api context get_backend_flags backend input output statistics ≡ ok session
    → is_empty input.path ≡ false
    → is_empty output.path ≡ false
    → session_to_string compiler session
      ≡ Shell.to_string (build_command compiler get_backend_flags backend input output statistics)
unfolding session_to_string build_command
session_to_string-eq-to_string api context compiler gf backend input output statistics session h i
      o =
    let (ei, eo, ef) = session_lem api context gf backend input output statistics session h in
    let line = same_line compiler input.path output.path session.flags in
    let args : session.flags ++ codes "-o" ∷ output.path ∷ []
        ≡ gf backend
          ++ statistics_format ∷ statistics_file statistics.path ∷ codes "-o" ∷ output.path ∷ [] =
      ap (λ fs. fs ++ codes "-o" ∷ output.path ∷ []) ef
      ∙ append_assoc (gf backend) (statistics_format ∷ statistics_file statistics.path ∷ [])
          (codes "-o" ∷ output.path ∷ []) in
    printed compiler input.path output.path session ei eo i o
    ∙ sym line
    ∙ ap (λ rest. Shell.to_string (compiler ∷ input.path ∷ rest)) args

load_symbols-missing :
    (lib : Library) (first count : ℕ) (context : CompileContext) (k : ℕ)
    → first ≤ k
    → k < first + count
    → lib.has_symbol k ≡ false
    → ((j : ℕ) → first ≤ j → j < k → lib.has_symbol j ≡ true)
    → context.symbols ≡ first
    → load_symbols lib first count context ≡ (error internal_error, record context { symbols = k })
unfolding load_symbols
load_symbols-missing lib first zero context k low high missing there at_first = absurd (omega arith)
load_symbols-missing lib first (suc count) context k low high missing there at_first =
    elim (Bool-cases (lib.has_symbol first)) [
      | inl found ↦
          let later : suc first ≤ k = after_first found in
          rw (found, load_symbols)
            (load_symbols-missing lib (suc first) count (record context { symbols = suc first }) k
              later (omega arith) missing (λ j l h. there j (omega arith) h) refl)
      | inr lost ↦
          let here : context.symbols ≡ k = at_first ∙ no_later lost in
          rw (lost, load_symbols) (ground arith)
    ]
  where
    after_first : lib.has_symbol first ≡ true → suc first ≤ k
    after_first found = elim (Bool-cases (ltb first k)) [
      | inl lt ↦ ground arith
      | inr ge ↦ let same : first ≡ k = ground arith in absurd (cc (ap lib.has_symbol same))
    ]

    no_later : lib.has_symbol first ≡ false → first ≡ k
    no_later lost = elim (Bool-cases (ltb first k)) [
      | inl lt ↦ let is_there = there first (omega arith) (ground arith) in absurd (cc)
      | inr ge ↦ ground arith
    ]

-- When the compiler's library lacks a symbol, `CompileContext::create` reports an error the first
-- time. Each later call succeeds with a context that was never initialized and whose pointer to the
-- missing function is null, so that a call of it is undefined.
pub create_context-missing_symbol :
    (lib : Library) (k : ℕ)
    → lib.found ≡ true
    → k < symbol_count
    → lib.has_symbol k ≡ false
    → ((j : ℕ) → j < k → lib.has_symbol j ≡ true)
    → (context : CompileContext) × (create_context lib none ≡ (error internal_error, some context))
      × (create_context lib (some context) ≡ (ok context, some context))
      × (context.initialized ≡ false)
      × (call_symbol context k ≡ fault)
unfolding create_context initialize call_symbol
create_context-missing_symbol lib k found low missing there =
    let fresh : CompileContext = record { symbols = 0; initialized = false } in
    let stops =
      load_symbols-missing lib 0 symbol_count fresh k (omega arith) (omega arith) missing
        (λ j _ h. there j h) refl in
    (record { symbols = k; initialized = false }, rw (found, stops) refl, refl, refl, ground arith)
