-- ===== src/Support/Shell.antt =====
-- support/extras.h and backend/compile_command.h: the command line that a shell reads, on POSIX. A
-- text is the list of its bytes.
use fusilli.Base.{ℕ, ◌==◌, if◌then◌else◌, Bool, true, false, List, [], ◌∷◌, ◌++◌}
pub mod Reader
pub mod Laws

abbrev pub quote : ℕ
quote = 39

abbrev pub backslash : ℕ
backslash = 92

abbrev pub space : ℕ
space = 32

abbrev pub tab : ℕ
tab = 9

abbrev pub newline : ℕ
newline = 10

-- The other bytes of the `switch`: $ ` " ( ) { } [ ] | & ; < > ~ * ? ! #
abbrev pub operators : List ℕ
operators =
    36 ∷ 96 ∷ 34 ∷ 40 ∷ 41 ∷ 123 ∷ 125 ∷ 91 ∷ 93 ∷ 124 ∷ 38 ∷ 59 ∷ 60 ∷ 62 ∷ 126 ∷ 42 ∷ 63 ∷ 33 ∷ 35
    ∷ []

unfoldable pub is_in : ℕ → List ℕ → Bool
is_in c [] = false
is_in c (d ∷ ds) = if c == d then true else is_in c ds

unfoldable pub needs_shell_quoting : List ℕ → Bool
needs_shell_quoting [] = false
needs_shell_quoting (c ∷ cs) =
    if is_in c (quote ∷ backslash ∷ space ∷ tab ∷ operators) then true else needs_shell_quoting cs

-- The loop over the bytes between the quotes.
unfoldable pub escape_bytes : List ℕ → List ℕ
escape_bytes [] = []
escape_bytes (c ∷ cs) =
    let rest = escape_bytes cs in
    if c == quote then quote ∷ backslash ∷ quote ∷ quote ∷ rest else c ∷ rest

unfoldable pub escape_argument : List ℕ → List ℕ
escape_argument arg =
    if needs_shell_quoting arg then quote ∷ escape_bytes arg ++ quote ∷ [] else arg

-- `interleave`, where both functions write to one stream.
unfoldable pub interleave_next {ℓ} : {A : Type ℓ} → (A → List ℕ) → List ℕ → List A → List ℕ
interleave_next each between [] = []
interleave_next each between (x ∷ xs) = between ++ each x ++ interleave_next each between xs

unfoldable pub interleave {ℓ} : {A : Type ℓ} → (A → List ℕ) → List ℕ → List A → List ℕ
interleave each between [] = []
interleave each between (x ∷ xs) = each x ++ interleave_next each between xs

-- `CompileCommand::toString`
unfoldable pub to_string : List (List ℕ) → List ℕ
to_string args = interleave escape_argument (space ∷ []) args ++ newline ∷ []
