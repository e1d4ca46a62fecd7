-- ===== src/Backend/Flags/Laws.antt =====
-- backend/backend.h: flags that are written between quotes are read back.
use fusilli.Base.{
  ℕ, ◌==◌, ◌≡◌, refl, ap, ◌∙◌, inl, inr, Bool-cases, false, some, List, [], ◌∷◌, ◌++◌, is_empty,
  if◌then◌else◌, Text,
}
use mathlib.Core.List.{append_assoc, append-nil}
use fusilli.Backend.Flags.{Reading, read_tokens, parse_compiler_flags}

-- `out << std::quoted(flag)`
abbrev pub escape_flag : Text → Text
escape_flag [] = []
escape_flag (c ∷ cs) =
    if c == 34
    then 92 ∷ c ∷ escape_flag cs
    else if c == 92
    then 92 ∷ c ∷ escape_flag cs
    else c ∷ escape_flag cs

abbrev pub quote_flag : Text → Text
quote_flag flag = 34 ∷ escape_flag flag ++ 34 ∷ []

-- Each flag between quotes, and a space after it.
abbrev pub print_flags : List Text → Text
print_flags [] = []
print_flags (flag ∷ flags) = quote_flag flag ++ 32 ∷ print_flags flags

abbrev pub non_empty : List Text → List Text
non_empty [] = []
non_empty (flag ∷ flags) = if is_empty flag then non_empty flags else flag ∷ non_empty flags

-- One byte of a quoted flag, or one that is escaped.
read_quoted :
    (c : ℕ) (token cs : Text)
    → (c == 34) ≡ false
    → (c == 92) ≡ false
    → read_tokens Reading.quoted token (c ∷ cs) ≡ read_tokens Reading.quoted (token ++ c ∷ []) cs
unfolding read_tokens
read_quoted c token cs q b = rw (q, b, read_tokens) refl

read_backslash :
    (c : ℕ) (token cs : Text)
    → read_tokens Reading.quoted token (92 ∷ c ∷ cs)
      ≡ read_tokens Reading.quoted (token ++ c ∷ []) cs
unfolding read_tokens
read_backslash c token cs = refl

read_open :
    (cs : Text) → read_tokens Reading.outside [] (34 ∷ cs) ≡ read_tokens Reading.quoted [] cs
unfolding read_tokens
read_open cs = refl

read_close :
    (token cs : Text)
    → read_tokens Reading.quoted token (34 ∷ 32 ∷ cs) ≡ (
        if is_empty token
        then read_tokens Reading.outside [] cs
        else token ∷ read_tokens Reading.outside [] cs)
unfolding read_tokens
read_close token cs = refl

read_escaped :
    (flag token rest : Text)
    → read_tokens Reading.quoted token (escape_flag flag ++ rest)
      ≡ read_tokens Reading.quoted (token ++ flag) rest
read_escaped [] token rest = rw (append-nil token) refl
read_escaped (c ∷ cs) token rest =
    let tail =
      read_escaped cs (token ++ c ∷ []) rest
      ∙ ap (λ t. read_tokens Reading.quoted t rest) (append_assoc token (c ∷ []) cs) in
    elim (Bool-cases (c == 34)) [
      | inl q ↦ rw q (read_backslash c token (escape_flag cs ++ rest) ∙ tail)
      | inr q ↦ elim (Bool-cases (c == 92)) [
        | inl b ↦ rw (q, b) (read_backslash c token (escape_flag cs ++ rest) ∙ tail)
        | inr b ↦ rw (q, b) (read_quoted c token (escape_flag cs ++ rest) q b ∙ tail)
      ]
    ]

read_end : read_tokens Reading.outside [] [] ≡ []
unfolding read_tokens
read_end = refl

read_flags :
    (flags : List Text) → read_tokens Reading.outside [] (print_flags flags) ≡ non_empty flags
read_flags [] = read_end
read_flags (flag ∷ flags) =
    let shape = append_assoc (escape_flag flag) (34 ∷ []) (32 ∷ print_flags flags) in
    read_open (escape_flag flag ++ 34 ∷ [] ++ 32 ∷ print_flags flags)
    ∙ ap (read_tokens Reading.quoted []) shape
    ∙ read_escaped flag [] (34 ∷ 32 ∷ print_flags flags)
    ∙ read_close flag (print_flags flags)
    ∙ ap (λ rest. if is_empty flag then rest else flag ∷ rest) (read_flags flags)

-- Any flags, with blanks, quotes and backslashes in them, are read back from their quoted forms, but
-- for those that are empty.
pub parse_compiler_flags-print_flags :
    (flags : List Text) → parse_compiler_flags (some (print_flags flags)) ≡ non_empty flags
unfolding parse_compiler_flags
parse_compiler_flags-print_flags flags = read_flags flags
