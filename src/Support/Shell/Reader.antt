-- ===== src/Support/Shell/Reader.antt =====
-- The words of a simple command by the quoting rules of a POSIX shell, which the escaping in
-- support/extras.h is for. It is a specification, with a table of its own: a line with an expansion, a
-- redirection, a second command or another use of an operator has no reading here. Assignments and
-- reserved words before a command are words like others.
use fusilli.Base.{ℕ, ◌==◌, leb, Bool, ◌&&◌, ◌||◌, if◌then◌else◌, Option, none, some, List, [], ◌∷◌}
use fusilli.Support.Shell.{quote, backslash, space, tab, newline}

-- Where the reader is: between words, in a word, between two quotes, after a backslash, or after the
-- end of the line.
pub data Mode : Type 0 where
  gap word quoted escaped done : Mode

-- What a byte does to the words: nothing, a byte more for the word, or the end of the word.
pub data Effect : Type 0 where
  skip : Effect
  push : ℕ → Effect
  close : Effect

-- The bytes that a shell may take for more than themselves outside quotes, in the order of their
-- codes: ! " # $ & ( ) * ; < > ? [ ] ` { | } ~
abbrev pub means_more : ℕ → Bool
means_more c =
    (leb 33 c && leb c 36)
    || c == 38
    || (leb 40 c && leb c 42)
    || c == 59
    || c == 60
    || c == 62
    || c == 63
    || c == 91
    || c == 93
    || c == 96
    || (leb 123 c && leb c 126)

unfoldable pub unquoted : ℕ → Option (Mode × Effect)
unquoted c =
    if c == quote
    then some (quoted, skip)
    else if c == backslash
    then some (escaped, skip)
    else if means_more c
    then none
    else some (word, push c)

unfoldable pub read_byte : Mode → ℕ → Option (Mode × Effect)
read_byte gap c =
    if c == space || c == tab
    then some (gap, skip)
    else if c == newline
    then some (done, skip)
    else unquoted c
read_byte word c =
    if c == space || c == tab
    then some (gap, close)
    else if c == newline
    then some (done, close)
    else unquoted c
read_byte quoted c = if c == quote then some (word, skip) else some (quoted, push c)
read_byte escaped c = if c == newline then none else some (word, push c)
read_byte done c = none

unfoldable pub apply_effect : Effect → List (List ℕ) → Option (List (List ℕ))
apply_effect skip ws = some ws
apply_effect (push c) [] = none
apply_effect (push c) (w ∷ ws) = some ((c ∷ w) ∷ ws)
apply_effect close ws = some ([] ∷ ws)

-- The words of what is left, of which the first is the rest of the word that the reader is in.
unfoldable pub read_words : Mode → List ℕ → Option (List (List ℕ))
read_words gap [] = some []
read_words word [] = some ([] ∷ [])
read_words done [] = some []
read_words _ [] = none
read_words mode (c ∷ cs) = elim (read_byte mode c) [
  | none ↦ none
  | some (next, effect) ↦ elim (read_words next cs) [
    | none ↦ none
    | some ws ↦ apply_effect effect ws
  ]
]
