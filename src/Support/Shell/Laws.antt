-- ===== src/Support/Shell/Laws.antt =====
-- support/extras.h and backend/compile_command.h: a shell reads the command line back.
use fusilli.Base.{
  ℕ, ◌==◌, ◌≡◌, refl, ap, ◌∙◌, inl, inr, Bool-cases, false, Option, none, some, List, [], ◌∷◌, ◌++◌,
  All, is_empty, arith,
}
use mathlib.Core.List.{append_assoc, append-nil}
use fusilli.Support.Shell.{
  quote, backslash, space, tab, newline, operators, is_in, needs_shell_quoting, escape_bytes,
  escape_argument, interleave, interleave_next, to_string,
}
use fusilli.Support.Shell.Reader.{
  Mode, Effect, means_more, unquoted, read_byte, apply_effect, read_words,
}

-- An argument that a shell command can carry as it is escaped: not empty, and with no line break.
abbrev pub IsWord : List ℕ → Type 0
IsWord arg = (is_empty arg ≡ false) × (is_in newline arg ≡ false)

-- One byte, and what is left.
read_step :
    (mode next : Mode) (c : ℕ) (cs : List ℕ) (effect : Effect) (ws us : List (List ℕ))
    → read_byte mode c ≡ some (next, effect)
    → read_words next cs ≡ some ws
    → apply_effect effect ws ≡ some us
    → read_words mode (c ∷ cs) ≡ some us
unfolding read_words
read_step Mode.gap next c cs effect ws us e h a = rw (read_words, e, h) a
read_step Mode.word next c cs effect ws us e h a = rw (read_words, e, h) a
read_step Mode.quoted next c cs effect ws us e h a = rw (read_words, e, h) a
read_step Mode.escaped next c cs effect ws us e h a = rw (read_words, e, h) a
read_step Mode.done next c cs effect ws us e h a = rw (read_words, e, h) a

is_in-cons :
    (c d : ℕ) (ds : List ℕ) → is_in c (d ∷ ds) ≡ false → ((c == d) ≡ false) × (is_in c ds ≡ false)
unfolding is_in
is_in-cons c d ds h = elim (Bool-cases (c == d)) [ inl e ↦ absurd cc | inr e ↦ (e, rw e at h) ]

-- No byte that means more to a shell is outside of the table of the code.
means_more-quoted : (c : ℕ) → is_in c operators ≡ false → means_more c ≡ false
unfolding is_in
means_more-quoted c h = ground arith

-- A byte that needs no quoting and is no line break stands for itself, in a word and before one.
plain_byte :
    (c : ℕ)
    → is_in c (quote ∷ backslash ∷ space ∷ tab ∷ operators) ≡ false
    → (c == newline) ≡ false
    → (read_byte Mode.word c ≡ some (Mode.word, Effect.push c))
      × (read_byte Mode.gap c ≡ some (Mode.word, Effect.push c))
unfolding read_byte unquoted
plain_byte c h n =
    let (q, h₁) = is_in-cons c quote (backslash ∷ space ∷ tab ∷ operators) h in
    let (b, h₂) = is_in-cons c backslash (space ∷ tab ∷ operators) h₁ in
    let (s, h₃) = is_in-cons c space (tab ∷ operators) h₂ in
    let (t, o) = is_in-cons c tab operators h₃ in
    let plain = means_more-quoted c o in
    (rw (s, t, n, q, b, plain) refl, rw (s, t, n, q, b, plain) refl)

-- What the two loops over an argument say of its first byte and of the others.
safe-cons :
    (c : ℕ) (cs : List ℕ)
    → needs_shell_quoting (c ∷ cs) ≡ false
    → (is_in c (quote ∷ backslash ∷ space ∷ tab ∷ operators) ≡ false)
      × (needs_shell_quoting cs ≡ false)
unfolding needs_shell_quoting
safe-cons c cs h = elim (Bool-cases (is_in c (quote ∷ backslash ∷ space ∷ tab ∷ operators))) [
  | inl e ↦ absurd (let bad = rw e at h in cc)
  | inr e ↦ (e, rw e at h)
]

line-cons :
    (c : ℕ) (cs : List ℕ)
    → is_in newline (c ∷ cs) ≡ false
    → ((c == newline) ≡ false) × (is_in newline cs ≡ false)
line-cons c cs h = let (e, h') = is_in-cons newline c cs h in (ground arith, h')

plain_word :
    (arg rest w : List ℕ) (ws : List (List ℕ))
    → needs_shell_quoting arg ≡ false
    → is_in newline arg ≡ false
    → read_words Mode.word rest ≡ some (w ∷ ws)
    → read_words Mode.word (arg ++ rest) ≡ some ((arg ++ w) ∷ ws)
unfolding apply_effect
plain_word [] rest w ws safe line h = h
plain_word (c ∷ cs) rest w ws safe line h =
    let (s, safe') = safe-cons c cs safe in
    let (n, line') = line-cons c cs line in
    read_step Mode.word Mode.word c (cs ++ rest) (Effect.push c) ((cs ++ w) ∷ ws)
      ((c ∷ cs ++ w) ∷ ws) (plain_byte c s n).0 (plain_word cs rest w ws safe' line' h) refl

-- The same for the first word of what is left, where the reader is not in it yet.
plain_argument :
    (arg rest w : List ℕ) (ws : List (List ℕ))
    → needs_shell_quoting arg ≡ false
    → IsWord arg
    → read_words Mode.word rest ≡ some (w ∷ ws)
    → read_words Mode.gap (arg ++ rest) ≡ some ((arg ++ w) ∷ ws)
unfolding apply_effect
plain_argument [] rest w ws safe (set, line) h = absurd cc
plain_argument (c ∷ cs) rest w ws safe (set, line) h =
    let (s, safe') = safe-cons c cs safe in
    let (n, line') = line-cons c cs line in
    read_step Mode.gap Mode.word c (cs ++ rest) (Effect.push c) ((cs ++ w) ∷ ws)
      ((c ∷ cs ++ w) ∷ ws) (plain_byte c s n).1 (plain_word cs rest w ws safe' line' h) refl

quoted_word :
    (arg rest w : List ℕ) (ws : List (List ℕ))
    → read_words Mode.word rest ≡ some (w ∷ ws)
    → read_words Mode.quoted (escape_bytes arg ++ quote ∷ rest) ≡ some ((arg ++ w) ∷ ws)
unfolding read_words read_byte unquoted apply_effect escape_bytes is_in
quoted_word [] rest w ws h = rw h refl
quoted_word (c ∷ cs) rest w ws h =
    let tail = quoted_word cs rest w ws h in
    elim (Bool-cases (c == quote)) [
      | inl e ↦ let same : c ≡ quote = ground arith in rw (same, tail) refl
      | inr e ↦ rw e (
          read_step Mode.quoted Mode.quoted c (escape_bytes cs ++ quote ∷ rest) (Effect.push c)
            ((cs ++ w) ∷ ws) ((c ∷ cs ++ w) ∷ ws) (rw (read_byte, e) refl) tail refl)
    ]

opened :
    (cs : List ℕ) (r : Option (List (List ℕ)))
    → read_words Mode.quoted cs ≡ r
    → read_words Mode.gap (quote ∷ cs) ≡ r
unfolding read_words read_byte unquoted apply_effect is_in
opened cs none h = rw h refl
opened cs (some ws) h = rw h refl

-- An escaped argument, and what is after it, is read as the argument and what is after it.
escaped_argument :
    (arg rest w : List ℕ) (ws : List (List ℕ))
    → IsWord arg
    → read_words Mode.word rest ≡ some (w ∷ ws)
    → read_words Mode.gap (escape_argument arg ++ rest) ≡ some ((arg ++ w) ∷ ws)
unfolding escape_argument
escaped_argument arg rest w ws word h = elim (Bool-cases (needs_shell_quoting arg)) [
  | inl e ↦ rw (e, append_assoc (escape_bytes arg)) (opened _ _ (quoted_word arg rest w ws h))
  | inr e ↦ rw e (plain_argument arg rest w ws e word h)
]

next_arguments :
    (args : List (List ℕ))
    → All IsWord args
    → read_words Mode.word (interleave_next escape_argument (space ∷ []) args ++ newline ∷ [])
      ≡ some ([] ∷ args)
unfolding interleave_next read_words read_byte apply_effect is_in
next_arguments [] words = refl
next_arguments (arg ∷ args) (word, words) =
    let rest = interleave_next escape_argument (space ∷ []) args ++ newline ∷ [] in
    let tail : read_words Mode.gap (escape_argument arg ++ rest) ≡ some ((arg ++ []) ∷ args) =
      escaped_argument arg rest [] args word (next_arguments args words) in
    rw (append_assoc (escape_argument arg)) (
      read_step Mode.word Mode.gap space (escape_argument arg ++ rest) Effect.close (arg ∷ args)
        ([] ∷ arg ∷ args) refl (tail ∙ ap (λ a. some (a ∷ args)) (append-nil arg)) refl)

-- A shell reads the command line back as the arguments of the command, if none of them is empty or
-- has a line break. An assignment or a reserved word in the place of the command counts as a word.
pub read_words-to_string :
    (args : List (List ℕ)) → All IsWord args → read_words Mode.gap (to_string args) ≡ some args
unfolding to_string interleave read_words read_byte apply_effect is_in
read_words-to_string [] words = refl
read_words-to_string (arg ∷ args) (word, words) =
    let rest = interleave_next escape_argument (space ∷ []) args ++ newline ∷ [] in
    let tail : read_words Mode.gap (escape_argument arg ++ rest) ≡ some ((arg ++ []) ∷ args) =
      escaped_argument arg rest [] args word (next_arguments args words) in
    rw (append_assoc (escape_argument arg)) (tail ∙ ap (λ a. some (a ∷ args)) (append-nil arg))
