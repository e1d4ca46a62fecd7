-- ===== src/Examples/Commands.antt =====
-- A command whose arguments hold a space, a quote and a dollar sign.
use fusilli.Base.{ℕ, ◌≡◌, refl, List, [], ◌∷◌, some}
use fusilli.Support.Shell.{is_in, quote, space, to_string}
use fusilli.Support.Shell.Reader.{Mode, read_words}
use fusilli.Support.Shell.Laws.{read_words-to_string}

abbrev program : List ℕ
program = 97 ∷ 98 ∷ []

abbrev path : List ℕ
path = 97 ∷ space ∷ quote ∷ 36 ∷ 98 ∷ []

read_words-to_string_example :
    read_words Mode.gap (to_string (program ∷ path ∷ [])) ≡ some (program ∷ path ∷ [])
unfolding is_in
read_words-to_string_example =
    read_words-to_string (program ∷ path ∷ []) ((refl, refl), ((refl, refl), tt))
