-- ===== src/Emit/Replace.antt =====
-- support/asm_emitter.h: `replaceAll`. The text before the position is kept apart from the rest.
pub mod Laws
use fusilli.Base.{
  ℕ, zero, suc, ◌-◌, ◌==◌, Bool, true, false, Option, none, some, List, [], ◌∷◌, ◌++◌, length, Text,
  Outcome, ok, fault, if◌then◌else◌,
}

unfoldable pub is_prefix : Text → Text → Bool
is_prefix [] str = true
is_prefix (c ∷ cs) [] = false
is_prefix (c ∷ cs) (d ∷ ds) = if c == d then is_prefix cs ds else false

unfoldable pub drop : ℕ → Text → Text
drop zero str = str
drop (suc n) [] = []
drop (suc n) (c ∷ cs) = drop n cs

abbrev pub put_before : ℕ → Option (Text × Text) → Option (Text × Text)
put_before c none = none
put_before c (some (before, after)) = some (c ∷ before, after)

-- `std::string::find`: what stands before the first occurrence, and what after it.
unfoldable pub find : Text → Text → Option (Text × Text)
unfolding is_prefix drop
find from [] = if is_prefix from [] then some ([], []) else none
find from (c ∷ cs) =
    let later = find from cs in
    if is_prefix from (c ∷ cs) then some ([], drop (length from) (c ∷ cs)) else put_before c later

-- The loop. The first argument bounds its rounds.
unfoldable pub replace_loop : ℕ → Text → Text → Text → Text → Outcome Text
replace_loop zero from to done rest = fault
replace_loop (suc rounds) from to done rest = elim (find from rest) [
  | none ↦ ok (done ++ rest)
  | some (before, after) ↦ replace_loop rounds from to (done ++ before ++ to) after
]

-- Each round passes at least one character.
unfoldable pub replace_all : Text → Text → Text → Outcome Text
unfolding replace_loop find
replace_all str from to = replace_loop (suc (length str)) from to [] str
