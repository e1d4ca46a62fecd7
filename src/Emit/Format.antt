-- ===== src/Emit/Format.antt =====
-- `std::format` with numbered fields, and the texts that `interleave` of support/extras.h writes.
use fusilli.Base.{
  ℕ, zero, suc, ◌+◌, ◌-◌, ◌*◌, ◌==◌, Bool, true, false, List, [], ◌∷◌, ◌++◌, Text, Outcome, ok,
  ◌>>=◌, if◌then◌else◌,
}
use fusilli.Support.Shell.{interleave, interleave_next}

abbrev left_brace : ℕ
left_brace = 123

abbrev right_brace : ℕ
right_brace = 125

-- The argument that a field names; the compiler refuses a schema with a number out of range.
unfoldable pub argument : ℕ → List Text → Text
argument n [] = []
argument zero (x ∷ xs) = x
argument (suc n) (x ∷ xs) = argument n xs

-- Where `std::format` is in its schema: in plain text, after one brace, or in the number of a field.
pub data Place : Type 0 where
  plain opened closing : Place
  field_ : ℕ → Place

unfoldable pub format_from : Place → Text → List Text → Text
unfolding argument
format_from place [] args = []
format_from Place.plain (c ∷ cs) args =
    let opened = format_from Place.opened cs args in
    let closing = format_from Place.closing cs args in
    let rest = format_from Place.plain cs args in
    if c == left_brace then opened else if c == right_brace then closing else c ∷ rest
format_from Place.opened (c ∷ cs) args =
    let rest = format_from Place.plain cs args in
    let number = format_from (Place.field_ (c - 48)) cs args in
    if c == left_brace then c ∷ rest else number
format_from Place.closing (c ∷ cs) args = right_brace ∷ format_from Place.plain cs args
format_from (Place.field_ n) (c ∷ cs) args =
    let rest = format_from Place.plain cs args in
    let number = format_from (Place.field_ (n * 10 + (c - 48))) cs args in
    if c == right_brace then argument n args ++ rest else number

-- `std::format`
unfoldable pub format : Text → List Text → Text
unfolding format_from
format schema args = format_from Place.plain schema args

unfoldable pub each_text {ℓ} : {A : Type ℓ} → (A → Outcome Text) → List A → Outcome (List Text)
each_text each [] = ok []
each_text each (x ∷ xs) = do text ← each x; texts ← each_text each xs; ok (text ∷ texts)

unfoldable pub join : Text → List Text → Text
unfolding interleave interleave_next
join between texts = interleave (λ text. text) between texts

-- `interleave`, whose first function may fail.
unfoldable pub interleave_ok {ℓ} : {A : Type ℓ} → (A → Outcome Text) → Text → List A → Outcome Text
unfolding each_text join
interleave_ok each between xs = each_text each xs >>= λ texts. ok (join between texts)

-- `interleave` with a test of what to skip, where `first` tells that nothing was written yet.
unfoldable pub interleave_skip {ℓ} :
    {A : Type ℓ} → (A → Outcome Text) → Text → (A → Bool) → Bool → List A → Outcome Text
interleave_skip each between skip first [] = ok []
interleave_skip each between skip first (x ∷ xs) = elim (skip x) [
  | true ↦ interleave_skip each between skip first xs
  | false ↦ do
    text ← each x
    rest ← interleave_skip each between skip false xs
    ok ((if first then [] else between) ++ text ++ rest)
]
