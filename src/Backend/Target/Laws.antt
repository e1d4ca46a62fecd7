-- ===== src/Backend/Target/Laws.antt =====
-- backend/backend.h: which target is found for the name of a GPU.
use fusilli.Base.{
  ℕ, ◌==◌, ==_iff, ◌≡◌, refl, ap, ◌∙◌, ◌⊎◌, inl, inr, Bool-cases, true, Option-cases, none, some,
  List, [], ◌∷◌, ◌++◌, map, All, arith, Text,
}
use fusilli.Backend.Target.{
  drop_prefix, after, to_upper, sku_patterns, find_sku, get_gpu_sku_from_marketing_name,
}

abbrev pub Occurs : Text → Text → Type 0
Occurs pattern t = (before : Text) × (rest : Text) × (t ≡ before ++ pattern ++ rest)

drop_prefix-some : (p t rest : Text) → drop_prefix p t ≡ some rest → t ≡ p ++ rest
unfolding drop_prefix
drop_prefix-some [] t rest h = cc
drop_prefix-some (p ∷ ps) [] rest h = cc
drop_prefix-some (p ∷ ps) (c ∷ cs) rest h = elim (Bool-cases (c == p)) [
  | inl e ↦
      let same : c ≡ p = ground arith in
      let tail = drop_prefix-some ps cs rest (rw (drop_prefix, e) at h) in cc
  | inr e ↦ absurd (let bad = rw (drop_prefix, e) at h in cc)
]

drop_prefix-append : (p rest : Text) → drop_prefix p (p ++ rest) ≡ some rest
unfolding drop_prefix
drop_prefix-append [] rest = refl
drop_prefix-append (p ∷ ps) rest =
    let same : (p == p) ≡ true = (==_iff p p).1 refl in
    rw (drop_prefix, same) (drop_prefix-append ps rest)

after-some : (p t rest : Text) → after p t ≡ some rest → Occurs p t
unfolding after
after-some p [] rest h = ([], rest, drop_prefix-some p [] rest h)
after-some p (c ∷ cs) rest h = elim (Option-cases (drop_prefix p (c ∷ cs))) [
  | inr (r, e) ↦ ([], r, drop_prefix-some p (c ∷ cs) r e)
  | inl e ↦
      let (before, r, e') = after-some p cs rest (rw (after, e) at h) in
      (c ∷ before, r, ap (λ t. c ∷ t) e')
]

after-none-cons :
    (p : Text) (c : ℕ) (cs : Text)
    → after p (c ∷ cs) ≡ none
    → (drop_prefix p (c ∷ cs) ≡ none) × (after p cs ≡ none)
unfolding after
after-none-cons p c cs h = elim (Option-cases (drop_prefix p (c ∷ cs))) [
  | inl e ↦ (e, rw (after, e) at h)
  | inr (r, e) ↦ absurd (let bad = rw (after, e) at h in cc)
]

not_prefix : (p t rest : Text) → drop_prefix p t ≡ none → ¬ (t ≡ p ++ rest)
not_prefix p t rest h e =
    let found : drop_prefix p t ≡ some rest = ap (drop_prefix p) e ∙ drop_prefix-append p rest in cc

after-none : (p t : Text) → after p t ≡ none → ¬ Occurs p t
unfolding after
after-none p [] h ([], rest, e) = not_prefix p [] rest h e
after-none p [] h (b ∷ before, rest, e) = absurd (cc)
after-none p (c ∷ cs) h ([], rest, e) = not_prefix p (c ∷ cs) rest (after-none-cons p c cs h).0 e
after-none p (c ∷ cs) h (b ∷ before, rest, e) =
    let tail : cs ≡ before ++ p ++ rest = cc in
    after-none p cs (after-none-cons p c cs h).1 (before, rest, tail)

-- The pattern, in capitals, stands in the text.
abbrev pub Matches : Text → Text × Text → Type 0
Matches upper_name (pattern, sku) = Occurs (map to_upper pattern) upper_name

abbrev pub FirstMatch : Text → List (Text × Text) → Text → Type 0
FirstMatch upper_name patterns sku =
    (before : List (Text × Text)) × (pattern : Text) × (rest : List (Text × Text)) × (patterns
      ≡ before ++ (pattern, sku) ∷ rest)
    × Matches upper_name (pattern, sku)
    × All (λ p. ¬ Matches upper_name p) before

find_sku_lem :
    (upper_name : Text) (patterns : List (Text × Text))
    → ((find_sku upper_name patterns ≡ []) × All (λ p. ¬ Matches upper_name p) patterns)
      ⊎ FirstMatch upper_name patterns (find_sku upper_name patterns)
unfolding find_sku
find_sku_lem upper_name [] = inl (refl, tt)
find_sku_lem upper_name ((pattern, sku) ∷ rest) =
    elim (Option-cases (after (map to_upper pattern) upper_name)) [
      | inr (r, e) ↦
          let hit : find_sku upper_name ((pattern, sku) ∷ rest) ≡ sku = rw (find_sku, e) refl in
          rw hit
            (inr ([], pattern, rest, refl, after-some (map to_upper pattern) upper_name r e, tt))
      | inl e ↦
          let no_ = after-none (map to_upper pattern) upper_name e in
          let miss : find_sku upper_name ((pattern, sku) ∷ rest) ≡ find_sku upper_name rest =
            rw (find_sku, e) refl in
          rw miss (elim (find_sku_lem upper_name rest) [
            | inl (empty, none_) ↦ inl (empty, (no_, none_))
            | inr (before, p, after_, split, matches, none_) ↦ inr (
              (pattern, sku) ∷ before,
              p,
              after_,
              ap (λ ps. (pattern, sku) ∷ ps) split,
              matches,
              (no_, none_),
            )
          ])
    ]

-- The target for a marketing name is that of the first pattern of the table that stands in the name,
-- small letters and capitals taken as equal, and empty where none does.
pub get_gpu_sku_from_marketing_name_lem :
    (name : Text)
    → ((get_gpu_sku_from_marketing_name name ≡ [])
        × All (λ p. ¬ Matches (map to_upper name) p) sku_patterns)
      ⊎ FirstMatch (map to_upper name) sku_patterns (get_gpu_sku_from_marketing_name name)
unfolding get_gpu_sku_from_marketing_name
get_gpu_sku_from_marketing_name_lem name = find_sku_lem (map to_upper name) sku_patterns
