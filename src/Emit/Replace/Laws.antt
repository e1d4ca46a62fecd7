-- ===== src/Emit/Replace/Laws.antt =====
-- `replaceAll` ends, and replaces what one pass over the text finds.
use mathlib.Core.Path.{subst}
use mathlib.Core.List.{append_assoc}
use fusilli.Base.{
  ℕ, zero, suc, ◌-◌, ◌<◌, ◌≤◌, ◌≡◌, refl, ◌∙◌, ap, sym, Option, none, some, inl, inr, [], ◌∷◌, ◌++◌,
  length, Text, ok, if◌then◌else◌, Bool-cases, Option-cases, arith,
}
use fusilli.Emit.Replace.{is_prefix, drop, put_before, find, replace_loop, replace_all}

-- One pass over the text, that passes over `skip` characters and then replaces wherever `from` stands.
unfoldable pub substitute : Text → Text → ℕ → Text → Text
substitute from to skip [] = []
substitute from to zero (c ∷ cs) =
    let replaced = substitute from to (length from - 1) cs in
    let kept = substitute from to zero cs in
    if is_prefix from (c ∷ cs) then to ++ replaced else c ∷ kept
substitute from to (suc skip) (c ∷ cs) = substitute from to skip cs

substitute-drop :
    (from to : Text) (n : ℕ) (cs : Text)
    → substitute from to n cs ≡ substitute from to zero (drop n cs)
unfolding substitute drop
substitute-drop from to zero cs = refl
substitute-drop from to (suc n) [] = refl
substitute-drop from to (suc n) (c ∷ cs) = substitute-drop from to n cs

length-drop : (n : ℕ) (cs : Text) → length (drop n cs) ≤ length cs
unfolding drop
length-drop zero cs = omega arith
length-drop (suc n) [] = omega arith
length-drop (suc n) (c ∷ cs) = let rest = length-drop n cs in omega arith

put_before-none : (c : ℕ) (o : Option (Text × Text)) → put_before c o ≡ none → o ≡ none
put_before-none c none h = refl
put_before-none c (some (before, after)) h = cc

put_before-some :
    (c : ℕ) (o : Option (Text × Text)) (before after : Text)
    → put_before c o ≡ some (before, after)
    → (rest : Text) × (o ≡ some (rest, after)) × (before ≡ c ∷ rest)
put_before-some c none before after h = cc
put_before-some c (some (b, a)) before after h = (b, cc, cc)

-- `from` is not empty, or `find` would stand still.
module _ (f : ℕ) (fs to : Text) where
  find-none : (cs : Text) → find (f ∷ fs) cs ≡ none → substitute (f ∷ fs) to zero cs ≡ cs
  unfolding substitute find
  find-none [] h = refl
  find-none (c ∷ cs) h = elim (Bool-cases (is_prefix (f ∷ fs) (c ∷ cs))) [
    | inl yes_ ↦ absurd (let bad = rw yes_ at h in cc)
    | inr no_ ↦
        let h' = rw no_ at h in
        rw no_ (ap (λ rest. c ∷ rest) (find-none cs (put_before-none c (find (f ∷ fs) cs) h')))
  ]

  find-some :
      (cs before after : Text)
      → find (f ∷ fs) cs ≡ some (before, after)
      → (substitute (f ∷ fs) to zero cs ≡ before ++ to ++ substitute (f ∷ fs) to zero after)
        × (length after < length cs)
  unfolding substitute find is_prefix drop
  find-some [] before after h = absurd (cc)
  find-some (c ∷ cs) before after h = elim (Bool-cases (is_prefix (f ∷ fs) (c ∷ cs))) [
    | inl yes_ ↦
        let h' : some ([], drop (length fs) cs) ≡ some (before, after) = rw yes_ at h in
        let (b, a) : ([] ≡ before) × (drop (length fs) cs ≡ after) = (cc, cc) in
        let short = length-drop (length fs) cs in
        let one : suc (length fs) - 1 ≡ length fs = omega arith in
        (
          rw yes_ (
              rw (sym b, sym a, one)
                (ap (λ rest. to ++ rest) (substitute-drop (f ∷ fs) to (length fs) cs))),
          subst (λ xs. length xs < suc (length cs)) a (omega arith),
        )
    | inr no_ ↦
        let h' = rw no_ at h in
        let (rest, e, b) = put_before-some c (find (f ∷ fs) cs) before after h' in
        let (same, short) = find-some cs rest after e in
        (rw (no_, b) (ap (λ xs. c ∷ xs) same), omega arith)
  ]

  replace_loop_lem :
      (rounds : ℕ) (done rest : Text)
      → length rest < rounds
      → replace_loop rounds (f ∷ fs) to done rest ≡ ok (done ++ substitute (f ∷ fs) to zero rest)
  unfolding replace_loop
  replace_loop_lem zero done rest h = absurd (omega arith)
  replace_loop_lem (suc rounds) done rest h = elim (Option-cases (find (f ∷ fs) rest)) [
    | inl e ↦ rw (e, replace_loop) (rw (find-none rest e) refl)
    | inr ((before, after), e) ↦
        let (same, short) = find-some rest before after e in
        rw (e, replace_loop)
          (rw same (
            replace_loop_lem rounds (done ++ before ++ to) after (omega arith)
            ∙ ap ok (simp append_assoc)))
  ]

  -- `replaceAll` ends for every text that it looks for but the empty one, and its result is that of one
  -- pass over the text that replaces each occurrence it meets and goes on behind it.
  pub replace_all_lem :
      (str : Text) → replace_all str (f ∷ fs) to ≡ ok (substitute (f ∷ fs) to zero str)
  unfolding replace_all
  replace_all_lem str = replace_loop_lem (suc (length str)) [] str (omega arith)
