-- ===== src/Graph/Names/Laws.antt =====
-- graph/graph.h, node/node.h: the checks of names against lists without repetition.
use mathlib.Core.List.{
  Mem, Nodup, Nodup-cons, Perm, perm_middle, mem-append, Nodup-nil, append-nil, mem-cons,
  not-mem-nil,
}
use mathlib.Core.List.Perm
use mathlib.Core.Logic.Or
use mathlib.Core.Bool.{Bool-set}
use text.Mathlib.TextEquality.{eq_iff}
use fusilli.Base.{
  ◌≡◌, refl, sym, ◌↔◌, inl, inr, true, false, List, [], ◌∷◌, ◌++◌, String, str_eq, arith, ok, ◌>>=◌,
  Bool-cases,
}
use fusilli.Graph.Names.{is_used, check_names_are_unique}

is_used→mem : (name : String) (used : List String) → is_used name used ≡ true → Mem name used
unfolding is_used
is_used→mem name [] h = cc
is_used→mem name (s ∷ used) h = elim (Bool-cases (str_eq s name)) [
  | inl same ↦ mem-cons.1 (Or.inl (sym ((eq_iff _ _).0 same)))
  | inr other ↦ mem-cons.1 (Or.inr (is_used→mem name used (ground arith)))
]

mem→is_used : (name : String) (used : List String) → Mem name used → is_used name used ≡ true
unfolding is_used
mem→is_used name [] h = absurd (not-mem-nil h)
mem→is_used name (s ∷ used) h =
    Or.elim (Bool-set _ _) (mem-cons.0 h) (λ e. ground (arith, eq_iff s name))
      (λ m. ground (arith, mem→is_used name used m))

-- Each name that is accepted joins the used ones in front.
middle-Nodup :
    (name : String) (names used : List String)
    → Nodup (names ++ name ∷ used) ↔ Nodup (name ∷ (names ++ used))
middle-Nodup name names used = Perm.Nodup-iff (perm_middle names used)

pub accepted-Nodup :
    (names used : List String) {u : List String}
    → Nodup used
    → check_names_are_unique names used ≡ ok u
    → Nodup (names ++ used) × Perm u (names ++ used)
unfolding check_names_are_unique
accepted-Nodup [] used {u} distinct h = let e : u ≡ used = cc in (distinct, rw e (Perm.refl used))
accepted-Nodup (name ∷ names) used {u} distinct h = elim (Bool-cases (is_used name used)) [
  | inl taken ↦ absurd (ground arith)
  | inr free ↦
      let fresh : ¬ Mem name used = λ m. ground (arith, mem→is_used name used m) in
      let (rest, same) =
        accepted-Nodup names (name ∷ used) (Nodup-cons.1 (fresh, distinct)) (rw free at h) in
      ((middle-Nodup name names used).0 rest, Perm.trans same (perm_middle names used))
]

pub Nodup-accepted :
    (names used : List String)
    → Nodup (names ++ used)
    → (u : List String) × (check_names_are_unique names used ≡ ok u)
unfolding check_names_are_unique
Nodup-accepted [] used distinct = (used, refl)
Nodup-accepted (name ∷ names) used distinct =
    let (fresh, rest) = Nodup-cons.0 distinct in
    let free : is_used name used ≡ false = elim (Bool-cases (is_used name used)) [
      | inl taken ↦ absurd (fresh (mem-append.1 (Or.inr (is_used→mem name used taken))))
      | inr free ↦ free
    ] in
    rw free (Nodup-accepted names (name ∷ used) ((middle-Nodup name names used).1 distinct))

-- The check of names accepts a list of names exactly when no two of them are equal.
pub check_names_are_unique_iff :
    (names : List String)
    → ((u : List String) × (check_names_are_unique names [] ≡ ok u)) ↔ Nodup names
check_names_are_unique_iff names = (
  λ (u, h). simp append-nil at (accepted-Nodup names [] Nodup-nil h).0,
  λ d. Nodup-accepted names [] (rw append-nil d),
)

-- Lists of names that are checked one after the other are checked as one list.
pub check_names_are_unique-append :
    (xs ys used : List String)
    → check_names_are_unique (xs ++ ys) used
      ≡ (check_names_are_unique xs used >>= check_names_are_unique ys)
unfolding check_names_are_unique
check_names_are_unique-append [] ys used = refl
check_names_are_unique-append (x ∷ xs) ys used = elim (Bool-cases (is_used x used)) [
  | inl taken ↦ rw taken
  | inr free ↦ rw (free, check_names_are_unique-append xs ys (x ∷ used))
]
