-- ===== src/Tensor/Attr/Dynamic.antt =====
-- attributes/tensor_attributes.h: `canonicalizeDynamicDims`.
use fusilli.Base.{
  ℕ, ◌≤◌, ◌<◌, ◌==◌, ltb, ◌≡◌, refl, ap, ◌∙◌, inl, inr, true, false, ◌||◌, List, [], ◌∷◌, arith,
  Bool-cases,
}
use fusilli.Tensor.Attr.{canonicalize_dynamic_dims, unique, unique_from}
use fusilli.Tensor.Layout.{contains_index}
use fusilli.Tensor.Order.{insert_by, sort_by}

-- Each element at least `low`, and no element after a larger one.
abbrev pub AscendingFrom : ℕ → List ℕ → Type 0
AscendingFrom low [] = Unit
AscendingFrom low (x ∷ xs) = (low ≤ x) × AscendingFrom x xs

-- Each element above the one before it.
abbrev pub StrictlyAbove : ℕ → List ℕ → Type 0
StrictlyAbove low [] = Unit
StrictlyAbove low (x ∷ xs) = (low < x) × StrictlyAbove x xs

abbrev pub StrictlyAscending : List ℕ → Type 0
StrictlyAscending [] = Unit
StrictlyAscending (x ∷ xs) = StrictlyAbove x xs

contains-insert_by :
    (i x : ℕ) (xs : List ℕ)
    → contains_index i (insert_by ltb x xs) ≡ (i == x || contains_index i xs)
unfolding contains_index insert_by
contains-insert_by i x [] = refl
contains-insert_by i x (y ∷ ys) = let rest = contains-insert_by i x ys in ground (arith, rest)

contains-sort_by : (i : ℕ) (xs : List ℕ) → contains_index i (sort_by ltb xs) ≡ contains_index i xs
unfolding contains_index sort_by
contains-sort_by i [] = refl
contains-sort_by i (x ∷ xs) =
    contains-insert_by i x (sort_by ltb xs) ∙ ap (λ b. i == x || b) (contains-sort_by i xs)

unique_from-same :
    (last x : ℕ) (xs : List ℕ)
    → (last == x) ≡ true
    → unique_from last (x ∷ xs) ≡ unique_from last xs
unfolding unique_from
unique_from-same last x xs h = ground arith

unique_from-other :
    (last x : ℕ) (xs : List ℕ)
    → (last == x) ≡ false
    → unique_from last (x ∷ xs) ≡ x ∷ unique_from x xs
unfolding unique_from
unique_from-other last x xs h = ground arith

contains-unique_from :
    (i last : ℕ) (xs : List ℕ)
    → (i == last || contains_index i (unique_from last xs)) ≡ (i == last || contains_index i xs)
unfolding contains_index unique_from
contains-unique_from i last [] = refl
contains-unique_from i last (x ∷ xs) = elim (Bool-cases (last == x)) [
  | inl same ↦
      let rest = contains-unique_from i last xs in
      rw (unique_from-same last x xs same) (ground (arith, rest))
  | inr other ↦
      let rest = contains-unique_from i x xs in
      rw (unique_from-other last x xs other) (ground (arith, rest))
]

insert_by-Ascending :
    (low x : ℕ) (xs : List ℕ)
    → low ≤ x
    → AscendingFrom low xs
    → AscendingFrom low (insert_by ltb x xs)
unfolding insert_by
insert_by-Ascending low x [] h asc = (h, tt)
insert_by-Ascending low x (y ∷ ys) h (l, asc) = elim (Bool-cases (ltb y x)) [
  | inl less ↦ rw less (l, insert_by-Ascending y x ys (ground arith) asc)
  | inr more ↦ rw more (h, (ground arith, asc))
]

sort_by-Ascending : (xs : List ℕ) → AscendingFrom 0 (sort_by ltb xs)
unfolding sort_by
sort_by-Ascending [] = tt
sort_by-Ascending (x ∷ xs) =
    insert_by-Ascending 0 x (sort_by ltb xs) (omega arith) (sort_by-Ascending xs)

unique_from-Strictly :
    (last : ℕ) (xs : List ℕ) → AscendingFrom last xs → StrictlyAbove last (unique_from last xs)
unfolding unique_from
unique_from-Strictly last [] asc = tt
unique_from-Strictly last (x ∷ xs) (l, asc) = elim (Bool-cases (last == x)) [
  | inl same ↦
      let e : x ≡ last = ground arith in
      rw (unique_from-same last x xs same) (unique_from-Strictly last xs (rw e at asc))
  | inr other ↦ rw (unique_from-other last x xs other) (ground arith, unique_from-Strictly x xs asc)
]

unique-Strictly : (xs : List ℕ) → AscendingFrom 0 xs → StrictlyAscending (unique xs)
unfolding unique
unique-Strictly [] asc = tt
unique-Strictly (x ∷ xs) (l, asc) = unique_from-Strictly x xs asc

contains-unique : (i : ℕ) (xs : List ℕ) → contains_index i (unique xs) ≡ contains_index i xs
unfolding contains_index unique
contains-unique i [] = refl
contains-unique i (x ∷ xs) = contains-unique_from i x xs

-- The canonical list of dynamic dimensions is strictly ascending, as a binary search wants it, and
-- it has the indices that the given list has.
pub canonicalize_dynamic_dims_lem :
    (dims : List ℕ)
    → StrictlyAscending (canonicalize_dynamic_dims dims)
      × ((i : ℕ) → contains_index i (canonicalize_dynamic_dims dims) ≡ contains_index i dims)
unfolding canonicalize_dynamic_dims
canonicalize_dynamic_dims_lem dims = (
  unique-Strictly (sort_by ltb dims) (sort_by-Ascending dims),
  λ i. contains-unique i (sort_by ltb dims) ∙ contains-sort_by i dims,
)
