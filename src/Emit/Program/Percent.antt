-- ===== src/Emit/Program/Percent.antt =====
-- How often the character that begins every name of MLIR stands in names and types.
use mathlib.Core.Path.{subst}
use fusilli.Base.{
  ℕ, zero, suc, ◌+◌, ◌/◌, ◌%◌, ◌≡◌, refl, ◌∙◌, ap, sym, ◌==◌, Bool, true, false, not, List, [], ◌∷◌,
  ◌++◌, ℤ, pos, negsuc, Text, codes, decimal_digits, decimal, decimal_ℤ, Outcome, ok, >>=-eq-ok,
  ok-injective, assert, is_empty, if◌then◌else◌, Bool-cases, arith, inl, inr, iota, length, at,
}
use fusilli.Support.Shell.{interleave, interleave_next}
use fusilli.Tensor.Types.{DataType, mlir_type_asm, is_set}
use fusilli.Tensor.Attr.{TensorAttr}
use fusilli.Tensor.Layout.{is_dynamic_dim}
use fusilli.Tensor.Physical.{get_physical_dim, get_logical_to_physical_permute_order}
use fusilli.Emit.Format.{each_text, join, interleave_ok}
use fusilli.Emit.Values.{name_chars, get_value_name_asm, type_asm, dim_asm, get_tensor_type_asm}

abbrev pub percent : ℕ
percent = 37

-- How often a character stands in a text.
unfoldable pub count : ℕ → Text → ℕ
count c [] = 0
count c (d ∷ ds) = let rest = count c ds in if c == d then suc rest else rest

pub count-append : (c : ℕ) (xs ys : Text) → count c (xs ++ ys) ≡ count c xs + count c ys
unfolding count
count-append c [] ys = omega arith
count-append c (x ∷ xs) ys = let rest = count-append c xs ys in ground arith

count-decimal_digits : (fuel n : ℕ) → count percent (decimal_digits fuel n) ≡ 0
unfolding count decimal_digits
count-decimal_digits zero n = ground arith
count-decimal_digits (suc fuel) n =
    let rest = count-decimal_digits fuel (n / 10) in
    let both = count-append percent (decimal_digits fuel (n / 10)) ((48 + n % 10) ∷ []) in
    ground arith

count-decimal : (n : ℤ) → count percent (decimal_ℤ n) ≡ 0
unfolding count decimal_ℤ decimal
count-decimal (pos n) = count-decimal_digits n n
count-decimal (negsuc n) = count-decimal_digits (suc n) (suc n)

count-name_chars : (cs : Text) → count percent (name_chars cs) ≡ 0
unfolding count name_chars
count-name_chars [] = refl
count-name_chars (c ∷ cs) = let rest = count-name_chars cs in ground arith

count-type_asm : (type : DataType) (text : Text) → type_asm type ≡ ok text → count percent text ≡ 0
unfolding count type_asm mlir_type_asm
count-type_asm DataType.not_set text h = absurd (cc)
count-type_asm DataType.half text h = let e = ok-injective h in rw (sym e) refl
count-type_asm DataType.bfloat16 text h = let e = ok-injective h in rw (sym e) refl
count-type_asm DataType.float text h = let e = ok-injective h in rw (sym e) refl
count-type_asm DataType.double text h = let e = ok-injective h in rw (sym e) refl
count-type_asm DataType.uint8 text h = let e = ok-injective h in rw (sym e) refl
count-type_asm DataType.int4 text h = let e = ok-injective h in rw (sym e) refl
count-type_asm DataType.int8 text h = let e = ok-injective h in rw (sym e) refl
count-type_asm DataType.int16 text h = let e = ok-injective h in rw (sym e) refl
count-type_asm DataType.int32 text h = let e = ok-injective h in rw (sym e) refl
count-type_asm DataType.int64 text h = let e = ok-injective h in rw (sym e) refl
count-type_asm DataType.boolean text h = let e = ok-injective h in rw (sym e) refl
count-type_asm DataType.fp8e5m2 text h = let e = ok-injective h in rw (sym e) refl

counts : List Text → ℕ
counts [] = 0
counts (text ∷ texts) = count percent text + counts texts

count-interleave_next :
    (between : Text) (texts : List Text)
    → count percent between ≡ 0
    → count percent (interleave_next (λ text. text) between texts) ≡ counts texts
unfolding count counts interleave_next
count-interleave_next between [] h = refl
count-interleave_next between (text ∷ texts) h =
    let rest = interleave_next (λ (text : Text). text) between texts in
    let both = count-append percent (between ++ text) rest in
    let both' = count-append percent between text in
    let ih = count-interleave_next between texts h in
    let sum : count percent (between ++ text) + count percent rest
        ≡ count percent text + counts texts =
      omega arith in
    both ∙ sum

count-join :
    (between : Text) (texts : List Text)
    → count percent between ≡ 0
    → count percent (join between texts) ≡ counts texts
unfolding count counts join interleave
count-join between [] h = refl
count-join between (text ∷ texts) h =
    let both = count-append percent text (interleave_next (λ (text : Text). text) between texts) in
    let rest = count-interleave_next between texts h in omega arith

counts-each_text {ℓ} :
    {A : Type ℓ} (each : A → Outcome Text)
    → ((x : A) (text : Text) → each x ≡ ok text → count percent text ≡ 0)
    → (xs : List A) (texts : List Text) → each_text each xs ≡ ok texts
    → counts texts ≡ 0
unfolding counts each_text
counts-each_text each zero_ [] texts h = let e = ok-injective h in rw (sym e) refl
counts-each_text each zero_ (x ∷ xs) texts h =
    let (text, e, h₁) = >>=-eq-ok (each x) _ h in
    let (rest, e', h₂) = >>=-eq-ok (each_text each xs) _ h₁ in
    let same : text ∷ rest ≡ texts = ok-injective h₂ in
    let here = zero_ x text e in
    let there = counts-each_text each zero_ xs rest e' in rw (sym same) (omega arith)

count-dim_asm :
    (t : TensorAttr) (indices : List ℕ) (dims : List ℤ) (i : ℕ) (text : Text)
    → dim_asm t indices dims i ≡ ok text
    → count percent text ≡ 0
unfolding count dim_asm
count-dim_asm t indices dims i text h =
    let (index, e, h₁) = >>=-eq-ok (at indices i) _ h in
    elim (Bool-cases (is_dynamic_dim t index)) [
      | inl yes_ ↦ let same = ok-injective (rw yes_ at h₁) in rw (sym same) refl
      | inr no_ ↦
          let (d, e', h₂) = >>=-eq-ok (at dims i) _ (rw no_ at h₁) in
          let same = ok-injective h₂ in rw (sym same) (count-decimal d)
    ]

head-count :
    (is_value_tensor : Bool)
    → count percent (if is_value_tensor then codes "!torch.vtensor<[" else codes "!torch.tensor<[")
      ≡ 0
unfolding count
head-count true = refl
head-count false = refl

-- The parts of a type.
parts-count :
    (head shape element : Text)
    → count percent head ≡ 0
    → count percent shape ≡ 0
    → count percent element ≡ 0
    → count percent (head ++ shape ++ codes "]," ++ element ++ codes ">") ≡ 0
unfolding count
parts-count head shape element a b c =
    let one = count-append percent (head ++ shape ++ codes "]," ++ element) (codes ">") in
    let two = count-append percent (head ++ shape ++ codes "],") element in
    let three = count-append percent (head ++ shape) (codes "],") in
    let four = count-append percent head shape in one ∙ rw (two, three, four, a, b, c) refl

comma-count : count percent (codes ",") ≡ 0
unfolding count
comma-count = refl

pub get_tensor_type_asm-count :
    (v l : Bool) (t : TensorAttr) (text : Text)
    → get_tensor_type_asm v l t ≡ ok text
    → count percent text ≡ 0
unfolding get_tensor_type_asm interleave_ok
get_tensor_type_asm-count v l t text h =
    let (_, _, h₁) = >>=-eq-ok (assert (not (is_empty t.dim))) _ h in
    let (_, _, h₂) = >>=-eq-ok (assert (not (is_empty t.stride))) _ h₁ in
    let (_, _, h₃) = >>=-eq-ok (assert (is_set t.data_type)) _ h₂ in
    let (dims, _, h₄) =
      >>=-eq-ok (elim l as (λ _. Outcome (List ℤ)) [ true ↦ ok t.dim | false ↦ get_physical_dim t ])
        _ h₃ in
    let (indices, _, h₅) =
      >>=-eq-ok
        (elim l as (λ _. Outcome (List ℕ)) [
          | true ↦ ok (iota 0 (length dims))
          | false ↦ get_logical_to_physical_permute_order t
        ])
        _ h₄ in
    let (shape, s, h₆) =
      >>=-eq-ok (interleave_ok (dim_asm t indices dims) (codes ",") (iota 0 (length dims))) _ h₅ in
    let (element, e, h₇) = >>=-eq-ok (type_asm t.data_type) _ h₆ in
    let same = ok-injective h₇ in
    let (texts, each_, joined) =
      >>=-eq-ok (each_text (dim_asm t indices dims) (iota 0 (length dims))) _ s in
    let none_ =
      counts-each_text (dim_asm t indices dims) (count-dim_asm t indices dims)
        (iota 0 (length dims)) texts each_ in
    let shape_ : count percent shape ≡ 0 =
      rw (sym (ok-injective joined)) (count-join (codes ",") texts comma-count ∙ none_) in
    let element_ = count-type_asm t.data_type element e in
    subst (λ x. count percent x ≡ 0) same
      (parts-count _ shape element (head-count v) shape_ element_)

mark-count : (aliased : Bool) → 0 + count percent (if aliased then codes "_" else []) ≡ 0
unfolding count
mark-count true = refl
mark-count false = refl

pub get_value_name_asm-count :
    (aliased : Bool) (t : TensorAttr) (text : Text)
    → get_value_name_asm aliased t ≡ ok text
    → count percent text ≡ 1
unfolding get_value_name_asm count
get_value_name_asm-count aliased t text h =
    let (_, _, h₁) = >>=-eq-ok (assert (not (is_empty (codes t.name)))) _ h in
    let both =
      count-append percent (name_chars (codes t.name)) (if aliased then codes "_" else []) in
    let none_ = count-name_chars (codes t.name) in
    rw (sym (ok-injective h₁)) (ap suc (both ∙ rw none_ (mark-count aliased)))
