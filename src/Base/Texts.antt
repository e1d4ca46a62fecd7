-- ===== src/Base/Texts.antt =====
-- Texts as lists of bytes: equality, search, and `std::filesystem::path` as it is written.
use Prim.Native.Nat.{ℕ}
use Prim.Native.Char.{code}
use Prim.Native.String.{String}
use mathlib.Core.Path.{◌≡◌, refl}
use mathlib.Core.Logic.{◌↔◌}
use mathlib.Core.Bool.{Bool, true, false, ◌&&◌, ◌||◌}
use mathlib.Core.List.{List, [], ◌∷◌, ◌++◌}
use native.Mathlib.Omega.{arith}
use fusilli.Base.Tests.{leb, ◌==◌, ==_iff, if◌then◌else◌}

abbrev pub Text : Type 0
Text = List ℕ

-- The bytes of an ASCII literal.
abbrev pub codes : String → Text
codes String.[] = []
codes (String.◌∷◌ c s) = code c ∷ codes s

-- `==` of `std::string`.
unfoldable pub texts_eq : Text → Text → Bool
texts_eq [] [] = true
texts_eq (x ∷ xs) (y ∷ ys) = if x == y then texts_eq xs ys else false
texts_eq _ _ = false

pub texts_eq_refl : (xs : Text) → texts_eq xs xs ≡ true
unfolding texts_eq
texts_eq_refl [] = refl
texts_eq_refl (x ∷ xs) = ground (arith, ==_iff x x, texts_eq_refl xs)

pub texts_eq→eq : (xs ys : Text) → texts_eq xs ys ≡ true → xs ≡ ys
unfolding texts_eq
texts_eq→eq [] [] h = refl
texts_eq→eq [] (y ∷ ys) h = ground arith
texts_eq→eq (x ∷ xs) [] h = ground arith
texts_eq→eq (x ∷ xs) (y ∷ ys) h = ground (arith, ==_iff x y, texts_eq→eq xs ys)

pub texts_eq_iff : (xs ys : Text) → (texts_eq xs ys ≡ true) ↔ (xs ≡ ys)
texts_eq_iff xs ys = (texts_eq→eq xs ys, λ e. rw e (texts_eq_refl ys))

-- `std::isalnum`, in the locale that a program starts with.
abbrev pub is_alnum : ℕ → Bool
is_alnum c = leb 48 c && leb c 57 || leb 65 c && leb c 90 || leb 97 c && leb c 122

abbrev pub slash : ℕ
slash = 47

abbrev pub is_absolute : Text → Bool
is_absolute [] = false
is_absolute (c ∷ cs) = c == slash

unfoldable pub ends_in_slash : Text → Bool
ends_in_slash [] = false
ends_in_slash (c ∷ []) = c == slash
ends_in_slash (c ∷ d ∷ cs) = ends_in_slash (d ∷ cs)

-- `a / b` of paths on POSIX.
infixl 70 ◌//◌
unfoldable pub ◌//◌ : Text → Text → Text
unfolding ends_in_slash
[] // b = b
(c ∷ cs) // b =
    if is_absolute b
    then b
    else if ends_in_slash (c ∷ cs)
    then (c ∷ cs) ++ b
    else (c ∷ cs) ++ slash ∷ b
