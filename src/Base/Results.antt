-- ===== src/Base/Results.antt =====
-- support/logging.h: error codes, `ErrorObject` and `ErrorOr`, as one result type with a third case
-- for a run that the C++ gives no meaning: an assertion that fails, an index out of range, a null
-- pointer that is read, a division by zero, a signed overflow.
use mathlib.Core.Path.{◌≡◌, refl, subst}
use mathlib.Core.Bool.{Bool, true, false}
use fusilli.Base.Tests.{if◌then◌else◌}
use fusilli.Base.Int.{ℤ, pos, ◌+ℤ◌, ◌-ℤ◌, ◌*ℤ◌, quot, rem, ◌==ℤ◌, in_int64}

pub data ErrorCode : Type 0 where
  not_implemented not_validated not_compiled attribute_not_set internal_error : ErrorCode
  invalid_attribute invalid_argument variant_pack_error compile_failure : ErrorCode
  runtime_failure file_system_failure : ErrorCode

pub data Outcome {ℓ} (A : Type ℓ) : Type ℓ where
  ok : A → Outcome A
  error : ErrorCode → Outcome A
  fault : Outcome A

infixl 5 ◌>>=◌ ◌>>◌
abbrev pub ◌>>=◌ {ℓ κ} : {A : Type ℓ} {B : Type κ} → Outcome A → (A → Outcome B) → Outcome B
fault >>= next = fault
error code >>= next = error code
ok x >>= next = next x

abbrev pub ◌>>◌ {ℓ} : {A : Type ℓ} → Outcome (Unit {0}) → Outcome A → Outcome A
check >> rest = check >>= λ done. rest

-- `FUSILLI_RETURN_ERROR_IF`
abbrev pub error_if : Bool → ErrorCode → Outcome (Unit {0})
error_if true e = error e
error_if false e = ok tt

abbrev pub assert : Bool → Outcome (Unit {0})
assert true = ok tt
assert false = fault

pub ok-injective {ℓ} : {A : Type ℓ} {a b : A} → ok a ≡ ok b → a ≡ b
ok-injective h = cc

-- Inversion of a successful bind.
pub >>=-eq-ok {ℓ κ} :
    {A : Type ℓ} {B : Type κ} {value : B} (run : Outcome A) (next : A → Outcome B)
    → (run >>= next) ≡ ok value
    → (x : A) × (run ≡ ok x) × (next x ≡ ok value)
>>=-eq-ok fault next success = cc
>>=-eq-ok (error code) next success = cc
>>=-eq-ok (ok x) next success = (x, refl, success)

-- `P` holds of the value that `m` gives, if it gives one.
abbrev pub Post {ℓ κ} : {A : Type ℓ} → (A → Type κ) → Outcome A → Type (ℓ ⊔ κ)
Post {A} P m = (a : A) → m ≡ ok a → P a

pub Post-ok {ℓ κ} : {A : Type ℓ} (P : A → Type κ) {a : A} → P a → Post P (ok a)
Post-ok P p b h = subst P (ok-injective h) p

pub Post->>= {ℓ κ μ} :
    {A : Type ℓ} {B : Type κ} {P : B → Type μ} (m : Outcome A) {f : A → Outcome B}
    → ((a : A) → m ≡ ok a → Post P (f a))
    → Post P (m >>= f)
Post->>= m {f} step b h = let (a, e, e') = >>=-eq-ok m f h in step a e b e'

pub Post-then {ℓ κ μ ν} :
    {A : Type ℓ} {B : Type κ} {P : B → Type ν} (Q : A → Type μ) {m : Outcome A} {f : A → Outcome B}
    → Post Q m
    → ((a : A) → Q a → Post P (f a))
    → Post P (m >>= f)
Post-then Q {m} holds step = Post->>= m λ a e. step a (holds a e)

pub Post-if {ℓ κ} :
    {A : Type ℓ} {P : A → Type κ} (c : Bool) {m n : Outcome A}
    → (c ≡ true → Post P m)
    → (c ≡ false → Post P n)
    → Post P (if c then m else n)
Post-if true then_ else_ = then_ refl
Post-if false then_ else_ = else_ refl

abbrev pub is_ok {ℓ} : {A : Type ℓ} → Outcome A → Bool
is_ok (ok a) = true
is_ok (error e) = false
is_ok fault = false

pub is_ok-value {ℓ} : {A : Type ℓ} (m : Outcome A) → is_ok m ≡ true → (a : A) × (m ≡ ok a)
is_ok-value (ok a) h = (a, refl)
is_ok-value (error e) h = cc
is_ok-value fault h = cc

pub error_if-eq-ok : (b : Bool) (e : ErrorCode) → error_if b e ≡ ok tt → b ≡ false
error_if-eq-ok true e h = cc
error_if-eq-ok false e h = refl

pub >>=_assoc {ℓ κ μ} :
    {A : Type ℓ} {B : Type κ} {C : Type μ} (m : Outcome A) (f : A → Outcome B) (g : B → Outcome C)
    → ((m >>= f) >>= g) ≡ (m >>= λ a. f a >>= g)
>>=_assoc (ok a) f g = refl
>>=_assoc (error e) f g = refl
>>=_assoc fault f g = refl

-- The arithmetic of `int64_t`.
unfoldable pub int64 : ℤ → Outcome ℤ
int64 a = if in_int64 a then ok a else fault

abbrev pub add64 : ℤ → ℤ → Outcome ℤ
add64 a b = int64 (a +ℤ b)

abbrev pub sub64 : ℤ → ℤ → Outcome ℤ
sub64 a b = int64 (a -ℤ b)

abbrev pub mul64 : ℤ → ℤ → Outcome ℤ
mul64 a b = int64 (a *ℤ b)

-- A quotient out of range makes the remainder undefined too.
unfoldable pub div64 : ℤ → ℤ → Outcome ℤ
unfolding int64
div64 a b = if b ==ℤ pos 0 then fault else int64 (quot a b)

unfoldable pub mod64 : ℤ → ℤ → Outcome ℤ
unfolding int64
mod64 a b = if b ==ℤ pos 0 then fault else do _ ← int64 (quot a b); ok (rem a b)
