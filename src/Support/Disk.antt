-- ===== src/Support/Disk.antt =====
-- The file system, as far as support/cache.h uses it. A disk says what each file holds, and which calls
-- the system refuses; a refused write leaves the file empty. Directories are not kept.
use fusilli.Base.{
  Bool, true, false, Option, none, some, is_some, if◌then◌else◌, Text, texts_eq, Outcome, ok, error,
  fault, ErrorCode,
}

pub record Disk : Type 0 where
  pub content : Text → Option Text
  pub can_make_directory : Text → Bool
  pub can_open : Text → Bool
  pub can_write : Text → Bool
  pub can_read : Text → Bool

-- A step that may fail, and the disk after it.
abbrev pub Io {ℓ} : Type ℓ → Type ℓ
Io A = Disk → Outcome A × Disk

abbrev pub follow {ℓ κ} :
    {A : Type ℓ} {B : Type κ} → Outcome A × Disk → (A → Io B) → Outcome B × Disk
follow (ok a, d) next = next a d
follow (error e, d) next = (error e, d)
follow (fault, d) next = (fault, d)

infixl 5 ◌>>>◌
abbrev pub ◌>>>◌ {ℓ κ} : {A : Type ℓ} {B : Type κ} → Io A → (A → Io B) → Io B
(m >>> next) d = follow (m d) next

abbrev pub pure {ℓ} : {A : Type ℓ} → A → Io A
pure a d = (ok a, d)

abbrev pub fail {ℓ} : {A : Type ℓ} → ErrorCode → Io A
fail e d = (error e, d)

abbrev pub lift {ℓ} : {A : Type ℓ} → Outcome A → Io A
lift m d = (m, d)

abbrev pub fail_if : Bool → ErrorCode → Io (Unit {0})
fail_if true e = fail e
fail_if false e = pure tt

unfoldable pub exists : Text → Disk → Bool
exists path d = is_some (d.content path)

unfoldable pub store : Text → Text → Disk → Disk
store path text d = record d { content = λ q. if texts_eq q path then some text else d.content q }

-- `std::filesystem::remove`
unfoldable pub remove : Text → Disk → Disk
remove path d = record d { content = λ q. if texts_eq q path then none else d.content q }
