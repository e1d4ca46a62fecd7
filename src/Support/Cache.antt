-- ===== src/Support/Cache.antt =====
-- support/cache.h: files of the cache. The cache directory that the environment gives is an argument.
use fusilli.Base.{
  is_alnum, ◌==◌, Bool, true, false, not, ◌&&◌, ◌||◌, Option, none, some, [], ◌∷◌, is_empty,
  if◌then◌else◌, Text, codes, texts_eq, ◌//◌, is_absolute, slash, fault, Outcome, ok, error,
  file_system_failure,
}
use fusilli.Support.Disk.{Disk, Io, exists, store, remove}

pub record CacheFile : Type 0 where
  pub path : Text
  pub remove_ : Bool

-- `getCacheDir` from the two environment variables.
unfoldable pub get_cache_dir : Option Text → Option Text → Text
unfolding ◌//◌
get_cache_dir cache_dir_env home =
    let given = elim cache_dir_env as (λ _. Text) [ none ↦ [] | some t ↦ t ] in
    let at_home = elim home as (λ _. Text) [ none ↦ [] | some t ↦ t ] in
    (if is_empty given then at_home else given) // codes ".cache" // codes "fusilli"

-- Spaces are underscores, and no byte is left that is not a letter, a digit or an underscore.
unfoldable pub sanitize : Text → Text
sanitize [] = []
sanitize (c ∷ cs) =
    let rest = sanitize cs in
    if c == 32 then 95 ∷ rest else if is_alnum c || c == 95 then c ∷ rest else rest

unfoldable pub get_path : Text → Text → Text → Text
unfolding sanitize ◌//◌
get_path cache_dir graph_name file_name =
    let clean = sanitize graph_name in
    cache_dir // (if is_empty clean then codes "unnamed_graph" else clean) // file_name

unfoldable pub has_slash : Text → Bool
has_slash [] = false
has_slash (c ∷ cs) = if c == 47 then true else has_slash cs

-- What stands before the last slash.
unfoldable pub before_slash : Text → Text
unfolding has_slash
before_slash [] = []
before_slash (c ∷ cs) = let rest = before_slash cs in if has_slash cs then c ∷ rest else []

unfoldable pub parent_path : Text → Text
unfolding before_slash
parent_path path =
    if is_empty (before_slash path) && is_absolute path then slash ∷ [] else before_slash path

-- The methods of `CacheFile` that make one; `open_` is `open`.
unfoldable pub create : Text → Text → Text → Bool → Io CacheFile
unfolding get_path parent_path store
create cache_dir graph_name file_name remove_ d =
    let path = get_path cache_dir graph_name file_name in
    if not (d.can_make_directory (parent_path path))
    then (error file_system_failure, d)
    else if not (d.can_open path)
    then (error file_system_failure, d)
    else (ok (record { path = path; remove_ = remove_ }), store path [] d)

unfoldable pub open_ : Text → Text → Text → Io CacheFile
unfolding get_path exists
open_ cache_dir graph_name file_name d =
    let path = get_path cache_dir graph_name file_name in
    if not (exists path d)
    then (error file_system_failure, d)
    else (ok (record { path = path; remove_ = false }), d)

unfoldable pub write : Text → CacheFile → Io (Unit {0})
unfolding store
write content file d =
    if not (d.can_open file.path)
    then (error file_system_failure, d)
    else if not (d.can_write file.path)
    then (error file_system_failure, store file.path [] d)
    else (ok tt, store file.path content d)

-- `CacheFile::read`, and `readFileBytes`, which takes a path.
unfoldable pub read_file_bytes : Text → Io Text
read_file_bytes path d =
    if not (d.can_read path)
    then (error file_system_failure, d)
    else elim (d.content path) [ none ↦ (error file_system_failure, d) | some text ↦ (ok text, d) ]

unfoldable pub read : CacheFile → Io Text
unfolding read_file_bytes
read file = read_file_bytes file.path

-- The destructor.
unfoldable pub destroy : CacheFile → Disk → Disk
unfolding remove
destroy file d = if file.remove_ && not (is_empty file.path) then remove file.path d else d

-- The move assignment, which leaves nothing to destroy in the file that is moved from.
unfoldable pub move_assign : CacheFile → CacheFile → Disk → CacheFile × Disk
unfolding remove texts_eq
move_assign file other d =
    let same_path = texts_eq file.path other.path in
    (
      other,
      if file.remove_ && not (is_empty file.path) && not same_path then remove file.path d else d,
    )

-- What happens to a local file when the rest of a function has run: a success moves it, and an early
-- return destroys it.
abbrev pub leave {ℓ} : {A : Type ℓ} → (Disk → Disk) → Outcome A × Disk → Outcome A × Disk
leave release (ok a, d) = (ok a, d)
leave release (error e, d) = (error e, release d)
leave release (fault, d) = (fault, d)

unfoldable pub holding {ℓ} : {A : Type ℓ} → CacheFile → Io A → Io A
unfolding destroy
holding file rest d = leave (destroy file) (rest d)

pub record CachedAssets : Type 0 where
  pub input : CacheFile
  pub output : CacheFile
  pub command : CacheFile
  pub statistics : CacheFile

pub data CachedAssetsType : Type 0 where
  input output command statistics : CachedAssetsType

-- The destructor destroys the members from the last to the first.
unfoldable pub destroy_assets : CachedAssets → Disk → Disk
unfolding destroy
destroy_assets assets d =
    destroy assets.input
      (destroy assets.output (destroy assets.command (destroy assets.statistics d)))

-- `cache_ = std::move(generatedCache)`
unfoldable pub assign_assets : Option CachedAssets → CachedAssets → Disk → CachedAssets × Disk
unfolding move_assign
assign_assets none other d = (other, d)
assign_assets (some assets) other d =
    let (i, d₁) = move_assign assets.input other.input d in
    let (o, d₂) = move_assign assets.output other.output d₁ in
    let (c, d₃) = move_assign assets.command other.command d₂ in
    let (s, d₄) = move_assign assets.statistics other.statistics d₃ in
    (record { input = i; output = o; command = c; statistics = s }, d₄)
