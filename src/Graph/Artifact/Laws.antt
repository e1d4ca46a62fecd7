-- ===== src/Graph/Artifact/Laws.antt =====
-- graph/graph.h: when the cache of a graph is valid.
use fusilli.Base.{
  ◌≡◌, refl, ap, ◌∙◌, ◌↔◌, inl, inr, Bool, Bool-cases, true, false, not, Option-cases, some,
  if◌then◌else◌, Text, texts_eq, texts_eq_iff, texts_eq_refl, texts_eq→eq, Outcome, ok, error,
  fault, file_system_failure,
}
use fusilli.Backend.{Backend}
use fusilli.Support.Disk.{Disk, follow, exists}
use fusilli.Support.Cache.{CacheFile, CachedAssets, get_path, open_, read, read_file_bytes}
use fusilli.Graph.Artifact.{
  Environment, input_filename, output_filename, command_filename, statistics_filename, same_path,
  command_text, check_files, validate_cache,
}

-- A check of the cache that did not end in a miss.
guard_true :
    (b : Bool) (rest : Disk → Outcome Bool × Disk) (d d' : Disk)
    → (if not b then (λ d. (ok false, d)) else rest) d ≡ (ok true, d')
    → (b ≡ true) × (rest d ≡ (ok true, d'))
guard_true true rest d d' h = (refl, h)
guard_true false rest d d' h = cc

after_lift :
    (m : Outcome Text) (next : Text → Disk → Outcome Bool × Disk) (d : Disk) (r : Bool × Disk)
    → follow (m, d) next ≡ (ok r.0, r.1)
    → (text : Text) × (m ≡ ok text) × (next text d ≡ (ok r.0, r.1))
after_lift (ok text) next d r h = (text, refl, h)
after_lift (error e) next d r h = cc
after_lift fault next d r h = cc

guard_disk :
    (b : Bool) (rest : Disk → Outcome Bool × Disk) (d : Disk)
    → (rest d).1 ≡ d
    → ((if not b then (λ d. (ok false, d)) else rest) d).1 ≡ d
guard_disk true rest d h = h
guard_disk false rest d h = refl

-- A step that changes no file, and what follows it.
follow-disk {ℓ} :
    {A : Type ℓ} (m : Outcome A × Disk) (next : A → Disk → Outcome Bool × Disk) (d : Disk)
    → m.1 ≡ d
    → ((a : A) → (next a d).1 ≡ d)
    → (follow m next).1 ≡ d
follow-disk (ok a, d') next d e h = rw e (h a)
follow-disk (error x, d') next d e h = e
follow-disk (fault, d') next d e h = e

module _ (env : Environment) (name : Text) where
  abbrev pub cached_path : Text → Text
  cached_path = get_path env.cache_dir name

  abbrev pub opened : Text → CacheFile
  opened file_name = record { path = cached_path file_name; remove_ = false }

  -- The files of the cache are those of the graph's name.
  abbrev pub AtPaths : CachedAssets → Type 0
  AtPaths c =
      (c.input.path ≡ cached_path input_filename)
      × (c.output.path ≡ cached_path output_filename)
      × (c.command.path ≡ cached_path command_filename)
      × (c.statistics.path ≡ cached_path statistics_filename)

  abbrev pub AllExist : Disk → Type 0
  AllExist d =
      (exists (cached_path input_filename) d ≡ true)
      × (exists (cached_path output_filename) d ≡ true)
      × (exists (cached_path command_filename) d ≡ true)
      × (exists (cached_path statistics_filename) d ≡ true)

  -- What can be read from a file.
  abbrev pub Reads : Disk → Text → Text → Type 0
  Reads d file_name text =
      (d.can_read (cached_path file_name) ≡ true) × (d.content (cached_path file_name) ≡ some text)

  -- The command line for the files as they are cached.
  abbrev pub current_command : Backend → Outcome Text
  current_command backend =
      command_text env backend (opened input_filename) (opened output_filename)
        (opened statistics_filename)

  pub open_-eq :
      (file_name : Text) (d : Disk)
      → open_ env.cache_dir name file_name d ≡ (
          if exists (cached_path file_name) d
          then (ok (opened file_name), d)
          else (error file_system_failure, d))
  unfolding open_
  open_-eq file_name d = elim (Bool-cases (exists (cached_path file_name) d)) [
    | inl e ↦ rw e refl
    | inr e ↦ rw e refl
  ]

  open_exists :
      (file_name : Text) (d : Disk)
      → exists (cached_path file_name) d ≡ true
      → open_ env.cache_dir name file_name d ≡ (ok (opened file_name), d)
  open_exists file_name d e = open_-eq file_name d ∙ rw e refl

  read-Reads :
      (file_name text : Text) (d : Disk)
      → Reads d file_name text
      → read (opened file_name) d ≡ (ok text, d)
  unfolding read read_file_bytes
  read-Reads file_name text d (can, content) = rw (can, content) refl

  after_open :
      (file_name : Text) (next : CacheFile → Disk → Outcome Bool × Disk) (d : Disk)
      (r : Bool × Disk)
      → follow (open_ env.cache_dir name file_name d) next ≡ (ok r.0, r.1)
      → (exists (cached_path file_name) d ≡ true) × (next (opened file_name) d ≡ (ok r.0, r.1))
  after_open file_name next d r h =
      let h' = rw (open_-eq file_name d) at h in
      elim (Bool-cases (exists (cached_path file_name) d)) [
        | inl there ↦ (there, rw there at h')
        | inr lost ↦ absurd (let bad = rw lost at h' in cc)
      ]

  after_read :
      (file_name : Text) (next : Text → Disk → Outcome Bool × Disk) (d : Disk) (r : Bool × Disk)
      → follow (read (opened file_name) d) next ≡ (ok r.0, r.1)
      → (text : Text) × Reads d file_name text × (next text d ≡ (ok r.0, r.1))
  unfolding read read_file_bytes
  after_read file_name next d r h = elim (Bool-cases (d.can_read (cached_path file_name))) [
    | inr no_ ↦ absurd (let bad = rw no_ at h in cc)
    | inl can ↦ elim (Option-cases (d.content (cached_path file_name))) [
      | inl gone ↦ absurd (let bad = rw (can, gone) at h in cc)
      | inr (text, e) ↦ (text, (can, e), rw (can, e) at h)
    ]
  ]

  check_files-true :
      (backend : Backend) (asm : Text) (d : Disk)
      → check_files env name backend asm d ≡ (ok true, d)
      → AllExist d
        × Reads d input_filename asm
        × ((command : Text) × (current_command backend ≡ ok command)
            × Reads d command_filename command)
  unfolding check_files
  check_files-true backend asm d h =
      let (e₁, h₁) = after_open input_filename _ d (true, d) h in
      let (e₂, h₂) = after_open output_filename _ d (true, d) h₁ in
      let (e₃, h₃) = after_open command_filename _ d (true, d) h₂ in
      let (e₄, h₄) = after_open statistics_filename _ d (true, d) h₃ in
      let (contents, r, h₅) = after_read input_filename _ d (true, d) h₄ in
      let (same, h₆) = guard_true (texts_eq contents asm) _ d d h₅ in
      let (command, c, h₇) = after_lift (current_command backend) _ d (true, d) h₆ in
      let (found, r', h₈) = after_read command_filename _ d (true, d) h₇ in
      let equal : found ≡ command = texts_eq→eq found command (cc h₈) in
      (
        (e₁, e₂, e₃, e₄),
        (r.0, r.1 ∙ ap some (texts_eq→eq contents asm same)),
        (command, c, (r'.0, r'.1 ∙ ap some equal)),
      )

  open_-disk : (file_name : Text) (d : Disk) → (open_ env.cache_dir name file_name d).1 ≡ d
  open_-disk file_name d =
      rw (open_-eq file_name d) (elim (Bool-cases (exists (cached_path file_name) d)) [
        | inl e ↦ rw e refl
        | inr e ↦ rw e refl
      ])

  read-disk : (file : CacheFile) (d : Disk) → (read file d).1 ≡ d
  unfolding read read_file_bytes
  read-disk file d = elim (Bool-cases (d.can_read file.path)) [
    | inr no_ ↦ rw no_ refl
    | inl can ↦ elim (Option-cases (d.content file.path)) [
      | inl gone ↦ rw (can, gone) refl
      | inr (text, e) ↦ rw (can, e) refl
    ]
  ]

  check_files-disk :
      (backend : Backend) (asm : Text) (d : Disk) → (check_files env name backend asm d).1 ≡ d
  unfolding check_files
  check_files-disk backend asm d =
      follow-disk (open_ env.cache_dir name input_filename d) _ d (open_-disk input_filename d)
        λ input.
          follow-disk (open_ env.cache_dir name output_filename d) _ d
            (open_-disk output_filename d)
            λ output.
              follow-disk (open_ env.cache_dir name command_filename d) _ d
                (open_-disk command_filename d)
                λ command.
                  follow-disk (open_ env.cache_dir name statistics_filename d) _ d
                    (open_-disk statistics_filename d)
                    λ statistics. follow-disk (read input d) _ d (read-disk input d) λ contents.
                      guard_disk (texts_eq contents asm) _ d (
                        follow-disk (command_text env backend input output statistics, d) _ d refl
                          λ line.
                            follow-disk (read command d) _ d (read-disk command d) λ found. refl)

  -- No step of the check changes a file.
  validate_cache-disk :
      (cache : CachedAssets) (backend : Backend) (asm : Text) (d : Disk)
      → (validate_cache env name (some cache) backend asm d).1 ≡ d
  unfolding validate_cache
  validate_cache-disk cache backend asm d =
      guard_disk (same_path env name input_filename cache.input) _ d (
        guard_disk (same_path env name output_filename cache.output) _ d (
          guard_disk (same_path env name command_filename cache.command) _ d (
            guard_disk (same_path env name statistics_filename cache.statistics) _ d
              (check_files-disk backend asm d))))

  -- The cache is valid for a backend and an assembly exactly when it is the one of the graph's name, its
  -- four files exist, and the input file holds the assembly and the command file the command line that
  -- would be run now. Whatever the result, checking
  -- changes no file.
  pub validate_cache_iff :
      (cache : CachedAssets) (backend : Backend) (asm : Text) (d : Disk)
      → ((validate_cache env name (some cache) backend asm d ≡ (ok true, d)) ↔ (
          AtPaths cache
          × AllExist d
          × Reads d input_filename asm
          × ((command : Text) × (current_command backend ≡ ok command)
              × Reads d command_filename command)))
        × ((validate_cache env name (some cache) backend asm d).1 ≡ d)
  unfolding validate_cache same_path check_files
  validate_cache_iff cache backend asm d = ((valid, fresh), validate_cache-disk cache backend asm d)
    where
      fresh :
          AtPaths cache
            × AllExist d
            × Reads d input_filename asm
            × ((command : Text) × (current_command backend ≡ ok command)
                × Reads d command_filename command)
          → validate_cache env name (some cache) backend asm d ≡ (ok true, d)
      fresh ((p₁, p₂, p₃, p₄), (e₁, e₂, e₃, e₄), r, (command, c, r')) =
          let s₁ = (texts_eq_iff cache.input.path (cached_path input_filename)).1 p₁ in
          let s₂ = (texts_eq_iff cache.output.path (cached_path output_filename)).1 p₂ in
          let s₃ = (texts_eq_iff cache.command.path (cached_path command_filename)).1 p₃ in
          let s₄ = (texts_eq_iff cache.statistics.path (cached_path statistics_filename)).1 p₄ in
          let o₁ = open_exists input_filename d e₁ in
          let o₂ = open_exists output_filename d e₂ in
          let o₃ = open_exists command_filename d e₃ in
          let o₄ = open_exists statistics_filename d e₄ in
          let i = read-Reads input_filename asm d r in
          let r₁ = read-Reads command_filename command d r' in
          rw (s₁, s₂, s₃, s₄, o₁, o₂, o₃, o₄, i, texts_eq_refl asm, c, r₁, texts_eq_refl command)
            refl

      valid :
          validate_cache env name (some cache) backend asm d ≡ (ok true, d)
          → AtPaths cache
            × AllExist d
            × Reads d input_filename asm
            × ((command : Text) × (current_command backend ≡ ok command)
                × Reads d command_filename command)
      valid h =
          let (s₁, h₁) = guard_true (same_path env name input_filename cache.input) _ d d h in
          let (s₂, h₂) = guard_true (same_path env name output_filename cache.output) _ d d h₁ in
          let (s₃, h₃) = guard_true (same_path env name command_filename cache.command) _ d d h₂ in
          let (s₄, h₄) =
            guard_true (same_path env name statistics_filename cache.statistics) _ d d h₃ in
          let (all, r, c) = check_files-true backend asm d h₄ in
          (
            (
              (texts_eq_iff _ _).0 s₁,
              (texts_eq_iff _ _).0 s₂,
              (texts_eq_iff _ _).0 s₃,
              (texts_eq_iff _ _).0 s₄,
            ),
            all,
            r,
            c,
          )
