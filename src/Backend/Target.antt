-- ===== src/Backend/Target.antt =====
-- backend/backend.h: which target the compiler is told for an AMD GPU. What the two tools print is an
-- argument, `none` where `execCommand` fails.
pub mod Laws
use fusilli.Base.{
  ℕ, suc, ◌+◌, ◌-◌, ◌==◌, leb, Bool, true, false, ◌&&◌, ◌||◌, Option, none, some, List, [], ◌∷◌,
  ◌++◌, map, is_empty, if◌then◌else◌, Text, codes, texts_eq,
}

-- What is left of a text after a pattern that it starts with.
unfoldable pub drop_prefix : Text → Text → Option Text
drop_prefix [] t = some t
drop_prefix (p ∷ ps) [] = none
drop_prefix (p ∷ ps) (c ∷ cs) = if c == p then drop_prefix ps cs else none

-- What is left after the first place where the pattern stands; `find` of `std::string`.
unfoldable pub after : Text → Text → Option Text
unfolding drop_prefix
after pattern [] = drop_prefix pattern []
after pattern (c ∷ cs) = elim (drop_prefix pattern (c ∷ cs)) [
  | some rest ↦ some rest
  | none ↦ after pattern cs
]

-- `std::toupper` in the C locale.
unfoldable pub to_upper : ℕ → ℕ
to_upper c = if leb 97 c && leb c 122 then c - 32 else c

abbrev pub sku_patterns : List (Text × Text)
sku_patterns =
    (codes "MI355X", codes "mi355x")
    ∷ (codes "MI350X", codes "mi350x")
    ∷ (codes "MI325X", codes "mi325x")
    ∷ (codes "MI308X", codes "mi308x")
    ∷ (codes "MI300X", codes "mi300x")
    ∷ (codes "MI300A", codes "mi300a")
    ∷ (codes "MI250X", codes "mi250x")
    ∷ (codes "MI250", codes "mi250")
    ∷ (codes "MI210", codes "mi210")
    ∷ (codes "MI100", codes "mi100")
    ∷ (codes "W7900", codes "w7900")
    ∷ (codes "W7800", codes "w7800")
    ∷ (codes "W7700", codes "w7700")
    ∷ (codes "V710", codes "v710")
    ∷ (codes "RX 7900 XTX", codes "rx7900xtx")
    ∷ (codes "RX 7900 XT", codes "rx7900xt")
    ∷ (codes "RX 7800 XT", codes "rx7800xt")
    ∷ (codes "RX 7700 XT", codes "rx7700xt")
    ∷ (codes "RX 9070 XT", codes "rx9070xt")
    ∷ (codes "RX 9070", codes "rx9070")
    ∷ (codes "RX 9060 XT", codes "rx9060xt")
    ∷ (codes "R9700", codes "r9700")
    ∷ []

-- The loop over the patterns.
unfoldable pub find_sku : Text → List (Text × Text) → Text
unfolding after to_upper
find_sku upper_name [] = []
find_sku upper_name ((pattern, sku) ∷ rest) = elim (after (map to_upper pattern) upper_name) [
  | some _ ↦ sku
  | none ↦ find_sku upper_name rest
]

unfoldable pub get_gpu_sku_from_marketing_name : Text → Text
unfolding find_sku
get_gpu_sku_from_marketing_name marketing_name = find_sku (map to_upper marketing_name) sku_patterns

abbrev pub double_quote : ℕ
double_quote = 34

-- What stands before the first byte `c`, and what after it.
unfoldable pub split_at : ℕ → Text → Option (Text × Text)
split_at c [] = none
split_at c (d ∷ ds) = elim (d == c) [
  | true ↦ some ([], ds)
  | false ↦ elim (split_at c ds) [ none ↦ none | some (before, rest) ↦ some (d ∷ before, rest) ]
]

abbrev pub market_name_key : Text
market_name_key = double_quote ∷ codes "market_name" ++ double_quote ∷ 58 ∷ []

-- The value of "market_name" in what `amd-smi` prints.
unfoldable pub get_gpu_marketing_name_from_amd_smi : Option Text → Text
unfolding after split_at
get_gpu_marketing_name_from_amd_smi none = []
get_gpu_marketing_name_from_amd_smi (some output) = elim (after market_name_key output) [
  | none ↦ []
  | some rest ↦ elim (split_at double_quote rest) [
    | none ↦ []
    | some (_, value) ↦ elim (split_at double_quote value) [ none ↦ [] | some (name, _) ↦ name ]
  ]
]

abbrev pub line_feed : ℕ
line_feed = 10

abbrev pub is_space : ℕ → Bool
is_space c = c == 32 || c == line_feed || c == 13 || c == 9

-- `target.erase(target.find_last_not_of(" \n\r\t") + 1)`
unfoldable pub trim_right : Text → Text
trim_right [] = []
trim_right (c ∷ cs) =
    let rest = trim_right cs in if is_empty rest && is_space c then [] else c ∷ rest

-- The loop `while (std::getline(stream, target))`, with the text that is left and `target` as they
-- are before a round, `line` as far as it is read, and whether the last line ended in a line break. At
-- the end of the text `getline` empties `target` if it has not met the end before.
unfoldable pub read_archs : Text → Text → Bool → Text → Text
unfolding trim_right texts_eq
read_archs line target fresh [] =
    let arch = trim_right line in if is_empty line then (if fresh then [] else target) else arch
read_archs line target fresh (c ∷ cs) =
    let arch = trim_right line in
    elim (c == line_feed) [
      | true ↦ elim (texts_eq arch (codes "gfx000")) [
        | true ↦ read_archs [] arch true cs
        | false ↦ arch
      ]
      | false ↦ read_archs (line ++ c ∷ []) target false cs
    ]

-- An output that is empty gives no target, as does a failure.
unfoldable pub get_arch_from_rocm_agent_enumerator : Option Text → Text
unfolding read_archs
get_arch_from_rocm_agent_enumerator none = []
get_arch_from_rocm_agent_enumerator (some output) = read_archs [] [] true output

unfoldable pub get_iree_rocm_target_for_amdgpu : Option Text → Option Text → Text
unfolding get_gpu_marketing_name_from_amd_smi get_gpu_sku_from_marketing_name
    get_arch_from_rocm_agent_enumerator
get_iree_rocm_target_for_amdgpu amd_smi enumerator =
    let marketing_name = get_gpu_marketing_name_from_amd_smi amd_smi in
    let sku = get_gpu_sku_from_marketing_name marketing_name in
    if is_empty marketing_name || is_empty sku
    then get_arch_from_rocm_agent_enumerator enumerator
    else sku
