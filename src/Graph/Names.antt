-- ===== src/Graph/Names.antt =====
-- graph/graph.h, node/node.h: the names of tensors and nodes are SSA values, so they must differ.
pub mod Laws
use fusilli.Base.{
  Bool, true, false, ◌||◌, List, [], ◌∷◌, ◌++◌, String, str_eq, Outcome, ok, error_if,
  invalid_attribute, ◌>>=◌, ◌>>◌,
}

-- `usedSymbols.contains`
unfoldable pub is_used : String → List String → Bool
is_used name [] = false
is_used name (s ∷ used) = str_eq s name || is_used name used

-- The loops of `Graph::preValidateNode` and of `checkNodeNamesAreUnique`, whose leaves have no sub
-- nodes: the names in turn, each against all before it. The result is `usedSymbols`.
unfoldable pub check_names_are_unique : List String → List String → Outcome (List String)
unfolding is_used
check_names_are_unique [] used = ok used
check_names_are_unique (name ∷ names) used = do
  error_if (is_used name used) invalid_attribute
  check_names_are_unique names (name ∷ used)
