-- ===== src/StateNode.antt =====
-- BlockRAFT-distributed_node/merkleTree/globalState.h: the text of a node of the Merkle tree,
-- `serializeNode` and `deserializeNode`.
pub mod RoundTrip
use icsa_artifact.Base.{
  ℕ, zero, suc, ◌+◌, ◌-◌, ◌==◌, ltb, Bool, true, false, Option, none, some, List, [], ◌∷◌, ◌++◌,
  if◌then◌else◌, length, take, drop,
}
use icsa_artifact.Text.{Text}

-- `struct Node`
pub record Node : Type 0 where
  pub value : Text
  pub hash : Text
  pub children : List Text

abbrev pub comma : ℕ
comma = b','

unfoldable pub add_children : List Text → Text
add_children [] = []
add_children (child ∷ children) = comma ∷ child ++ add_children children

-- `serializeNode`
unfoldable pub serialize_node : Node → Text
unfolding add_children
serialize_node node = node.hash ++ (comma ∷ node.value ++ add_children node.children)

-- The position of the first comma.
unfoldable pub index : Text → Option ℕ
index [] = none
index (c ∷ cs) =
    let rest = index cs in
    if c == comma then some 0 else elim rest [ none ↦ none | some k ↦ some (suc k) ]

-- `text.find(',', pos)`; `npos` is `none`.
unfoldable pub find_comma : Text → ℕ → Option ℕ
unfolding index
find_comma text pos = elim (index (drop pos text)) [ none ↦ none | some k ↦ some (pos + k) ]

-- `text.substr(pos, next - pos)`; up to the end where `next` is `npos`.
unfoldable pub piece : Text → ℕ → Option ℕ → Text
piece text pos none = drop pos text
piece text pos (some next) = take (next - pos) (drop pos text)

-- `next + 1`, which is 0 for `npos`, the largest `size_t`.
abbrev pub behind : Option ℕ → ℕ
behind none = 0
behind (some next) = next + 1

-- The loop over the children, and the last one after it. Each turn goes past a comma, so fuel above
-- the length of the text is enough.
pub read_children : (fuel : ℕ) → Text → ℕ → List Text
unfolding find_comma piece
read_children zero text pos = []
read_children (suc fuel) text pos = elim (find_comma text pos) [
  | some next ↦ piece text pos (some next) ∷ read_children fuel text (next + 1)
  | none ↦ if ltb pos (length text) then drop pos text ∷ [] else []
]

-- `deserializeNode`
unfoldable pub deserialize_node : Text → Node
unfolding read_children
deserialize_node text =
    let first = find_comma text 0 in
    let second = find_comma text (behind first) in
    record {
      hash = piece text 0 first;
      value = piece text (behind first) second;
      children = read_children (length text + 1) text (behind second);
    }
