-- ===== src/Tests/StateNodes.antt =====
-- Nodes of the Merkle tree, written and read back.
use icsa_artifact.Base.{◌≡◌, [], ◌∷◌, arith}
use icsa_artifact.Text.{bytes}
use icsa_artifact.StateNode.{Node, serialize_node, deserialize_node}
use icsa_artifact.StateNode.RoundTrip.{deserialize-serialize}

deserialize-serialize_example :
    let node : Node = record {
      value = [];
      hash = bytes "f0";
      children = bytes "a" ∷ bytes "b" ∷ [];
    } in
    deserialize_node (serialize_node node) ≡ node
deserialize-serialize_example =
    deserialize-serialize (bytes "f0") [] (bytes "a") (bytes "b" ∷ [])
      (omega arith, (omega arith, tt)) tt
      ((omega arith, tt), omega arith, ((omega arith, tt), omega arith, tt))
