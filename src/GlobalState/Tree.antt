-- ===== src/GlobalState/Tree.antt =====
-- BlockRAFT-distributed_node/merkleTree/globalState.h, `getCachedNode` and `updateTree`.
pub mod Keep
use icsa_artifact.Base.{
  ℕ, zero, suc, Bool, true, false, Option, none, some, List, [], ◌∷◌, ◌++◌, if◌then◌else◌, length,
  take,
}
use icsa_artifact.Text.{Text, text_eq}
use icsa_artifact.Commerce.{words}
use icsa_artifact.Dag.{contains}
use icsa_artifact.StateNode.{Node, serialize_node}
use icsa_artifact.GlobalState.{KeyValue, put_unchecked, get_node, rehash_root}

-- `nodeCache.find(key)`
unfoldable pub cached : Text → List (Text × Node) → Option Node
cached key [] = none
cached key ((k, node) ∷ cache) = if text_eq k key then some node else cached key cache

-- `visited`, `nodeCache` and the database.
pub record Update (kv : KeyValue) : Type 0 where
  pub visited : List Text
  pub cache : List (Text × Node)
  pub db : kv.Db

module _ (kv : KeyValue) (compute_hash : Text → Text) where
  -- `getCachedNode`
  unfoldable pub get_cached_node : Text → Update kv → Node × Update kv
  unfolding cached get_node
  get_cached_node key u = elim (cached key u.cache) [
    | some node ↦ (node, u)
    | none ↦ (get_node kv key u.db, record u { cache = (key, get_node kv key u.db) ∷ u.cache })
  ]

  -- The loop over the children of a node.
  unfoldable pub cached_hashes : List Text → Update kv → Text × Update kv
  unfolding get_cached_node
  cached_hashes [] u = ([], u)
  cached_hashes (child ∷ children) u =
      let (node, u') = get_cached_node child u in
      let (hashes, u'') = cached_hashes children u' in (node.hash ++ hashes, u'')

  -- The node written with a new hash, if the hash changed.
  unfoldable pub store_hash : Text → Node → Text → Update kv → Update kv
  store_hash key node hash u = if text_eq node.hash hash then u else record u {
    db = put_unchecked kv key (serialize_node (record node { hash = hash })) u.db;
  }

  -- The body of the inner loop of `updateTree`.
  unfoldable pub visit : Text → Update kv → Update kv
  unfolding cached_hashes store_hash
  visit key u =
      let (node, u') = get_cached_node key (record u { visited = key ∷ u.visited }) in
      let (hashes, u'') = cached_hashes node.children u' in
      store_hash key node (compute_hash (hashes ++ node.value)) u''

  -- The inner loop: the prefixes of length `n`, `n - 1`, … up to one that was visited.
  unfoldable pub climb : Text → ℕ → Update kv → Update kv
  unfolding visit contains
  climb key zero u = u
  climb key (suc n) u = elim (contains u.visited (take (suc n) key)) [
    | true ↦ u
    | false ↦ climb key n (visit (take (suc n) key) u)
  ]

  unfoldable pub climb_all : List Text → Update kv → Update kv
  unfolding climb
  climb_all [] u = u
  climb_all (key ∷ keys) u = climb_all keys (climb (compute_hash key) (length (compute_hash key)) u)

  -- `updateTree`, which hashes the root from the database at the end; the cache stays.
  unfoldable pub update_tree : Text → List (Text × Node) → kv.Db → List (Text × Node) × kv.Db
  unfolding climb_all rehash_root
  update_tree keys cache db =
      let u = climb_all (words keys) (record { visited = []; cache = cache; db = db }) in
      (u.cache, rehash_root kv compute_hash u.db)
