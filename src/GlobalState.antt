-- ===== src/GlobalState.antt =====
-- BlockRAFT-distributed_node/merkleTree/globalState.h: the values and the Merkle tree in a key-value
-- database. The files of that name in singleNode-serial and singleNode-parallel are the same.
pub mod Value
pub mod Insert
pub mod Hashes
pub mod Flush
pub mod Tree
use icsa_artifact.Base.{
  ℕ, zero, suc, ◌+◌, ◌-◌, ◌≡◌, Bool, true, false, not, ◌||◌, Option, none, some, List, [], ◌∷◌,
  ◌++◌, if◌then◌else◌, length, take,
}
use icsa_artifact.Text.{Text, bytes, text_eq}
use icsa_artifact.Dag.{contains}
use icsa_artifact.StateNode.{Node, serialize_node, deserialize_node}

-- What the code asks of RocksDB: `Get` (`none`: not found), and `Put` (`none`: refused). The law says
-- that a value that was put is the one that is got, and that no other key changes.
pub record KeyValue : Type 1 where
  pub Db : Type 0
  pub get : Text → Db → Option Text
  pub put : Text → Text → Db → Option Db
  pub get-put :
      (k v j : Text) (db db' : Db)
      → put k v db ≡ some db'
      → get j db' ≡ (if text_eq k j then some v else get j db)

-- The node that a text of the database is; the empty node if there is none.
abbrev pub node_of : Option Text → Node
node_of none = record { value = []; hash = []; children = [] }
node_of (some text) = deserialize_node text

module _ (kv : KeyValue) where
  -- A `Put` whose status the code does not look at.
  abbrev pub put_unchecked : Text → Text → kv.Db → kv.Db
  put_unchecked k v db = elim (kv.put k v db) [ none ↦ db | some db' ↦ db' ]

  -- `getNode`
  unfoldable pub get_node : Text → kv.Db → Node
  get_node key db = node_of (kv.get key db)

  -- `getRootHash`
  pub get_root_hash : kv.Db → Text
  unfolding get_node
  get_root_hash db = (get_node (bytes "rootNode") db).hash

  -- The child added to the node of a key, if it is not there.
  pub add_child : Text → Text → kv.Db → kv.Db
  unfolding get_node contains
  add_child key child db =
      let node = get_node key db in
      if contains node.children child
      then db
      else put_unchecked key
          (serialize_node (record node { children = node.children ++ (child ∷ []) })) db

  -- The loop of `insert`: the prefixes of length `i`, `i + 1`, …, `left` of them, each the parent of
  -- the next.
  pub link_path : Text → (i left : ℕ) → kv.Db → kv.Db
  unfolding add_child
  link_path key_hash i zero db = db
  link_path key_hash i (suc left) db =
      link_path key_hash (suc i) left (add_child (take i key_hash) (take (suc i) key_hash) db)

  -- The hashes of the children, one behind the other.
  pub child_hashes : List Text → kv.Db → Text
  unfolding get_node
  child_hashes [] db = []
  child_hashes (child ∷ children) db = (get_node child db).hash ++ child_hashes children db

module _ (kv : KeyValue) (compute_hash : Text → Text) where
  -- `getValue`
  unfoldable pub get_value : Text → kv.Db → Text
  unfolding get_node
  get_value key db = (get_node kv (compute_hash key) db).value

  -- `insert`
  unfoldable pub insert : Text → Text → kv.Db → Bool × kv.Db
  unfolding link_path add_child
  insert key value db =
      let key_hash = compute_hash key in
      elim (kv.put key_hash
        (serialize_node (record { value = value; hash = compute_hash value; children = [] })) db) [
          | none ↦ (false, db)
          | some db' ↦ (
            true,
            link_path kv key_hash 1 (length key_hash - 1)
                (add_child kv (bytes "rootNode") (take 1 key_hash) db'),
          )
        ]

  -- The body of the loop of `updateParentHashes`.
  pub rehash : Text → kv.Db → kv.Db
  unfolding get_node child_hashes
  rehash key db =
      let node = get_node kv key db in
      let hash = compute_hash (child_hashes kv node.children db ++ node.value) in
      put_unchecked kv key (serialize_node (record node { hash = hash })) db

  -- The loop: the prefixes of length `n`, `n - 1`, …, 1.
  pub rehash_prefixes : Text → ℕ → kv.Db → kv.Db
  unfolding rehash
  rehash_prefixes key zero db = db
  rehash_prefixes key (suc n) db = rehash_prefixes key n (rehash (take (suc n) key) db)

  -- The end of `updateParentHashes`, where the value is not hashed.
  pub rehash_root : kv.Db → kv.Db
  unfolding get_node child_hashes
  rehash_root db =
      let node = get_node kv (bytes "rootNode") db in
      let hash = compute_hash (child_hashes kv node.children db) in
      put_unchecked kv (bytes "rootNode") (serialize_node (record node { hash = hash })) db

  -- `updateParentHashes`; `pop_back` on the empty text is undefined: `none`.
  unfoldable pub update_parent_hashes : Text → kv.Db → Option kv.Db
  unfolding rehash_prefixes rehash_root
  update_parent_hashes [] db = none
  update_parent_hashes (c ∷ cs) db = some (rehash_root (rehash_prefixes (c ∷ cs) (length cs) db))
