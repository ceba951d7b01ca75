-- ===== src/Blocks.antt =====
-- BlockRAFT-distributed_node/blocksDB/blocksDB.h: the blocks in a key-value database, and the name of
-- the latest one.
pub mod Stored
use icsa_artifact.Base.{Bool, true, false, Option, none, some, List, [], ◌∷◌}
use icsa_artifact.Text.{Text, bytes}
use icsa_artifact.GlobalState.{KeyValue, put_unchecked}

abbrev pub latest_key : Text
latest_key = bytes "LatestBlock"

module _ (kv : KeyValue) where
  -- `createGenesisBlock`, of the genesis block that protobuf writes; a failed `assert` is `none`.
  unfoldable pub create_genesis_block : Text → kv.Db → Option kv.Db
  create_genesis_block genesis db = elim (kv.get latest_key db) [
    | some latest ↦ some db
    | none ↦ elim (kv.put (bytes "B0") genesis db) [
      | none ↦ none
      | some db' ↦ kv.put latest_key (bytes "B0") db'
    ]
  ]

  -- `storeBlock`; the status of the first `Put` is not looked at.
  unfoldable pub store_block : Text → Text → kv.Db → Bool × kv.Db
  store_block block_id block_data db =
      let named = put_unchecked kv latest_key block_id db in
      elim (kv.put block_id block_data named) [ none ↦ (false, named) | some db' ↦ (true, db') ]

  -- `storePendingBlock`
  unfoldable pub store_pending_block : Text → Text → kv.Db → Bool × kv.Db
  store_pending_block block_id block_data db = elim (kv.put block_id block_data db) [
    | none ↦ (false, db)
    | some db' ↦ (true, db')
  ]

  -- `getBlock`
  unfoldable pub get_block : Text → kv.Db → Text
  get_block block_id db = elim (kv.get block_id db) [
    | some block_data ↦ block_data
    | none ↦ bytes "error getting block"
  ]

  -- `getLatestBlockNum`
  unfoldable pub get_latest_block_num : kv.Db → Text
  get_latest_block_num db = elim (kv.get latest_key db) [
    | some block_num ↦ block_num
    | none ↦ bytes "error getting block Num"
  ]
