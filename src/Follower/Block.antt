-- ===== src/Follower/Block.antt =====
-- BlockRAFT-distributed_node/follower/follower.h: how a follower takes a block and its components from
-- etcd, and the data of the other nodes when the block is committed.
use icsa_artifact.Base.{ℕ, Bool, ◌&&◌, Option, none, some, List, [], ◌∷◌, ◌++◌, ltb, if◌then◌else◌}
use icsa_artifact.Base.Int.{ℤ, pos, negsuc}
use icsa_artifact.Text.{Text, bytes, text_eq}
use icsa_artifact.Text.Decimal.{stoi}
use icsa_artifact.StateNode.{Node}
use icsa_artifact.GlobalState.{KeyValue, insert}
use icsa_artifact.GlobalState.Tree.{update_tree}
use icsa_artifact.Leader.{fetch_all}
use icsa_artifact.Scheduler.{Component, Scheduler, extract_block, extract_components}
use icsa_artifact.Follower.{block_path}

-- The number of a node: `stoi(node_id.substr(1))`; a negative number, which no node has, is taken for
-- an exception.
abbrev pub node_number : Text → Option ℕ
node_number node_id = elim node_id [
  | [] ↦ none
  | c ∷ cs ↦ elim (stoi cs) [ none ↦ none | some id ↦ elim id [ pos n ↦ some n | negsuc n ↦ none ] ]
]

-- The parsers of protobuf: the addresses of a header, the headers of a block, and the components of
-- a table; and the order in which the threads of `createfollower` do their work.
pub record Parsers : Type 0 where
  pub addresses : Text → Option (List Text × List Text)
  pub block : Text → Option (List Text)
  pub table : Text → Option (List Component)
  pub order : List ℕ

module _ (parsers : Parsers) (etcd : Text → Option Text) (node_id : Text) where
  -- `readBlock`; without a block in etcd its text is empty.
  unfoldable pub read_block : Text → Text → ℤ → Scheduler → Text × Scheduler
  read_block leader_id term_no block_num s =
      let text : Text = elim (etcd (block_path leader_id term_no block_num ++ bytes "/block")) [
        | none ↦ []
        | some block_data ↦ block_data
      ] in
      (text, extract_block parsers.addresses parsers.order (parsers.block text) s)

  -- `getComponents`
  unfoldable pub get_components : Text → Text → ℤ → Scheduler → Scheduler
  get_components leader_id term_no block_num s =
      elim (etcd (block_path leader_id term_no block_num ++ bytes "/components")) [
        | none ↦ s
        | some text ↦ elim (node_number node_id) [
          | none ↦ s
          | some n ↦ extract_components (parsers.table text) n s
        ]
      ]

  -- The test of `startBlock` on the number of transactions.
  abbrev pub has_work : Scheduler → Bool
  has_work s = ltb 0 s.dag.total_txns && ltb s.dag.total_txns 10001

  -- `startBlock` up to `executeTransactions`: the text of the block, empty if there is no work, and the
  -- scheduler.
  unfoldable pub prepare_block : Text → Text → ℤ → Scheduler → Text × Scheduler
  unfolding read_block get_components
  prepare_block leader_id term_no block_num s =
      let (text, s') = read_block leader_id term_no block_num s in
      if has_work s' then (text, get_components leader_id term_no block_num s') else ([], s')

-- What `startBlock` does after the execution: keep the data, drop it, or nothing.
pub data Ending : Type 0 where
  saves resets fails : Ending

-- The end of `startBlock`, by the flag of the execution and what etcd has under `/commit`.
unfoldable pub ending : Bool → Text → Ending
ending flag commit = if flag then (if text_eq commit (bytes "1") then saves else resets) else fails

module _ (kv : KeyValue) (compute_hash : Text → Text) where
  -- `saveData`: the pairs of the other nodes go into `state`, their keys update the tree of `tmp`, and
  -- `state` is replaced by `tmp`.
  unfoldable pub save_data : List (Option Text) → List (Text × Node) → (state tmp : kv.Db) → kv.Db
  save_data data' cache state tmp =
      let (keys, state') = fetch_all (λ k v db. (insert kv compute_hash k v db).1) data' state in
      (update_tree kv compute_hash keys cache tmp).1
