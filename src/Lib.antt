-- ===== src/Lib.antt =====
-- Verification of BlockRAFT: the smart contracts, the dependency graph of a block, the threads that
-- execute a block on a distributed node, the serial node, and the threads of the parallel node.
--
-- A block is a list of transactions. `DAGmodule` reads the addresses of each transaction and fills
-- a matrix with the conflicts between them, one thread for each range of rows; the scheduler stores
-- an in-degree for each transaction that is assigned to its node, and its threads take transactions
-- whose in-degree is 0, hand them to a contract processor, and decrement the in-degrees of the
-- successors.
--
-- The files (the paths are below BlockRAFT-distributed_node, except for Workers, Serial, Parallel
-- and Queue):
--   Text, Text/Decimal: `std::string` as a list of bytes; `std::to_string(int)`, `std::stoi`.
--   Contract: what smartContracts/*/ share: the
--     `tbb::concurrent_hash_map` of loaded values as an association list (`find`, `put`), calls that
--     may throw (`Outcome`, `M`), `getOrLoadBalance` and `getOrLoadVoteCount` (`load_int`).
--   Wallet: smartContracts/wallet/walletProcessor.h, every operation (`deposit`, `get_balance`,
--     `withdraw`, `transfer`, `process_txn`).
--   Voting: smartContracts/voting/votingProcessor.h, every operation (`register_voter`,
--     `register_candidate`, `transfer_vote`, `cast_vote`, `process_txn`).
--   Commerce: smartContracts/eCommerce/eCommProcessor.h, every operation (`checkout`, `add_to_cart`,
--     `remove_from_cart`, `refill_item`, `process_txn`); `words` is `operator>>` of an `istringstream`.
--   Nft: smartContracts/nft/nftProcessor.h, every operation (`create_nft`, `transfer_nft`,
--     `process_txn`). Nft/Owned has the lists of the owners.
--   Dag: dagModule/DAGmodule.h: `extractTransaction`, `dependencyMatrix`, `create`, `createfollower`,
--     `dagClean`. Dag/Conflict says what a conflict is without loops.
--   Workers: the threads of `executeTxns` with `selectTxn` and `complete` of singleNode-parallel
--     (scheduler/scheduler.h, dagModule/DAGmodule.h), as a step relation: a step for each access to
--     the shared in-degree array or to `completedTxns`.
--     The state adds to each transaction the phase of the thread that took it.
--     Workers/Block joins the steps to the matrix of Dag.
--   Takers: the threads of the distributed node: `selectTxn` with its two loops, `lastTxn` and the
--     variable `var_zero`, and `complete`, of dagModule/DAGmodule.h, a step for each access to an
--     atomic variable, with the place that each thread is at. The second loop does not set
--     `var_zero` back to 0 (Takers/Retake, and the run `unsafe` of Tests/Takers). Takers/Safe compares
--     the runs in which this does no harm with Workers; Takers/Single has the runs of one thread.
--   Scheduler: scheduler/scheduler.h: `columnSum`, `ProcessIndegree`, `CheckForNewComponents`,
--     `ExtractComponents`, `ExtractNewComponents`, `extractBlock`. Scheduler/Start joins it to the
--     initial state of Workers. Scheduler/Wire: `serializeDAG` and `extractDAG`.
--   Components: `connectedComponents` of dagModule/DAGmodule.h: the disjoint-set forest, the loops
--     over the matrix, the groups and the table. Components/Node follows a block from the leader's
--     matrix to the threads of a node.
--   StateNode: `serializeNode` and `deserializeNode` of merkleTree/globalState.h.
--   Serial: singleNode-serial/dagModule/DAGmodule.h (`create`, `select_txn`, `complete`); Serial/Run:
--     singleNode-serial/scheduler/scheduler.h (`execute_txns`, `extract_block`, `schedul_txns`);
--     Serial/Nft: singleNode-serial/smartContracts/nft/nftProcessor.h. Serial/Order has the reference
--     `in_order`, which knows no graph.
--   Parallel: singleNode-parallel/scheduler/scheduler.h: the threads of `executeTxns` around those of
--     Workers: every access of a contract call to the shared map is a step, and so are the answer of
--     a call with `flag.store(false)`. Parallel/Graph: singleNode-parallel/dagModule/DAGmodule.h
--     (`create`, `select_txn`, `complete`). Parallel/Wallet: singleNode-parallel/smartContracts/wallet/
--     walletProcessor.h, and Parallel/Voting: votingProcessor.h beside it, every call as a sequence of
--     accesses. Parallel/Flush: `flushMapToState`; Parallel/Schedule: the end of `schedulTxns`;
--     Parallel/Ready: `clear` and `extractBlock`. Parallel/Apart is about transactions that conflict.
--     Parallel/Footprint says which addresses a call keeps to; Parallel/Ordered, with Access, Claim
--     and Answer, is what every step keeps.
--   GlobalState: merkleTree/globalState.h on a key-value database: `insert`, `get_value`,
--     `update_parent_hashes`, and in GlobalState/Tree `update_tree`. GlobalState/Flush joins it to
--     `flush_map_to_state` of Serial/Run.
--   Queue: singleNode-serial/node/transactionQueue.h (`push`, `pop`). Queue/Fifo has the list that it
--     is compared with.
--   Leader: leader/leader.h: `getActiveFollowers`, `assignFollowers`, a turn of `monitorComponents`
--     (`monitor_turn`, with its uninitialised `flag`), the sum of `checkComponents` (`completed_from`), `fetchAndParseKeys`,
--     `rtrim`. Text/Split has `getline` and `find` with `substr`.
--   Follower: follower/follower.h: `getLargestBlockNumber`, `getBlockStatus`; Follower/Block: `readBlock`,
--     `getComponents`, the parts of `startBlock` before and after the execution, `saveData`.
--   Blocks: blocksDB/blocksDB.h, every operation on an open database.
--   Tests: the theorems at concrete inputs, and runs.
--
-- Conventions. A C++ exception is the outcome `threw`, signed overflow, which is undefined
-- behaviour, is `undefined`. The protobuf and JSON parsers are parameters: `parse_header` says
-- whether a header parses, `parse_payload` gives the string members of a payload, `parse` gives the
-- addresses of a header. `get_value` is `getValue` of the global state. The threads of `create` write
-- different rows, so they run one after the other here, in any order (`order` lists their numbers).
--
-- For the NFT contract the JSON library and the file system are a record of functions (`World`): a
-- JSON text stands for an array of texts, and every other JSON value counts as not parsed. A lock that
-- a call already holds is never given, so taking it again ends the call (`hang`). The four contract
-- processors of a scheduler are the record `Processors`. What the compiler leaves undefined is
-- `none` in Serial (an uninitialised count, an index past the end).
--
-- RocksDB is the record `KeyValue`: `get`, `put` that may be refused, and the law that a value that was
-- put is got. SHA-256 is the function `compute_hash`; what is needed of it are 64 digits without a
-- comma (`Digest`) and, where said, different results for the keys in use. The map is flushed in
-- the order of its list, where the code iterates over a hash map.
--
-- `threadCount` of the distributed scheduler is not initialised when `extractBlock` reads it; the
-- field `thread_count` of Scheduler is whatever number it has then.
--
-- Bounds. `print_digits` runs on fuel, one more than the number printed. The loops of
-- `dependencyMatrix` run on the number of rows and columns that are left. `find` of
-- `connectedComponents` has fuel for one call more than there are pairs of transactions: a call goes
-- to a parent of higher rank, and `unite` raises the ranks by one at most.
-- The loop of the serial `executeTxns` has fuel: more than the number of transactions is enough when
-- the headers parse.
--
-- Simplifications of Workers. A step `claim` may take any transaction with in-degree 0, where
-- `selectTxn` looks at them from index 0 on. In Takers `lastTxn` starts with any number, the flags
-- that end `executeTxns` are left out, so a thread may always go on, and a header may fail to parse
-- at any time (`lose`).
--
-- In Parallel a call of `ProcessTxn` is a tree (`Call`) of accesses to the map, each of them
-- atomic: a load of a balance, which puts it into the map where it is absent, or a store. Any
-- thread may take a step between two accesses of another. A thread may take a transaction after the
-- flag was lowered, as it may have looked at the flag before. Two maps count as the same where they
-- show the same under every name (`Same`). A call that throws, and one whose header does not parse,
-- get no further step: after such a header the threads of the code poll for ever. There is no fuel:
-- the runs are those of a relation. The threads of `flushMapToState` write their ranges one after
-- the other, in any order; interleaved, they can lose children of the tree.
--
-- The leader's choice of followers is any function of the component (`set_followers`).
--
-- What etcd has is a function or a text that the caller gives: a key that cannot be read is `none`. The
-- output of `etcdctl` is a text. The table that the leader changes has as many components as
-- `componentCount`, and sending it to etcd is left out. The calls of the transaction queue come one at a
-- time, and so do the threads of `saveData`.
--
-- Not modelled: the copies and the rebuilding of the global state, the protocols of leader and follower
-- over etcd, HTTP, the file system, the producers, the benchmarks; of singleNode-parallel
-- the HTTP node and the pool.
pub mod Base
pub mod Text
pub mod Contract
pub mod Wallet
pub mod Voting
pub mod Dag
pub mod Workers
pub mod Takers
pub mod Scheduler
pub mod Components
pub mod Commerce
pub mod StateNode
pub mod Nft
pub mod Serial
pub mod Parallel
pub mod GlobalState
pub mod Queue
pub mod Leader
pub mod Follower
pub mod Blocks
pub mod Tests
