-- ===== src/Parallel/Schedule.antt =====
-- singleNode-parallel/scheduler/scheduler.h, `schedulTxns`: the threads, and then the flush.
use icsa_artifact.Base.{
  ℕ, ◌<◌, ◌≡◌, refl, ◌∙◌, Bool, true, Option, some, List, length, if◌then◌else◌,
}
use mathlib.Core.List.{Permᴰ}
use icsa_artifact.Text.{Text}
use icsa_artifact.Contract.{Map, ok, find}
use icsa_artifact.Dag.{DagModule}
use icsa_artifact.Dag.Create.{txn_at}
use icsa_artifact.GlobalState.{KeyValue, get_value}
use icsa_artifact.GlobalState.Insert.{Digest}
use icsa_artifact.GlobalState.Flush.{Keys, Accepting, Apart, expected, insert_into, update_hashes}
use icsa_artifact.Serial.Run.{Transaction}
use icsa_artifact.Serial.Order.{in_order, Families}
use icsa_artifact.Parallel.{Processors, call_at, State, Runs}
use icsa_artifact.Parallel.Block.{edges, headers_of, unnamed}
use icsa_artifact.Parallel.Equal.{alone, all_of}
use icsa_artifact.Parallel.Flush.{flush_map_to_state}
use icsa_artifact.Parallel.Flush.Stores.{threads_flush-stores}
use icsa_artifact.Parallel.Footprint.{Within}
use icsa_artifact.Parallel.Settled.{CanGo, parallel_settles}
use icsa_artifact.Parallel.Threads.{countdown}

-- What `schedulTxns` does after its threads are joined: the map is written if the flag is up, and the
-- flag is the answer.
unfoldable pub conclude :
    {S : Type 0}
    → (insert : Text → Text → S → S) (update_parent_hashes : Text → S → S) (threads : ℕ)
      (order : List ℕ) (s : State) (state : S)
    → Bool × S
unfolding flush_map_to_state
conclude insert update_parent_hashes threads order s state = (
  s.flag,
  if s.flag
      then flush_map_to_state insert update_parent_hashes s.my_map threads order state
      else state,
)

-- A block whose headers parse, to the families given, on the graph that `create` leaves with every
-- one of its threads, of which there is one at least, run once in any order; each call changes only
-- entries of outputs of its header, and goes on by the entries under its addresses; the transactions
-- one after the other all answer `true`; and the threads have come to a state from which there is no
-- step, with a map of different keys in use that have between 1 and 64 bytes. The database takes every
-- `Put`, and the hashes have 64 digits and no comma and differ for different keys in use. Then
-- `schedulTxns`, with every thread of the flush run once in any order, answers `true`, and `getValue`
-- gives for every key in use what the map of the transactions one after the other says of it, up to
-- the first comma, or else what it gave before.
pub schedul_txns-stores :
    (pro : Processors) (parse : Text → Option (List Text × List Text)) (family : Text → Option Text)
    (named : List (Text × Transaction)) (order : List ℕ) (threads : ℕ) (dag : DagModule)
    (m m' : Map)
    → 0 < threads
    → Permᴰ order (countdown threads)
    → Families (alone pro) family named
    → let txns = unnamed named in
      let headers = headers_of txns in
      let adj = edges parse order headers threads dag in
      ((i : ℕ) → Within find (txn_at parse headers i) (call_at pro family txns i))
      → (s : State) → Runs (length headers) adj all_of (call_at pro family txns) m s
      → in_order (alone pro) named m ≡ (ok true, m')
      → ¬ CanGo (length headers) adj s
      → (kv : KeyValue) (compute_hash : Text → Text) (InUse : Text → Type 0) → Digest compute_hash
      → Accepting kv compute_hash
      → Apart kv compute_hash InUse
      → Keys InUse s.my_map
      → (db : kv.Db) (flush_order : List ℕ) → Permᴰ flush_order (countdown threads)
      → let r =
          conclude
            (insert_into kv compute_hash)
            (update_hashes kv compute_hash)
            threads
            flush_order
            s
            (some db) in
        (r.0 ≡ true)
        × ((db' : kv.Db) × (r.1 ≡ some db')
            × ((j : Text)
                → InUse j
                → get_value kv compute_hash j db' ≡ expected kv compute_hash m' j db))
unfolding conclude
schedul_txns-stores pro parse family named order threads dag m m' some_thread each_once parsed w s r
      good stuck kv compute_hash InUse digest accepting apart keys db flush_order flushed_once =
    let (_, up, same) =
      parallel_settles pro parse family named order threads dag find m m' some_thread ∣ each_once ∣₁
        parsed w s r good stuck in
    let (db', runs, values) =
      threads_flush-stores kv compute_hash InUse digest accepting apart s.my_map db keys threads
        flush_order some_thread flushed_once in
    (up, (db', rw up runs, λ j uj. values j uj ∙ rw (expected, same j) refl))
